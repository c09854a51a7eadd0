-- ===== src/HashSet/OrderedSet/Threads.antt =====
-- The threads that share an ordered set, in any order of their accesses: examples/hash_set/ordered.rs.
use hazptr.Prelude.{update, ℕ, ◌≡◌, ◌≢◌, Bool, false, []}
use hazptr.HashSet.OrderedSet.{
  Order, link, Op, insert_node, remove_node, cleanup, get, success, Pc, load_curr, load_next,
  compare_next, protect_next, check_prev, unlink, store_next, link_node, mark, unlink_marked,
  finished, head,
}
use hazptr.HashSet.OrderedSet.Invariant.{Shared, unused, owned, advance}

pub record Thread (T : Type 0) : Type 0 where
  pub op : Op
  pub value : T
  pub pc : Pc

pub record System (T : Type 0) : Type 0 where
  pub shared : Shared T
  pub threads : ℕ → Thread T

-- A thread makes its next access, or begins a call when it has finished one.
pub data Action (T : Type 0) : Type 0 where
  run : (i : ℕ) (changed : Bool) → Action T
  begin : (i : ℕ) (op : Op) (value : T) → Action T

-- A thread that has finished a call.
abbrev pub IsIdle : Pc → Type 0
IsIdle (load_curr p) = ⊥
IsIdle (load_next p c) = ⊥
IsIdle (compare_next p c raw) = ⊥
IsIdle (protect_next p c) = ⊥
IsIdle (check_prev p c l) = ⊥
IsIdle (unlink p c n) = ⊥
IsIdle (store_next x p n) = ⊥
IsIdle (link_node x p n) = ⊥
IsIdle (mark p c n) = ⊥
IsIdle (unlink_marked p c n) = ⊥
IsIdle (finished a) = Unit {0}

module _ {T : Type 0} where
  -- `Owned::new(Node::new(value))`
  abbrev pub allocate : ℕ → ℕ → T → Shared T → Shared T
  allocate i x value g = record {
    memory = record {
      next = update g.memory.next x (link 0);
      elems = update g.memory.elems x value;
      retired = g.memory.retired;
    };
    status = update g.status x (owned i);
  }

  abbrev pub enter : ℕ → Op → T → Shared T → Shared T
  enter i (insert_node x) value g = allocate i x value g
  enter i remove_node value g = g
  enter i cleanup value g = g
  enter i get value g = g

  -- The step of a thread, and where it gets to.
  abbrev pub ran : Order T → ℕ → Bool → System T → Shared T × Op × Pc
  ran o i changed s =
      advance o changed (s.threads i).op (s.threads i).value s.shared (s.threads i).pc

  unfoldable pub perform : Order T → Action T → System T → System T
  perform o (run i changed) s =
      let r = ran o i changed s in
      record {
        shared = r.0;
        threads = update s.threads i (record { op = r.1; value = (s.threads i).value; pc = r.2 });
      }
  perform o (begin i op value) s = record {
    shared = enter i op value s.shared;
    threads = update s.threads i (record { op = op; value = value; pc = load_curr head });
  }

  -- The allocator gives an address that is not in use; `cleanup` is not a call.
  abbrev pub CanEnter : Op → Shared T → Type 0
  CanEnter (insert_node x) g = (g.status x ≡ unused) × (x ≢ 0)
  CanEnter remove_node g = Unit {0}
  CanEnter cleanup g = ⊥
  CanEnter get g = Unit {0}

  abbrev pub Allowed : Action T → System T → Type 0
  Allowed (run i changed) s = Unit {0}
  Allowed (begin i op value) s = IsIdle (s.threads i).pc × CanEnter op s.shared

  abbrev pub actor : Action T → ℕ
  actor (run i changed) = i
  actor (begin i op value) = i

  -- `OrderedSet::default()`, and threads that have not called anything.
  abbrev pub initial : T → System T
  initial value = record {
    shared = record {
      memory = record { next = λ a. link 0; elems = λ a. value; retired = [] };
      status = λ a. unused;
    };
    threads = λ i. record { op = get; value = value; pc = finished (success false) };
  }

  -- The states of the threads that some order of accesses leads to.
  pub data Reached (o : Order T) : System T → Type 0 where
    start : (value : T) → Reached o (initial value)
    acts : (a : Action T) (s : System T) → Reached o s → Allowed a s → Reached o (perform o a s)
