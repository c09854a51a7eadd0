-- ===== src/Treiber/Threads.antt =====
-- examples/treiber/stack.rs: several threads share a stack, one shared access at a time, in any order.
-- A pointer is an address, and null is 0; location 0 of `next` is `head`. A protected load is the access
-- at its last, validated load. The allocator may give the address of a node again once it has been
-- reclaimed, and a node is reclaimed only while no guard protects it.
pub mod Invariant
pub mod Spec
pub mod Effects
pub mod Accesses
pub mod Simulation
pub mod Refines
pub mod Alone
use hazptr.Prelude.{
  update, ℕ, ◌≡◌, ◌≢◌, Bool, true, false, not, ◌&&◌, Option, none, some, List, [], ◌∷◌, ◌==◌,
  if◌then◌else◌,
}

pub record Memory (T : Type 0) : Type 0 where
  pub next : ℕ → ℕ
  pub elems : ℕ → T

pub data Answer (T : Type 0) : Type 0 where
  pushed : Answer T
  popped : Option T → Answer T

-- The next access of a thread.
pub data Pc (T : Type 0) : Type 0 where
  ready : Pc T
  -- in `push`
  push_load : (node : ℕ) → Pc T
  push_store : (node head : ℕ) → Pc T
  push_exchange : (node head : ℕ) → Pc T
  -- in `pop`
  pop_load : Pc T
  pop_next : (head : ℕ) → Pc T
  pop_exchange : (head next : ℕ) → Pc T
  pop_read : (unlinked : ℕ) → Pc T
  pop_retire : (unlinked : ℕ) (res : T) → Pc T
  finished : Answer T → Pc T

module _ {T : Type 0} where
  abbrev pub write : Memory T → ℕ → ℕ → Memory T
  write m a p = record m { next = update m.next a p }

  -- `compare_exchange_weak(expected, ..)` of the head; `spurious` is a failure for no reason.
  abbrev pub succeeds : Bool → Memory T → ℕ → Bool
  succeeds spurious m expected = (m.next 0 == expected) && not spurious

  -- An access of the loop of `push`.
  abbrev pub exchange_push : Bool → Memory T → (node head : ℕ) → Memory T × Pc T
  exchange_push spurious m node head =
      if succeeds spurious m head then (write m 0 node, finished pushed) else (m, push_load node)

  -- An access of the loop of `pop`.
  abbrev pub exchange_pop : Bool → Memory T → (head next : ℕ) → Memory T × Pc T
  exchange_pop spurious m head next =
      if succeeds spurious m head then (write m 0 next, pop_read head) else (m, pop_load)

  unfoldable pub step : (spurious : Bool) → Memory T → Pc T → Memory T × Pc T
  step spurious m ready = (m, ready)
  step spurious m (push_load node) = (m, push_store node (m.next 0))
  step spurious m (push_store node head) = (write m node head, push_exchange node head)
  step spurious m (push_exchange node head) = exchange_push spurious m node head
  step spurious m pop_load =
      (m, if m.next 0 == 0 then finished (popped none) else pop_next (m.next 0))
  step spurious m (pop_next head) = (m, pop_exchange head (m.next head))
  step spurious m (pop_exchange head next) = exchange_pop spurious m head next
  step spurious m (pop_read unlinked) = (m, pop_retire unlinked (m.elems unlinked))
  step spurious m (pop_retire unlinked res) = (m, finished (popped (some res)))
  step spurious m (finished a) = (m, finished a)

-- What has become of an address, which the code does not keep.
pub data Status : Type 0 where
  unused : Status
  owned : (thread : ℕ) → Status  -- a new node, not yet in the stack
  inside : Status
  taken : (thread : ℕ) → Status  -- unlinked, not yet retired
  retired : Status

pub record Shared (T : Type 0) : Type 0 where
  pub memory : Memory T
  pub status : ℕ → Status

pub record System (T : Type 0) : Type 0 where
  pub shared : Shared T
  pub pc : ℕ → Pc T

pub data Action (T : Type 0) : Type 0 where
  run : (i : ℕ) (spurious : Bool) → Action T
  push : (i node : ℕ) (elem : T) → Action T
  pop : (i : ℕ) → Action T
  reclaim : (node : ℕ) → Action T

module _ {T : Type 0} where
  abbrev pub status_after : ℕ → Bool → Memory T → Pc T → (ℕ → Status) → ℕ → Status
  status_after i spurious m (push_exchange node head) status =
      if succeeds spurious m head then update status node inside else status
  status_after i spurious m (pop_exchange head next) status =
      if succeeds spurious m head then update status head (taken i) else status
  status_after i spurious m (pop_retire unlinked res) status = update status unlinked retired
  status_after i spurious m ready status = status
  status_after i spurious m (push_load node) status = status
  status_after i spurious m (push_store node head) status = status
  status_after i spurious m pop_load status = status
  status_after i spurious m (pop_next head) status = status
  status_after i spurious m (pop_read unlinked) status = status
  status_after i spurious m (finished a) status = status

  -- A step of thread `i`, with what the code does not keep.
  unfoldable pub advance : ℕ → Bool → Shared T → Pc T → Shared T × Pc T
  unfolding step
  advance i spurious g pc =
      let r = step spurious g.memory pc in
      (record { memory = r.0; status = status_after i spurious g.memory pc g.status }, r.1)

  -- `Owned::new(Node::new(elem))`
  abbrev pub allocate : ℕ → ℕ → T → Shared T → Shared T
  allocate i node elem g = record {
    memory = record { next = update g.memory.next node 0; elems = update g.memory.elems node elem };
    status = update g.status node (owned i);
  }

  unfoldable pub perform : Action T → System T → System T
  perform (run i spurious) s =
      let r = advance i spurious s.shared (s.pc i) in
      record { shared = r.0; pc = update s.pc i r.1 }
  perform (push i node elem) s = record {
    shared = allocate i node elem s.shared;
    pc = update s.pc i (push_load node);
  }
  perform (pop i) s = record s { pc = update s.pc i pop_load }
  perform (reclaim node) s = record s {
    shared = record (s.shared) { status = update s.shared.status node unused };
  }

  -- The guard of a call protects what it has loaded from the head.
  abbrev pub protects : Pc T → ℕ → Bool
  protects ready a = false
  protects (push_load node) a = false
  protects (push_store node head) a = head == a
  protects (push_exchange node head) a = head == a
  protects pop_load a = false
  protects (pop_next head) a = head == a
  protects (pop_exchange head next) a = head == a
  protects (pop_read unlinked) a = unlinked == a
  protects (pop_retire unlinked res) a = unlinked == a
  protects (finished answer) a = false

  abbrev pub IsIdle : Pc T → Type 0
  IsIdle ready = Unit {0}
  IsIdle (push_load node) = ⊥
  IsIdle (push_store node head) = ⊥
  IsIdle (push_exchange node head) = ⊥
  IsIdle pop_load = ⊥
  IsIdle (pop_next head) = ⊥
  IsIdle (pop_exchange head next) = ⊥
  IsIdle (pop_read unlinked) = ⊥
  IsIdle (pop_retire unlinked res) = ⊥
  IsIdle (finished answer) = Unit {0}

  abbrev pub Allowed : Action T → System T → Type 0
  Allowed (run i spurious) s = Unit {0}
  Allowed (push i node elem) s = IsIdle (s.pc i) × (s.shared.status node ≡ unused) × (node ≢ 0)
  Allowed (pop i) s = IsIdle (s.pc i)
  Allowed (reclaim node) s =
      (s.shared.status node ≡ retired) × ((i : ℕ) → protects (s.pc i) node ≡ false)

  -- `Stack::new()`
  abbrev pub initial : T → System T
  initial blank = record {
    shared = record { memory = record { next = λ a. 0; elems = λ a. blank }; status = λ a. unused };
    pc = λ i. ready;
  }

  pub data Reached : System T → Type 0 where
    start : (blank : T) → Reached (initial blank)
    acts : (a : Action T) (s : System T) → Reached s → Allowed a s → Reached (perform a s)
