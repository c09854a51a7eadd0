-- ===== src/Rewrite/Queue/Threads.antt =====
-- hazptr_rewrite/src/queue.rs: several threads share a queue of nodes in memory, one shared access at a
-- time, in any order. A node is its address, null is 0, and location 0 of `next` is `head`.
use hazptr.Std.Linked.{IsDistinct}
use hazptr.Prelude.{
  update, ℕ, ◌≡◌, ◌≢◌, Bool, true, false, List, [], ◌∷◌, ◌==◌, if◌then◌else◌, elem,
}

abbrev pub first : List ℕ → ℕ
first [] = 0
first (a ∷ l) = a

abbrev pub last : List ℕ → ℕ
last [] = 0
last (a ∷ []) = a
last (a ∷ b ∷ l) = last (b ∷ l)

-- The next access of a thread in `push` and `push_many`; the store of `set_next` is private.
pub data Pc : Type 0 where
  load_head : Pc
  set_next : (head : ℕ) → Pc
  exchange : (head : ℕ) → Pc
  idle : Pc

abbrev pub is_idle : Pc → Bool
is_idle load_head = false
is_idle (set_next head) = false
is_idle (exchange head) = false
is_idle idle = true

-- One access for the nodes from the first to the last; the weak compare-and-swap may fail for no reason.
unfoldable pub push_many : (spurious : Bool) → List ℕ → (ℕ → ℕ) → Pc → (ℕ → ℕ) × Pc
push_many spurious nodes next load_head = (next, set_next (next 0))
push_many spurious nodes next (set_next head) = (update next (last nodes) head, exchange head)
push_many spurious nodes next (exchange head) =
    if next 0 == head
    then (if spurious then (next, load_head) else (update next 0 (first nodes), idle))
    else (next, load_head)
push_many spurious nodes next idle = (next, idle)

-- The pointer to the first of the nodes that are taken, and the queue after.
unfoldable pub take_all : (ℕ → ℕ) → ℕ × (ℕ → ℕ)
take_all next = (next 0, update next 0 0)

-- Whose a node is, which the code does not keep.
pub data Owner : Type 0 where
  queue : Owner
  thread : (i : ℕ) → Owner

pub record Thread : Type 0 where
  pub nodes : List ℕ
  pub pc : Pc

pub record System : Type 0 where
  pub next : ℕ → ℕ
  pub owner : ℕ → Owner
  pub threads : ℕ → Thread

-- `push` is `push_many` of one node. A thread writes to the nodes that are its own.
pub data Action : Type 0 where
  run : (i : ℕ) (spurious : Bool) → Action
  push_nodes : (i : ℕ) (nodes : List ℕ) → Action
  take_nodes : (i : ℕ) → Action
  link : (i node target : ℕ) → Action

-- The nodes are linked from the first to the last.
abbrev pub IsPath : (ℕ → ℕ) → List ℕ → Type 0
IsPath next [] = Unit {0}
IsPath next (a ∷ []) = Unit {0}
IsPath next (a ∷ b ∷ l) = (next a ≡ b) × IsPath next (b ∷ l)

abbrev pub hand_over : ℕ → Owner → Owner
hand_over i queue = thread i
hand_over i (thread j) = thread j

abbrev pub place : List ℕ → Owner → (ℕ → Owner) → ℕ → Owner
place nodes to owner a = if elem a nodes then to else owner a

abbrev pub owner_after : Bool → List ℕ → (ℕ → ℕ) → Pc → (ℕ → Owner) → ℕ → Owner
owner_after spurious nodes next load_head owner = owner
owner_after spurious nodes next (set_next head) owner = owner
owner_after spurious nodes next (exchange head) owner =
    if next 0 == head then (if spurious then owner else place nodes queue owner) else owner
owner_after spurious nodes next idle owner = owner

abbrev pub set_thread : ℕ → Thread → (ℕ → Thread) → ℕ → Thread
set_thread i t threads j = if i == j then t else threads j

unfoldable pub perform : Action → System → System
unfolding push_many take_all
perform (run i spurious) s =
    let t = s.threads i in
    let r = push_many spurious t.nodes s.next t.pc in
    record {
      next = r.0;
      owner = owner_after spurious t.nodes s.next t.pc s.owner;
      threads = set_thread i (record { nodes = t.nodes; pc = r.1 }) s.threads;
    }
perform (push_nodes i nodes) s = record s {
  threads = set_thread i (record { nodes = nodes; pc = load_head }) s.threads;
}
perform (take_nodes i) s = record s {
  next = (take_all s.next).1;
  owner = λ a. hand_over i (s.owner a);
}
perform (link i node target) s = record s { next = update s.next node target }

-- A thread makes one call at a time, and pushes, or links, nodes of its own.
abbrev pub Allowed : Action → System → Type 0
Allowed (run i spurious) s = Unit {0}
Allowed (push_nodes i nodes) s =
    ((s.threads i).pc ≡ idle)
    × (nodes ≢ [])
    × IsPath s.next nodes
    × IsDistinct nodes
    × ((a : ℕ) → elem a nodes ≡ true → (s.owner a ≡ thread i) × (a ≢ 0))
Allowed (take_nodes i) s = (s.threads i).pc ≡ idle
Allowed (link i node target) s = ((s.threads i).pc ≡ idle) × (s.owner node ≡ thread i) × (node ≢ 0)

-- An empty queue, `RawQueue::new()`, and nodes that the threads own.
abbrev pub initial : (ℕ → ℕ) → System
initial owners = record {
  next = λ a. 0;
  owner = λ a. thread (owners a);
  threads = λ i. record { nodes = []; pc = idle };
}

pub data Reached : System → Type 0 where
  start : (owners : ℕ → ℕ) → Reached (initial owners)
  acts : (a : Action) (s : System) → Reached s → Allowed a s → Reached (perform a s)
