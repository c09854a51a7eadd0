-- ===== src/Hazard/Threads.antt =====
-- src/hazard/list.rs: several threads acquire hazards from the list, one shared access at a time, in
-- any order. The location of a node's `next` has the node's address, the location of `head` is 0,
-- and a null pointer is 0. Nodes are never deallocated before the list is dropped.
pub mod Invariant
pub mod Accesses
pub mod Apart
pub mod Alone
pub mod Drop
use hazptr.Prelude.{
  update, ℕ, ◌≡◌, ◌≢◌, Bool, true, false, ◌||◌, Option, none, some, ◌==◌, if◌then◌else◌, zero, suc,
}
use hazptr.Hazard.{free}

pub record HazardNodes : Type 0 where
  pub next : ℕ → ℕ
  pub protected : ℕ → ℕ

-- The next shared access of a thread in `get_hazard_for` and `insert_back`.
pub data Pc : Type 0 where
  load_next : (prev : ℕ) → Pc
  load_protected : (node : ℕ) → Pc
  swap_protected : (node : ℕ) → Pc
  append : (tail node : ℕ) → Pc
  idle : Pc

-- What a thread does next, and the hazard that it has got by its last access, if that ended the call.
pub record After : Type 0 where
  pub nodes : HazardNodes
  pub pc : Pc
  pub got : Option ℕ

abbrev pub goes_on : HazardNodes → Pc → After
goes_on m pc = record { nodes = m; pc = pc; got = none }

abbrev pub write_protected : HazardNodes → ℕ → ℕ → HazardNodes
write_protected m node ptr = record m { protected = update m.protected node ptr }

-- The loop of `get_hazard_for`: one look at the node behind `prev`.
abbrev pub look : HazardNodes → ℕ → ℕ → ℕ → After
look m prev address ptr =
    if m.next prev == 0
    then goes_on
        (record { next = update m.next address 0; protected = update m.protected address ptr })
        (append prev address)
    else goes_on m (load_protected (m.next prev))

-- `compare_and_swap(FREE, ptr, order)`
abbrev pub swap : HazardNodes → ℕ → ℕ → After
swap m node ptr =
    if m.protected node == free
    then record { nodes = write_protected m node ptr; pc = idle; got = some node }
    else goes_on m (load_next node)

-- The loop of `insert_back`; the weak compare-and-swap may fail for no reason.
abbrev pub insert_back : Bool → HazardNodes → ℕ → ℕ → After
insert_back spurious m tail node =
    if m.next tail == 0
    then (if spurious then goes_on m (append tail node) else record {
      nodes = record m { next = update m.next tail node };
      pc = idle;
      got = some node;
    })
    else goes_on m (append (m.next tail) node)

-- `address` is what the allocator gives, if the access comes with an allocation.
unfoldable pub step : (spurious : Bool) → (address ptr : ℕ) → HazardNodes → Pc → After
step spurious address ptr m (load_next prev) = look m prev address ptr
step spurious address ptr m (load_protected node) =
    goes_on m (if m.protected node == free then swap_protected node else load_next node)
step spurious address ptr m (swap_protected node) = swap m node ptr
step spurious address ptr m (append tail node) = insert_back spurious m tail node
step spurious address ptr m idle = goes_on m idle

abbrev pub is_idle : Pc → Bool
is_idle (load_next prev) = false
is_idle (load_protected node) = false
is_idle (swap_protected node) = false
is_idle (append tail node) = false
is_idle idle = true

-- A thread that no other thread disturbs goes on until it has a hazard.
unfoldable pub alone : (steps : ℕ) → (address ptr : ℕ) → HazardNodes → Pc → After
unfolding step
alone zero address ptr m pc = goes_on m pc
alone (suc steps) address ptr m pc =
    let r = step false address ptr m pc in
    let rest = alone steps address ptr r.nodes r.pc in if is_idle r.pc then r else rest

-- What has become of an address, which the code does not keep.
pub data Status : Type 0 where
  unused : Status
  made : (thread : ℕ) → Status
  linked : Status

-- The list, and which hazards each thread has got and not given back.
pub record Shared : Type 0 where
  pub nodes : HazardNodes
  pub status : ℕ → Status
  pub has : (thread hazard : ℕ) → Bool

abbrev pub took : ℕ → Option ℕ → (ℕ → ℕ → Bool) → ℕ → ℕ → Bool
took i none has = has
took i (some node) has = update has i (update (has i) node true)

abbrev pub status_after : HazardNodes → ℕ → ℕ → Pc → Option ℕ → (ℕ → Status) → ℕ → Status
status_after m i address (load_next prev) got status =
    if m.next prev == 0 then update status address (made i) else status
status_after m i address (append tail node) (some h) status = update status node linked
status_after m i address (append tail node) none status = status
status_after m i address (load_protected node) got status = status
status_after m i address (swap_protected node) got status = status
status_after m i address idle got status = status

-- A step of thread `i`, with what the code does not keep.
unfoldable pub advance : (i : ℕ) → (spurious : Bool) → (address ptr : ℕ) → Shared → Pc → Shared × Pc
unfolding step
advance i spurious address ptr g pc =
    let r = step spurious address ptr g.nodes pc in
    (
      record {
        nodes = r.nodes;
        status = status_after g.nodes i address pc r.got g.status;
        has = took i r.got g.has;
      },
      r.pc,
    )

pub record Thread : Type 0 where
  pub ptr : ℕ
  pub pc : Pc

pub record System : Type 0 where
  pub shared : Shared
  pub threads : ℕ → Thread

pub data Action : Type 0 where
  run : (i : ℕ) (spurious : Bool) (address : ℕ) → Action
  get_hazard : (i ptr : ℕ) → Action
  set_word : (i hazard word : ℕ) → Action  -- of a hazard that the thread has
  give_back : (i hazard : ℕ) → Action

abbrev pub stored : ℕ → ℕ → Shared → Shared
stored hazard word g = record g { nodes = write_protected g.nodes hazard word }

abbrev pub freed : ℕ → ℕ → Shared → Shared
freed i hazard g = record g {
  nodes = write_protected g.nodes hazard free;
  has = update g.has i (update (g.has i) hazard false);
}

unfoldable pub perform : Action → System → System
perform (run i spurious address) s =
    let t = s.threads i in
    let r = advance i spurious address t.ptr s.shared t.pc in
    record { shared = r.0; threads = update s.threads i (record { ptr = t.ptr; pc = r.1 }) }
perform (get_hazard i ptr) s = record s {
  threads = update s.threads i (record { ptr = ptr; pc = load_next 0 });
}
perform (set_word i hazard word) s = record s { shared = stored hazard word s.shared }
perform (give_back i hazard) s = record s { shared = freed i hazard s.shared }

abbrev pub actor : Action → ℕ
actor (run i spurious address) = i
actor (get_hazard i ptr) = i
actor (set_word i hazard word) = i
actor (give_back i hazard) = i

-- A thread makes one call at a time, for a word that is not `FREE`, and writes to its own hazards; the
-- allocator gives an address that is not in use.
abbrev pub Allowed : Action → System → Type 0
Allowed (run i spurious address) s = (s.shared.status address ≡ unused) × (address ≢ 0)
Allowed (get_hazard i ptr) s = ((s.threads i).pc ≡ idle) × (ptr ≢ free)
Allowed (set_word i hazard word) s = (s.shared.has i hazard ≡ true) × (word ≢ free)
Allowed (give_back i hazard) s = s.shared.has i hazard ≡ true

abbrev pub initial : System
initial = record {
  shared = record {
    nodes = record { next = λ a. 0; protected = λ a. free };
    status = λ a. unused;
    has = λ i h. false;
  };
  threads = λ i. record { ptr = free; pc = idle };
}

pub data Reached : System → Type 0 where
  start : Reached initial
  acts : (a : Action) (s : System) → Reached s → Allowed a s → Reached (perform a s)
