-- ===== src/Rewrite/HazardList/Threads.antt =====
-- hazptr_rewrite/src/hazard/list.rs: several threads acquire hazards from the list, one shared access at
-- a time, in any order. The location of a node's `next` has the node's address, the location of `head`
-- is 0, and a null pointer is 0. A hazard is a node's address and an index in the node. Nodes are never
-- deallocated before the list is dropped, but for one that turns out not to be needed, whose address
-- the allocator may give again.
pub mod Invariant
pub mod Accesses
pub mod Acquiring
pub mod Appending
pub mod Steps
pub mod Owners
pub mod Apart
pub mod Growing
pub mod Scan
pub mod Ahead
pub mod Collected
pub mod Drop
use hazptr.Prelude.{
  update, ℕ, suc, ◌+◌, ◌<◌, ◌≡◌, ◌≢◌, Bool, true, false, ◌&&◌, ◌||◌, Option, none, some, ◌==◌,
  if◌then◌else◌,
}
use hazptr.Rewrite.Hazard.{free, not_yet_used}
use hazptr.Rewrite.HazardList.{elements}

pub record HazardNodes : Type 0 where
  pub next : ℕ → ℕ
  pub words : (node idx : ℕ) → ℕ

-- The next shared access of a thread. In `try_insert_in_node`, `own` is the node that `insert_back` has
-- allocated, if the call comes from there.
pub data Pc : Type 0 where
  load_next : (prev : ℕ) → Pc
  load_word : (own : Option ℕ) (node idx : ℕ) → Pc
  exchange_word : (own : Option ℕ) (node idx current : ℕ) → Pc
  append : (tail own : ℕ) → Pc
  idle : Pc

-- What a thread does next, and the hazard that it has got by its last access, if that ended the call.
pub record After : Type 0 where
  pub nodes : HazardNodes
  pub pc : Pc
  pub got : Option (ℕ × ℕ)

abbrev pub goes_on : HazardNodes → Pc → After
goes_on m pc = record { nodes = m; pc = pc; got = none }

abbrev pub is_available : ℕ → Bool
is_available word = word == free || word == not_yet_used

abbrev pub store_word : HazardNodes → (node idx word : ℕ) → HazardNodes
store_word m node idx word = record m {
  words = λ a k. if (node == a) && (idx == k) then word else m.words a k;
}

-- `HazardArrayNode::new`
abbrev pub new_node : HazardNodes → (address protected : ℕ) → HazardNodes
new_node m address protected = record {
  next = update m.next address 0;
  words = λ a k. if address == a then (if k == 0 then protected else not_yet_used) else m.words a k;
}

-- Where the loop over a node's elements has ended: on to the next node, or to the next attempt to append.
abbrev pub out_of : Option ℕ → ℕ → Pc
out_of none node = load_next node
out_of (some own) node = append node own

-- The next element of the node.
abbrev pub next_element : Option ℕ → (node idx : ℕ) → Pc
next_element own node idx =
    if suc idx == elements then out_of own node else load_word own node (suc idx)

-- The loop of `get_or_insert_unchecked`, with the node that `insert_back` allocates.
abbrev pub look : HazardNodes → (prev address protected : ℕ) → After
look m prev address protected =
    if m.next prev == 0
    then goes_on (new_node m address protected) (append prev address)
    else goes_on m (load_word none (m.next prev) 0)

-- The access of `try_insert_in_node` that acquires a hazard.
abbrev pub exchange : HazardNodes → Option ℕ → (node idx current protected : ℕ) → After
exchange m own node idx current protected =
    if m.words node idx == current
    then record { nodes = store_word m node idx protected; pc = idle; got = some (node, idx) }
    else goes_on m (next_element own node idx)

-- The loop of `insert_back`.
abbrev pub insert_back : HazardNodes → (tail own : ℕ) → After
insert_back m tail own =
    if m.next tail == 0
    then record {
      nodes = record m { next = update m.next tail own };
      pc = idle;
      got = some (own, 0);
    }
    else goes_on m (load_word (some own) (m.next tail) 0)

-- `address` is what the allocator gives, if the access comes with an allocation.
unfoldable pub step : (address protected : ℕ) → HazardNodes → Pc → After
step address protected m (load_next prev) = look m prev address protected
step address protected m (load_word own node idx) = goes_on m (
    if is_available (m.words node idx)
    then exchange_word own node idx (m.words node idx)
    else next_element own node idx)
step address protected m (exchange_word own node idx current) =
    exchange m own node idx current protected
step address protected m (append tail own) = insert_back m tail own
step address protected m idle = goes_on m idle

-- What has become of an address, which the code does not keep.
pub data Status : Type 0 where
  unused : Status
  made : (thread : ℕ) → Status
  linked : Status

-- The list, and which hazards each thread has got and not given back.
pub record Shared : Type 0 where
  pub nodes : HazardNodes
  pub status : ℕ → Status
  pub has : (thread node idx : ℕ) → Bool

abbrev pub set_has : Bool → (i node idx : ℕ) → (ℕ → ℕ → ℕ → Bool) → ℕ → ℕ → ℕ → Bool
set_has b i node idx has j a k = if (i == j) && ((node == a) && (idx == k)) then b else has j a k

abbrev pub took : ℕ → Option (ℕ × ℕ) → (ℕ → ℕ → ℕ → Bool) → ℕ → ℕ → ℕ → Bool
took i none has = has
took i (some (node, idx)) has = set_has true i node idx has

-- `Box::from_raw(node)`
abbrev pub deallocated : Option ℕ → (ℕ → Status) → ℕ → Status
deallocated none status = status
deallocated (some own) status = update status own unused

abbrev pub status_after : HazardNodes → (i address : ℕ) → Pc → (ℕ → Status) → ℕ → Status
status_after m i address (load_next prev) status =
    if m.next prev == 0 then update status address (made i) else status
status_after m i address (load_word own node idx) status = status
status_after m i address (exchange_word own node idx current) status =
    if m.words node idx == current then deallocated own status else status
status_after m i address (append tail own) status =
    if m.next tail == 0 then update status own linked else status
status_after m i address idle status = status

-- A step of thread `i`, with what the code does not keep.
unfoldable pub advance : (i address protected : ℕ) → Shared → Pc → Shared × Pc
unfolding step
advance i address protected g pc =
    let r = step address protected g.nodes pc in
    (
      record {
        nodes = r.nodes;
        status = status_after g.nodes i address pc g.status;
        has = took i r.got g.has;
      },
      r.pc,
    )

pub record Thread : Type 0 where
  pub protected : ℕ
  pub pc : Pc

pub record System : Type 0 where
  pub shared : Shared
  pub threads : ℕ → Thread

pub data Action : Type 0 where
  run : (i address : ℕ) → Action
  get_or_insert : (i protected : ℕ) → Action
  set_word : (i node idx word : ℕ) → Action  -- of a hazard that the thread has
  give_back : (i node idx : ℕ) → Action

abbrev pub stored : (node idx word : ℕ) → Shared → Shared
stored node idx word g = record g { nodes = store_word g.nodes node idx word }

abbrev pub freed : (i node idx : ℕ) → Shared → Shared
freed i node idx g = record g {
  nodes = store_word g.nodes node idx free;
  has = set_has false i node idx g.has;
}

unfoldable pub perform : Action → System → System
perform (run i address) s =
    let t = s.threads i in
    let r = advance i address t.protected s.shared t.pc in
    record {
      shared = r.0;
      threads = update s.threads i (record { protected = t.protected; pc = r.1 });
    }
perform (get_or_insert i protected) s = record s {
  threads = update s.threads i (record { protected = protected; pc = load_next 0 });
}
perform (set_word i node idx word) s = record s { shared = stored node idx word s.shared }
perform (give_back i node idx) s = record s { shared = freed i node idx s.shared }

abbrev pub actor : Action → ℕ
actor (run i address) = i
actor (get_or_insert i protected) = i
actor (set_word i node idx word) = i
actor (give_back i node idx) = i

-- A thread makes one call at a time, for a word that leaves no hazard available, and writes to its own
-- hazards; the allocator gives an address that is not in use.
abbrev pub Allowed : Action → System → Type 0
Allowed (run i address) s = (s.shared.status address ≡ unused) × (address ≢ 0)
Allowed (get_or_insert i protected) s = ((s.threads i).pc ≡ idle) × (is_available protected ≡ false)
Allowed (set_word i node idx word) s =
    (s.shared.has i node idx ≡ true) × (is_available word ≡ false)
Allowed (give_back i node idx) s = s.shared.has i node idx ≡ true

-- `HazardList::new()`
abbrev pub initial : System
initial = record {
  shared = record {
    nodes = record { next = λ a. 0; words = λ a k. not_yet_used };
    status = λ a. unused;
    has = λ i a k. false;
  };
  threads = λ i. record { protected = free; pc = idle };
}

pub data Reached : System → Type 0 where
  start : Reached initial
  acts : (a : Action) (s : System) → Reached s → Allowed a s → Reached (perform a s)
