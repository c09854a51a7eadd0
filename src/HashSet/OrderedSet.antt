-- ===== src/HashSet/OrderedSet.antt =====
-- examples/hash_set/ordered.rs: the ordered set that threads share, one shared access at a time.
-- A pointer is an address, and null is 0; the location of a node's `next` has the node's address,
-- and the location of `head` is 0. A protected load is the access at its last, validated load. No
-- address is used twice: what a thread may still read is protected from reclamation.
pub mod Chain
pub mod Invariant
pub mod Sorted
pub mod Writes
pub mod Unlinking
pub mod Linking
pub mod Effects
pub mod Steps
pub mod Accesses
pub mod Commits
pub mod Threads
pub mod Allocating
pub mod Reached
pub mod Calls
pub mod Sees
pub mod Looks
pub mod Answers
pub mod Meanwhile
pub mod Began
pub mod Linear
pub mod Retiring
use hazptr.Prelude.{
  update, ℕ, ◌≡◌, Bool, true, false, not, ◌&&◌, Option, none, some, List, [], ◌∷◌, ◌==◌,
  if◌then◌else◌, Ordering, zero, suc,
}

-- `Ord`, with what its documentation asks of an implementation.
pub record Order (T : Type 0) : Type 0 where
  pub cmp : T → T → Ordering
  pub cmp_refl : (a : T) → cmp a a ≡ Ordering.eq
  pub cmp_gt : (a b : T) → cmp a b ≡ Ordering.gt → cmp b a ≡ Ordering.lt
  pub cmp_eq : (a b : T) → cmp a b ≡ Ordering.eq → cmp b a ≡ Ordering.eq
  pub cmp_lt : (a b : T) → cmp a b ≡ Ordering.lt → cmp b a ≡ Ordering.gt
  pub cmp_trans :
      (a b c : T) → cmp a b ≡ Ordering.lt → cmp b c ≡ Ordering.lt → cmp a c ≡ Ordering.lt
  pub cmp_congr : (a b c : T) → cmp a b ≡ Ordering.eq → cmp a c ≡ cmp b c

-- A pointer with its `DELETE_TAG`.
pub record Link : Type 0 where
  pub ptr : ℕ
  pub deleted : Bool

abbrev pub link : ℕ → Link
link p = record { ptr = p; deleted = false }

abbrev pub marked : ℕ → Link
marked p = record { ptr = p; deleted = true }

-- `==` of raw pointers, which compares the tags too.
abbrev pub same_link : Link → Link → Bool
same_link a b = a.ptr == b.ptr && (if a.deleted then b.deleted else not b.deleted)

pub record Memory (T : Type 0) : Type 0 where
  pub next : ℕ → Link
  pub elems : ℕ → T
  pub retired : List ℕ  -- the nodes handed to `retire`, the last one first

pub data FindResult : Type 0 where
  found : (prev curr next : ℕ) → FindResult
  insert : (prev next : ℕ) → FindResult

-- What a thread is in the middle of; `cleanup` is the `find` at the end of `remove_node`.
pub data Op : Type 0 where
  insert_node : (node : ℕ) → Op
  remove_node : Op
  cleanup : Op
  get : Op

pub data Answer : Type 0 where
  success : Bool → Answer
  element : Option ℕ → Answer  -- the node of the element

-- The next shared access of a thread.
pub data Pc : Type 0 where
  -- in `find`
  load_curr : (prev : ℕ) → Pc
  load_next : (prev curr : ℕ) → Pc
  compare_next : (prev curr : ℕ) → (next_raw : Link) → Pc
  protect_next : (prev curr : ℕ) → Pc
  check_prev : (prev curr : ℕ) → (next_marked : Link) → Pc
  unlink : (prev curr next : ℕ) → Pc
  -- in `insert_node`
  store_next : (node prev next : ℕ) → Pc
  link_node : (node prev next : ℕ) → Pc
  -- in `remove_node`
  mark : (prev curr next : ℕ) → Pc
  unlink_marked : (prev curr next : ℕ) → Pc
  finished : Answer → Pc

-- The location that `continue 'retry` starts from.
abbrev pub head : ℕ
head = 0

-- What an operation makes of the result of its `find`.
abbrev pub resolve : Op → FindResult → Pc
resolve (insert_node node) (found prev curr next) = finished (success false)
resolve (insert_node node) (insert prev next) = store_next node prev next
resolve remove_node (found prev curr next) = mark prev curr next
resolve remove_node (insert prev next) = finished (success false)
resolve cleanup r = finished (success true)
resolve get (found prev curr next) = finished (element (some curr))
resolve get (insert prev next) = finished (element none)

module _ {T : Type 0} where
  abbrev pub write : Memory T → ℕ → Link → Memory T
  write m p l = record m { next = update m.next p l }

  -- `unlinked.retire()`
  abbrev pub retire : Memory T → ℕ → Memory T
  retire m curr = record m { retired = curr ∷ m.retired }

  -- `compare_exchange` at the location `p`.
  abbrev pub succeeds : Memory T → ℕ → Link → Bool
  succeeds m p expected = same_link (m.next p) expected

  -- The end of the round in `find`, after the comparison of `prev`.
  abbrev pub visit : Order T → Op → T → Memory T → (prev curr : ℕ) → Link → Pc
  visit o op value m prev curr next =
      if next.deleted then unlink prev curr next.ptr else (elim (o.cmp (m.elems curr) value) [
        | Ordering.eq ↦ resolve op (found prev curr next.ptr)
        | Ordering.gt ↦ resolve op (insert prev curr)
        | Ordering.lt ↦ load_curr curr
      ])

  -- `compare_exchange(next, node, ..)` of `insert_node`, and what follows from its result.
  abbrev pub link_or_retry : Op → Memory T → (node prev next : ℕ) → Memory T × Op × Pc
  link_or_retry op m node prev next =
      if succeeds m prev (link next)
      then (write m prev (link node), op, finished (success true))
      else (m, op, load_curr head)

  -- The same for the first one of `remove_node`, which marks the node ...
  abbrev pub mark_or_retry : Op → Memory T → (prev curr next : ℕ) → Memory T × Op × Pc
  mark_or_retry op m prev curr next =
      if succeeds m curr (link next)
      then (write m curr (marked next), op, unlink_marked prev curr next)
      else (m, op, load_curr head)

  -- ... and for the second one, which unlinks it.
  abbrev pub unlink_or_find : Op → Memory T → (prev curr next : ℕ) → Memory T × Op × Pc
  unlink_or_find op m prev curr next =
      if succeeds m prev (link curr)
      then (retire (write m prev (link next)) curr, op, finished (success true))
      else (m, cleanup, load_curr head)

  -- `changed`: the atomic changes between the last two loads of `load_marked_if_equal`.
  unfoldable pub step : Order T → (changed : Bool) → Op → T → Memory T → Pc → Memory T × Op × Pc
  step o changed op value m (load_curr prev) = (
    m,
    op,
    (if (m.next prev).ptr == 0
        then resolve op (insert prev 0)
        else if (m.next prev).deleted
        then load_curr head
        else load_next prev (m.next prev).ptr),
  )
  step o changed op value m (load_next prev curr) = (m, op, compare_next prev curr (m.next curr))
  step o changed op value m (compare_next prev curr next_raw) =
      (m, op, if same_link (m.next curr) next_raw then protect_next prev curr else load_curr head)
  step o changed op value m (protect_next prev curr) = (
    m,
    op,
    (if (m.next curr).ptr == 0
        then check_prev prev curr (m.next curr)
        else if changed
        then load_curr head
        else check_prev prev curr (m.next curr)),
  )
  step o changed op value m (check_prev prev curr next_marked) = (
    m,
    op,
    (if same_link (m.next prev) (link curr)
        then visit o op value m prev curr next_marked
        else load_curr head),
  )
  step o changed op value m (unlink prev curr next) =
      if succeeds m prev (link curr)
      then (retire (write m prev (link next)) curr, op, load_curr prev)
      else (m, op, load_curr head)
  step o changed op value m (store_next node prev next) =
      (write m node (link next), op, link_node node prev next)
  step o changed op value m (link_node node prev next) = link_or_retry op m node prev next
  step o changed op value m (mark prev curr next) = mark_or_retry op m prev curr next
  step o changed op value m (unlink_marked prev curr next) = unlink_or_find op m prev curr next
  step o changed op value m (finished a) = (m, op, finished a)

-- `drop`, given a number of steps: the nodes that it deallocates, in order.
unfoldable pub drop : ℕ → (ℕ → Link) → (node : ℕ) → Option (List ℕ)
drop zero next node = if node == 0 then some [] else none
drop (suc steps) next node =
    let rest = drop steps next (next node).ptr in
    if node == 0 then some [] else (elim rest [ none ↦ none | some nodes ↦ some (node ∷ nodes) ])
