-- ===== src/Retired.antt =====
-- src/retired.rs: bags of retired records, and the stack of abandoned bags. A leaked bag is owned by
-- the one pointer to it, so the chain of `next` pointers is a list; a push or a take that runs
-- undisturbed succeeds in its first round, and Threads is about those that do not.
pub mod Merge
pub mod Threads
use hazptr.Prelude.{
  ℕ, ◌-◌, Option, none, some, List, [], ◌++◌, compare, Ordering, ltb, if◌then◌else◌,
}
use hazptr.Std.Vec.{Vec, with_capacity, len, append}

-- `Option<NonNull<RetiredBag>>`, with the bag that the pointer leads to.
pub data Link (R : Type 0) : Type 0 where
  null : Link R
  non_null : (inner : Vec R) → (next : Link R) → Link R

pub record RetiredBag (R : Type 0) : Type 0 where
  pub inner : Vec R
  pub next : Link R

pub record AbandonedBags (R : Type 0) : Type 0 where
  pub head : Link R

module _ {R : Type 0} where
  -- `RetiredBag::new`
  abbrev pub new : ℕ → RetiredBag R
  new init_cache = record { inner = with_capacity init_cache; next = null }

  -- `other` has more free room than `self` has room: swap first, then move the rest over.
  unfoldable pub merge : Vec R → Vec R → Vec R
  merge self other =
      if ltb self.capacity (other.capacity - len other)
      then append other self
      else append self other

  abbrev leak : RetiredBag R → Link R
  leak b = non_null b.inner b.next

  unfoldable pub push : AbandonedBags R → RetiredBag R → AbandonedBags R
  push a abandoned = record { head = leak (record abandoned { next = a.head }) }

  -- `while let Some(ptr) = curr`; the merged bag keeps its own `next`, which is stale now.
  unfoldable pub merge_all : RetiredBag R → Link R → RetiredBag R
  merge_all boxed null = boxed
  merge_all boxed (non_null inner next) =
      merge_all (record boxed { inner = merge boxed.inner inner }) next

  take_chain : Link R → Option (RetiredBag R)
  unfolding merge_all
  take_chain null = none
  take_chain (non_null inner next) = some (merge_all (record { inner = inner; next = next }) next)

  -- The bag, and the stack that is left.
  unfoldable pub take_and_merge : AbandonedBags R → Option (RetiredBag R) × AbandonedBags R
  unfolding take_chain
  take_and_merge a = (take_chain a.head, record { head = null })

-- `ReclaimOnDrop::compare_with`, from the address of the record.
abbrev pub compare_with : ℕ → ℕ → Ordering
compare_with address protected = compare protected address
