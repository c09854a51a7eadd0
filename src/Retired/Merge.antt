-- ===== src/Retired/Merge.antt =====
-- Merging keeps the records: src/retired.rs, `merge`, `push` and `take_and_merge`.
use hazptr.Prelude.{◌≡◌, refl, Option, none, some, List, [], ◌++◌, arith, SameItems, count_p-append}
use hazptr.Std.Vec.{Vec}
use hazptr.Retired.{
  Link, null, non_null, RetiredBag, AbandonedBags, merge, push, merge_all, take_chain,
  take_and_merge,
}

module _ {R : Type 0} where
  -- The records of all the bags that a pointer leads to.
  abbrev pub records : Link R → List R
  records null = []
  records (non_null inner next) = inner.items ++ records next

  abbrev pub taken : Option (RetiredBag R) → List R
  taken none = []
  taken (some b) = b.inner.items

  pub merge-SameItems : (v w : Vec R) → SameItems (merge v w).items (v.items ++ w.items)
  unfolding merge
  merge-SameItems v w p =
      ground (arith, count_p-append p v.items w.items, count_p-append p w.items v.items)

  merge_all-SameItems :
      (b : RetiredBag R) (l : Link R)
      → SameItems (merge_all b l).inner.items (b.inner.items ++ records l)
  unfolding merge_all
  merge_all-SameItems b null p = omega (arith, count_p-append p b.inner.items [])
  merge_all-SameItems b (non_null inner next) p = omega (
    arith,
    merge_all-SameItems (record b { inner = merge b.inner inner }) next p,
    merge-SameItems b.inner inner p,
    count_p-append p b.inner.items inner.items,
    count_p-append p b.inner.items (inner.items ++ records next),
    count_p-append p inner.items (records next),
    count_p-append p (merge b.inner inner).items (records next),
  )

  take_chain-SameItems : (l : Link R) → SameItems (taken (take_chain l)) (records l)
  unfolding take_chain
  take_chain-SameItems null p = refl
  take_chain-SameItems (non_null inner next) p =
      merge_all-SameItems (record { inner = inner; next = next }) next p

  -- Taking the abandoned bags yields one bag with exactly their records, or none if there is no
  -- bag, and leaves the stack empty.
  pub take_and_merge-SameItems :
      (a : AbandonedBags R)
      → SameItems (taken (take_and_merge a).0) (records a.head) × ((take_and_merge a).1.head ≡ null)
  unfolding take_and_merge
  take_and_merge-SameItems a = (take_chain-SameItems a.head, refl)

  -- A push adds the records of the bag, whatever its stale `next` is.
  pub records-push :
      (a : AbandonedBags R) (b : RetiredBag R)
      → records (push a b).head ≡ b.inner.items ++ records a.head
  unfolding push
  records-push a b = refl
