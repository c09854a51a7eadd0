-- ===== src/Examples/Sets.antt =====
-- Runs of the hash set example, and its theorems at them: examples/hash_set.
use hazptr.Prelude.{
  ℕ, ◌≡◌, ◌≢◌, refl, true, false, List, [], ◌∷◌, ◌==◌, if◌then◌else◌, ltb, arith, Ordering, elem,
  ◌<◌, Returns, panics, subst, sym,
}
use hazptr.HashSet.OrderedSet.{Order, insert_node, finished, success, step}
use hazptr.HashSet.OrderedSet.Invariant.{advance}
use hazptr.HashSet.OrderedSet.Threads.{
  System, run, begin, perform, initial, Reached, start, Allowed,
}
use hazptr.HashSet.OrderedSet.Calls.{Call, begun, goes, IsRight}
use hazptr.HashSet.OrderedSet.Invariant.{IsDistinct, next}
use hazptr.HashSet.OrderedSet.Linear.{Call-IsRight}
use hazptr.HashSet.OrderedSet.Answers.{Call-Reached}
use hazptr.HashSet.OrderedSet.Retiring.{IsOn, Drops, drop-IsOn, Reached-Retired}
use hazptr.HashSet
use hazptr.HashSet.{
  RawHashSet, Use, use_set, with_hasher_and_buckets, allocate_buckets, make_hash, in_bucket, CanUse,
}
use hazptr.HashSet.Buckets.{
  Sound, use_set-Sound, with_hasher_and_buckets-Sound, allocate_buckets-get,
}

abbrev compare_numbers : ℕ → ℕ → Ordering
compare_numbers a b = if a == b then Ordering.eq else if ltb a b then Ordering.lt else Ordering.gt

compare_numbers_refl : (a : ℕ) → compare_numbers a a ≡ Ordering.eq
compare_numbers_refl a = ground arith

compare_numbers_gt :
    (a b : ℕ) → compare_numbers a b ≡ Ordering.gt → compare_numbers b a ≡ Ordering.lt
compare_numbers_gt a b e = ground (arith, e)

compare_numbers_eq :
    (a b : ℕ) → compare_numbers a b ≡ Ordering.eq → compare_numbers b a ≡ Ordering.eq
compare_numbers_eq a b e = ground (arith, e)

compare_numbers_lt :
    (a b : ℕ) → compare_numbers a b ≡ Ordering.lt → compare_numbers b a ≡ Ordering.gt
compare_numbers_lt a b e = ground (arith, e)

compare_numbers_trans :
    (a b c : ℕ)
    → compare_numbers a b ≡ Ordering.lt
    → compare_numbers b c ≡ Ordering.lt
    → compare_numbers a c ≡ Ordering.lt
compare_numbers_trans a b c e f = ground (arith, e, f)

compare_numbers_congr :
    (a b c : ℕ) → compare_numbers a b ≡ Ordering.eq → compare_numbers a c ≡ compare_numbers b c
compare_numbers_congr a b c e = ground (arith, e)

abbrev numbers : Order ℕ
numbers = record {
  cmp = compare_numbers;
  cmp_refl = compare_numbers_refl;
  cmp_gt = compare_numbers_gt;
  cmp_eq = compare_numbers_eq;
  cmp_lt = compare_numbers_lt;
  cmp_trans = compare_numbers_trans;
  cmp_congr = compare_numbers_congr;
}

-- Thread 0 inserts 5, and gets to the store before it links its node.
abbrev Run : Type 0
Run = (s : System ℕ) × Call numbers 0 (insert_node 1) 5 s

abbrev run_all : Run → List ℕ → Run
run_all m [] = m
run_all m (j ∷ l) = run_all (perform numbers (run j false) m.0, goes (run j false) m.0 m.1 tt tt) l

one_ne_zero : ◌≢◌ {A = ℕ} 1 0
one_ne_zero e = omega (arith, e)

two_ne_zero : ◌≢◌ {A = ℕ} 2 0
two_ne_zero e = omega (arith, e)

abbrev inserting : Run
unfolding perform advance step
inserting =
    run_all
      (
        perform numbers (begin 0 (insert_node 1) 5) (initial 0),
        begun (initial 0) (start 0) (tt, (refl, one_ne_zero)),
      )
      (0 ∷ [])

-- Meanwhile thread 1 inserts 3, at which the compare-and-swap of thread 0 fails.
abbrev overtaken : Run
unfolding perform advance step inserting
overtaken =
    run_all
      (
        perform numbers (begin 1 (insert_node 2) 3) inserting.0,
        goes (begin 1 (insert_node 2) 3) inserting.0 inserting.1 (tt, (refl, two_ne_zero))
            one_ne_zero,
      )
      (1 ∷ 1 ∷ 1 ∷ 0 ∷ 0 ∷ 0 ∷ 0 ∷ 0 ∷ 0 ∷ 0 ∷ 0 ∷ 0 ∷ 0 ∷ [])

done : (overtaken.0.threads 0).pc ≡ finished (success true)
unfolding perform advance step inserting overtaken
done = refl

Call-IsRight_example :
    IsRight numbers 0 (insert_node 1) 5 overtaken.0 overtaken.1 (insert_node 1) (success true)
Call-IsRight_example =
    Call-IsRight numbers 0 (insert_node 1) 5 overtaken.0 overtaken.1 (success true) done

overtaken-Reached : Reached numbers overtaken.0
overtaken-Reached = Call-Reached numbers 0 (insert_node 1) 5 overtaken.0 overtaken.1

Reached-Retired_example :
    IsDistinct overtaken.0.shared.memory.retired
    × ((a : ℕ)
        → elem a overtaken.0.shared.memory.retired ≡ true
        → ¬ IsOn (next overtaken.0.shared) a)
    × ((a : ℕ)
        → IsOn (next overtaken.0.shared) a
        → (next overtaken.0.shared a).ptr ≢ 0
        → compare_numbers
            (overtaken.0.shared.memory.elems a)
            (overtaken.0.shared.memory.elems (next overtaken.0.shared a).ptr)
          ≡ Ordering.lt)
Reached-Retired_example = Reached-Retired numbers overtaken.0 overtaken-Reached

drop-IsOn_example : (l : List ℕ) × Drops overtaken.0 l
drop-IsOn_example = drop-IsOn numbers overtaken.0 overtaken-Reached

with_hasher_and_buckets-Sound_example :
    (0 < 2 → Returns (with_hasher_and_buckets 0 (λ v. v) 2) (Sound numbers))
    × (◌≡◌ {A = ℕ} 2 0 → with_hasher_and_buckets 0 (λ v. v) 2 ≡ panics)
with_hasher_and_buckets-Sound_example = with_hasher_and_buckets-Sound numbers 0 (λ v. v) 2

abbrev two_buckets : RawHashSet ℕ
two_buckets = record { size = 2; buckets = allocate_buckets 0 2; hash_builder = λ v. v }

two_buckets-Sound : Sound numbers two_buckets
unfolding with_hasher_and_buckets
two_buckets-Sound = (with_hasher_and_buckets-Sound numbers 0 (λ v. v) 2).0 (omega arith)

abbrev insert_five : Use ℕ
insert_five = HashSet.insert 0 1 5

insert_five-CanUse : CanUse insert_five two_buckets
insert_five-CanUse k s e =
    subst (Allowed (begin 0 (insert_node 1) 5)) (sym (allocate_buckets-get numbers 0 2 k s e))
      (tt, (refl, one_ne_zero))

use_set-Sound_example : Returns (use_set numbers insert_five two_buckets) (Sound numbers)
use_set-Sound_example =
    use_set-Sound numbers insert_five two_buckets two_buckets-Sound insert_five-CanUse
