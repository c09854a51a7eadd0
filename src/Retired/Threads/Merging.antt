-- ===== src/Retired/Threads/Merging.antt =====
-- The bags in memory that a thread has taken, merged as the chain that they are: src/retired.rs.
use hazptr.Prelude.{
  update, ◌≤◌, ℕ, zero, suc, ◌≡◌, ◌≢◌, refl, false, Option, none, some, List, [], ◌∷◌, arith, ◌==◌,
  length,
}
use hazptr.Std.Vec.{Vec}
use hazptr.Std.Linked.{IsList, IsList-frame, elem_zero}
use hazptr.Retired.{Link, null, non_null, RetiredBag, merge, merge_all, take_chain, take_and_merge}
use hazptr.Retired.Threads.{Bags, merge_rest, merge_taken}

-- The pointer leads to these bags.
abbrev pub IsQueue : (ℕ → ℕ) → ℕ → List ℕ → Type 0
IsQueue next queue [] = queue ≡ 0
IsQueue next queue (a ∷ l) = (queue ≡ a) × (a ≢ 0) × IsList next a l

-- Emptying the head leaves the bags that it led to as they are.
pub IsQueue-taken :
    (next : ℕ → ℕ) (l : List ℕ) → IsList next 0 l → IsQueue (update next 0 0) (next 0) l
IsQueue-taken next [] e = e
IsQueue-taken next (a ∷ l) (e, nz, h) =
    (e, nz, IsList-frame next 0 0 a l (ground (arith, nz, elem_zero next a l h)) h)

module _ {R : Type 0} where
  -- The chain of the bags at these addresses.
  abbrev pub links : (ℕ → Vec R) → List ℕ → Link R
  links inner [] = null
  links inner (a ∷ l) = non_null (inner a) (links inner l)

  abbrev pub inner_of : Option (RetiredBag R) → Option (Vec R)
  inner_of none = none
  inner_of (some b) = some b.inner

  merge_rest-merge_all :
      (fuel : ℕ) (m : Bags R) (p : ℕ) (l : List ℕ) (b : RetiredBag R)
      → length l ≤ fuel
      → IsList m.next p l
      → merge_rest fuel m b.inner (m.next p) ≡ some (merge_all b (links m.inner l)).inner
  unfolding merge_rest merge_all
  merge_rest-merge_all zero m p [] b le e = rw e refl
  merge_rest-merge_all (suc fuel) m p [] b le e = rw e refl
  merge_rest-merge_all zero m p (a ∷ l) b le h = absurd (omega (arith, le))
  merge_rest-merge_all (suc fuel) m p (a ∷ l) b le (e, nz, h) =
      let ne : (a == 0) ≡ false = ground (arith, nz) in
      rw (e, ne)
        (merge_rest-merge_all fuel m a l (record b { inner = merge b.inner (m.inner a) })
          (omega (arith, le)) h)

  -- With a step for each bag, the loop ends and gives what the merging of the whole chain gives.
  pub merge_taken-take_and_merge :
      (m : Bags R) (queue : ℕ) (l : List ℕ)
      → IsQueue m.next queue l
      → merge_taken (length l) m queue
        ≡ some (inner_of (take_and_merge (record { head = links m.inner l })).0)
  unfolding merge_taken take_and_merge take_chain
  merge_taken-take_and_merge m queue [] e = rw e refl
  merge_taken-take_and_merge m queue (a ∷ l) (e, nz, h) =
      let ne : (a == 0) ≡ false = ground (arith, nz) in
      let r =
        merge_rest-merge_all (length {A = ℕ} (a ∷ l)) m a l
          (record { inner = m.inner a; next = links m.inner l }) (omega arith) h in
      rw (e, ne, r) refl
