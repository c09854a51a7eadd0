-- ===== src/Rewrite/HazardList/Threads/Owners.antt =====
-- What a thread does to a hazard that it has got from the rewrite's list: hazptr_rewrite/src/hazard/list.rs.
use hazptr.Prelude.{
  ℕ, suc, ◌≡◌, ◌≢◌, inl, inr, refl, sym, subst, true, false, ◌&&◌, arith, ◌==◌, Bool-cases,
}
use hazptr.Rewrite.Hazard.{free, not_yet_used}
use hazptr.Rewrite.HazardList.Threads.{Shared, stored, freed, is_available}
use hazptr.Rewrite.HazardList.Threads.Invariant.{IsUsed, Inv, Grows}

module _ (i node idx word : ℕ) (g : Shared) (inv : Inv g) (has : g.has i node idx ≡ true) where
  -- The hazard of a thread has been used before, so a store leaves used what was used.
  module _ (nu : word ≢ not_yet_used) where
    stored-IsUsed : (a k : ℕ) → IsUsed g a k → IsUsed (stored node idx word g) a k
    stored-IsUsed a k u e = ground (arith, u, e, nu)

    IsUsed-stored : (a k : ℕ) → IsUsed (stored node idx word g) a k → IsUsed g a k
    IsUsed-stored a k u e = elim (Bool-cases ((node == a) && (idx == k))) [
      | inl here ↦
          let p : node ≡ a = ground (arith, here) in
          let q : idx ≡ k = ground (arith, here) in
          ground (
            arith,
            (inv.busy i node idx has).1,
            subst (λ a. g.nodes.words a idx ≡ not_yet_used) (sym p)
                (subst (λ k. g.nodes.words a k ≡ not_yet_used) (sym q) e),
          )
      | inr other ↦ u (ground (arith, e, other))
    ]

    pub stored-Grows : (j : ℕ) → Grows j g (stored node idx word g)
    stored-Grows j = record {
      stays = λ a m. m;
      used = λ a k m. stored-IsUsed a k;
      theirs = λ x j m ne. (m, λ k. ground (arith, m, inv.busy i node idx has), refl);
    }

  pub stored-Inv : is_available word ≡ false → Inv (stored node idx word g)
  stored-Inv nf = record {
    chain = inv.chain;
    listed = inv.listed;
    member = inv.member;
    whole = inv.whole;
    origin = inv.origin;
    busy = λ j a k b.
        ((inv.busy j a k b).0, ground (arith, inv.busy j a k b, nf), (inv.busy j a k b).2);
    apart = inv.apart;
    full = λ a m nz k lt. stored-IsUsed nu a k (inv.full a m nz k lt);
    ordered = λ a k m u. stored-IsUsed nu a k (inv.ordered a k m (IsUsed-stored nu a (suc k) u));
  }
    where
      nu : word ≢ not_yet_used
      nu = ground (arith, nf)

module _ (i node idx : ℕ) (g : Shared) (inv : Inv g) (has : g.has i node idx ≡ true) where
  still_has : (j a k : ℕ) → (freed i node idx g).has j a k ≡ true → g.has j a k ≡ true
  still_has j a k b = elim (Bool-cases ((i == j) && ((node == a) && (idx == k)))) [
    | inl here ↦ absurd (ground (arith, b, here))
    | inr other ↦ ground (arith, b, other)
  ]

  given_up : (j : ℕ) → (freed i node idx g).has j node idx ≡ false
  given_up j = elim (Bool-cases ((freed i node idx g).has j node idx)) [
    | inl b ↦
        let e : i ≡ j = inv.apart i j node idx has (still_has j node idx b) in
        absurd (ground (arith, b, e))
    | inr b ↦ b
  ]

  pub freed-Inv : Inv (freed i node idx g)
  freed-Inv = record {
    chain = inv.chain;
    listed = inv.listed;
    member = inv.member;
    whole = inv.whole;
    origin = inv.origin;
    busy = λ j a k b. elim (Bool-cases ((node == a) && (idx == k))) [
      | inl here ↦
          let p : node ≡ a = ground (arith, here) in
          let q : idx ≡ k = ground (arith, here) in
          absurd (
            ground (
              arith,
              b,
              subst (λ k. (freed i node idx g).has j a k ≡ false) q
                  (subst (λ a. (freed i node idx g).has j a idx ≡ false) p (given_up j)),
            ))
      | inr other ↦
          let old = inv.busy j a k (still_has j a k b) in
          (old.0, ground (arith, other, old.1), old.2)
    ];
    apart = λ j h a k b c. inv.apart j h a k (still_has j a k b) (still_has h a k c);
    full = λ a m nz k lt. stored-IsUsed i node idx free g inv has nu a k (inv.full a m nz k lt);
    ordered = λ a k m u.
        stored-IsUsed i node idx free g inv has nu a k
          (inv.ordered a k m (IsUsed-stored i node idx free g inv has nu a (suc k) u));
  }
    where
      nu : free ≢ not_yet_used
      nu = λ e. omega (arith, e)

-- Both ways for a thread to write to its hazard leave all threads what they know.
pub freed-Grows :
    (i node idx : ℕ) (g : Shared) (inv : Inv g)
    → g.has i node idx ≡ true
    → (j : ℕ) → Grows j g (freed i node idx g)
freed-Grows i node idx g inv has j =
    let w = stored-Grows i node idx free g inv has (λ e. omega (arith, e)) j in
    record { stays = w.stays; used = w.used; theirs = w.theirs }
