-- ===== src/Rewrite/HazardList/Threads/Appending.antt =====
-- The access by which a thread puts its node at the end of the rewrite's list:
-- hazptr_rewrite/src/hazard/list.rs.
use hazptr.Prelude.{
  update, ℕ, suc, ◌≡◌, ◌⊎◌, inl, inr, refl, sym, subst, true, false, some, [], ◌∷◌, ◌++◌, arith,
  ◌==◌, elem-append, Bool-cases,
}
use hazptr.Rewrite.Hazard.{not_yet_used}
use hazptr.Rewrite.HazardList.{elements}
use hazptr.Rewrite.HazardList.Threads.{idle, unused, made, linked, is_available, Shared, set_has}
use hazptr.Std.Linked.{IsList-append}
use hazptr.Rewrite.HazardList.Threads.Invariant.{IsLinked, UsedBefore, Inv, IsPassed, Owns, Goes}
use hazptr.Rewrite.HazardList.Threads.Accesses.{there}
use hazptr.Rewrite.HazardList.Threads.Acquiring.{newly, newly_apart, unheld}

module _ (i protected : ℕ) (g : Shared) (inv : Inv g) (nf : is_available protected ≡ false) where
  module _ (tail own : ℕ) (l : IsPassed g tail) (o : Owns g i protected (some own))
      (null : g.nodes.next tail ≡ 0) where
    abbrev pub appended : Shared
    appended = record {
      nodes = record (g.nodes) { next = update g.nodes.next tail own };
      status = update g.status own linked;
      has = set_has true i own 0 g.has;
    }

    was : (a : ℕ) → IsLinked appended a → (a ≡ own) ⊎ IsLinked g a
    was a m = elim (Bool-cases (own == a)) [
      | inl same ↦ inl (ground (arith, same))
      | inr other ↦ inr (ground (arith, m, other))
    ]

    not_tail : (x j : ℕ) → g.status x ≡ made j → (tail == x) ≡ false
    not_tail x j m = elim (Bool-cases (tail == x)) [
      | inl same ↦
          let e : tail ≡ x = ground (arith, same) in
          absurd (go l (subst (λ x. g.status x ≡ made j) (sym e) m))
      | inr other ↦ other
    ]
      where
        go : IsPassed g tail → g.status tail ≡ made j → ⊥
        go (inl z) n = ground (arith, n, subst (λ x. g.status x ≡ unused) (sym z) inv.origin)
        go (inr (k, u)) n = ground (arith, n, k)

    appended-Inv : Inv appended
    appended-Inv = record {
      chain = inv.chain ++ own ∷ [];
      listed =
          IsList-append g.nodes.next tail own 0 inv.chain (there i protected g inv tail l) null
            (ground (arith, o.4, o.0, inv.member own)) o.4 o.3 inv.listed;
      member = λ a h. ground (arith, h, elem-append a inv.chain (own ∷ []), inv.member a);
      whole = λ a h. ground (arith, h, elem-append a inv.chain (own ∷ []), inv.whole a);
      origin = ground (arith, inv.origin, o.4);
      busy = λ j a k b. elim (newly i protected g inv nf own 0 j a k b) [
        | inl (mine, e, f) ↦ (
          ground (arith, e),
          subst (λ a. is_available (g.nodes.words a k) ≡ false) (sym e)
              (subst (λ k. is_available (g.nodes.words own k) ≡ false) (sym f)
                (subst (λ w. is_available w ≡ false) (sym o.1) nf)),
          omega (arith, f),
        )
        | inr old ↦
            (ground (arith, inv.busy j a k old), (inv.busy j a k old).1, (inv.busy j a k old).2)
      ];
      apart =
          newly_apart i protected g inv nf own 0
            (unheld i protected g inv nf own 0 (λ m. absurd (ground (arith, m, o.0))));
      full = λ a m nz. elim (was a m) [
        | inl e ↦ absurd (nz (ground (arith, e, o.3, not_tail own i o.0)))
        | inr m' ↦ elim (Bool-cases (tail == a)) [
          | inl same ↦ tail_full a (ground (arith, same)) m' l
          | inr other ↦ inv.full a m' (λ e. nz (ground (arith, e, other)))
        ]
      ];
      ordered = λ a k m u. elim (was a m) [
        | inl e ↦ absurd (u (subst (λ a. g.nodes.words a (suc k) ≡ not_yet_used) (sym e) (o.2 k)))
        | inr m' ↦ inv.ordered a k m' u
      ];
    }
      where
        tail_full : (a : ℕ) → tail ≡ a → IsLinked g a → IsPassed g tail → UsedBefore g a elements
        tail_full a e m (inl z) = absurd (ground (arith, e, z, m, inv.origin))
        tail_full a e m (inr (m', u)) = subst (λ a. UsedBefore g a elements) e u

    pub appended-Goes : Goes i protected g (appended, idle)
    appended-Goes = record {
      inv = appended-Inv;
      knows = tt;
      grows = record {
        stays = λ a m. ground (arith, m);
        used = λ a k m u. u;
        theirs =
            λ x j m ne. (ground (arith, m, ne, o.0), λ k. refl, ground (arith, not_tail x j m));
      };
      words = λ j a k ne b. (ground (arith, ne, b), refl);
    }
