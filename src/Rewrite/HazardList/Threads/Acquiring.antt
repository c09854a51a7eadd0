-- ===== src/Rewrite/HazardList/Threads/Acquiring.antt =====
-- The accesses by which a thread gets a hazard of the rewrite's list: hazptr_rewrite/src/hazard/list.rs.
use hazptr.Prelude.{
  ℕ, suc, ◌<◌, ◌≡◌, ◌≢◌, ◌⊎◌, inl, inr, refl, sym, subst, ◌∙◌, true, false, ◌&&◌, Option, none,
  some, arith, ◌==◌, Bool-cases,
}
use hazptr.Rewrite.HazardList.{elements}
use hazptr.Rewrite.HazardList.Threads.{
  idle, unused, made, linked, is_available, deallocated, Shared, set_has, store_word,
}
use hazptr.Rewrite.HazardList.Threads.Invariant.{IsLinked, IsUsed, UsedBefore, Inv, Owns, Goes}

module _ (i protected : ℕ) (g : Shared) (inv : Inv g) (nf : is_available protected ≡ false) where
  -- Who has what, after the thread has got a hazard that no thread had.
  pub newly :
      (node idx j a k : ℕ)
      → set_has true i node idx g.has j a k ≡ true
      → ((j ≡ i) × (a ≡ node) × (k ≡ idx)) ⊎ (g.has j a k ≡ true)
  newly node idx j a k b = elim (Bool-cases ((i == j) && ((node == a) && (idx == k)))) [
    | inl same ↦ inl (ground (arith, same), ground (arith, same), ground (arith, same))
    | inr other ↦ inr (ground (arith, b, other))
  ]

  pub newly_apart :
      (node idx : ℕ)
      → ((j : ℕ) → g.has j node idx ≡ false)
      → (j h a k : ℕ) → set_has true i node idx g.has j a k ≡ true
      → set_has true i node idx g.has h a k ≡ true
      → j ≡ h
  newly_apart node idx none_has j h a k b c = elim (newly node idx j a k b) [
    | inl (mine, e, e') ↦ elim (newly node idx h a k c) [
      | inl (yours, f, f') ↦ mine ∙ sym yours
      | inr old ↦ absurd (held h a k e e' old)
    ]
    | inr old ↦ elim (newly node idx h a k c) [
      | inl (yours, f, f') ↦ absurd (held j a k f f' old)
      | inr old' ↦ inv.apart j h a k old old'
    ]
  ]
    where
      held : (j a k : ℕ) → a ≡ node → k ≡ idx → g.has j a k ≡ true → ⊥
      held j a k e f h = ground (
        arith,
        none_has j,
        subst (λ k. g.has j node k ≡ true) f (subst (λ a. g.has j a k ≡ true) e h),
      )

  pub unheld :
      (a k : ℕ)
      → (IsLinked g a → is_available (g.nodes.words a k) ≡ true)
      → (j : ℕ) → g.has j a k ≡ false
  unheld a k h j = elim (Bool-cases (g.has j a k)) [
    | inl b ↦ absurd (ground (arith, inv.busy j a k b, h (inv.busy j a k b).0))
    | inr b ↦ b
  ]

  module _ (own : Option ℕ) (o : Owns g i protected own) where
    -- Giving back the memory of the thread's own node, if it has one, leaves the rest as it is.
    own_linked : (a : ℕ) → IsLinked g a → deallocated own g.status a ≡ linked
    own_linked a m = go own o
      where
        go : (own : Option ℕ) → Owns g i protected own → deallocated own g.status a ≡ linked
        go none o = m
        go (some b) o = ground (arith, m, o.0)

    linked_own : (a : ℕ) → deallocated own g.status a ≡ linked → IsLinked g a
    linked_own a m = go own m
      where
        go : (own : Option ℕ) → deallocated own g.status a ≡ linked → IsLinked g a
        go none m = m
        go (some b) m = ground (arith, m)

    own_others : (x j : ℕ) → g.status x ≡ made j → j ≢ i → deallocated own g.status x ≡ made j
    own_others x j m ne = go own o
      where
        go : (own : Option ℕ) → Owns g i protected own → deallocated own g.status x ≡ made j
        go none o = m
        go (some b) o = ground (arith, m, o.0, ne)

    own_origin : deallocated own g.status 0 ≡ unused
    own_origin = go own
      where
        go : (own : Option ℕ) → deallocated own g.status 0 ≡ unused
        go none = inv.origin
        go (some b) = ground (arith, inv.origin)

    module _ (node idx : ℕ) (l : IsLinked g node) (lt : idx < elements)
        (before : UsedBefore g node idx) (av : is_available (g.nodes.words node idx) ≡ true) where
      abbrev pub acquired : Shared
      acquired = record {
        nodes = store_word g.nodes node idx protected;
        status = deallocated own g.status;
        has = set_has true i node idx g.has;
      }

      acquired-IsUsed : (a k : ℕ) → IsUsed g a k → IsUsed acquired a k
      acquired-IsUsed a k u e = ground (arith, u, e, nf)

      acquired-Inv : Inv acquired
      acquired-Inv = record {
        chain = inv.chain;
        listed = inv.listed;
        member = λ a h. own_linked a (inv.member a h);
        whole = λ a h. inv.whole a (linked_own a h);
        origin = own_origin;
        busy = λ j a k b. elim (newly node idx j a k b) [
          | inl (mine, e, f) ↦ (
            own_linked a (subst (IsLinked g) (sym e) l),
            ground (arith, e, f, nf),
            omega (arith, f, lt),
          )
          | inr old ↦ (
            own_linked a (inv.busy j a k old).0,
            ground (arith, inv.busy j a k old, nf),
            (inv.busy j a k old).2,
          )
        ];
        apart = newly_apart node idx (unheld node idx (λ _. av));
        full = λ a m nz k kt. acquired-IsUsed a k (inv.full a (linked_own a m) nz k kt);
        ordered = λ a k m u. elim (Bool-cases ((node == a) && (idx == suc k))) [
          | inl here ↦
              let e : node ≡ a = ground (arith, here) in
              acquired-IsUsed a k (subst (λ a. IsUsed g a k) e (before k (ground (arith, here))))
          | inr other ↦
              acquired-IsUsed a k
                (inv.ordered a k (linked_own a m) (λ f. u (ground (arith, f, other))))
        ];
      }

      pub acquired-Goes : Goes i protected g (acquired, idle)
      acquired-Goes = record {
        inv = acquired-Inv;
        knows = tt;
        grows = record {
          stays = own_linked;
          used = λ a k m. acquired-IsUsed a k;
          theirs = λ x j m ne. (own_others x j m ne, λ k. ground (arith, m, l), refl);
        };
        words = λ j a k ne b. (ground (arith, ne, b), ground (arith, inv.busy j a k b, av));
      }
