-- ===== src/Rewrite/HazardList/Threads/Steps.antt =====
-- What holds of the rewrite's list of hazards holds after each access of a thread:
-- hazptr_rewrite/src/hazard/list.rs.
use hazptr.Prelude.{
  ℕ, suc, ◌<◌, ◌≡◌, ◌≢◌, inl, inr, subst, true, false, Option, none, some, arith, ◌==◌, Bool-cases,
}
use hazptr.Rewrite.Hazard.{not_yet_used}
use hazptr.Rewrite.HazardList.{elements}
use hazptr.Rewrite.HazardList.Threads.{
  Pc, load_next, load_word, exchange_word, append, idle, step, unused, is_available, next_element,
  out_of, Shared, advance,
}
use hazptr.Rewrite.HazardList.Threads.Invariant.{
  IsLinked, IsUsed, UsedBefore, Inv, Owns, Knows, Goes,
}
use hazptr.Rewrite.HazardList.Threads.Accesses.{reads, behind, allocated-Goes}
use hazptr.Rewrite.HazardList.Threads.Acquiring.{acquired-Goes}
use hazptr.Rewrite.HazardList.Threads.Appending.{appended-Goes}

module _ (i protected : ℕ) (g : Shared) (inv : Inv g) where
  -- One more element of the node has been passed.
  next_element-Knows :
      (own : Option ℕ) (node idx : ℕ)
      → is_available protected ≡ false
      → IsLinked g node
      → idx < elements
      → UsedBefore g node idx
      → Owns g i protected own
      → IsUsed g node idx
      → Knows g i protected (next_element own node idx)
  next_element-Knows own node idx nf l lt before o u = elim (Bool-cases (suc idx == elements)) [
    | inl last ↦ rw last (out own o (subst (UsedBefore g node) (ground (arith, last)) after))
    | inr more ↦
        let e : suc idx ≢ elements = ground (arith, more) in
        rw more (nf, l, omega (arith, lt, e), after, o)
  ]
    where
      after : UsedBefore g node (suc idx)
      after k kt = elim (Bool-cases (k == idx)) [
        | inl same ↦ subst (IsUsed g node) (ground (arith, same)) u
        | inr other ↦ before k (ground (arith, kt, other))
      ]

      out :
          (own : Option ℕ)
          → Owns g i protected own
          → UsedBefore g node elements
          → Knows g i protected (out_of own node)
      out none o full = (nf, inr (l, full))
      out (some own) o full = (nf, inr (l, full), o)

  none_before : (a : ℕ) → UsedBefore g a 0
  none_before a k lt = absurd (omega (arith, lt))

  pub step-Goes :
      (address : ℕ) (pc : Pc)
      → g.status address ≡ unused
      → address ≢ 0
      → Knows g i protected pc
      → Goes i protected g (advance i address protected g pc)
  unfolding advance step
  step-Goes address (load_next prev) fresh az (nf, l) = elim (Bool-cases (g.nodes.next prev == 0)) [
    | inl null ↦ rw null (allocated-Goes i protected g inv address fresh az prev (nf, l))
    | inr more ↦
        let node = behind i protected g inv prev l (ground (arith, more)) in
        rw more (
          reads i protected g inv (load_word none (g.nodes.next prev) 0)
            (nf, node, ground arith, none_before (g.nodes.next prev), tt))
  ]
  step-Goes address (load_word own node idx) fresh az (nf, l, lt, before, o) =
      elim (Bool-cases (is_available (g.nodes.words node idx))) [
        | inl av ↦ rw av (
            reads i protected g inv (exchange_word own node idx (g.nodes.words node idx))
              (nf, l, lt, before, o, av, λ c. c))
        | inr busy ↦ rw busy (
            reads i protected g inv (next_element own node idx)
              (next_element-Knows own node idx nf l lt before o (λ e. ground (arith, busy, e))))
      ]
  step-Goes address (exchange_word own node idx current) fresh az (nf, l, lt, before, o, av, c) =
      elim (Bool-cases (g.nodes.words node idx == current)) [
        | inl same ↦
            let now : is_available (g.nodes.words node idx) ≡ true = ground (arith, same, av) in
            rw same (acquired-Goes i protected g inv nf own o node idx l lt before now)
        | inr other ↦ rw other (
            reads i protected g inv (next_element own node idx)
              (next_element-Knows own node idx nf l lt before o (changed other)))
      ]
    where
      changed : (g.nodes.words node idx == current) ≡ false → IsUsed g node idx
      changed ne e = elim (Bool-cases (current == not_yet_used)) [
        | inl new ↦ ground (arith, ne, e, new)
        | inr old ↦ c (ground (arith, old)) e
      ]
  step-Goes address (append tail own) fresh az (nf, l, o) =
      elim (Bool-cases (g.nodes.next tail == 0)) [
        | inl null ↦
            rw null (appended-Goes i protected g inv nf tail own l o (ground (arith, null)))
        | inr more ↦
            let node = behind i protected g inv tail l (ground (arith, more)) in
            rw more (
              reads i protected g inv (load_word (some own) (g.nodes.next tail) 0)
                (nf, node, ground arith, none_before (g.nodes.next tail), o))
      ]
  step-Goes address idle fresh az k = reads i protected g inv idle tt
