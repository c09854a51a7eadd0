-- ===== src/Rewrite/HazardList/Collect.antt =====
-- Why a scan may stop at the first hazard that has never been used: hazptr_rewrite/src/global.rs,
-- `collect_protected_hazards`, and hazptr_rewrite/src/hazard/list.rs.
use hazptr.Prelude.{
  ℕ, zero, suc, ◌≤◌, ◌<◌, ◌≡◌, ◌≢◌, ◌↔◌, inl, inr, refl, sym, subst, ◌∙◌, Bool, true, false, ◌||◌,
  List, [], ◌∷◌, ◌==◌, arith, Bool-cases, elem, elem-append, Returns,
}
use hazptr.Std.Vec.{Vec, push}
use hazptr.Hazard.{seq_cst}
use hazptr.Rewrite.Hazard.{HazardPtr, not_yet_used}
use hazptr.Rewrite.HazardList.{
  HazardList, iter, get_or_insert_unchecked, collect_loop, collect_protected_hazards,
}
use hazptr.Rewrite.HazardList.Acquire.{word_at, get_or_insert_unchecked-Acquires}

-- Behind a hazard that has never been used, none has been used.
abbrev pub IsOrdered : List HazardPtr → Type 0
IsOrdered hs = (i j : ℕ) → i ≤ j → word_at hs i ≡ not_yet_used → word_at hs j ≡ not_yet_used

-- An address is none of the three states of a hazard.
abbrev pub IsAddress : ℕ → Type 0
IsAddress a = not_yet_used < a

module _ (p : ℕ) (hs hs' : List HazardPtr) (i : ℕ) where
  -- A store, of anything but the initial state, to a hazard that is in use or the first available.
  IsOrdered-store :
      p ≢ not_yet_used
      → word_at hs' i ≡ p
      → ((j : ℕ) → j ≢ i → word_at hs' j ≡ word_at hs j)
      → ((j : ℕ) → j < i → word_at hs j ≢ not_yet_used)
      → IsOrdered hs
      → IsOrdered hs'
  IsOrdered-store ne here others first ord a b le e = elim (Bool-cases (a == i)) [
    | inl same ↦
        absurd (ne (sym here ∙ subst (λ k. word_at hs' k ≡ not_yet_used) (ground (arith, same)) e))
    | inr other ↦
        let a_ne : a ≢ i = λ q. ground (arith, other, q) in
        let old : word_at hs a ≡ not_yet_used = sym (others a a_ne) ∙ e in
        let b_ne : b ≢ i = λ q. first a (omega (arith, q, le, a_ne)) old in
        others b b_ne ∙ ord a b le old
  ]

-- Acquiring a hazard keeps the order in which hazards are first used.
pub get_or_insert_unchecked-IsOrdered :
    (nodes : HazardList) (p : ℕ)
    → p ≢ not_yet_used
    → IsOrdered (iter nodes)
    → IsOrdered (iter (get_or_insert_unchecked nodes p).1)
get_or_insert_unchecked-IsOrdered nodes p ne ord =
    let a = get_or_insert_unchecked-Acquires p nodes in
    IsOrdered-store p (iter nodes) _ (get_or_insert_unchecked nodes p).0 ne a.here a.others
      (λ j lt e. a.first j lt (inr e)) ord

IsOrdered-tail : (h : HazardPtr) (hs : List HazardPtr) → IsOrdered (h ∷ hs) → IsOrdered hs
IsOrdered-tail h hs ord i j le e = ord (suc i) (suc j) (omega arith) e

-- Some hazard protects the address.
abbrev pub Protects : List HazardPtr → ℕ → Type 0
Protects hs a = (i : ℕ) × (word_at hs i ≡ a)

is_protected : ℕ → List HazardPtr → Bool
is_protected a [] = false
is_protected a (h ∷ hs) = a == h.protected || is_protected a hs

unused-is_protected :
    (a : ℕ) (hs : List HazardPtr)
    → IsAddress a
    → ((j : ℕ) → word_at hs j ≡ not_yet_used)
    → is_protected a hs ≡ false
unfolding is_protected
unused-is_protected a [] h all = refl
unused-is_protected a (x ∷ hs) h all =
    ground (arith, unused-is_protected a hs h (λ j. all (suc j)), all 0)

elem-collect_loop :
    (a : ℕ) (vec : Vec ℕ) (hs : List HazardPtr)
    → IsAddress a
    → IsOrdered hs
    → elem a (collect_loop vec hs).items ≡ (elem a vec.items || is_protected a hs)
unfolding collect_loop is_protected
elem-collect_loop a vec [] h ord = ground arith
elem-collect_loop a vec (x ∷ hs) h ord =
    go (λ v. elem-collect_loop a v hs h (IsOrdered-tail x hs ord)) x.protected refl
  where
    go :
        ((v : Vec ℕ) → elem a (collect_loop v hs).items ≡ (elem a v.items || is_protected a hs))
        → (w : ℕ) → x.protected ≡ w
        → elem a (collect_loop vec (x ∷ hs)).items ≡ (elem a vec.items || is_protected a (x ∷ hs))
    go ih zero e = rw e (ground (arith, ih vec, h))
    go ih (suc zero) e = rw e (ground (arith, ih vec, h))
    go ih (suc (suc zero)) e =
        rw e (ground (arith, h, unused-is_protected a hs h (λ j. ord 0 (suc j) (omega arith) e)))
    go ih (suc (suc (suc n))) e = rw e (
        ground (
          arith,
          ih (push vec (suc (suc (suc n)))),
          elem-append a vec.items (suc (suc (suc n)) ∷ []),
        ))

is_protected_iff :
    (a : ℕ) (hs : List HazardPtr) → IsAddress a → (is_protected a hs ≡ true) ↔ Protects hs a
unfolding is_protected
is_protected_iff a hs h = (forth hs, λ p. back hs p.0 p.1)
  where
    forth : (hs : List HazardPtr) → is_protected a hs ≡ true → Protects hs a
    forth [] e = cc
    forth (x ∷ hs) e = elim (Bool-cases (is_protected a hs)) [
      | inl q ↦ let (i, at) = forth hs q in (suc i, at)
      | inr q ↦ (0, ground arith)
    ]

    back : (hs : List HazardPtr) (i : ℕ) → word_at hs i ≡ a → is_protected a hs ≡ true
    back [] i e = absurd (omega (arith, h, e))
    back (x ∷ hs) zero e = ground (arith, e)
    back (x ∷ hs) (suc i) e = ground (arith, back hs i e)

-- Over hazards that are used in order, a scan that stops at the first unused one does not panic and
-- collects exactly the addresses that some hazard protects.
pub collect_protected_hazards_abort :
    (nodes : HazardList) (vec : Vec ℕ)
    → IsOrdered (iter nodes)
    → Returns
        (collect_protected_hazards nodes vec seq_cst)
        (λ v. (a : ℕ) → IsAddress a → (elem a v.items ≡ true) ↔ Protects (iter nodes) a)
unfolding collect_protected_hazards
collect_protected_hazards_abort nodes vec ord a h =
    rw (elem-collect_loop a (record vec { items = [] }) (iter nodes) h ord)
      (is_protected_iff a (iter nodes) h)
