-- ===== src/Std/Search.antt =====
-- `binary_search_by`: the loop that halves the part of the slice still in question.
use hazptr.Prelude.{
  ℕ, zero, suc, ◌+◌, ◌-◌, ◌/◌, ◌≤◌, ◌<◌, compare, Ordering, ◌≡◌, inl, inr, Bool, true, false, subst,
  List, [], ◌∷◌, arith, leb, ◌==◌, if◌then◌else◌, length, elem, Bool-cases,
}
use hazptr.Std.Sort.{Ascending}

-- `Ok` with the index of a match, or `Err` with the place to insert at.
pub data Found : Type 0 where
  hit : ℕ → Found
  miss : ℕ → Found

abbrev pub is_ok : Found → Bool
is_ok (hit i) = true
is_ok (miss i) = false

-- `get_unchecked`: read only below the length.
abbrev get_or : List ℕ → ℕ → ℕ → ℕ
get_or [] i d = d
get_or (x ∷ xs) zero d = x
get_or (x ∷ xs) (suc i) d = get_or xs i d

-- `base = if cmp == Greater { base } else { mid }`
advance : Ordering → ℕ → ℕ → ℕ
advance Ordering.gt base mid = base
advance _ base mid = mid

module _ (s : List ℕ) (f : ℕ → Ordering) where
  -- `while size > 1`; the value is `base` at the end. Each round takes `size` down.
  search_loop : ℕ → ℕ → ℕ → ℕ
  unfolding advance
  search_loop zero base size = base
  search_loop (suc fuel) base size =
      let mid = base + size / 2 in
      let next = advance (f (get_or s mid 0)) base mid in
      let rest = search_loop fuel next (size - size / 2) in if leb size 1 then base else rest

  verdict : ℕ → Found
  verdict base = elim (f (get_or s base 0)) [
    | Ordering.eq ↦ hit base
    | Ordering.lt ↦ miss (base + 1)
    | Ordering.gt ↦ miss base
  ]

  unfoldable pub binary_search_by : Found
  unfolding search_loop verdict
  binary_search_by = if length s == 0 then miss 0 else verdict (search_loop (length s) 0 (length s))

-- Reads of a sorted slice.
get_or_above : (lo : ℕ) (s : List ℕ) (i : ℕ) → Ascending lo s → i < length s → lo ≤ get_or s i 0
get_or_above lo [] i h b = absurd (omega arith)
get_or_above lo (x ∷ s) zero h b = h.0
get_or_above lo (x ∷ s) (suc i) h b = omega (arith, get_or_above x s i h.1 (omega arith))

get_or_mono :
    (lo : ℕ) (s : List ℕ) (i j : ℕ)
    → Ascending lo s
    → i ≤ j
    → j < length s
    → get_or s i 0 ≤ get_or s j 0
get_or_mono lo [] i j h le b = absurd (omega arith)
get_or_mono lo (x ∷ s) zero zero h le b = omega arith
get_or_mono lo (x ∷ s) zero (suc j) h le b = get_or_above x s j h.1 (omega arith)
get_or_mono lo (x ∷ s) (suc i) zero h le b = absurd (omega arith)
get_or_mono lo (x ∷ s) (suc i) (suc j) h le b = get_or_mono x s i j h.1 (omega arith) (omega arith)

elem_position :
    (t : ℕ) (s : List ℕ) → elem t s ≡ true → (i : ℕ) × (i < length s) × (get_or s i 0 ≡ t)
elem_position t [] h = absurd (cc)
elem_position t (x ∷ s) h = elim (Bool-cases (t == x)) [
  | inl e ↦ (0, omega arith, ground arith)
  | inr e ↦ let (i, b, q) = elem_position t s (ground arith) in (suc i, omega arith, q)
]

elem-get_or : (s : List ℕ) (i : ℕ) → i < length s → elem (get_or s i 0) s ≡ true
elem-get_or [] i b = absurd (omega arith)
elem-get_or (x ∷ s) zero b = ground arith
elem-get_or (x ∷ s) (suc i) b = ground (arith, elem-get_or s i)

module _ (s : List ℕ) (t : ℕ) (sorted : Ascending 0 s) where
  -- What the loop keeps: beyond the window all is above `t`, and before it nothing but `t`'s
  -- lower bounds and copies of the element at `base`.
  record Window (base size : ℕ) : Type 0 where
    some_left : 0 < size
    inside : base + size ≤ length s
    low : 0 < base → get_or s base 0 ≤ t
    high : (i : ℕ) → base + size ≤ i → i < length s → t < get_or s i 0

  Window-advance :
      (base size : ℕ)
      → 1 < size
      → Window base size
      → Window
          (advance (compare (get_or s (base + size / 2) 0) t) base (base + size / 2))
          (size - size / 2)
  unfolding advance
  Window-advance base size more w = record {
    some_left = omega arith;
    inside = ground (arith, w.inside);
    low = ground (arith, w.low);
    high = λ i le b. ground (arith, w.high i, w.inside, get_or_mono 0 s (base + size / 2) i sorted);
  }

  search_loop-Window :
      (fuel base size : ℕ)
      → size ≤ fuel
      → Window base size
      → Window (search_loop s (λ p. compare p t) fuel base size) 1
  unfolding search_loop
  search_loop-Window zero base size le w = absurd (omega arith)
  search_loop-Window (suc fuel) base size le w = elim (Bool-cases (leb size 1)) [
    | inl last ↦
        let one : size ≡ 1 = ground (arith, w.some_left) in rw last (subst (Window base) one w)
    | inr more ↦
        rw more
          (search_loop-Window fuel _ _ (ground arith) (Window-advance base size (ground arith) w))
  ]

  verdict-elem : (base : ℕ) → Window base 1 → is_ok (verdict s (λ p. compare p t) base) ≡ elem t s
  unfolding verdict
  verdict-elem base w = elim (Bool-cases (elem t s)) [
    | inl present ↦
        let (i, b, q) = elem_position t s present in
        ground (
          arith,
          w.high i,
          w.low,
          w.inside,
          get_or_mono 0 s i base sorted,
          get_or_mono 0 s base i sorted,
        )
    | inr missing ↦ ground (arith, elem-get_or s base (omega arith))
  ]

  -- On a sorted slice the search succeeds exactly for the elements of the slice.
  pub binary_search_by-elem : is_ok (binary_search_by s (λ p. compare p t)) ≡ elem t s
  unfolding binary_search_by
  binary_search_by-elem = elim (Bool-cases (length s == 0)) [
    | inl empty ↦ ground (arith, elem_position t s)
    | inr filled ↦
        rw filled
          (verdict-elem _ (search_loop-Window (length s) 0 (length s) (omega arith) (start filled)))
  ]
    where
      start : (length s == 0) ≡ false → Window 0 (length s)
      start filled = record {
        some_left = ground arith;
        inside = omega arith;
        low = λ h. absurd (omega arith);
        high = λ i le b. absurd (omega arith);
      }
