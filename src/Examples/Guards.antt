-- ===== src/Examples/Guards.antt =====
-- The theorems on guards, with pointers that are numbers: the value `v` lies at `100 * v + 100`.
use hazptr.Prelude.{
  ℕ, ◌≡◌, ◌≢◌, ◌==◌, ◌∷◌, [], arith, refl, ap, Bool, true, false, Returns, if◌then◌else◌, is_empty,
}
use hazptr.Hazard.{free, thread_reserved}
use hazptr.Guard.{Marked, null, value, Pointers, protect, protect_if_equal, clone}
use hazptr.Guard.Protect.{protect-Protects, Protects}
use hazptr.Guard.IfEqual.{protect_if_equal-IfEqual, IfEqual}
use hazptr.Guard.Clone.{clone-word}
use hazptr.Local.Access.{local_access}
use hazptr.Local.Cache.{word_at}
use hazptr.Examples.Sample.{hazards, state, address, state-IsOwned}

abbrev eq_value : Marked ℕ → ℕ → Bool
eq_value (null tag) v = false
eq_value (value u) v = u == v

abbrev eq_marked : Marked ℕ → Marked ℕ → Bool
eq_marked p (value v) = eq_value p v
eq_marked (value v) (null tag) = false
eq_marked (null t) (null tag) = t == tag

marked_of_eq_value : (p : Marked ℕ) (v : ℕ) → eq_value p v ≡ true → p ≡ value v
marked_of_eq_value (null tag) v e = cc
marked_of_eq_value (value u) v e = ap value (ground (arith, e))

abbrev pointers : Pointers
pointers = record {
  MarkedPtr = Marked ℕ;
  MarkedNonNull = ℕ;
  marked = λ p. p;
  decompose = address;
  eq = eq_marked;
  eq_non_null = eq_value;
  decompose-IsAddress = λ v. (omega arith, omega arith);
  marked_of_eq = marked_of_eq_value;
}

held : word_at hazards 0 ≢ free
held e = omega (arith, e)

protect-Protects_example :
    Returns
      (protect pointers 0 (value 1 ∷ value 2 ∷ value 2 ∷ []) hazards)
      (Protects pointers 0 hazards (value 1 ∷ value 2 ∷ value 2 ∷ []))
protect-Protects_example =
    protect-Protects pointers 0 (value 1 ∷ value 2 ∷ value 2 ∷ []) hazards held

protect_if_equal-IfEqual_example :
    Returns
      (protect_if_equal pointers 0 (value 1) (value 1) (value 1) (value 1) hazards)
      (IfEqual pointers 0 (value 1) (value 1) (value 1) (value 1) hazards)
protect_if_equal-IfEqual_example =
    protect_if_equal-IfEqual pointers 0 (value 1) (value 1) (value 1) (value 1) hazards held

clone-word_example : Returns (clone (local_access address) state 0) (λ r.
    word_at r.1.global.hazards r.0
    ≡ (if is_empty state.local.hazard_cache then 100 else thread_reserved))
clone-word_example = clone-word address (0 ∷ []) state 0 100 state-IsOwned refl
