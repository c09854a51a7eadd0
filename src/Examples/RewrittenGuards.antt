-- ===== src/Examples/RewrittenGuards.antt =====
-- The theorems on guards of the rewrite, with pointers that are numbers: the value `v` lies at
-- `100 * v + 100`.
use hazptr.Prelude.{ℕ, ◌≡◌, ◌≢◌, ◌==◌, ◌∷◌, [], arith, ap, Bool, true, false, Returns}
use hazptr.Rewrite.Hazard.{not_yet_used}
use hazptr.Rewrite.HazardList.Acquire.{word_at}
use hazptr.Rewrite.Local.Access.{words}
use hazptr.Rewrite.Guard.{MaybeNull, null, not_null, Pointers, protect}
use hazptr.Rewrite.Guard.Loop.{protect-Outcomes, Outcomes}
use hazptr.Examples.Sample.{address}
use hazptr.Examples.Rewritten.{state}

abbrev eq_marked : MaybeNull ℕ → MaybeNull ℕ → Bool
eq_marked (not_null u) (not_null v) = u == v
eq_marked (not_null u) (null tag) = false
eq_marked (null tag) (not_null v) = false
eq_marked (null t) (null tag) = t == tag

eq_marked_sound : (p q : MaybeNull ℕ) → eq_marked p q ≡ true → p ≡ q
eq_marked_sound (not_null u) (not_null v) e = ap not_null (ground (arith, e))
eq_marked_sound (not_null u) (null tag) e = cc
eq_marked_sound (null tag) (not_null v) e = cc
eq_marked_sound (null t) (null tag) e = ap null (ground (arith, e))

abbrev pointers : Pointers
pointers = record {
  MarkedPtr = MaybeNull ℕ;
  MarkedNonNull = ℕ;
  maybe_null = λ p. p;
  into_marked_ptr = not_null;
  decompose = address;
  eq = eq_marked;
  decompose-IsAddress = λ v. omega arith;
  eq_sound = eq_marked_sound;
}

used : word_at (words state) 0 ≢ not_yet_used
used e = omega (arith, e)

protect-Outcomes_example :
    Returns
      (protect pointers address 0 (not_null 1 ∷ not_null 2 ∷ not_null 2 ∷ []) state)
      (Outcomes pointers address 0 state (not_null 1 ∷ not_null 2 ∷ not_null 2 ∷ []))
protect-Outcomes_example =
    protect-Outcomes pointers address 0 (not_null 1 ∷ not_null 2 ∷ not_null 2 ∷ []) state used tt
