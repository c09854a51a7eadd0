-- ===== src/Protocol/Safety.antt =====
-- A record that a guard protects is not reclaimed: the guarantee of src/guard.rs and src/local.rs.
use hazptr.Prelude.{ℕ, ◌≡◌, ◌≢◌, refl, some, subst}
use hazptr.Local.Cache.{word_at}
use hazptr.Protocol.{unused, holding, System, init, Reach, start, later}
use hazptr.Protocol.Invariant.{Inv, Knows, uses}
use hazptr.Protocol.Reclaim.{Step-Inv}

init-Inv : Inv init
init-Inv = record {
  linked = λ c ne. absurd (ne refl);
  valid = λ p h. absurd (h refl);
  knows = λ g. tt;
  apart = λ g h i u v. cc;
  held = λ g i p e. cc;
  seen = λ g i p t k cache e f b lt. cc;
}

pub Reach-Inv : {s : System} → Reach s → Inv s
Reach-Inv start = init-Inv
Reach-Inv (later r st) = Step-Inv st (Reach-Inv r)

-- In every reachable state a record that `protect` has returned to a guard, and that the guard has
-- not released, has not been reclaimed, and the guard's hazard still has its address.
pub protected_not_reclaimed :
    {s : System}
    → Reach s
    → (g i p : ℕ) → s.pc g ≡ holding i p
    → (s.status p ≢ unused) × (word_at s.hazards i ≡ p)
protected_not_reclaimed r g i p e =
    ((Reach-Inv r).held g i p e, (subst (Knows _) e ((Reach-Inv r).knows g)).0)

-- No two guards ever use the same hazard.
pub guards_apart :
    {s : System} → Reach s → (g h i : ℕ) → uses (s.pc g) ≡ some i → uses (s.pc h) ≡ some i → g ≡ h
guards_apart r g h i u v = (Reach-Inv r).apart g h i u v
