-- ===== src/Guard/Lifetime.antt =====
-- From a guard's creation to its drop: src/guard.rs, `with_access`, `clone` and `drop`.
use hazptr.Prelude.{
  ℕ, ◌≡◌, ◌≢◌, inl, inr, Bool, true, false, none, some, List, ◌∷◌, arith, ◌==◌, if◌then◌else◌,
  Option-cases, Returns, Returns-weaken, >>=-Returns, modify, get_elem?,
}
use hazptr.Hazard.{free, thread_reserved, set_free}
use hazptr.Hazard.HazardList.{HazardList}
use hazptr.Local.{State, store}
use hazptr.Local.Cache.{IsOwned, word_at, word_at-modify}
use hazptr.Local.Keeps.{Keeps}
use hazptr.Local.Access.{LocalAccess, IsLawful}
use hazptr.Guard.{protected_at, with_access, clone, give_back, drop}

pub protected_at_word :
    (hs : HazardList) (i p : ℕ)
    → protected_at hs i ≡ some p
    → (p ≡ word_at hs i) × (p ≢ free) × (p ≢ thread_reserved)
protected_at_word hs i p e = elim (Option-cases (get_elem? hs i)) [
  | inl none_there ↦ absurd (ground (arith, none_there, e))
  | inr (h, there) ↦ ground (arith, there, e)
]

module _ {R : Type 0} (access : LocalAccess R) (lawful : IsLawful access) (owned : List ℕ) where
  -- A new guard has a hazard that nobody else holds.
  pub with_access-IsOwned :
      (s : State R)
      → IsOwned owned s
      → Returns (with_access access s) (λ r. IsOwned (r.0 ∷ owned) r.1)
  unfolding with_access
  with_access-IsOwned s o =
      Returns-weaken _ _ (access.get_hazard s none) (λ r k. k.0)
        (lawful.get owned s none (λ e. omega arith) o)

  -- A clone has a hazard of its own.
  pub clone-IsOwned :
      (s : State R) (hazard : ℕ)
      → IsOwned owned s
      → Returns (clone access s hazard) (λ r. IsOwned (r.0 ∷ owned) r.1)
  unfolding clone
  clone-IsOwned s hazard o = elim (Option-cases (protected_at s.global.hazards hazard)) [
    | inl idle ↦
        rw (idle, clone)
          (Returns-weaken _ _ (access.get_hazard s none) (λ r k. k.0)
            (lawful.get owned s none (λ e. omega arith) o))
    | inr (p, e) ↦
        rw (e, clone)
          (Returns-weaken _ _ (access.get_hazard s (some p)) (λ r k. k.0)
            (lawful.get owned s (some p) (protected_at_word s.global.hazards hazard p e).1 o))
  ]

  Keeps-IsOwned : (l : List ℕ) (s t : State R) → IsOwned l s → Keeps s t → IsOwned l t
  Keeps-IsOwned l s t o k = record {
    apart = λ i. rw k.cache (o.apart i);
    claimed = λ i. rw k.hazards (o.claimed i);
    parked = λ i. rw (k.cache, k.hazards) (o.parked i);
    small = rw k.cache o.small;
  }

  freed-IsOwned :
      (s : State R) (hazard : ℕ)
      → IsOwned (hazard ∷ owned) s
      → IsOwned owned (store s (modify s.global.hazards hazard set_free))
  freed-IsOwned s hazard o = record {
    apart = λ j. ground (arith, o.apart j);
    claimed = λ j. ground (arith, now j, o.claimed j, o.apart j);
    parked = λ j. ground (arith, now j, o.parked j, o.apart j);
    small = o.small;
  }
    where
      now :
          (j : ℕ)
          → word_at (modify s.global.hazards hazard set_free) j
            ≡ (if hazard == j then free else word_at s.global.hazards j)
      now j = word_at-modify s.global.hazards set_free hazard j (o.claimed hazard (ground arith))

  give_back-IsOwned :
      (s : State R) (hazard : ℕ)
      → IsOwned (hazard ∷ owned) s
      → IsOwned owned (give_back access s hazard)
  unfolding give_back
  give_back-IsOwned s hazard o = elim (lawful.recycle owned s hazard o) [
    | inl (room, (t, done, fine, r)) ↦ rw (done, give_back) fine
    | inr (full, failed) ↦ rw (failed, give_back) (freed-IsOwned s hazard o)
  ]

  -- A dropped guard gives its hazard back without a panic: what others hold is still held once and
  -- not free, and what the cache holds is reserved.
  pub drop-IsOwned :
      (count_release : Bool) (s : State R) (hazard : ℕ)
      → IsOwned (hazard ∷ owned) s
      → Returns (drop access count_release s hazard) (IsOwned owned)
  unfolding drop
  drop-IsOwned true s hazard o =
      >>=-Returns (Keeps s) _ (access.increase_ops_count s) _ (lawful.count s)
        (λ t k. give_back-IsOwned t hazard (Keeps-IsOwned (hazard ∷ owned) s t o k))
  drop-IsOwned false s hazard o = give_back-IsOwned s hazard o
