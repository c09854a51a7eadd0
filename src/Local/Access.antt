-- ===== src/Local/Access.antt =====
-- The `LocalAccess` trait of src/local.rs, its two implementations (src/local.rs, src/default.rs),
-- and the laws that a guard relies on.
use hazptr.Prelude.{
  ℕ, ◌<◌, ◌≡◌, ◌≢◌, ◌⊎◌, ◌==◌, refl, length, is_empty, Returns-weaken, Returns-both, inl, inr, Bool,
  true, Option, List, ◌∷◌, if◌then◌else◌, Outcome, panics, Returns, Result, ok, err,
}
use hazptr.Hazard.{free, thread_reserved}
use hazptr.Hazard.HazardList.{requested}
use hazptr.Local
use hazptr.Local.{State, RecycleError, access, capacity, hazard_cache_capacity}
use hazptr.Local.Cache.{
  IsOwned, word_at, tail, get_hazard-IsOwned, get_hazard-word, get_hazard-tail, recycled-word,
  try_recycle_hazard-IsOwned,
}
use hazptr.Local.Keeps.{Keeps, increase_ops_count-Keeps}

pub record LocalAccess (R : Type 0) : Type 0 where
  pub get_hazard : State R → Option ℕ → Outcome (ℕ × State R)
  pub try_recycle_hazard : State R → ℕ → Result RecycleError (State R)
  pub increase_ops_count : State R → Outcome (State R)

module _ {R : Type 0} (address : R → ℕ) where
  -- `impl LocalAccess for &Local`
  abbrev pub local_access : LocalAccess R
  local_access = record {
    get_hazard = Local.get_hazard;
    try_recycle_hazard = Local.try_recycle_hazard;
    increase_ops_count = Local.increase_ops_count address;
  }

  -- `DefaultAccess`: `LOCAL.with` panics once the thread's storage is destroyed, and
  -- `LOCAL.try_with` fails.
  abbrev pub default_access : Bool → LocalAccess R
  default_access alive = record {
    get_hazard = λ s protect. if alive then Local.get_hazard s protect else panics;
    try_recycle_hazard = λ s i. if alive then Local.try_recycle_hazard s i else err access;
    increase_ops_count = λ s. if alive then Local.increase_ops_count address s else panics;
  }

-- A hazard given back goes to the front of the thread's cache, reserved. No other word changes.
pub record Recycles {R : Type 0} (i : ℕ) (s t : State R) : Type 0 where
  pub cached : t.local.hazard_cache ≡ i ∷ s.local.hazard_cache
  pub words :
      (j : ℕ)
      → word_at t.global.hazards j
        ≡ (if i == j then thread_reserved else word_at s.global.hazards j)

-- A hazard given out, the first in the cache or one that was free. Its word is what was asked for in
-- the second case only, and no other word changes.
pub record Gives {R : Type 0} (protect : Option ℕ) (s : State R) (i : ℕ) (t : State R)
    : Type 0 where
  pub cached : t.local.hazard_cache ≡ tail s.local.hazard_cache
  pub words :
      (j : ℕ)
      → word_at t.global.hazards j ≡ (
          if i == j
          then (if is_empty s.local.hazard_cache then requested protect else thread_reserved)
          else word_at s.global.hazards j)

-- What the users of an access rely on.
pub record IsLawful {R : Type 0} (a : LocalAccess R) : Type 0 where
  pub get :
      (owned : List ℕ) (s : State R) (protect : Option ℕ)
      → requested protect ≢ free
      → IsOwned owned s
      → Returns (a.get_hazard s protect) (λ r. IsOwned (r.0 ∷ owned) r.1 × Gives protect s r.0 r.1)
  pub recycle :
      (owned : List ℕ) (s : State R) (i : ℕ)
      → IsOwned (i ∷ owned) s
      → ((length s.local.hazard_cache < hazard_cache_capacity)
          × ((t : State R) × (a.try_recycle_hazard s i ≡ ok t) × IsOwned owned t × Recycles i s t))
        ⊎ ((length s.local.hazard_cache ≡ hazard_cache_capacity)
            × (a.try_recycle_hazard s i ≡ err capacity))
  pub count : (s : State R) → Returns (a.increase_ops_count s) (Keeps s)

module _ {R : Type 0} (address : R → ℕ) where
  recycle-Recycles :
      (owned : List ℕ) (s : State R) (i : ℕ)
      → IsOwned (i ∷ owned) s
      → ((length s.local.hazard_cache < hazard_cache_capacity)
          × ((t : State R) × (Local.try_recycle_hazard s i ≡ ok t)
              × IsOwned owned t
              × Recycles i s t))
        ⊎ ((length s.local.hazard_cache ≡ hazard_cache_capacity)
            × (Local.try_recycle_hazard s i ≡ err capacity))
  recycle-Recycles owned s i o = elim (try_recycle_hazard-IsOwned owned s i o) [
    | inl (room, done, fine) ↦ inl (
      room,
      (Local.recycled s i, done, fine, record { cached = refl; words = recycled-word owned s i o }),
    )
    | inr failed ↦ inr failed
  ]

  get-Gives :
      (owned : List ℕ) (s : State R) (protect : Option ℕ)
      → requested protect ≢ free
      → IsOwned owned s
      → Returns
          (Local.get_hazard s protect)
          (λ r. IsOwned (r.0 ∷ owned) r.1 × Gives protect s r.0 r.1)
  get-Gives owned s protect h o =
      Returns-both _ _ (Local.get_hazard s protect) (get_hazard-IsOwned owned s protect h o) (
        Returns-weaken _ _ (Local.get_hazard s protect)
          (λ r (c, w). record { cached = c; words = w })
          (Returns-both _ _ (Local.get_hazard s protect) (get_hazard-tail owned s protect h)
            (get_hazard-word owned s protect h o)))

  -- The access to a thread's own state is lawful.
  pub local_access-IsLawful : IsLawful (local_access address)
  local_access-IsLawful = record {
    get = get-Gives;
    recycle = recycle-Recycles;
    count = increase_ops_count-Keeps address;
  }

  -- While the thread's storage is alive, the default access keeps the laws of LocalAccess: a hazard that
  -- it gives is held by nobody else, leaves the cache if that has one, and changes no other word; one that
  -- is given back goes to the front of the cache and is reserved there exactly if the cache has room, and
  -- is refused, with the error on the capacity, exactly if it is full; counting keeps what is held.
  pub default_access-IsLawful : IsLawful (default_access address true)
  default_access-IsLawful = record {
    get = get-Gives;
    recycle = recycle-Recycles;
    count = increase_ops_count-Keeps address;
  }
