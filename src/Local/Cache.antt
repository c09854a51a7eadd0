-- ===== src/Local/Cache.antt =====
-- Who holds which hazard: src/local.rs, `get_hazard` and `try_recycle_hazard`.
use hazptr.Prelude.{
  ℕ, zero, suc, ◌+◌, ◌<◌, ◌≤◌, ◌≡◌, ◌≢◌, ◌⊎◌, inl, inr, refl, ap, Option, none, some, List, [], ◌∷◌,
  arith, ◌==◌, ltb, if◌then◌else◌, Bool-cases, Returns, >>=-Returns, ok, err, length, count_p,
  is_empty, get_elem?, get_elem?-length, subst, modify,
}
use hazptr.Hazard.{Hazard, free, thread_reserved, set_thread_reserved}
use hazptr.Hazard.HazardList
use hazptr.Hazard.HazardList.{HazardList, requested, Acquired, get_hazard-Acquired}
use hazptr.Global
use hazptr.Global.{Global}
use hazptr.Local.{
  State, capacity, hazard_cache_capacity, take_cached, get_hazard, recycled, try_recycle_hazard,
}

-- The word at a position; a position past the end reads as free.
abbrev pub word : Option Hazard → ℕ
word none = free
word (some h) = h.protected

abbrev pub word_at : HazardList → ℕ → ℕ
word_at hs i = word (get_elem? hs i)

abbrev pub tail : List ℕ → List ℕ
tail [] = []
tail (i ∷ l) = l

-- How often a list of positions has the position.
abbrev pub holds : List ℕ → ℕ → ℕ
holds l i = count_p (λ j. i == j) l

-- `owned` are the positions of the hazards that live guards and other threads hold. No position is
-- held twice, none that is held is free, and those of the cache are reserved.
pub record IsOwned {R : Type 0} (owned : List ℕ) (s : State R) : Type 0 where
  pub apart : (i : ℕ) → holds s.local.hazard_cache i + holds owned i ≤ 1
  pub claimed : (i : ℕ) → 0 < holds owned i → word_at s.global.hazards i ≢ free
  pub parked :
      (i : ℕ) → 0 < holds s.local.hazard_cache i → word_at s.global.hazards i ≡ thread_reserved
  pub small : length s.local.hazard_cache ≤ hazard_cache_capacity

pub word_at-modify :
    (hs : HazardList) (f : Hazard → Hazard) (i j : ℕ)
    → word_at hs i ≢ free
    → word_at (modify hs i f) j
      ≡ (if i == j then word (some (f (record { protected = word_at hs i }))) else word_at hs j)
word_at-modify [] f i j h = absurd (h refl)
word_at-modify (x ∷ hs) f zero zero h = refl
word_at-modify (x ∷ hs) f zero (suc j) h = ground arith
word_at-modify (x ∷ hs) f (suc i) zero h = ground arith
word_at-modify (x ∷ hs) f (suc i) (suc j) h = ground (arith, word_at-modify hs f i j h)

-- The words after a hazard has been acquired.
Acquired-word :
    (ptr : ℕ) (hs : HazardList) (r : ℕ × HazardList)
    → Acquired ptr hs r
    → (word_at hs r.0 ≡ free) × ((j : ℕ) → word_at r.1 j ≡ (if r.0 == j then ptr else word_at hs j))
Acquired-word ptr hs r a = (was a.source, now)
  where
    was :
        ((get_elem? hs r.0 ≡ some (record { protected = free })) × (length r.1 ≡ length hs))
          ⊎ ((r.0 ≡ length hs) × (length r.1 ≡ length hs + 1))
        → word_at hs r.0 ≡ free
    was (inl (e, _)) = ap word e
    was (inr (e, _)) = rw e (ap word (get_elem?-length hs))

    now : (j : ℕ) → word_at r.1 j ≡ (if r.0 == j then ptr else word_at hs j)
    now j = elim (Bool-cases (r.0 == j)) [
      | inl same ↦
          let e : r.0 ≡ j = ground (arith, same) in
          rw same
            (ap word (subst (λ k. get_elem? r.1 k ≡ some (record { protected = ptr })) e a.here))
      | inr other ↦ rw other (ap word (a.others j (λ e. ground (arith, other, e))))
    ]

Global_get_hazard-Acquired :
    {R : Type 0} (g : Global R) (protect : Option ℕ)
    → requested protect ≢ free
    → Returns
        (Global.get_hazard g protect)
        (λ r. Acquired (requested protect) g.hazards (r.0, r.1.hazards))
unfolding Global.get_hazard
Global_get_hazard-Acquired g protect h =
    >>=-Returns _ _ (HazardList.get_hazard g.hazards protect) _
      (get_hazard-Acquired g.hazards protect h) (λ r a. a)

module _ {R : Type 0} (owned : List ℕ) where
  -- A hazard from the cache or from the list is one that nobody else holds.
  pub get_hazard-IsOwned :
      (s : State R) (protect : Option ℕ)
      → requested protect ≢ free
      → IsOwned owned s
      → Returns (get_hazard s protect) (λ r. IsOwned (r.0 ∷ owned) r.1)
  unfolding get_hazard
  get_hazard-IsOwned s protect h o = take (s.local.hazard_cache) refl
    where
      listed :
          s.local.hazard_cache ≡ []
          → (r : ℕ × Global R)
          → (word_at s.global.hazards r.0 ≡ free)
            × ((j : ℕ)
                → word_at r.1.hazards j
                  ≡ (if r.0 == j then requested protect else word_at s.global.hazards j))
          → IsOwned (r.0 ∷ owned) (record s { global = r.1 })
      listed e r (was, now) = record {
        apart = λ j. ground (arith, was, o.apart j, o.claimed j, ap (λ l. holds l j) e);
        claimed = λ j. ground (arith, now j, h, o.claimed j);
        parked = λ j. ground (arith, ap (λ l. holds l j) e);
        small = o.small;
      }

      take :
          (cache : List ℕ)
          → s.local.hazard_cache ≡ cache
          → Returns (take_cached cache protect s) (λ r. IsOwned (r.0 ∷ owned) r.1)
      take [] e =
          >>=-Returns (λ r. Acquired (requested protect) s.global.hazards (r.0, r.1.hazards)) _
            (Global.get_hazard s.global protect) _ (Global_get_hazard-Acquired s.global protect h)
            (λ r a. listed e r (Acquired-word _ s.global.hazards _ a))
      take (i ∷ cache) e = record {
        apart = λ j. ground (arith, o.apart j, ap (λ l. holds l j) e);
        claimed = λ j. ground (arith, o.claimed j, o.parked j, ap (λ l. holds l j) e);
        parked = λ j. ground (arith, o.parked j, ap (λ l. holds l j) e);
        small = omega (arith, ap (length {A = ℕ}) e);
      }

  -- The words after: the hazard's is what was asked for, if the cache is empty, or else the
  -- reservation; no other changes.
  pub get_hazard-word :
      (s : State R) (protect : Option ℕ)
      → requested protect ≢ free
      → IsOwned owned s
      → Returns (get_hazard s protect) (λ r.
        (j : ℕ)
        → word_at r.1.global.hazards j ≡ (
            if r.0 == j
            then (if is_empty s.local.hazard_cache then requested protect else thread_reserved)
            else word_at s.global.hazards j))
  unfolding get_hazard take_cached
  get_hazard-word s protect h o = take s.local.hazard_cache refl
    where
      take :
          (cache : List ℕ)
          → s.local.hazard_cache ≡ cache
          → Returns (take_cached cache protect s) (λ r.
            (j : ℕ)
            → word_at r.1.global.hazards j ≡ (
                if r.0 == j
                then (if is_empty cache then requested protect else thread_reserved)
                else word_at s.global.hazards j))
      take [] e =
          >>=-Returns (λ r. Acquired (requested protect) s.global.hazards (r.0, r.1.hazards)) _
            (Global.get_hazard s.global protect) _ (Global_get_hazard-Acquired s.global protect h)
            (λ r a. (Acquired-word (requested protect) s.global.hazards _ a).1)
      take (i ∷ cache) e = λ j.
          let p = o.parked i (ground (arith, ap (λ l. holds l i) e)) in
          elim (Bool-cases (i == j)) [
            | inl same ↦
                let z : i ≡ j = ground (arith, same) in
                rw same (subst (λ k. word_at s.global.hazards k ≡ thread_reserved) z p)
            | inr other ↦ rw other refl
          ]

  -- A hazard that comes from the cache leaves it.
  pub get_hazard-tail :
      (s : State R) (protect : Option ℕ)
      → requested protect ≢ free
      → Returns (get_hazard s protect) (λ r. r.1.local.hazard_cache ≡ tail s.local.hazard_cache)
  unfolding get_hazard take_cached
  get_hazard-tail s protect h = take s.local.hazard_cache refl
    where
      take :
          (cache : List ℕ)
          → s.local.hazard_cache ≡ cache
          → Returns (take_cached cache protect s) (λ r. r.1.local.hazard_cache ≡ tail cache)
      take [] e =
          >>=-Returns (λ r. Acquired (requested protect) s.global.hazards (r.0, r.1.hazards)) _
            (Global.get_hazard s.global protect) _ (Global_get_hazard-Acquired s.global protect h)
            (λ r a. e)
      take (i ∷ cache) e = refl

  -- Only the word of the recycled hazard changes, to the reservation.
  pub recycled-word :
      (s : State R) (i : ℕ)
      → IsOwned (i ∷ owned) s
      → (j : ℕ)
      → word_at (recycled s i).global.hazards j
        ≡ (if i == j then thread_reserved else word_at s.global.hazards j)
  recycled-word s i o j =
      word_at-modify s.global.hazards set_thread_reserved i j (o.claimed i (ground arith))

  recycled-IsOwned :
      (s : State R) (i : ℕ)
      → length s.local.hazard_cache < hazard_cache_capacity
      → IsOwned (i ∷ owned) s
      → IsOwned owned (recycled s i)
  recycled-IsOwned s i room o = record {
    apart = λ j. ground (arith, o.apart j);
    claimed = λ j. ground (arith, recycled-word s i o j, o.claimed j);
    parked = λ j. ground (arith, recycled-word s i o j, o.parked j);
    small = omega arith;
  }

  -- A hazard that its holder gives up goes to the cache exactly if that has room, and is reserved
  -- there; otherwise nothing changes.
  pub try_recycle_hazard-IsOwned :
      (s : State R) (i : ℕ)
      → IsOwned (i ∷ owned) s
      → ((length s.local.hazard_cache < hazard_cache_capacity)
          × (try_recycle_hazard s i ≡ ok (recycled s i))
          × IsOwned owned (recycled s i))
        ⊎ ((length s.local.hazard_cache ≡ hazard_cache_capacity)
            × (try_recycle_hazard s i ≡ err capacity))
  unfolding try_recycle_hazard
  try_recycle_hazard-IsOwned s i o =
      elim (Bool-cases (ltb (length s.local.hazard_cache) hazard_cache_capacity)) [
        | inl room ↦
            inl (ground (arith, room), rw room, recycled-IsOwned s i (ground (arith, room)) o)
        | inr full ↦ inr (ground (arith, full, o.small), rw full)
      ]
