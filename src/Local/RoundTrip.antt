-- ===== src/Local/RoundTrip.antt =====
-- Hazards that guards give up come back from the cache: src/local.rs, `try_recycle_hazard` and `get_hazard`.
use hazptr.Prelude.{
  ℕ, zero, suc, ◌+◌, ◌≤◌, ◌≡◌, ◌≢◌, refl, ap, sym, ◌∙◌, Option, List, [], ◌∷◌, ◌++◌, arith, ltb,
  elem, if◌then◌else◌, Outcome, returns, ◌>>=◌, Result, ok, err, length, true, Returns, >>=-Returns,
  subst,
}
use hazptr.Hazard.{thread_reserved, set_thread_reserved, free}
use hazptr.Local.{
  State, RecycleError, hazard_cache_capacity, recycled, try_recycle_hazard, get_hazard, take_cached,
}
use hazptr.Local.Cache.{word_at, word_at-modify}

abbrev pub reverse : List ℕ → List ℕ
reverse [] = []
reverse (a ∷ l) = reverse l ++ a ∷ []

module _ {R : Type 0} where
  -- One hazard after the other is given up.
  abbrev pub recycle_all : List ℕ → State R → Result RecycleError (State R)
  recycle_all [] s = ok s
  recycle_all (i ∷ l) s = elim (try_recycle_hazard s i) [ err e ↦ err e | ok t ↦ recycle_all l t ]

  -- As many hazards are asked for again.
  abbrev pub get_all : ℕ → Option ℕ → State R → Outcome (List ℕ × State R)
  get_all zero protect s = returns ([], s)
  get_all (suc n) protect s =
      get_all n protect s >>= λ r. get_hazard r.1 protect >>= λ q. returns (r.0 ++ q.0 ∷ [], q.1)

  -- The hazards in the other order, from the thread as it was; their words are reserved.
  pub record Restored (l : List ℕ) (s : State R) (r : List ℕ × State R) : Type 0 where
    pub order : r.0 ≡ reverse l
    pub local : r.1.local ≡ s.local
    pub abandoned : r.1.global.abandoned ≡ s.global.abandoned
    pub reclaimed : r.1.reclaimed ≡ s.reclaimed
    pub words :
        (j : ℕ)
        → word_at r.1.global.hazards j
          ≡ (if elem j l then thread_reserved else word_at s.global.hazards j)

  recycle_all-cons :
      (i : ℕ) (l : List ℕ) (s : State R)
      → ltb (length s.local.hazard_cache) hazard_cache_capacity ≡ true
      → recycle_all (i ∷ l) s ≡ recycle_all l (recycled s i)
  unfolding try_recycle_hazard
  recycle_all-cons i l s room = rw (room, recycle_all) refl

  -- The hazard that was given up last comes back first.
  get_back :
      (l : List ℕ) (i : ℕ) (s : State R) (protect : Option ℕ) (r : List ℕ × State R)
      → word_at s.global.hazards i ≢ free
      → Restored l (recycled s i) r
      → Returns
          (get_hazard r.1 protect >>= λ q. returns (r.0 ++ q.0 ∷ [], q.1))
          (Restored (i ∷ l) s)
  unfolding get_hazard take_cached
  get_back l i s protect r used k =
      subst
        (λ local.
          Returns
            (get_hazard (record (r.1) { local = local }) protect >>= λ q.
              returns (r.0 ++ q.0 ∷ [], q.1))
            (Restored (i ∷ l) s))
        (sym k.local)
        (record {
          order = ap (λ l. l ++ i ∷ []) k.order;
          local = refl;
          abandoned = k.abandoned;
          reclaimed = k.reclaimed;
          words = λ j.
              ground
                (arith, k.words j, word_at-modify s.global.hazards set_thread_reserved i j used);
        })

  -- Hazards in use that a thread gives up, no more than its cache has room for, are all accepted. The
  -- next calls of `get_hazard` give the same ones, the last one first, whatever is to be protected; the
  -- thread's state is then the one before, and so is each word but those of these hazards, which are reserved.
  pub recycle_all-Restored :
      (l : List ℕ) (s : State R) (protect : Option ℕ)
      → length s.local.hazard_cache + length l ≤ hazard_cache_capacity
      → ((i : ℕ) → elem i l ≡ true → word_at s.global.hazards i ≢ free)
      → (t : State R) × (recycle_all l s ≡ ok t)
        × Returns (get_all (length l) protect t) (Restored l s)
  recycle_all-Restored [] s protect room used = (
    s,
    refl,
    record { order = refl; local = refl; abandoned = refl; reclaimed = refl; words = λ j. refl },
  )
  recycle_all-Restored (i ∷ l) s protect room used =
      let fits : ltb (length s.local.hazard_cache) hazard_cache_capacity ≡ true =
        ground (arith, room) in
      let here : word_at s.global.hazards i ≢ free = used i (ground arith) in
      let (t, e, back) =
        recycle_all-Restored l (recycled s i) protect (omega (arith, room)) (λ j h f.
          ground
            (arith, used j, h, f, word_at-modify s.global.hazards set_thread_reserved i j here)) in
      (
        t,
        recycle_all-cons i l s fits ∙ e,
        >>=-Returns (Restored l (recycled s i)) _ (get_all (length l) protect t) _ back
            (λ r k. get_back l i s protect r here k),
      )
