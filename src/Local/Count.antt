-- ===== src/Local/Count.antt =====
-- When a thread scans: src/local.rs, `increase_ops_count` and `retire_record`.
use native.Mathlib.Nat.{suc-mul}
use hazptr.Config.{Config}
use hazptr.Prelude.{
  sym, subst, ◌∙◌, suc, ℕ, ◌+◌, ◌*◌, ◌%◌, ◌^◌, ◌<◌, ◌≡◌, inl, inr, refl, ap, false, List, [], ◌∷◌,
  arith, ◌==◌, Bool-cases, Outcome, returns, ◌>>=◌, Returns, >>=-Returns, Returns-weaken, length,
}
use hazptr.Local.{
  LocalInner, State, scan_hazards, flushed, try_flush, increase_ops_count, stash, retire_record,
}
use hazptr.Local.Scan.{Scans, scan_hazards-Scans}

-- The count stands below the threshold, which is a u32.
pub record IsCounting {R : Type 0} (l : LocalInner R) : Type 0 where
  pub below : l.ops_count < l.config.scan_threshold
  pub wide : l.config.scan_threshold < 2 ^ 32

abbrev pub with_count : {R : Type 0} → State R → ℕ → State R
with_count s n = record s { local = record (s.local) { ops_count = n } }

module _ {R : Type 0} (address : R → ℕ) where
  -- One more operation: counted, or the one at which the thread flushes.
  pub data Counts (s t : State R) : Type 0 where
    counted :
        s.local.ops_count + 1 < s.local.config.scan_threshold
        → t ≡ with_count s (s.local.ops_count + 1)
        → Counts s t
    flushes :
        s.local.ops_count + 1 ≡ s.local.config.scan_threshold
        → Scans address (flushed (with_count s (s.local.ops_count + 1))) t
        → Counts s t

  -- Neither the count nor a scan can panic; the thread flushes exactly when the count reaches the
  -- threshold.
  pub increase_ops_count-Counts :
      (s : State R) → IsCounting s.local → Returns (increase_ops_count address s) (Counts s)
  unfolding increase_ops_count try_flush
  increase_ops_count-Counts s c =
      elim (Bool-cases (s.local.ops_count + 1 == s.local.config.scan_threshold)) [
        | inl due ↦
            rw (exact, due)
              (Returns-weaken _ _
                (scan_hazards address (flushed (with_count s (s.local.ops_count + 1))))
                (λ t scans. flushes (ground arith) scans) (scan_hazards-Scans address _))
        | inr early ↦ rw (exact, early) (counted (ground arith) refl)
      ]
    where
      exact : (s.local.ops_count + 1) % 2 ^ 32 ≡ s.local.ops_count + 1
      exact = omega arith

  Scans-same :
      (s t : State R)
      → Scans address s t
      → (t.local.ops_count ≡ s.local.ops_count) × (t.local.config ≡ s.local.config)
  Scans-same s t (inl (few, e)) =
      (ap (λ (u : State R). u.local.ops_count) e, ap (λ (u : State R). u.local.config) e)
  Scans-same s t (inr (many, r)) = (r.ops_count, r.config)

  -- `retire_record` for each record in turn.
  abbrev pub retire_all : State R → List R → Outcome (State R)
  retire_all s [] = returns s
  retire_all s (r ∷ rs) = retire_record address false s r >>= λ t. retire_all t rs

  -- The states from `s` to `t` through which these retirements go, with so many flushes: a record that is
  -- stashed below the threshold is counted only, and with the one that reaches it the thread adopts, scans
  -- and reclaims.
  pub data Flushing (t : State R) : ℕ → State R → List R → Type 0 where
    done : Flushing t 0 t []
    below :
        {flushes : ℕ} {s : State R} {r : R} {rs : List R}
        → s.local.ops_count + 1 < s.local.config.scan_threshold
        → Flushing t flushes (with_count (stash s r) (s.local.ops_count + 1)) rs
        → Flushing t flushes s (r ∷ rs)
    reached :
        {flushes : ℕ} {s u : State R} {r : R} {rs : List R}
        → s.local.ops_count + 1 ≡ s.local.config.scan_threshold
        → Scans address (flushed (with_count (stash s r) (s.local.ops_count + 1))) u
        → Flushing t flushes u rs
        → Flushing t (suc flushes) s (r ∷ rs)

  pub record Flushed (s : State R) (rs : List R) (t : State R) : Type 0 where
    pub flushes : ℕ
    pub states : Flushing t flushes s rs
    pub counting : IsCounting t.local
    pub config : t.local.config ≡ s.local.config
    pub total :
        s.local.ops_count + length rs ≡ flushes * s.local.config.scan_threshold + t.local.ops_count

  below-Flushed :
      (s : State R) (r : R) (rs : List R) (t : State R)
      → s.local.ops_count + 1 < s.local.config.scan_threshold
      → Flushed (with_count (stash s r) (s.local.ops_count + 1)) rs t
      → Flushed s (r ∷ rs) t
  below-Flushed s r rs t lt f = record {
    flushes = f.flushes;
    states = below lt f.states;
    counting = f.counting;
    config = f.config;
    total = omega (arith, f.total);
  }

  reached-Flushed :
      (s u : State R) (r : R) (rs : List R) (t : State R)
      → s.local.ops_count + 1 ≡ s.local.config.scan_threshold
      → Scans address (flushed (with_count (stash s r) (s.local.ops_count + 1))) u
      → (u.local.ops_count ≡ 0) × (u.local.config ≡ s.local.config)
      → Flushed u rs t
      → Flushed s (r ∷ rs) t
  reached-Flushed s u r rs t due scans (zeroed, same) f = record {
    flushes = suc f.flushes;
    states = reached due scans f.states;
    counting = f.counting;
    config = f.config ∙ same;
    total =
        let e : f.flushes * u.local.config.scan_threshold
            ≡ f.flushes * s.local.config.scan_threshold =
          ap (λ (x : Config). f.flushes * x.scan_threshold) same in
        omega (arith, f.total, e, zeroed, suc-mul f.flushes s.local.config.scan_threshold);
  }

  flush_same :
      (s u : State R) (r : R)
      → Scans address (flushed (with_count (stash s r) (s.local.ops_count + 1))) u
      → (u.local.ops_count ≡ 0) × (u.local.config ≡ s.local.config)
  unfolding flushed
  flush_same s u r scans = Scans-same _ u scans

  restarts :
      (s t : State R)
      → IsCounting s.local
      → (t.local.ops_count ≡ 0) × (t.local.config ≡ s.local.config)
      → IsCounting t.local
  restarts s t c (zeroed, same) =
      let e = ap (λ (x : Config). x.scan_threshold) same in
      record { below = omega (arith, c.below, zeroed, e); wide = omega (arith, c.wide, e) }

  retire_next :
      (s : State R) (r : R) (rs : List R)
      → IsCounting s.local
      → ((u : State R) → IsCounting u.local → Returns (retire_all u rs) (Flushed u rs))
      → (t : State R) → Counts (stash s r) t
      → Returns (retire_all t rs) (Flushed s (r ∷ rs))
  retire_next s r rs c rest t (counted lt e) =
      subst (λ t. Returns (retire_all t rs) (Flushed s (r ∷ rs))) (sym e)
        (Returns-weaken _ _ (retire_all _ rs) (λ u f. below-Flushed s r rs u lt f)
          (rest _ (record { below = lt; wide = c.wide })))
  retire_next s r rs c rest t (flushes due scans) =
      let z = flush_same s t r scans in
      Returns-weaken _ _ (retire_all t rs) (λ u f. reached-Flushed s t r rs u due scans z f)
        (rest t (restarts s t c z))

  -- From a count below the threshold, retirements do not panic. A thread that counts them flushes, with a scan of the hazards, at exactly
  -- those that bring its count to `scan_threshold`, and starts again from 0: with `flushes` flushes, the
  -- count at first plus the retirements is `flushes * scan_threshold` plus the count at the end, which is
  -- below the threshold.
  pub retire_all-Flushed :
      (s : State R) (rs : List R) → IsCounting s.local → Returns (retire_all s rs) (Flushed s rs)
  unfolding retire_record
  retire_all-Flushed s [] c = record {
    flushes = 0;
    states = done;
    counting = c;
    config = refl;
    total = omega arith;
  }
  retire_all-Flushed s (r ∷ rs) c =
      >>=-Returns (Counts (stash s r)) _ (increase_ops_count address (stash s r)) _
        (increase_ops_count-Counts (stash s r) (record { below = c.below; wide = c.wide }))
        (retire_next s r rs c (λ u d. retire_all-Flushed u rs d))
