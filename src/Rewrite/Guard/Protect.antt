-- ===== src/Rewrite/Guard/Protect.antt =====
-- What a guard protects: hazptr_rewrite/src/guard.rs, `protect`, `protect_if_equal` and `release`.
use hazptr.Prelude.{
  ℕ, ◌≡◌, ◌≢◌, inl, inr, refl, sym, ap, ◌∙◌, true, false, if◌then◌else◌, arith, Bool-cases, returns,
  Returns, >>=-Returns, Result, ok, err,
}
use hazptr.Hazard.{seq_cst}
use hazptr.Rewrite.Config.{Operation}
use hazptr.Rewrite.Hazard.{with_protected, thread_reserved, not_yet_used}
use hazptr.Rewrite.HazardList.{iter}
use hazptr.Rewrite.HazardList.Acquire.{word_at}
use hazptr.Rewrite.Local.{State, set_protected, modify_hazard, store, try_increase_ops_count}
use hazptr.Rewrite.Local.Records.{IsFit}
use hazptr.Rewrite.Local.Leaves.{Leaves, try_increase_ops_count-Leaves}
use hazptr.Rewrite.Local.Access.{words, word_at-modify, iter-modify_hazard}
use hazptr.Rewrite.Guard.{
  MaybeNull, null, not_null, Pointers, NotEqualError, not_equal, reserve, release, protect_if_equal,
}

-- The guard's word is `w` now, and no other has changed; the strategies still agree.
pub record Rewritten {R : Type 0} (hazard : ℕ) (s : State R) (w : ℕ) (t : State R) : Type 0 where
  pub fit : IsFit t
  pub here : word_at (words t) hazard ≡ w
  pub others : (j : ℕ) → j ≢ hazard → word_at (words t) j ≡ word_at (words s) j

module _ {R : Type 0} (address : R → ℕ) (hazard : ℕ) where
  pub unchanged : (s : State R) → IsFit s → Rewritten hazard s (word_at (words s) hazard) s
  unchanged s h = record { fit = h; here = refl; others = λ j ne. refl }

  store-Rewritten :
      (base s : State R) (w v : ℕ)
      → w ≢ not_yet_used
      → Rewritten hazard base w s
      → Rewritten hazard base v
          (store s (modify_hazard s.global.hazards hazard (λ _. with_protected v)))
  store-Rewritten base s w v ne r =
      let stored = word_at-modify (words s) hazard v (λ e. ne (sym r.here ∙ e)) in
      let same = iter-modify_hazard s.global.hazards hazard (λ _. with_protected v) in
      record {
        fit = r.fit;
        here = ap (λ hs. word_at hs hazard) same ∙ stored.0;
        others = λ j n. ap (λ hs. word_at hs j) same ∙ stored.1 j n ∙ r.others j n;
      }

  pub set_protected-Rewritten :
      (base s : State R) (w v : ℕ)
      → w ≢ not_yet_used
      → Rewritten hazard base w s
      → Returns (set_protected s hazard v seq_cst) (Rewritten hazard base v)
  unfolding set_protected
  set_protected-Rewritten base s w v ne r = store-Rewritten base s w v ne r

  -- A release does not panic, and reserves the hazard.
  pub release-Rewritten :
      (base s : State R) (w : ℕ)
      → w ≢ not_yet_used
      → Rewritten hazard base w s
      → Returns (release address hazard s) (Rewritten hazard base thread_reserved)
  unfolding release
  release-Rewritten base s w ne r =
      >>=-Returns (Leaves s) _ (try_increase_ops_count address s Operation.release) _
        (try_increase_ops_count-Leaves address s Operation.release r.fit)
        (λ t k. store-Rewritten base t w thread_reserved ne (record {
          fit = k.fit;
          here = ap (λ hs. word_at (iter hs) hazard) k.hazards ∙ r.here;
          others = λ j n. ap (λ hs. word_at (iter hs) j) k.hazards ∙ r.others j n;
        }))

module _ (P : Pointers) {R : Type 0} (address : R → ℕ) (hazard : ℕ) where
  open P use {
    MarkedPtr, MarkedNonNull, maybe_null, into_marked_ptr, decompose, eq, decompose-IsAddress,
    eq_sound,
  }

  -- The outcome, by the loads that lead to it.
  pub data IfEqual (expected first second : MarkedPtr) (s : State R)
      : Result NotEqualError (MaybeNull MarkedNonNull) × State R → Type 0 where
    differs : eq first expected ≡ false → IfEqual expected first second s (err not_equal, s)
    was_null :
        {tag : ℕ} {t : State R}
        → maybe_null expected ≡ null tag
        → Rewritten hazard s thread_reserved t
        → IfEqual expected first second s (ok (null tag), t)
    kept :
        {v : MarkedNonNull} {t : State R}
        → maybe_null expected ≡ not_null v
        → second ≡ into_marked_ptr v
        → Rewritten hazard s (decompose v) t
        → IfEqual expected first second s (ok (not_null v), t)
    changed :
        {v : MarkedNonNull} {t : State R}
        → maybe_null expected ≡ not_null v
        → eq second (into_marked_ptr v) ≡ false
        → Rewritten hazard s thread_reserved t
        → IfEqual expected first second s (err not_equal, t)

  pub address_used : (v : MarkedNonNull) → decompose v ≢ not_yet_used
  address_used v e = omega (arith, decompose-IsAddress v, e)

  -- `protect_if_equal` with a hazard that has been used does not panic. A value is returned only if
  -- it is the expected one and the second load gave it again, and the hazard holds its pointer then;
  -- a null is returned only if it is expected. After a first load that differs nothing has changed;
  -- after a second one that differs, and on a null, the hazard is reserved.
  pub protect_if_equal_expected :
      (expected first second : MarkedPtr) (s : State R)
      → word_at (words s) hazard ≢ not_yet_used
      → IsFit s
      → Returns
          (protect_if_equal P address hazard expected first second s)
          (IfEqual expected first second s)
  unfolding protect_if_equal
  protect_if_equal_expected expected first second s used fit =
      elim (Bool-cases (eq first expected)) [
        | inl equal ↦ go (maybe_null first) refl equal
        | inr unequal ↦ rw unequal (differs unequal)
      ]
    where
      go :
          (m : MaybeNull MarkedNonNull)
          → maybe_null first ≡ m
          → eq first expected ≡ true
          → Returns
              (protect_if_equal P address hazard expected first second s)
              (IfEqual expected first second s)
      go (null tag) e equal =
          rw (equal, e, protect_if_equal)
            (>>=-Returns _ (IfEqual expected first second s) (release address hazard s)
              (λ t. returns (ok (null tag), t))
              (release-Rewritten address hazard s s _ used (unchanged address hazard s fit))
              (λ t r. was_null (ap maybe_null (sym (eq_sound first expected equal)) ∙ e) r))
      go (not_null v) e equal =
          rw (equal, e, protect_if_equal)
            (>>=-Returns (Rewritten hazard s (decompose v)) (IfEqual expected first second s)
              (set_protected s hazard (decompose v) seq_cst)
              (λ t.
                if eq second (into_marked_ptr v)
                then returns (ok (not_null v), t)
                else returns (err not_equal, reserve t hazard))
              (set_protected-Rewritten address hazard s s _ (decompose v) used
                (unchanged address hazard s fit))
              (λ t r. elim (Bool-cases (eq second (into_marked_ptr v))) [
                | inl again ↦ rw again (
                    kept (ap maybe_null (sym (eq_sound first expected equal)) ∙ e)
                      (eq_sound second (into_marked_ptr v) again) r)
                | inr other ↦ rw other (
                    changed (ap maybe_null (sym (eq_sound first expected equal)) ∙ e) other
                      (store-Rewritten address hazard s t _ thread_reserved (address_used v) r))
              ]))
