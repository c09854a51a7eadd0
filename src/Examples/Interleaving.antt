-- ===== src/Examples/Interleaving.antt =====
-- A guard protects a record that is then retired and survives a scan.
use hazptr.Prelude.{update, ℕ, zero, suc, ◌≡◌, ◌≢◌, [], ◌∷◌, arith, refl}
use hazptr.Local.Cache.{word_at}
use hazptr.Protocol.{
  unused, System, Reach, start, later, Claims, guard, allocate, write, write_null, retire,
  scan_begin, scan_read, scan_end, acquire, load, store, confirm,
}
use hazptr.Protocol.Safety.{protected_not_reclaimed, guards_apart}
use hazptr.Examples.Sample.{hazard}

claims : Claims [] 0 (hazard 1 ∷ [])
claims = record { was = refl; now = refl; others = others }
  where
    others : (j : ℕ) → j ≢ 0 → word_at (hazard 1 ∷ []) j ≡ word_at [] j
    others zero h = absurd (h refl)
    others (suc j) h = refl

unlinked : (c : ℕ) → update {A = ℕ} (update (λ _. 0) 0 100) 0 0 c ≢ 100
unlinked zero e = omega (arith, e)
unlinked (suc c) e = ground (arith, e)

-- Guard 0 protects the record at 100, which is unlinked and retired while it does; a scan has just
-- ended.
abbrev run : (s : System) × Reach s
run = (
  _,
  later
      (later
        (later
          (later
            (later
              (later
                (later
                  (later
                    (later
                      (later (later start (guard 0 (acquire claims)))
                        (allocate 100 (omega arith) refl))
                      (write 0 100 refl))
                    (guard 0 (load {c = 0} refl (omega arith))))
                  (guard 0 store))
                (guard 0 (confirm refl)))
              (write_null 0))
            (retire 0 100 refl refl unlinked))
          (scan_begin 0 refl))
        (scan_read 0 0 refl refl))
      (scan_end 0 1 refl refl),
)

protected_not_reclaimed_example : (run.0.status 100 ≢ unused) × (word_at run.0.hazards 0 ≡ 100)
protected_not_reclaimed_example = protected_not_reclaimed run.1 0 0 100 refl

guards_apart_example : ◌≡◌ {A = ℕ} 0 0
guards_apart_example = guards_apart run.1 0 0 0 refl refl
