-- ===== src/Examples/SharedHazards.antt =====
-- Two threads get hazards of the rewrite's list while a scan goes through it.
use hazptr.Prelude.{ℕ, ◌≡◌, true, false, arith, refl, List, elem}
use hazptr.Rewrite.HazardList.Threads.{
  System, run, get_or_insert, advance, step, perform, Reached, start, acts, is_available,
}
use hazptr.Rewrite.HazardList.Threads.Scan.{Scan, scan, Scanning, begins, others, scans}
use hazptr.Rewrite.HazardList.Threads.Apart.{Reached-alone, perform-KeepsHazard}
use hazptr.Rewrite.HazardList.Threads.Collected.{Scanning-Collects}
use hazptr.Std.Linked.{IsList}

-- Thread 0 has got the first hazard of the node at 8, for the address 100.
abbrev acquired : (s : System) × Reached s
unfolding perform advance step
acquired = (
  _,
  acts (run 0 16) _
      (acts (run 0 8) _ (acts (get_or_insert 0 100) _ start (refl, refl))
        (refl, λ e. omega (arith, e)))
      (refl, λ e. omega (arith, e)),
)

-- The scan gets to the node and looks at its first hazard, while thread 1 comes to the second one and
-- then acquires it, which the scan then looks at; the third has never been used.
abbrev scanned : (s : System) × (c : Scan) × Scanning 0 8 0 100 s c
unfolding perform advance step scan
scanned = (
  _,
  _,
  scans _ _ (
      scans _ _ (
        others (run 1 16) _ _
          (others (run 1 16) _ _
            (scans _ _ (
              others (run 1 16) _ _
                (others (run 1 16) _ _
                  (scans _ _ (
                    others (get_or_insert 1 200) _ _ (begins _ acquired.1 refl refl) (refl, refl)
                      refl refl))
                  (refl, λ e. omega (arith, e)) refl refl)
                (refl, λ e. omega (arith, e)) refl refl))
            (refl, λ e. omega (arith, e)) refl refl)
          (refl, λ e. omega (arith, e)) refl refl)),
)

Reached-alone_example :
    ◌≡◌ {A = ℕ} 0 0
    × (is_available (acquired.0.shared.nodes.words 8 0) ≡ false)
    × ((l : List ℕ) × IsList acquired.0.shared.nodes.next 0 l × (elem 8 l ≡ true))
unfolding acquired
Reached-alone_example = Reached-alone acquired.0 0 0 8 0 acquired.1 refl refl

-- Thread 1 begins to look for a hazard.
perform-KeepsHazard_example :
    ((perform (get_or_insert 1 200) acquired.0).shared.has 0 8 0 ≡ true)
    × ((perform (get_or_insert 1 200) acquired.0).shared.nodes.words 8 0
        ≡ acquired.0.shared.nodes.words 8 0)
unfolding acquired
perform-KeepsHazard_example =
    perform-KeepsHazard (get_or_insert 1 200) acquired.0 0 8 0 acquired.1 (refl, refl)
      (λ e. omega (arith, e)) refl

Scanning-Collects_example : elem 100 scanned.1.protected ≡ true
unfolding scanned
Scanning-Collects_example =
    Scanning-Collects 0 8 0 100 scanned.0 scanned.1 (omega arith) scanned.2 refl
