-- ===== src/Examples/SharedStack.antt =====
-- Two threads share Treiber's stack: an element goes in and out, and its node is reclaimed and used again.
use hazptr.Prelude.{ℕ, zero, suc, ◌≡◌, false, arith, refl, List, ◌==◌}
use hazptr.Std.Linked.{IsList}
use hazptr.Treiber.Threads.{
  IsIdle, System, run, push, pop, reclaim, advance, step, perform, protects, Reached, start, acts,
}
use hazptr.Treiber.Threads.Spec.{Stack, Reach}
use hazptr.Treiber.Threads.Simulation.{Abstracts, Simulates}
use hazptr.Treiber.Threads.Alone.{alone, alone-IsIdle}
use hazptr.Treiber.Threads.Refines.{Reached-Refines}

-- Thread 0 pushes 7 with the node at 3, and thread 1 takes it, in turn with it.
abbrev exchanged : (s : System ℕ) × Reached s
unfolding perform advance step
exchanged = (
  _,
  acts (run 1 false) _
      (acts (run 1 false) _
        (acts (run 1 false) _
          (acts (run 1 false) _
            (acts (run 1 false) _
              (acts (run 0 false) _
                (acts (run 0 false) _
                  (acts (pop 1) _
                    (acts (run 0 false) _
                      (acts (push 0 3 7) _ (start 0) (tt, refl, λ e. omega (arith, e))) tt)
                    tt)
                  tt)
                tt)
              tt)
            tt)
          tt)
        tt)
      tt,
)

unprotected : (i : ℕ) → protects (exchanged.0.pc i) 3 ≡ false
unfolding perform advance step
unprotected zero = refl
unprotected (suc zero) = refl
unprotected (suc (suc i)) =
    let first : (0 == suc (suc i)) ≡ false = ground arith in
    let second : (1 == suc (suc i)) ≡ false = ground arith in rw (first, second) refl

-- Reclaimed, and used again for 9.
abbrev reused : (s : System ℕ) × Reached s
unfolding perform advance step
reused = (
  _,
  acts (push 0 3 9) _ (acts (reclaim 3) _ exchanged.1 (refl, unprotected))
      (tt, refl, λ e. omega (arith, e)),
)

Reached-Refines_example :
    (contents : List ℕ) × (a : Stack ℕ) × IsList reused.0.shared.memory.next 0 contents
    × Abstracts reused.0 contents a
    × Reach a
    × Simulates a (perform (run 0 false) reused.0)
Reached-Refines_example = Reached-Refines reused.0 (run 0 false) reused.1 tt

-- Thread 0 ends its second call.
alone-IsIdle_example : IsIdle ((alone 7 0 reused.0).pc 0)
alone-IsIdle_example = alone-IsIdle reused.0 0 reused.1
