-- ===== src/Examples/Queues.antt =====
-- A queue that two threads share: hazptr_rewrite/src/queue.rs.
use hazptr.Prelude.{ℕ, zero, suc, ◌≡◌, ◌≢◌, refl, true, false, List, [], ◌∷◌, elem, arith}
use hazptr.Std.Linked.{IsList}
use hazptr.Rewrite.Queue.Threads.{
  System, run, push_nodes, take_nodes, perform, Allowed, initial, Reached, start, acts, push_many,
  thread,
}
use hazptr.Rewrite.Queue.Atomic.{Effect, perform-IsAtomic}

-- Thread 0 has pushed the node 5 ...
abbrev began : System
began = perform (push_nodes 0 (5 ∷ [])) (initial (λ a. 0))

five : (a : ℕ) → elem a (5 ∷ []) ≡ true → (thread 0 ≡ thread 0) × (a ≢ 0)
five a h = (refl, λ z. ground (arith, h, z))

began-Reached : Reached began
began-Reached =
    acts (push_nodes 0 (5 ∷ [])) (initial (λ a. 0)) (start (λ a. 0))
      (refl, (λ e. cc), tt, (refl, tt), five)

abbrev run_first : ℕ → System → System
run_first zero s = s
run_first (suc n) s = run_first n (perform (run 0 false) s)

run_first-Reached : (n : ℕ) (s : System) → Reached s → Reached (run_first n s)
run_first-Reached zero s r = r
run_first-Reached (suc n) s r =
    run_first-Reached n (perform (run 0 false) s) (acts (run 0 false) s r tt)

abbrev pushed : System
pushed = run_first 3 began

-- ... and thread 1 takes it.
taking : Allowed (take_nodes 1) pushed
unfolding perform push_many
taking = refl

perform-IsAtomic_example :
    (before after : List ℕ) × IsList pushed.next 0 before
    × IsList (perform (take_nodes 1) pushed).next 0 after
    × Effect (take_nodes 1) pushed before after
perform-IsAtomic_example =
    perform-IsAtomic (take_nodes 1) pushed (run_first-Reached 3 began began-Reached) taking
