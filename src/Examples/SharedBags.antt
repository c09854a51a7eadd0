-- ===== src/Examples/SharedBags.antt =====
-- Two threads share the abandoned bags: src/retired.rs.
use hazptr.Prelude.{ℕ, false, arith, refl, List, [], ◌∷◌}
use hazptr.Std.Vec.{Vec}
use hazptr.Std.Linked.{IsList}
use hazptr.Retired.Threads.{
  System, run, push, take_and_merge, advance, step, perform, Reached, start, acts,
}
use hazptr.Retired.Threads.Refines.{EffectOf, perform-EffectOf}

abbrev bag : Vec ℕ
bag = record { items = 7 ∷ 8 ∷ []; capacity = 4 }

-- Thread 0 has pushed a bag, in turn with thread 1, which is about to swap the head.
abbrev swapping : (s : System ℕ) × Reached s
unfolding perform advance step
swapping = (
  _,
  acts (run 1 false) _
      (acts (run 0 false) _
        (acts (take_and_merge 1) _
          (acts (run 0 false) _
            (acts (run 0 false) _
              (acts (push 0 5 bag) _ (start (λ a. bag)) (refl, refl, λ e. omega (arith, e))) tt)
            tt)
          refl)
        tt)
      tt,
)

perform-EffectOf_example :
    (before after : List ℕ) × IsList swapping.0.shared.bags.next 0 before
    × IsList (perform (run 1 false) swapping.0).shared.bags.next 0 after
    × EffectOf (run 1 false) swapping.0 before after
perform-EffectOf_example = perform-EffectOf (run 1 false) swapping.0 swapping.1 tt
