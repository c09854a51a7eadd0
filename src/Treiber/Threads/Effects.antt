-- ===== src/Treiber/Threads/Effects.antt =====
-- What an access to the shared stack may do: examples/treiber/stack.rs.
use hazptr.Prelude.{ℕ, ◌≡◌, ◌≢◌, List, map}
use hazptr.Treiber.Threads.{Pc, Shared}
use hazptr.Treiber.Threads.Spec.{Call, Phase, called, answered, apply, phase_of}
use hazptr.Treiber.Threads.Invariant.{Inv, Knows, Leaves}

module _ {T : Type 0} where
  abbrev pub values : Shared T → List ℕ → List T
  values g contents = map g.memory.elems contents

  -- An access leaves the elements and its call as they are, or it is the one at which the call takes
  -- effect.
  pub data Effect (elems : List T) (phase : Phase T) (elems' : List T) (phase' : Phase T)
      : Type 0 where
    quiet : elems' ≡ elems → phase' ≡ phase → Effect elems phase elems' phase'
    takes :
        (c : Call T)
        → phase ≡ called c
        → elems' ≡ (apply c elems).0
        → phase' ≡ answered (apply c elems).1
        → Effect elems phase elems' phase'

  pub record Goes (i : ℕ) (pc : Pc T) (g : Shared T) (contents : List ℕ) (r : Shared T × Pc T)
      : Type 0 where
    pub after : List ℕ
    pub inv : Inv r.0 after
    pub knows : Knows r.0 i r.1
    pub leaves : (j : ℕ) → j ≢ i → (other : Pc T) → Leaves j other g r.0
    pub effect :
        Effect
          (values g contents)
          (phase_of g.memory pc)
          (values r.0 after)
          (phase_of r.0.memory r.1)
