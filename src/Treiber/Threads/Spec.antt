-- ===== src/Treiber/Threads/Spec.antt =====
-- The stack as its callers see it: `push` and `pop` each take effect at one moment:
-- examples/treiber/stack.rs.
use hazptr.Prelude.{update, ℕ, ◌≡◌, none, some, List, [], ◌∷◌}
use hazptr.Treiber.Threads.{
  Memory, Answer, pushed, popped, Pc, ready, push_load, push_store, push_exchange, pop_load,
  pop_next, pop_exchange, pop_read, pop_retire, finished,
}

pub data Call (T : Type 0) : Type 0 where
  push : T → Call T
  pop : Call T

-- A thread has called an operation, or has the answer of its last one.
pub data Phase (T : Type 0) : Type 0 where
  resting : Phase T
  called : Call T → Phase T
  answered : Answer T → Phase T

pub record Stack (T : Type 0) : Type 0 where
  pub elems : List T
  pub phase : ℕ → Phase T

module _ {T : Type 0} where
  -- The sequential stack.
  abbrev pub apply : Call T → List T → List T × Answer T
  apply (push e) elems = (e ∷ elems, pushed)
  apply pop [] = ([], popped none)
  apply pop (e ∷ elems) = (elems, popped (some e))

  -- A thread has one call at a time.
  abbrev pub IsFree : Phase T → Type 0
  IsFree resting = Unit {0}
  IsFree (called c) = ⊥
  IsFree (answered a) = Unit {0}

  -- What threads can do to the stack: call, and take effect.
  pub data Step (s : Stack T) : Stack T → Type 0 where
    call :
        (i : ℕ) (c : Call T)
        → IsFree (s.phase i)
        → Step s (record s { phase = update s.phase i (called c) })
    take_effect :
        (i : ℕ) (c : Call T)
        → s.phase i ≡ called c
        → Step s (record {
          elems = (apply c s.elems).0;
          phase = update s.phase i (answered (apply c s.elems).1);
        })

  pub data Reach : Stack T → Type 0 where
    start : Reach (record { elems = []; phase = λ i. resting })
    later : {s t : Stack T} → Reach s → Step s t → Reach t

  -- How far a thread has got, as its caller sees it: a `pop` has taken effect once it has unlinked a node.
  abbrev pub phase_of : Memory T → Pc T → Phase T
  phase_of m ready = resting
  phase_of m (push_load node) = called (push (m.elems node))
  phase_of m (push_store node head) = called (push (m.elems node))
  phase_of m (push_exchange node head) = called (push (m.elems node))
  phase_of m pop_load = called pop
  phase_of m (pop_next head) = called pop
  phase_of m (pop_exchange head next) = called pop
  phase_of m (pop_read unlinked) = answered (popped (some (m.elems unlinked)))
  phase_of m (pop_retire unlinked res) = answered (popped (some res))
  phase_of m (finished a) = answered a
