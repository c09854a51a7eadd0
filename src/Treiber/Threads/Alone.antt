-- ===== src/Treiber/Threads/Alone.antt =====
-- A thread that no other thread disturbs ends its call: examples/treiber/stack.rs.
use hazptr.Prelude.{
  ℕ, zero, suc, ◌≡◌, ◌≢◌, refl, sym, subst, false, some, arith, ◌==◌, ==_refl, inl, inr, Bool-cases,
}
use hazptr.Treiber.Threads.{
  Memory, Pc, ready, push_load, push_store, push_exchange, pop_load, pop_next, pop_exchange,
  pop_read, pop_retire, finished, Answer, popped, Shared, step, advance, System, run, perform,
  IsIdle, Reached, write,
}
use hazptr.Treiber.Threads.Invariant.{Knows}
use hazptr.Treiber.Threads.Refines.{Reached-Abstracts}

module _ {T : Type 0} where
  -- Accesses of one thread, where no compare-and-swap fails for no reason.
  unfoldable pub alone : (accesses i : ℕ) → System T → System T
  alone zero i s = s
  alone (suc n) i s = alone n i (perform (run i false) s)

  -- The same, of the memory and the thread only.
  steps : ℕ → Memory T → Pc T → Pc T
  unfolding step
  steps zero m pc = pc
  steps (suc n) m pc = let r = step false m pc in steps n r.0 r.1

  alone-steps : (n i : ℕ) (s : System T) → (alone n i s).pc i ≡ steps n s.shared.memory (s.pc i)
  unfolding alone steps perform advance step
  alone-steps zero i s = refl
  alone-steps (suc n) i s =
      let r = step false s.shared.memory (s.pc i) in
      subst (λ pc. (alone n i (perform (run i false) s)).pc i ≡ steps n r.0 pc)
        (rw (==_refl i) refl) (alone-steps n i (perform (run i false) s))

  finished_stays : (n : ℕ) (m : Memory T) (a : Answer T) → IsIdle (steps n m (finished a))
  unfolding steps step
  finished_stays zero m a = tt
  finished_stays (suc n) m a = finished_stays n m a

  ready_stays : (n : ℕ) (m : Memory T) → IsIdle (steps n m ready)
  unfolding steps step
  ready_stays zero m = tt
  ready_stays (suc n) m = ready_stays n m

  -- `pop`, from its first access on.
  pop_ends : (n : ℕ) (m : Memory T) → IsIdle (steps (suc (suc (suc (suc (suc n))))) m pop_load)
  unfolding steps step
  pop_ends n m = elim (Bool-cases (m.next 0 == 0)) [
    | inl null ↦ rw null (finished_stays (suc (suc (suc (suc n)))) m _)
    | inr more ↦ rw (more, ==_refl (m.next 0)) (finished_stays n _ _)
  ]

  -- `push` of a node, from its first access on.
  push_ends :
      (n : ℕ) (m : Memory T) (node : ℕ)
      → node ≢ 0
      → IsIdle (steps (suc (suc (suc n))) m (push_load node))
  unfolding steps step
  push_ends n m node nz =
      let ne : (node == 0) ≡ false = ground (arith, nz) in
      rw (ne, ==_refl (m.next 0)) (finished_stays n _ _)

  exchange_push_ends :
      (n : ℕ) (m : Memory T) (node head : ℕ)
      → node ≢ 0
      → IsIdle (steps (suc (suc (suc (suc n)))) m (push_exchange node head))
  unfolding steps step
  exchange_push_ends n m node head nz = elim (Bool-cases (m.next 0 == head)) [
    | inl same ↦ rw same (finished_stays (suc (suc (suc n))) _ _)
    | inr other ↦ rw other (push_ends n m node nz)
  ]

  exchange_pop_ends :
      (n : ℕ) (m : Memory T) (head next : ℕ)
      → IsIdle (steps (suc (suc (suc (suc (suc (suc n)))))) m (pop_exchange head next))
  unfolding steps step
  exchange_pop_ends n m head next = elim (Bool-cases (m.next 0 == head)) [
    | inl same ↦ rw same (finished_stays (suc (suc (suc n))) _ _)
    | inr other ↦ rw other (pop_ends n m)
  ]

  steps-IsIdle : (i : ℕ) (g : Shared T) (pc : Pc T) → Knows g i pc → IsIdle (steps 7 g.memory pc)
  unfolding steps step
  steps-IsIdle i g ready k = ready_stays 7 g.memory
  steps-IsIdle i g (push_load node) (o, nz) = push_ends 4 g.memory node nz
  steps-IsIdle i g (push_store node head) (o, nz) =
      exchange_push_ends 2 (write g.memory node head) node head nz
  steps-IsIdle i g (push_exchange node head) (o, nz, e) = exchange_push_ends 3 g.memory node head nz
  steps-IsIdle i g pop_load k = pop_ends 2 g.memory
  steps-IsIdle i g (pop_next head) k = exchange_pop_ends 0 g.memory head (g.memory.next head)
  steps-IsIdle i g (pop_exchange head next) k = exchange_pop_ends 1 g.memory head next
  steps-IsIdle i g (pop_read unlinked) k =
      finished_stays 5 g.memory (popped (some (g.memory.elems unlinked)))
  steps-IsIdle i g (pop_retire unlinked res) k = finished_stays 6 g.memory (popped (some res))
  steps-IsIdle i g (finished a) k = finished_stays 7 g.memory a

  -- From any state that the threads can get to, a thread in a `push` or a `pop` that then runs alone, and
  -- whose weak compare-and-swap does not fail for no reason, has ended the call after seven accesses.
  pub alone-IsIdle : (s : System T) (i : ℕ) → Reached s → IsIdle ((alone 7 i s).pc i)
  alone-IsIdle s i r =
      let (contents, a, good, abs, reach) = Reached-Abstracts s r in
      subst IsIdle (sym (alone-steps 7 i s)) (steps-IsIdle i s.shared (s.pc i) (good.knows i))
