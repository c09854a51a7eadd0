-- ===== src/Treiber/Threads/Simulation.antt =====
-- The state of the specification that a state of the shared stack stands for, and what an access and a
-- call of one thread do to it: examples/treiber/stack.rs.
use hazptr.Prelude.{
  update, ℕ, ◌≡◌, ◌≢◌, ◌⊎◌, inl, inr, refl, sym, ap, subst, ◌∙◌, some, List, arith, ◌==◌, ==_refl,
  Bool-cases,
}
use hazptr.Treiber.Threads.{
  Memory, popped, Pc, push_load, push_store, push_exchange, pop_load, pop_next, pop_exchange,
  pop_read, pop_retire, finished, ready, Shared, System, IsIdle,
}
use hazptr.Treiber.Threads.Spec.{
  IsFree, Call, Phase, called, answered, apply, phase_of, push, Stack, Step, call, take_effect,
}
use hazptr.Treiber.Threads.Invariant.{Inv, Knows, Leaves, Knows-Leaves}
use hazptr.Treiber.Threads.Effects.{values, Effect, quiet, takes}

module _ {T : Type 0} where
  pub record Good (s : System T) (contents : List ℕ) : Type 0 where
    pub inv : Inv s.shared contents
    pub knows : (j : ℕ) → Knows s.shared j (s.pc j)

  -- The state of the specification that a state in memory stands for.
  pub record Abstracts (s : System T) (contents : List ℕ) (a : Stack T) : Type 0 where
    pub elems : a.elems ≡ values s.shared contents
    pub phases : (j : ℕ) → a.phase j ≡ phase_of s.shared.memory (s.pc j)

  -- As its caller sees it, a thread stays where it is while another acts.
  pub phase-Leaves :
      (j : ℕ) (g g' : Shared T) (pc : Pc T)
      → Leaves j pc g g'
      → Knows g j pc
      → phase_of g'.memory pc ≡ phase_of g.memory pc
  phase-Leaves j g g' ready w k = refl
  phase-Leaves j g g' (push_load node) w (o, nz) =
      ap (λ e. called (push e)) (w.own node (ground (arith, o)) nz).1.1
  phase-Leaves j g g' (push_store node head) w (o, nz) =
      ap (λ e. called (push e)) (w.own node (ground (arith, o)) nz).1.1
  phase-Leaves j g g' (push_exchange node head) w (o, nz, e) =
      ap (λ e. called (push e)) (w.own node (ground (arith, o)) nz).1.1
  phase-Leaves j g g' pop_load w k = refl
  phase-Leaves j g g' (pop_next head) w k = refl
  phase-Leaves j g g' (pop_exchange head next) w k = refl
  phase-Leaves j g g' (pop_read unlinked) w (o, nz) =
      ap (λ e. answered (popped (some e))) (w.own unlinked (ground (arith, o)) nz).1.1
  phase-Leaves j g g' (pop_retire unlinked res) w k = refl
  phase-Leaves j g g' (finished a) w k = refl

  -- What an action leaves to a thread.
  unfoldable pub Lets : (j : ℕ) → System T → System T → Type 0
  Lets j s t = (t.pc j ≡ s.pc j) × Leaves j (s.pc j) s.shared t.shared

  pub Lets-Knows :
      (j : ℕ) (s t : System T) → Lets j s t → Knows s.shared j (s.pc j) → Knows t.shared j (t.pc j)
  unfolding Lets
  Lets-Knows j s t (e, w) k =
      subst (Knows t.shared j) (sym e) (Knows-Leaves j s.shared t.shared (s.pc j) w k)

  pub Lets-phase :
      (j : ℕ) (s t : System T)
      → Lets j s t
      → Knows s.shared j (s.pc j)
      → phase_of t.shared.memory (t.pc j) ≡ phase_of s.shared.memory (s.pc j)
  unfolding Lets
  Lets-phase j s t (e, w) k =
      ap (phase_of t.shared.memory) e ∙ phase-Leaves j s.shared t.shared (s.pc j) w k

  module _ (i : ℕ) (s t : System T) (contents after : List ℕ) (a : Stack T) (good : Good s contents)
      (abs : Abstracts s contents a) (inv : Inv t.shared after)
      (others : (j : ℕ) → j ≢ i → Lets j s t) where
    others-Good : Knows t.shared i (t.pc i) → Good t after
    others-Good k = record {
      inv = inv;
      knows = λ j. elim (Bool-cases (i == j)) [
        | inl same ↦
            let e : i ≡ j = ground (arith, same) in subst (λ j. Knows t.shared j (t.pc j)) e k
        | inr other ↦ Lets-Knows j s t (others j (ground (arith, other))) (good.knows j)
      ];
    }

    -- The thread's call has got to the phase `p`, and the other threads are where they were.
    others-Abstracts :
        (elems : List T) (p : Phase T)
        → elems ≡ values t.shared after
        → p ≡ phase_of t.shared.memory (t.pc i)
        → Abstracts t after (record { elems = elems; phase = update a.phase i p })
    others-Abstracts elems p e f = record {
      elems = e;
      phases = λ j. elim (Bool-cases (i == j)) [
        | inl same ↦
            let z : i ≡ j = ground (arith, same) in
            rw same (subst (λ j. p ≡ phase_of t.shared.memory (t.pc j)) z f)
        | inr other ↦ rw other (
            abs.phases j ∙ sym (Lets-phase j s t (others j (ground (arith, other))) (good.knows j)))
      ];
    }

    stays-Abstracts :
        values t.shared after ≡ values s.shared contents
        → phase_of t.shared.memory (t.pc i) ≡ phase_of s.shared.memory (s.pc i)
        → Abstracts t after a
    stays-Abstracts e f = record {
      elems = abs.elems ∙ sym e;
      phases = λ j. elim (Bool-cases (i == j)) [
        | inl same ↦
            let z : i ≡ j = ground (arith, same) in
            abs.phases j
            ∙ subst (λ j. phase_of s.shared.memory (s.pc j) ≡ phase_of t.shared.memory (t.pc j)) z
                (sym f)
        | inr other ↦
            abs.phases j ∙ sym (Lets-phase j s t (others j (ground (arith, other))) (good.knows j))
      ];
    }

  IsIdle-IsFree : (m : Memory T) (pc : Pc T) → IsIdle pc → IsFree (phase_of m pc)
  IsIdle-IsFree m ready h = tt
  IsIdle-IsFree m (finished a) h = tt
  IsIdle-IsFree m (push_load node) h = elim h [ ]
  IsIdle-IsFree m (push_store node head) h = elim h [ ]
  IsIdle-IsFree m (push_exchange node head) h = elim h [ ]
  IsIdle-IsFree m pop_load h = elim h [ ]
  IsIdle-IsFree m (pop_next head) h = elim h [ ]
  IsIdle-IsFree m (pop_exchange head next) h = elim h [ ]
  IsIdle-IsFree m (pop_read unlinked) h = elim h [ ]
  IsIdle-IsFree m (pop_retire unlinked res) h = elim h [ ]

  -- The state stands for `a`, or for what one step of the specification makes of it.
  abbrev pub Simulates : Stack T → System T → Type 0
  Simulates a t =
      (after : List ℕ) × (b : Stack T) × Good t after × Abstracts t after b × ((b ≡ a) ⊎ Step a b)

  module _ (i : ℕ) (s t : System T) (contents : List ℕ) (a : Stack T) (good : Good s contents)
      (abs : Abstracts s contents a) where
    -- An access of thread `i`, with what it does.
    pub Goes-Simulates :
        (after : List ℕ)
        → Inv t.shared after
        → Knows t.shared i (t.pc i)
        → ((j : ℕ) → j ≢ i → Lets j s t)
        → Effect
            (values s.shared contents)
            (phase_of s.shared.memory (s.pc i))
            (values t.shared after)
            (phase_of t.shared.memory (t.pc i))
        → Simulates a t
    Goes-Simulates after inv k others (quiet e f) = (
      after,
      a,
      others-Good i s t contents after a good abs inv others k,
      stays-Abstracts i s t contents after a good abs inv others e f,
      inl refl,
    )
    Goes-Simulates after inv k others (takes c p e f) =
        let q : a.phase i ≡ called c = abs.phases i ∙ p in
        (
          after,
          record {
            elems = (apply c a.elems).0;
            phase = update a.phase i (answered (apply c a.elems).1);
          },
          others-Good i s t contents after a good abs inv others k,
          others-Abstracts i s t contents after a good abs inv others (apply c a.elems).0
              (answered (apply c a.elems).1) (rw abs.elems (sym e)) (rw abs.elems (sym f)),
          inr (take_effect i c q),
        )

    -- A thread calls an operation.
    pub call-Simulates :
        (c : Call T)
        → Inv t.shared contents
        → Knows t.shared i (t.pc i)
        → ((j : ℕ) → j ≢ i → Lets j s t)
        → values t.shared contents ≡ values s.shared contents
        → phase_of t.shared.memory (t.pc i) ≡ called c
        → IsIdle (s.pc i)
        → Simulates a t
    call-Simulates c inv k others e f idle = (
      contents,
      record a { phase = update a.phase i (called c) },
      others-Good i s t contents contents a good abs inv others k,
      others-Abstracts i s t contents contents a good abs inv others a.elems (called c)
          (abs.elems ∙ sym e) (sym f),
      inr (
          call i c
            (subst IsFree (sym (abs.phases i)) (IsIdle-IsFree s.shared.memory (s.pc i) idle))),
    )

  pub others_pc : (i j : ℕ) (pc : ℕ → Pc T) (x : Pc T) → j ≢ i → update pc i x j ≡ pc j
  others_pc i j pc x ne = ground (arith, ne)

  pub own_pc : (i : ℕ) (pc : ℕ → Pc T) (x : Pc T) → x ≡ update pc i x i
  own_pc i pc x = rw (==_refl i) refl
