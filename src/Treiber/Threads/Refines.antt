-- ===== src/Treiber/Threads/Refines.antt =====
-- Whatever the order of the accesses, the shared stack is a stack on which each call takes effect at one
-- moment: examples/treiber/stack.rs.
use hazptr.Prelude.{
  update, ℕ, ◌≡◌, ◌≢◌, inl, inr, refl, sym, subst, ◌∙◌, Bool, true, false, List, [], ◌∷◌, arith,
  ◌==◌, ==_refl, elem, map, Bool-cases,
}
use hazptr.Std.Linked.{IsList, IsList-frame}
use hazptr.Treiber.Threads.{
  Memory, Answer, pushed, popped, Pc, push_load, push_store, push_exchange, pop_load, pop_next,
  pop_exchange, pop_read, pop_retire, finished, ready, Status, unused, owned, inside, taken,
  retired, Shared, System, Action, run, reclaim, advance, allocate, perform, protects, IsIdle,
  Allowed, initial, Reached, start, acts,
}
use hazptr.Treiber.Threads
use hazptr.Treiber.Threads.Spec.{
  Call, Phase, resting, called, answered, apply, phase_of, push, pop, Stack, Step, call,
  take_effect, Reach, later,
}
use hazptr.Treiber.Threads.Spec
use hazptr.Treiber.Threads.Invariant.{Inv, Knows, Leaves, same-Leaves, Knows-Leaves}
use hazptr.Treiber.Threads.Effects.{values, Effect}
use hazptr.Treiber.Threads.Accesses.{advance-Goes}
use hazptr.Treiber.Threads.Simulation.{
  Good, Abstracts, phase-Leaves, Lets, Simulates, Goes-Simulates, call-Simulates, others_pc, own_pc,
}

module _ {T : Type 0} where
  run-Simulates :
      (i : ℕ) (spurious : Bool) (s : System T) (contents : List ℕ) (a : Stack T)
      → Good s contents
      → Abstracts s contents a
      → Simulates a (perform (run i spurious) s)
  unfolding perform Lets
  run-Simulates i spurious s contents a good abs =
      let r = advance-Goes i s.shared contents good.inv spurious (s.pc i) (good.knows i) in
      let at = own_pc i s.pc (advance i spurious s.shared (s.pc i)).1 in
      let to : System T = perform (run i spurious) s in
      Goes-Simulates i s to contents a good abs r.after r.inv (subst (Knows to.shared i) at r.knows)
        (λ j ne.
          (others_pc i j s.pc (advance i spurious s.shared (s.pc i)).1 ne, r.leaves j ne (s.pc j)))
        (subst
          (λ pc.
            Effect (values s.shared contents) (phase_of s.shared.memory (s.pc i))
              (values to.shared r.after) (phase_of to.shared.memory pc))
          at r.effect)

  -- A new node is not in the stack, and no thread knows of it.
  module _ (i node : ℕ) (elem' : T) (g : Shared T) (contents : List ℕ) (inv : Inv g contents)
      (fresh : g.status node ≡ unused) (nz : node ≢ 0) where
    allocate-Inv : Inv (allocate i node elem' g) contents
    allocate-Inv = record {
      listed =
          IsList-frame g.memory.next node 0 0 contents (ground (arith, nz, fresh, inv.member node))
            inv.listed;
      member = λ b h. ground (arith, inv.member b h, fresh);
      whole = λ b h. inv.whole b (ground (arith, h));
      origin = ground (arith, nz, inv.origin);
    }

    allocate-Leaves : (j : ℕ) (pc : Pc T) → Leaves j pc g (allocate i node elem' g)
    allocate-Leaves j pc = record {
      own = λ b m bz.
          (ground (arith, m, fresh), (ground (arith, m, fresh), ground (arith, m, fresh)));
      guarded = λ b p v bz.
          (ground (arith, v, fresh), (ground (arith, v, fresh), ground (arith, v, fresh)));
    }

    map_kept :
        (l : List ℕ)
        → elem node l ≡ false
        → map (update g.memory.elems node elem') l ≡ map g.memory.elems l
    map_kept [] h = refl
    map_kept (b ∷ l) h =
        let e : (node == b) ≡ false = ground (arith, h) in
        rw (e, map_kept l (ground (arith, h))) refl

    allocate-values : values (allocate i node elem' g) contents ≡ values g contents
    allocate-values = map_kept contents (ground (arith, fresh, inv.member node))

  perform-Simulates :
      (act : Action T) (s : System T) (contents : List ℕ) (a : Stack T)
      → Allowed act s
      → Good s contents
      → Abstracts s contents a
      → Simulates a (perform act s)
  unfolding perform Lets
  perform-Simulates (run i spurious) s contents a ok good abs =
      run-Simulates i spurious s contents a good abs
  perform-Simulates (hazptr.Treiber.Threads.push i node e) s contents a (idle, fresh, nz) good abs =
      let to : System T = perform (hazptr.Treiber.Threads.push i node e) s in
      let at = own_pc i s.pc (push_load node) in
      call-Simulates i s to contents a good abs (push e)
        (allocate-Inv i node e s.shared contents good.inv fresh nz)
        (subst (Knows to.shared i) at (ground arith, nz))
        (λ j ne. (
          others_pc i j s.pc (push_load node) ne,
          allocate-Leaves i node e s.shared contents good.inv fresh nz j (s.pc j),
        ))
        (allocate-values i node e s.shared contents good.inv fresh nz)
        (subst (λ pc. phase_of to.shared.memory pc ≡ called (push e)) at (rw (==_refl node) refl))
        idle
  perform-Simulates (hazptr.Treiber.Threads.pop i) s contents a idle good abs =
      let to : System T = perform (hazptr.Treiber.Threads.pop i) s in
      let at = own_pc i s.pc pop_load in
      call-Simulates i s to contents a good abs pop good.inv (subst (Knows to.shared i) at tt)
        (λ j ne. (others_pc i j s.pc pop_load ne, same-Leaves j (s.pc j) s.shared)) refl
        (subst (λ pc. phase_of to.shared.memory pc ≡ called pop) at refl) idle
  perform-Simulates (reclaim node) s contents a (gone, safe) good abs = (
    contents,
    a,
    record {
      inv = record {
        listed = good.inv.listed;
        member = λ b h. ground (arith, good.inv.member b h, gone);
        whole = λ b h. good.inv.whole b (ground (arith, h));
        origin = ground (arith, good.inv.origin, gone);
      };
      knows = λ j. Knows-Leaves j s.shared to (s.pc j) (leaves j) (good.knows j);
    },
    record {
      elems = abs.elems;
      phases =
          λ j. abs.phases j ∙ sym (phase-Leaves j s.shared to (s.pc j) (leaves j) (good.knows j));
    },
    inl refl,
  )
    where
      to : Shared T
      to = (perform (reclaim node) s).shared

      leaves : (j : ℕ) → Leaves j (s.pc j) s.shared to
      leaves j = record {
        own = λ b m bz. (ground (arith, m, gone), (refl, refl));
        guarded = λ b p v bz.
            let ne : (node == b) ≡ false = spared b p in (ground (arith, v, ne), (refl, refl));
      }
        where
          spared : (b : ℕ) → protects (s.pc j) b ≡ true → (node == b) ≡ false
          spared b p = elim (Bool-cases (node == b)) [
            | inl same ↦
                let e : node ≡ b = ground (arith, same) in
                absurd (ground (arith, p, subst (λ b. protects (s.pc j) b ≡ false) e (safe j)))
            | inr other ↦ other
          ]

  pub Reached-Abstracts :
      (s : System T)
      → Reached s
      → (contents : List ℕ) × (a : Stack T) × Good s contents × Abstracts s contents a × Reach a
  Reached-Abstracts _ (start blank) = (
    [],
    record { elems = []; phase = λ i. resting },
    record {
      inv = record {
        listed = refl;
        member = λ a h. ground (arith, h);
        whole = λ a h. ground (arith, h);
        origin = refl;
      };
      knows = λ j. tt;
    },
    record { elems = refl; phases = λ j. refl },
    Spec.start,
  )
  Reached-Abstracts _ (acts act s r ok) =
      let (contents, a, good, abs, reach) = Reached-Abstracts s r in
      let (after, b, good', abs', step) = perform-Simulates act s contents a ok good abs in
      (
        after,
        b,
        good',
        abs',
        elim step [ inl e ↦ subst Reach (sym e) reach | inr k ↦ later reach k ],
      )

  -- Every state that the threads can get to stands for one that the specification can get to: the nodes
  -- from the head on hold its elements in order, and each thread is in the call, or has the answer, that
  -- it says. What any thread may do next makes a state that stands for the same one or for that after one
  -- step of the specification. So each call takes effect at one moment between its beginning and its end,
  -- in any order of the accesses, also where addresses of reclaimed nodes are used again.
  pub Reached-Refines :
      (s : System T) (act : Action T)
      → Reached s
      → Allowed act s
      → (contents : List ℕ) × (a : Stack T) × IsList s.shared.memory.next 0 contents
        × Abstracts s contents a
        × Reach a
        × Simulates a (perform act s)
  Reached-Refines s act r ok =
      let (contents, a, good, abs, reach) = Reached-Abstracts s r in
      (contents, a, good.inv.listed, abs, reach, perform-Simulates act s contents a ok good abs)
