-- ===== src/Retired/Threads/Refines.antt =====
-- However the accesses of several threads come, pushes and takes of abandoned bags are the ones of
-- Retired, one after the other: src/retired.rs.
use hazptr.Prelude.{
  update, ℕ, ◌≡◌, ◌≢◌, inl, inr, refl, subst, ap, Bool, false, List, [], ◌∷◌, arith, ◌==◌, ==_refl,
  elem, Bool-cases,
}
use hazptr.Std.Vec.{Vec}
use hazptr.Std.Linked.{IsList}
use hazptr.Retired.Threads.{
  Bags, Pc, ready, push_load, push_store, push_exchange, pushed, take_probe, take_swap, taken,
  unused, Shared, System, Action, run, push, take_and_merge, deallocate, advance, step, succeeds,
  leak, perform, Allowed, Reached, start, acts,
}
use hazptr.Retired.Threads.Merging.{links}
use hazptr.Retired.Threads.Invariant.{Inv, Knows, Leaves, Knows-Leaves, Effect}
use hazptr.Retired.Threads.Accesses.{advance-Goes}

module _ {R : Type 0} where
  pub record Good (s : System R) : Type 0 where
    pub contents : List ℕ
    pub inv : Inv s.shared contents
    pub knows : (j : ℕ) → Knows s.shared j (s.pc j)

  -- What an action does to the chain of bags: a whole operation of one thread, or nothing.
  abbrev pub EffectOf : Action R → System R → List ℕ → List ℕ → Type 0
  EffectOf (run i spurious) s before after =
      Effect s.shared.bags (perform (run i spurious) s).shared.bags before after (s.pc i)
        ((perform (run i spurious) s).pc i)
  EffectOf (push i bag inner) s before after =
      (links (perform (push i bag inner) s).shared.bags.inner after
        ≡ links s.shared.bags.inner before)
      × ((perform (push i bag inner) s).shared.bags.inner bag ≡ inner)
  EffectOf (take_and_merge i) s before after =
      links (perform (take_and_merge i) s).shared.bags.inner after
      ≡ links s.shared.bags.inner before
  EffectOf (deallocate bag) s before after =
      links (perform (deallocate bag) s).shared.bags.inner after ≡ links s.shared.bags.inner before

  links-kept :
      (inner : ℕ → Vec R) (a : ℕ) (v : Vec R) (l : List ℕ)
      → elem a l ≡ false
      → links (update inner a v) l ≡ links inner l
  links-kept inner a v [] h = refl
  links-kept inner a v (b ∷ l) h =
      let ne : (a == b) ≡ false = ground (arith, h) in
      rw (ne, links-kept inner a v l (ground (arith, h))) refl

  -- What the other threads know, and the actor, after an action.
  all-Knows :
      (i : ℕ) (s : System R) (g : Shared R) (pc : Pc)
      → ((j : ℕ) → Knows s.shared j (s.pc j))
      → ((j : ℕ) → j ≢ i → Leaves j s.shared g)
      → Knows g i pc
      → (j : ℕ) → Knows g j (update s.pc i pc j)
  all-Knows i s g pc knows w k j = elim (Bool-cases (i == j)) [
    | inl same ↦ let e : i ≡ j = ground (arith, same) in rw same (subst (λ j. Knows g j pc) e k)
    | inr other ↦
        rw other (Knows-Leaves j s.shared g (s.pc j) (w j (ground (arith, other))) (knows j))
  ]

  -- The invariants after an action, and its effect.
  record Does (a : Action R) (s : System R) (before : List ℕ) : Type 0 where
    good : Good (perform a s)
    effect : EffectOf a s before good.contents

  leak-Inv :
      (i bag : ℕ) (inner : Vec R) (g : Shared R) (contents : List ℕ)
      → Inv g contents
      → g.status bag ≡ unused
      → bag ≢ 0
      → Inv (leak i bag inner g) contents
  leak-Inv i bag inner g contents inv fresh nz = record {
    listed = inv.listed;
    member = λ a h. ground (arith, inv.member a h, fresh);
    whole = λ a h. inv.whole a (ground (arith, h));
    origin = ground (arith, inv.origin, nz);
  }

  perform-Does :
      (a : Action R) (s : System R) (good : Good s) → Allowed a s → Does a s good.contents
  unfolding perform
  perform-Does (run i spurious) s good ok =
      let r = advance-Goes i s.shared good.contents good.inv spurious (s.pc i) (good.knows i) in
      let to = advance i spurious s.shared (s.pc i) in
      record {
        good = record {
          contents = r.after;
          inv = r.inv;
          knows = all-Knows i s to.0 to.1 good.knows r.leaves r.knows;
        };
        effect = rw (==_refl i) r.effect;
      }
  perform-Does (push i bag inner) s good (idle, fresh, nz) = record {
    good = record {
      contents = good.contents;
      inv = leak-Inv i bag inner s.shared good.contents good.inv fresh nz;
      knows =
          all-Knows i s (leak i bag inner s.shared) (push_load bag) good.knows
            (λ j ne a o az. (ground (arith, o, fresh), refl, ground (arith, o, fresh)))
            (ground arith, nz);
    };
    effect = (
      links-kept s.shared.bags.inner bag inner good.contents
          (ground (arith, fresh, good.inv.member bag)),
      rw (==_refl bag) refl,
    );
  }
  perform-Does (take_and_merge i) s good idle = record {
    good = record {
      contents = good.contents;
      inv = good.inv;
      knows = all-Knows i s s.shared take_probe good.knows (λ j ne a o az. (o, refl, refl)) tt;
    };
    effect = refl;
  }
  perform-Does (deallocate bag) s good (i, gone) = record {
    good = record {
      contents = good.contents;
      inv = record {
        listed = good.inv.listed;
        member = λ a h. ground (arith, good.inv.member a h, gone);
        whole = λ a h. good.inv.whole a (ground (arith, h));
        origin = ground (arith, good.inv.origin);
      };
      knows = λ j.
          Knows-Leaves j s.shared (perform (deallocate bag) s).shared (s.pc j)
            (λ a o az. (ground (arith, o, gone), refl, refl)) (good.knows j);
    };
    effect = refl;
  }

  Reached-Good : (s : System R) → Reached s → Good s
  Reached-Good _ (start blank) = record {
    contents = [];
    inv = record {
      listed = refl;
      member = λ a h. ground (arith, h);
      whole = λ a h. ground (arith, h);
      origin = refl;
    };
    knows = λ j. tt;
  }
  Reached-Good _ (acts a s r ok) = (perform-Does a s (Reached-Good s r) ok).good

  -- In every state that threads get to, the head leads to a chain of bags. Any action either leaves that
  -- chain as it is and ends no call, or it is a whole `push` or `take_and_merge` of Retired on it: the push
  -- of the thread's bag, or a take, after which the loop over what the thread has taken gives what the
  -- sequential one gives.
  pub perform-EffectOf :
      (a : Action R) (s : System R)
      → Reached s
      → Allowed a s
      → (before after : List ℕ) × IsList s.shared.bags.next 0 before
        × IsList (perform a s).shared.bags.next 0 after
        × EffectOf a s before after
  perform-EffectOf a s r ok =
      let good = Reached-Good s r in
      let d = perform-Does a s good ok in
      (good.contents, d.good.contents, good.inv.listed, d.good.inv.listed, d.effect)

  step-inner : (spurious : Bool) (m : Bags R) (pc : Pc) → (step spurious m pc).0.inner ≡ m.inner
  unfolding step
  step-inner spurious m ready = refl
  step-inner spurious m (push_load bag) = refl
  step-inner spurious m (push_store bag head) = refl
  step-inner spurious m (push_exchange bag head) = elim (Bool-cases (succeeds spurious m head)) [
    | inl done ↦ rw done refl
    | inr failed ↦ rw failed refl
  ]
  step-inner spurious m (pushed bag) = refl
  step-inner spurious m take_probe = refl
  step-inner spurious m take_swap = refl
  step-inner spurious m (taken queue) = refl

  -- No access changes what a bag holds, until the bag is deallocated.
  pub perform-inner :
      (a : Action R) (s : System R) (bag : ℕ)
      → Allowed a s
      → s.shared.status bag ≢ unused
      → (perform a s).shared.bags.inner bag ≡ s.shared.bags.inner bag
  unfolding perform advance
  perform-inner (run i spurious) s bag ok used =
      ap (λ f. f bag) (step-inner spurious s.shared.bags (s.pc i))
  perform-inner (push i b inner) s bag (idle, fresh, nz) used = elim (Bool-cases (b == bag)) [
    | inl same ↦
        let e : b ≡ bag = ground (arith, same) in
        absurd (used (subst (λ b. s.shared.status b ≡ unused) e fresh))
    | inr other ↦ rw other refl
  ]
  perform-inner (take_and_merge i) s bag ok used = refl
  perform-inner (deallocate b) s bag ok used = refl
