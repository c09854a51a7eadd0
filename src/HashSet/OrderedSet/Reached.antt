-- ===== src/HashSet/OrderedSet/Reached.antt =====
-- What holds of the ordered set and its threads after any order of their accesses:
-- examples/hash_set/ordered.rs.
use hazptr.Prelude.{
  ℕ, ◌≡◌, ◌≢◌, inl, inr, refl, sym, subst, Bool, [], arith, ==_refl, ◌==◌, Bool-cases,
}
use hazptr.HashSet.OrderedSet.{
  Order, Op, insert_node, remove_node, cleanup, get, Pc, load_curr, load_next, compare_next,
  protect_next, check_prev, unlink, store_next, link_node, mark, unlink_marked, finished, step,
}
use hazptr.HashSet.OrderedSet.Invariant.{
  Shared, Inv, Holds, Knows, Knows-Grows, next, Grows, same-Grows, advance,
}
use hazptr.HashSet.OrderedSet.Steps.{Goes, reads}
use hazptr.HashSet.OrderedSet.Accesses.{
  load_curr-Goes, compare_next-Goes, protect_next-Goes, check_prev-Goes, onward,
}
use hazptr.HashSet.OrderedSet.Commits.{
  unlink-Goes, store_next-Goes, link_node-Goes, mark-Goes, unlink_marked-Goes,
}
use hazptr.HashSet.OrderedSet.Threads.{
  Thread, System, Action, run, begin, enter, ran, perform, CanEnter, Allowed, actor, initial,
  Reached, start, acts,
}
use hazptr.HashSet.OrderedSet.Allocating.{allocate-Inv, allocate-Grows}

module _ {T : Type 0} (o : Order T) where
  pub step-Goes :
      (i : ℕ) (op : Op) (value : T) (g : Shared T) (inv : Inv o g) (changed : Bool) (pc : Pc)
      → Knows o g i op value pc
      → Goes o i op value pc g (advance o changed op value g pc)
  unfolding advance step
  step-Goes i op value g inv changed (load_curr p) k = load_curr-Goes o i value g inv changed op p k
  step-Goes i op value g inv changed (load_next p c) k =
      onward o i value g inv changed op (load_next p c) refl (compare_next p c (next g c)) refl k
  step-Goes i op value g inv changed (compare_next p c raw) k =
      compare_next-Goes o i value g inv changed op p c raw k
  step-Goes i op value g inv changed (protect_next p c) k =
      protect_next-Goes o i value g inv changed op p c k
  step-Goes i op value g inv changed (check_prev p c l) k =
      check_prev-Goes o i value g inv changed op p c l k
  step-Goes i op value g inv changed (unlink p c n) k =
      unlink-Goes o i value g inv changed op p c n k
  step-Goes i op value g inv changed (store_next x p n) k =
      store_next-Goes o i value g inv changed op x p n k
  step-Goes i op value g inv changed (link_node x p n) (h, b, y, e, l) =
      subst
        (λ op.
          Goes o i op value (link_node x p n) g (advance o changed op value g (link_node x p n)))
        (sym e) (link_node-Goes o i value g inv changed x p n (h, b, y, refl, l))
  step-Goes i op value g inv changed (mark p c n) (e, b, k, q) =
      subst (λ op. Goes o i op value (mark p c n) g (advance o changed op value g (mark p c n)))
        (sym e) (mark-Goes o i value g inv changed p c n (refl, b, k, q))
  step-Goes i op value g inv changed (unlink_marked p c n) k =
      unlink_marked-Goes o i value g inv changed op p c n k
  step-Goes i op value g inv changed (finished a) k =
      reads o i op value g inv (finished a) (finished a) refl tt

  -- What holds of all threads at once.
  pub record Good (s : System T) : Type 0 where
    pub inv : Inv o s.shared
    pub knows : (j : ℕ) → Knows o s.shared j (s.threads j).op (s.threads j).value (s.threads j).pc

  pub run-Goes :
      (i : ℕ) (changed : Bool) (s : System T)
      → Good s
      → Goes o i (s.threads i).op (s.threads i).value (s.threads i).pc s.shared (ran o i changed s)
  run-Goes i changed s good =
      step-Goes i (s.threads i).op (s.threads i).value s.shared good.inv changed (s.threads i).pc
        (good.knows i)

  enter-Inv :
      (i : ℕ) (op : Op) (value : T) (g : Shared T)
      → Inv o g
      → CanEnter op g
      → Inv o (enter i op value g) × Grows o i g (enter i op value g)
  enter-Inv i (insert_node x) value g inv (fresh, nz) =
      (allocate-Inv o i x value g inv fresh nz, allocate-Grows o i x value g inv fresh nz)
  enter-Inv i remove_node value g inv can = (inv, same-Grows o i g)
  enter-Inv i cleanup value g inv can = (inv, same-Grows o i g)
  enter-Inv i get value g inv can = (inv, same-Grows o i g)

  enter-Holds :
      (i : ℕ) (op : Op) (value : T) (g : Shared T)
      → CanEnter op g
      → Holds o (enter i op value g) i op value
  enter-Holds i (insert_node x) value g (fresh, nz) = (ground arith, nz, ground arith)
  enter-Holds i remove_node value g can = tt
  enter-Holds i cleanup value g can = tt
  enter-Holds i get value g can = tt

  pub perform-Grows :
      (a : Action T) (s : System T)
      → Good s
      → Allowed a s
      → Grows o (actor a) s.shared (perform o a s).shared
  unfolding perform
  perform-Grows (run i changed) s good ok = (run-Goes i changed s good).grows
  perform-Grows (begin i op value) s good (idle, can) =
      (enter-Inv i op value s.shared good.inv can).1

  perform-Inv : (a : Action T) (s : System T) → Good s → Allowed a s → Inv o (perform o a s).shared
  unfolding perform
  perform-Inv (run i changed) s good ok = (run-Goes i changed s good).inv
  perform-Inv (begin i op value) s good (idle, can) = (enter-Inv i op value s.shared good.inv can).0

  abbrev pub KnowsAt : Shared T → ℕ → Thread T → Type 0
  KnowsAt g j t = Knows o g j t.op t.value t.pc

  -- An access changes no other thread.
  pub perform-others :
      (a : Action T) (s : System T) (j : ℕ) → j ≢ actor a → (perform o a s).threads j ≡ s.threads j
  unfolding perform
  perform-others (run i changed) s j ne = ground (arith, ne)
  perform-others (begin i op value) s j ne = ground (arith, ne)

  actor-Knows :
      (a : Action T) (s : System T)
      → Good s
      → Allowed a s
      → KnowsAt (perform o a s).shared (actor a) ((perform o a s).threads (actor a))
  unfolding perform
  actor-Knows (run i changed) s good ok = rw (==_refl i) (run-Goes i changed s good).knows
  actor-Knows (begin i op value) s good (idle, can) =
      rw (==_refl i) (enter-Holds i op value s.shared can, inl refl)

  -- Every access keeps what holds of the threads.
  pub perform-Good : (a : Action T) (s : System T) → Good s → Allowed a s → Good (perform o a s)
  perform-Good a s good ok = record { inv = perform-Inv a s good ok; knows = knows }
    where
      knows : (j : ℕ) → KnowsAt (perform o a s).shared j ((perform o a s).threads j)
      knows j = elim (Bool-cases (j == actor a)) [
        | inl same ↦
            subst (λ k. KnowsAt (perform o a s).shared k ((perform o a s).threads k))
              (ground (arith, same)) (actor-Knows a s good ok)
        | inr other ↦
            let ne : j ≢ actor a = ground (arith, other) in
            subst (KnowsAt (perform o a s).shared j) (sym (perform-others a s j ne)) (
              Knows-Grows o (actor a) j s.shared (perform o a s).shared ne
                (perform-Grows a s good ok) (s.threads j).op (s.threads j).value (s.threads j).pc
                (good.knows j))
      ]

  initial-Good : (value : T) → Good (initial value)
  initial-Good value = record {
    inv = record {
      chain = [];
      linked = refl;
      member = λ a h. ground (arith, h);
      reach = λ a m live. ground (arith, m);
      origin = refl;
      head_kept = refl;
      closed = λ a m z. absurd (z refl);
      ordered = λ a m z. absurd (z refl);
      gone = λ a h. ground (arith, h);
      once = tt;
    };
    knows = λ j. tt;
  }

  pub Reached-Good : (s : System T) → Reached o s → Good s
  Reached-Good _ (start value) = initial-Good value
  Reached-Good _ (acts a s r ok) = perform-Good a s (Reached-Good s r) ok
