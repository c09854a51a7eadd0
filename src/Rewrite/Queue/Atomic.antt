-- ===== src/Rewrite/Queue/Atomic.antt =====
-- Pushes and takes of several threads are atomic on the sequence of nodes, and lose none:
-- hazptr_rewrite/src/queue.rs.
use hazptr.Prelude.{
  update, ℕ, ◌≡◌, ◌≢◌, ◌⊎◌, refl, sym, subst, Bool, true, false, List, [], ◌++◌, arith, ◌==◌,
  ==_refl, elem, inl, inr, Bool-cases,
}
use hazptr.Std.Linked.{IsList, IsList-frame}
use hazptr.Rewrite.Queue.Threads.{
  idle, is_idle, push_many, take_all, first, last, IsPath, Owner, thread, Thread, System, Action,
  run, push_nodes, take_nodes, link, hand_over, owner_after, perform, Allowed, Reached, start, acts,
}
use hazptr.Std.Linked.{elem_zero}
use hazptr.Rewrite.Queue.Segments.{IsPath-kept}
use hazptr.Rewrite.Queue.Segments.{IsList-first, IsList-IsPath}
use hazptr.Rewrite.Queue.Pushing.{Holds, Knows, Leaves, Knows-Leaves, Goes, push_many-Goes}

abbrev pub KnowsAt : (ℕ → ℕ) → (ℕ → Owner) → ℕ → Thread → Type 0
KnowsAt next owner j t = Knows next owner j t.nodes t.pc

pub record Good (s : System) : Type 0 where
  pub contents : List ℕ
  pub holds : Holds s.next s.owner contents
  pub knows : (j : ℕ) → KnowsAt s.next s.owner j (s.threads j)

abbrev pub actor : Action → ℕ
actor (run i spurious) = i
actor (push_nodes i nodes) = i
actor (take_nodes i) = i
actor (link i node target) = i

-- What an action does to the sequence of the nodes in the queue, as one atomic operation on it.
abbrev pub Effect : Action → System → List ℕ → List ℕ → Type 0
Effect (run i spurious) s before after =
    ((after ≡ before)
      × (is_idle ((perform (run i spurious) s).threads i).pc ≡ is_idle (s.threads i).pc))
    ⊎ ((after ≡ (s.threads i).nodes ++ before)
        × (is_idle (s.threads i).pc ≡ false)
        × (is_idle ((perform (run i spurious) s).threads i).pc ≡ true))
Effect (push_nodes i nodes) s before after = after ≡ before
Effect (take_nodes i) s before after =
    (after ≡ [])
    × ((take_all s.next).0 ≡ first before)
    × IsPath (perform (take_nodes i) s).next before
    × (before ≢ [] → (perform (take_nodes i) s).next (last before) ≡ 0)
    × ((a : ℕ) → elem a before ≡ true → (perform (take_nodes i) s).owner a ≡ thread i)
Effect (link i node target) s before after = after ≡ before

run-Goes :
    (i : ℕ) (spurious : Bool) (s : System) (good : Good s)
    → let t = s.threads i in
      let r = push_many spurious t.nodes s.next t.pc in
      Goes i t.nodes s.next s.owner good.contents t.pc r.0
        (owner_after spurious t.nodes s.next t.pc s.owner)
        r.1
run-Goes i spurious s good =
    push_many-Goes i (s.threads i).nodes s.next s.owner good.contents good.holds spurious
      (s.threads i).pc (good.knows i)

perform-Holds :
    (a : Action) (s : System) (good : Good s)
    → Allowed a s
    → (after : List ℕ) × Holds (perform a s).next (perform a s).owner after
      × Leaves (actor a) s.next s.owner (perform a s).next (perform a s).owner
      × Effect a s good.contents after
unfolding perform take_all
perform-Holds (run i spurious) s good ok =
    let r = run-Goes i spurious s good in (r.after, r.holds, r.leaves, rw (==_refl i) r.atomic)
perform-Holds (push_nodes i nodes) s good ok =
    (good.contents, good.holds, λ a j o nz ne. (o, refl), refl)
perform-Holds (take_nodes i) s good ok = (
  [],
  record {
    listed = ground arith;
    queued = λ a h. ground (arith, h);
    whole = λ a h. absurd (ground (arith, h));
  },
  λ a j o nz ne. (ground (arith, o), ground (arith, nz)),
  (
    refl,
    sym (IsList-first s.next 0 good.contents good.holds.listed),
    IsPath-kept s.next 0 0 good.contents no_zero path.0,
    λ ne. ground (arith, path.1 ne),
    λ a h. ground (arith, good.holds.queued a h),
  ),
)
  where
    no_zero : elem 0 good.contents ≡ false
    no_zero = elem_zero s.next 0 good.contents good.holds.listed

    path : IsPath s.next good.contents × (good.contents ≢ [] → s.next (last good.contents) ≡ 0)
    path = IsList-IsPath s.next 0 good.contents good.holds.listed
perform-Holds (link i node target) s good (e, mine, nz) = (
  good.contents,
  record {
    listed =
        IsList-frame s.next node target 0 good.contents
          (ground (arith, nz, mine, good.holds.queued node)) good.holds.listed;
    queued = good.holds.queued;
    whole = good.holds.whole;
  },
  λ a j o az ne. (o, ground (arith, o, mine, ne)),
  refl,
)

perform-others :
    (a : Action) (s : System) (j : ℕ) → j ≢ actor a → (perform a s).threads j ≡ s.threads j
unfolding perform
perform-others (run i spurious) s j ne = ground (arith, ne)
perform-others (push_nodes i nodes) s j ne = ground (arith, ne)
perform-others (take_nodes i) s j ne = refl
perform-others (link i node target) s j ne = refl

-- A thread that is not in a call knows nothing that could change.
idle-Knows :
    (next : ℕ → ℕ) (owner : ℕ → Owner) (i : ℕ) (t : Thread) → t.pc ≡ idle → KnowsAt next owner i t
idle-Knows next owner i t e = rw e tt

actor-Knows :
    (a : Action) (s : System)
    → Good s
    → Allowed a s
    → KnowsAt (perform a s).next (perform a s).owner (actor a) ((perform a s).threads (actor a))
unfolding perform
actor-Knows (run i spurious) s good ok = rw (==_refl i) (run-Goes i spurious s good).knows
actor-Knows (push_nodes i nodes) s good (e, ne, path, distinct, mine) =
    rw (==_refl i) (record { some_node = ne; path = path; distinct = distinct; mine = mine })
actor-Knows (take_nodes i) s good e =
    idle-Knows (take_all s.next).1 (λ a. hand_over i (s.owner a)) i (s.threads i) e
actor-Knows (link i node target) s good (e, mine, nz) =
    idle-Knows (update s.next node target) s.owner i (s.threads i) e

perform-Good : (a : Action) (s : System) → Good s → Allowed a s → Good (perform a s)
perform-Good a s good ok = record { contents = r.0; holds = r.1; knows = knows }
  where
    r :
        (after : List ℕ) × Holds (perform a s).next (perform a s).owner after
        × Leaves (actor a) s.next s.owner (perform a s).next (perform a s).owner
        × Effect a s good.contents after
    r = perform-Holds a s good ok

    knows : (j : ℕ) → KnowsAt (perform a s).next (perform a s).owner j ((perform a s).threads j)
    knows j = elim (Bool-cases (j == actor a)) [
      | inl same ↦
          let e : actor a ≡ j = ground (arith, same) in
          subst (λ k. KnowsAt (perform a s).next (perform a s).owner k ((perform a s).threads k)) e
            (actor-Knows a s good ok)
      | inr other ↦
          let ne : j ≢ actor a = ground (arith, other) in
          subst (KnowsAt (perform a s).next (perform a s).owner j) (sym (perform-others a s j ne)) (
            Knows-Leaves s.next (perform a s).next s.owner (perform a s).owner (actor a) j ne r.2
              (s.threads j).nodes (s.threads j).pc (good.knows j))
    ]

pub Reached-Good : (s : System) → Reached s → Good s
Reached-Good _ (start owners) = record {
  contents = [];
  holds = record {
    listed = refl;
    queued = λ a h. ground (arith, h);
    whole = λ a h. ground (arith, h);
  };
  knows = λ j. tt;
}
Reached-Good _ (acts a s r ok) = perform-Good a s (Reached-Good s r) ok

-- Whatever the order of the accesses of the threads, the queue in memory is a list of nodes from the head
-- on, and each access acts on it as one atomic operation: a push puts its nodes before the list in the
-- access that ends the call and changes nothing before; taking all leaves the empty queue, and gives the
-- thread all nodes of the list, still linked from the first one to the last, which leads nowhere.
pub perform-IsAtomic :
    (a : Action) (s : System)
    → Reached s
    → Allowed a s
    → (before after : List ℕ) × IsList s.next 0 before
      × IsList (perform a s).next 0 after
      × Effect a s before after
perform-IsAtomic a s r ok =
    let good = Reached-Good s r in
    let h = perform-Holds a s good ok in (good.contents, h.0, good.holds.listed, h.1.listed, h.3)
