-- ===== src/Hazard/Threads/Apart.antt =====
-- No two threads ever have the same hazard: src/hazard/list.rs.
use hazptr.Prelude.{
  ℕ, suc, ◌≡◌, ◌≢◌, inl, inr, refl, sym, subst, Bool, true, false, List, [], arith, ◌==◌, ==_refl,
  elem, Bool-cases,
}
use hazptr.Hazard.{free}
use hazptr.Hazard.Threads.{
  Shared, advance, Thread, System, Action, run, get_hazard, set_word, give_back, stored, freed,
  perform, actor, Allowed, Reached, start, acts,
}
use hazptr.Std.Linked.{IsList}
use hazptr.Hazard.Threads.Invariant.{Inv, Knows, Grows, Knows-Grows, Goes}
use hazptr.Hazard.Threads.Accesses.{step-Goes}

abbrev pub KnowsAt : Shared → ℕ → Thread → Type 0
KnowsAt g j t = Knows g j t.ptr t.pc

-- What holds of the list and of all threads at once.
pub record Good (s : System) : Type 0 where
  pub inv : Inv s.shared
  pub knows : (j : ℕ) → KnowsAt s.shared j (s.threads j)

run-Goes :
    (i : ℕ) (spurious : Bool) (address : ℕ) (s : System)
    → Good s
    → Allowed (run i spurious address) s
    → Goes i
        (s.threads i).ptr
        s.shared
        (advance i spurious address (s.threads i).ptr s.shared (s.threads i).pc)
run-Goes i spurious address s good (fresh, az) =
    step-Goes i (s.threads i).ptr s.shared good.inv spurious address (s.threads i).pc fresh az
      (good.knows i)

module _ (i hazard word : ℕ) (g : Shared) (inv : Inv g) (has : g.has i hazard ≡ true) where
  stored-Inv : word ≢ free → Inv (stored hazard word g)
  stored-Inv nf = record {
    chain = inv.chain;
    listed = inv.listed;
    member = inv.member;
    whole = inv.whole;
    origin = inv.origin;
    busy = λ j h b. ((inv.busy j h b).0, ground (arith, inv.busy j h b, nf));
    apart = inv.apart;
  }

  stored-Grows : (k : ℕ) → Grows k g (stored hazard word g)
  stored-Grows k = record {
    stays = λ a m. m;
    theirs = λ x j m ne. (m, ground (arith, m, inv.busy i hazard has), refl);
  }

  still_has : (j h : ℕ) → (freed i hazard g).has j h ≡ true → g.has j h ≡ true
  still_has j h b = elim (Bool-cases (i == j)) [
    | inl same ↦
        let e : i ≡ j = ground (arith, same) in
        subst (λ k. g.has k h ≡ true) e (ground (arith, b, same))
    | inr other ↦ ground (arith, b, other)
  ]

  given_up : (j : ℕ) → (freed i hazard g).has j hazard ≡ false
  given_up j = elim (Bool-cases (i == j)) [
    | inl same ↦ ground (arith, same)
    | inr other ↦ elim (Bool-cases (g.has j hazard)) [
      | inl b ↦ absurd (ground (arith, other, inv.apart i j hazard has b))
      | inr b ↦ ground (arith, other, b)
    ]
  ]

  freed-Inv : Inv (freed i hazard g)
  freed-Inv = record {
    chain = inv.chain;
    listed = inv.listed;
    member = inv.member;
    whole = inv.whole;
    origin = inv.origin;
    busy = λ j h b. elim (Bool-cases (hazard == h)) [
      | inl same ↦
          let e : hazard ≡ h = ground (arith, same) in
          absurd (ground (arith, b, subst (λ k. (freed i hazard g).has j k ≡ false) e (given_up j)))
      | inr other ↦ (
        (inv.busy j h (still_has j h b)).0,
        ground (arith, other, inv.busy j h (still_has j h b)),
      )
    ];
    apart = λ j k h b c. inv.apart j k h (still_has j h b) (still_has k h c);
  }

perform-others :
    (a : Action) (s : System) (j : ℕ) → j ≢ actor a → (perform a s).threads j ≡ s.threads j
unfolding perform
perform-others (run i spurious address) s j ne = ground (arith, ne)
perform-others (get_hazard i ptr) s j ne = ground (arith, ne)
perform-others (set_word i hazard word) s j ne = refl
perform-others (give_back i hazard) s j ne = refl

perform-Grows :
    (a : Action) (s : System)
    → Good s
    → Allowed a s
    → Inv (perform a s).shared × Grows (actor a) s.shared (perform a s).shared
unfolding perform
perform-Grows (run i spurious address) s good ok =
    let r = run-Goes i spurious address s good ok in (r.inv, r.grows)
perform-Grows (get_hazard i ptr) s good ok =
    (good.inv, record { stays = λ a m. m; theirs = λ x j m ne. (m, refl, refl) })
perform-Grows (set_word i hazard word) s good (has, nf) = (
  stored-Inv i hazard word s.shared good.inv has nf,
  stored-Grows i hazard word s.shared good.inv has i,
)
perform-Grows (give_back i hazard) s good has =
    (freed-Inv i hazard free s.shared good.inv has, record { stays = g.stays; theirs = g.theirs })
  where
    g : Grows i s.shared (stored hazard free s.shared)
    g = stored-Grows i hazard free s.shared good.inv has i

actor-Knows :
    (a : Action) (s : System)
    → Good s
    → Allowed a s
    → KnowsAt (perform a s).shared (actor a) ((perform a s).threads (actor a))
unfolding perform
actor-Knows (run i spurious address) s good ok =
    rw (==_refl i) (run-Goes i spurious address s good ok).knows
actor-Knows (get_hazard i ptr) s good (e, nf) = rw (==_refl i) (nf, inl refl)
actor-Knows (set_word i hazard word) s good (has, nf) =
    Knows-Grows (suc i) i s.shared (stored hazard word s.shared) (λ e. omega (arith, e))
      (stored-Grows i hazard word s.shared good.inv has (suc i)) (s.threads i).ptr (s.threads i).pc
      (good.knows i)
actor-Knows (give_back i hazard) s good has =
    Knows-Grows (suc i) i s.shared (freed i hazard s.shared) (λ e. omega (arith, e))
      (record { stays = g.stays; theirs = g.theirs }) (s.threads i).ptr (s.threads i).pc
      (good.knows i)
  where
    g : Grows (suc i) s.shared (stored hazard free s.shared)
    g = stored-Grows i hazard free s.shared good.inv has (suc i)

perform-Good : (a : Action) (s : System) → Good s → Allowed a s → Good (perform a s)
perform-Good a s good ok = record { inv = (perform-Grows a s good ok).0; knows = knows }
  where
    knows : (j : ℕ) → KnowsAt (perform a s).shared j ((perform a s).threads j)
    knows j = elim (Bool-cases (j == actor a)) [
      | inl same ↦
          let e : actor a ≡ j = ground (arith, same) in
          subst (λ k. KnowsAt (perform a s).shared k ((perform a s).threads k)) e
            (actor-Knows a s good ok)
      | inr other ↦
          let ne : j ≢ actor a = ground (arith, other) in
          subst (KnowsAt (perform a s).shared j) (sym (perform-others a s j ne)) (
            Knows-Grows (actor a) j s.shared (perform a s).shared ne (perform-Grows a s good ok).1
              (s.threads j).ptr (s.threads j).pc (good.knows j))
    ]

pub Reached-Good : (s : System) → Reached s → Good s
Reached-Good _ start = record {
  inv = record {
    chain = [];
    listed = refl;
    member = λ a h. ground (arith, h);
    whole = λ a m. ground (arith, m);
    origin = refl;
    busy = λ i h b. ground (arith, b);
    apart = λ i j h b c. ground (arith, b);
  };
  knows = λ j. tt;
}
Reached-Good _ (acts a s r ok) = perform-Good a s (Reached-Good s r) ok

-- After any order of accesses, a hazard that a thread has is in the list and is not `FREE`, and a thread
-- that has it is the same thread.
pub Reached-apart :
    (s : System) (i j h : ℕ)
    → Reached s
    → s.shared.has i h ≡ true
    → s.shared.has j h ≡ true
    → (j ≡ i)
      × (s.shared.nodes.protected h ≢ free)
      × ((l : List ℕ) × IsList s.shared.nodes.next 0 l × (elem h l ≡ true))
Reached-apart s i j h r b c =
    let inv = (Reached-Good s r).inv in
    (
      inv.apart j i h c b,
      (inv.busy i h b).1,
      (inv.chain, inv.listed, inv.whole h (inv.busy i h b).0),
    )

-- While a thread has a hazard, no access of another thread changes its word or takes it away.
pub perform-KeepsWords :
    (a : Action) (s : System) (j h : ℕ)
    → Reached s
    → Allowed a s
    → j ≢ actor a
    → s.shared.has j h ≡ true
    → ((perform a s).shared.has j h ≡ true)
      × ((perform a s).shared.nodes.protected h ≡ s.shared.nodes.protected h)
unfolding perform
perform-KeepsWords (run i spurious address) s j h r ok ne b =
    (run-Goes i spurious address s (Reached-Good s r) ok).words j h ne b
perform-KeepsWords (get_hazard i ptr) s j h r ok ne b = (b, refl)
perform-KeepsWords (set_word i hazard word) s j h r (has, nf) ne b =
    (b, ground (arith, ne, (Reached-Good s r).inv.apart j i h b, has))
perform-KeepsWords (give_back i hazard) s j h r has ne b =
    (ground (arith, b, ne), ground (arith, ne, (Reached-Good s r).inv.apart j i h b, has))
