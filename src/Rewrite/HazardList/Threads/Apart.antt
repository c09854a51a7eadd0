-- ===== src/Rewrite/HazardList/Threads/Apart.antt =====
-- No two threads ever have the same hazard of the rewrite's list: hazptr_rewrite/src/hazard/list.rs.
use hazptr.Prelude.{
  ℕ, suc, ◌≡◌, ◌≢◌, inl, inr, refl, sym, subst, true, false, ◌&&◌, List, [], arith, ◌==◌, ==_refl,
  elem, Bool-cases,
}
use hazptr.Rewrite.HazardList.Threads.{
  Shared, advance, Thread, System, Action, run, get_or_insert, set_word, give_back, stored, freed,
  is_available, perform, actor, Allowed, Reached, start, acts,
}
use hazptr.Std.Linked.{IsList}
use hazptr.Rewrite.HazardList.Threads.Invariant.{Inv, Knows, Grows, Knows-Grows, Goes}
use hazptr.Rewrite.HazardList.Threads.Owners.{stored-Grows, stored-Inv, freed-Inv, freed-Grows}
use hazptr.Rewrite.HazardList.Threads.Steps.{step-Goes}

abbrev pub KnowsAt : Shared → ℕ → Thread → Type 0
KnowsAt g j t = Knows g j t.protected t.pc

-- What holds of the list and of all threads at once.
pub record Good (s : System) : Type 0 where
  pub inv : Inv s.shared
  pub knows : (j : ℕ) → KnowsAt s.shared j (s.threads j)

run-Goes :
    (i address : ℕ) (s : System)
    → Good s
    → Allowed (run i address) s
    → Goes i
        (s.threads i).protected
        s.shared
        (advance i address (s.threads i).protected s.shared (s.threads i).pc)
run-Goes i address s good (fresh, az) =
    step-Goes i (s.threads i).protected s.shared good.inv address (s.threads i).pc fresh az
      (good.knows i)

perform-others :
    (a : Action) (s : System) (j : ℕ) → j ≢ actor a → (perform a s).threads j ≡ s.threads j
unfolding perform
perform-others (run i address) s j ne = ground (arith, ne)
perform-others (get_or_insert i protected) s j ne = ground (arith, ne)
perform-others (set_word i node idx word) s j ne = refl
perform-others (give_back i node idx) s j ne = refl

pub perform-Grows :
    (a : Action) (s : System)
    → Good s
    → Allowed a s
    → Inv (perform a s).shared × Grows (actor a) s.shared (perform a s).shared
unfolding perform
perform-Grows (run i address) s good ok = let r = run-Goes i address s good ok in (r.inv, r.grows)
perform-Grows (get_or_insert i protected) s good ok = (
  good.inv,
  record { stays = λ a m. m; used = λ a k m u. u; theirs = λ x j m ne. (m, λ k. refl, refl) },
)
perform-Grows (set_word i node idx word) s good (has, nf) = (
  stored-Inv i node idx word s.shared good.inv has nf,
  stored-Grows i node idx word s.shared good.inv has (ground (arith, nf)) i,
)
perform-Grows (give_back i node idx) s good has =
    (freed-Inv i node idx s.shared good.inv has, freed-Grows i node idx s.shared good.inv has i)

actor-Knows :
    (a : Action) (s : System)
    → Good s
    → Allowed a s
    → KnowsAt (perform a s).shared (actor a) ((perform a s).threads (actor a))
unfolding perform
actor-Knows (run i address) s good ok = rw (==_refl i) (run-Goes i address s good ok).knows
actor-Knows (get_or_insert i protected) s good (e, nf) = rw (==_refl i) (nf, inl refl)
actor-Knows (set_word i node idx word) s good (has, nf) =
    Knows-Grows (suc i) i s.shared (stored node idx word s.shared) (λ e. omega (arith, e))
      (stored-Grows i node idx word s.shared good.inv has (ground (arith, nf)) (suc i))
      (s.threads i).protected (s.threads i).pc (good.knows i)
actor-Knows (give_back i node idx) s good has =
    Knows-Grows (suc i) i s.shared (freed i node idx s.shared) (λ e. omega (arith, e))
      (freed-Grows i node idx s.shared good.inv has (suc i)) (s.threads i).protected
      (s.threads i).pc (good.knows i)

perform-Good : (a : Action) (s : System) → Good s → Allowed a s → Good (perform a s)
perform-Good a s good ok = record { inv = (perform-Grows a s good ok).0; knows = knows }
  where
    knows : (j : ℕ) → KnowsAt (perform a s).shared j ((perform a s).threads j)
    knows j = elim (Bool-cases (j == actor a)) [
      | inl same ↦
          let e : actor a ≡ j = ground (arith, same) in
          subst (λ k. KnowsAt (perform a s).shared k ((perform a s).threads k)) e
            (actor-Knows a s good ok)
      | inr other ↦
          let ne : j ≢ actor a = ground (arith, other) in
          subst (KnowsAt (perform a s).shared j) (sym (perform-others a s j ne)) (
            Knows-Grows (actor a) j s.shared (perform a s).shared ne (perform-Grows a s good ok).1
              (s.threads j).protected (s.threads j).pc (good.knows j))
    ]

pub Reached-Good : (s : System) → Reached s → Good s
Reached-Good _ start = record {
  inv = record {
    chain = [];
    listed = refl;
    member = λ a h. ground (arith, h);
    whole = λ a m. ground (arith, m);
    origin = refl;
    busy = λ i a k b. ground (arith, b);
    apart = λ i j a k b c. ground (arith, b);
    full = λ a m nz k lt. ground (arith, m);
    ordered = λ a k m u. ground (arith, m);
  };
  knows = λ j. tt;
}
Reached-Good _ (acts a s r ok) = perform-Good a s (Reached-Good s r) ok

-- After any order of accesses, a hazard that a thread has is in the rewrite's list and is not available, and a thread
-- that has it is the same thread.
pub Reached-alone :
    (s : System) (i j node idx : ℕ)
    → Reached s
    → s.shared.has i node idx ≡ true
    → s.shared.has j node idx ≡ true
    → (j ≡ i)
      × (is_available (s.shared.nodes.words node idx) ≡ false)
      × ((l : List ℕ) × IsList s.shared.nodes.next 0 l × (elem node l ≡ true))
Reached-alone s i j node idx r b c =
    let inv = (Reached-Good s r).inv in
    (
      inv.apart j i node idx c b,
      (inv.busy i node idx b).1,
      (inv.chain, inv.listed, inv.whole node (inv.busy i node idx b).0),
    )

-- The hazards of two threads differ.
differ :
    (g : Shared) (i j node idx a k : ℕ)
    → Inv g
    → j ≢ i
    → g.has i node idx ≡ true
    → g.has j a k ≡ true
    → ((node == a) && (idx == k)) ≡ false
differ g i j node idx a k inv ne has b = elim (Bool-cases ((node == a) && (idx == k))) [
  | inl here ↦
      let p : node ≡ a = ground (arith, here) in
      let q : idx ≡ k = ground (arith, here) in
      absurd (
        ne (
          inv.apart j i a k b
            (subst (λ k. g.has i a k ≡ true) q (subst (λ a. g.has i a idx ≡ true) p has))))
  | inr other ↦ other
]

-- While a thread has a hazard of the rewrite's list, no access of another thread changes its word or takes
-- it away.
pub perform-KeepsHazard :
    (a : Action) (s : System) (j node idx : ℕ)
    → Reached s
    → Allowed a s
    → j ≢ actor a
    → s.shared.has j node idx ≡ true
    → ((perform a s).shared.has j node idx ≡ true)
      × ((perform a s).shared.nodes.words node idx ≡ s.shared.nodes.words node idx)
unfolding perform
perform-KeepsHazard (run i address) s j a k r ok ne b =
    (run-Goes i address s (Reached-Good s r) ok).words j a k ne b
perform-KeepsHazard (get_or_insert i protected) s j a k r ok ne b = (b, refl)
perform-KeepsHazard (set_word i node idx word) s j a k r (has, nf) ne b =
    let e = differ s.shared i j node idx a k (Reached-Good s r).inv ne has b in
    (b, ground (arith, e))
perform-KeepsHazard (give_back i node idx) s j a k r has ne b =
    let e = differ s.shared i j node idx a k (Reached-Good s r).inv ne has b in
    (ground (arith, ne, b), ground (arith, e))
