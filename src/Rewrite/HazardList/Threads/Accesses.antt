-- ===== src/Rewrite/HazardList/Threads/Accesses.antt =====
-- Each access to the rewrite's list of hazards keeps what holds of it: hazptr_rewrite/src/hazard/list.rs.
use hazptr.Prelude.{
  update, ℕ, ◌≡◌, ◌≢◌, inl, inr, refl, subst, true, false, ◌∷◌, arith, ◌==◌, elem, Bool-cases,
}
use hazptr.Rewrite.HazardList.Threads.{Pc, load_next, append, unused, made, Shared, new_node}
use hazptr.Std.Linked.{IsList-frame, elem-next}
use hazptr.Rewrite.HazardList.Threads.Invariant.{IsLinked, Inv, IsPassed, Knows, Goes}

module _ (i protected : ℕ) (g : Shared) (inv : Inv g) where
  pub reads : (pc : Pc) → Knows g i protected pc → Goes i protected g (g, pc)
  reads pc k = record {
    inv = inv;
    knows = k;
    grows = record {
      stays = λ a l. l;
      used = λ a k l u. u;
      theirs = λ x j m ne. (m, λ k. refl, refl);
    };
    words = λ j a h ne b. (b, refl);
  }

  pub there : (p : ℕ) → IsPassed g p → elem p (0 ∷ inv.chain) ≡ true
  there p (inl z) = ground (arith, z)
  there p (inr (m, u)) = ground (arith, inv.whole p m)

  pub behind : (p : ℕ) → IsPassed g p → g.nodes.next p ≢ 0 → IsLinked g (g.nodes.next p)
  behind p l nz =
      inv.member (g.nodes.next p) (elem-next g.nodes.next 0 p inv.chain inv.listed (there p l) nz)

  module _ (address : ℕ) (fresh : g.status address ≡ unused) (az : address ≢ 0) where
    abbrev pub allocated : Shared
    allocated = record {
      nodes = new_node g.nodes address protected;
      status = update g.status address (made i);
      has = g.has;
    }

    spared : (a : ℕ) → IsLinked g a → (address == a) ≡ false
    spared a m = elim (Bool-cases (address == a)) [
      | inl same ↦
          let e : address ≡ a = ground (arith, same) in
          absurd (ground (arith, m, subst (λ a. g.status a ≡ unused) e fresh))
      | inr other ↦ other
    ]

    was_linked : (a : ℕ) → IsLinked allocated a → IsLinked g a
    was_linked a m = ground (arith, m)

    allocated-Inv : Inv allocated
    allocated-Inv = record {
      chain = inv.chain;
      listed =
          IsList-frame g.nodes.next address 0 0 inv.chain
            (ground (arith, az, fresh, inv.member address)) inv.listed;
      member = λ a h. ground (arith, inv.member a h, fresh);
      whole = λ a h. inv.whole a (was_linked a h);
      origin = ground (arith, inv.origin, az);
      busy = λ j a k b. ground (arith, inv.busy j a k b, fresh);
      apart = inv.apart;
      full = λ a m nz k lt e.
          let ne = spared a (was_linked a m) in
          inv.full a (was_linked a m) (ground (arith, nz, ne)) k lt (ground (arith, e, ne));
      ordered = λ a k m u e.
          let ne = spared a (was_linked a m) in
          inv.ordered a k (was_linked a m) (λ f. u (rw ne f)) (ground (arith, e, ne));
    }

    allocated-IsPassed : (p : ℕ) → IsPassed g p → IsPassed allocated p
    allocated-IsPassed p (inl z) = inl z
    allocated-IsPassed p (inr (m, u)) =
        let ne = spared p m in inr (ground (arith, m, ne), λ k lt e. u k lt (ground (arith, e, ne)))

    pub allocated-Goes :
        (prev : ℕ)
        → Knows g i protected (load_next prev)
        → Goes i protected g (allocated, append prev address)
    allocated-Goes prev (nf, l) = record {
      inv = allocated-Inv;
      knows = (
        nf,
        allocated-IsPassed prev l,
        (ground arith, ground arith, λ k. ground arith, ground arith, az),
      );
      grows = record {
        stays = λ a m. ground (arith, m, fresh);
        used = λ a k m u e. u (ground (arith, e, spared a m));
        theirs = λ x j m ne.
            (ground (arith, m, fresh), λ k. ground (arith, m, fresh), ground (arith, m, fresh));
      };
      words = λ j a k ne b. (b, ground (arith, inv.busy j a k b, fresh));
    }
