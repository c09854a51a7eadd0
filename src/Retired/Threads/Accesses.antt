-- ===== src/Retired/Threads/Accesses.antt =====
-- Each access to the abandoned bags keeps what holds of them, and what it does: src/retired.rs.
use hazptr.Prelude.{
  update, ℕ, ◌≡◌, inl, inr, refl, sym, ◌∙◌, Bool, some, List, [], ◌∷◌, arith, ◌==◌, length,
  Bool-cases,
}
use hazptr.Std.Linked.{IsList, IsList-frame, IsList-moved, elem_zero}
use hazptr.Retired
use hazptr.Retired.{Link, RetiredBag}
use hazptr.Retired.Threads.{
  Pc, ready, push_load, push_store, push_exchange, pushed, take_probe, take_swap, taken,
  merge_taken, write, succeeds, step, Status, unused, owned, inside, removed, Shared, advance,
  is_idle, take_out,
}
use hazptr.Retired.Threads.Merging.{links, inner_of, merge_taken-take_and_merge, IsQueue-taken}
use hazptr.Retired.Threads.Invariant.{Inv, Knows, quiet, pushes, takes, Goes}

module _ {R : Type 0} where
  module _ (i : ℕ) (g : Shared R) (contents : List ℕ) (inv : Inv g contents) where
    reads : (pc pc' : Pc) → is_idle pc' ≡ is_idle pc → Knows g i pc' → Goes i g contents pc (g, pc')
    reads pc pc' e k = record {
      after = contents;
      inv = inv;
      knows = k;
      leaves = λ j ne a o nz. (o, refl, refl);
      effect = quiet pc pc' e refl;
    }

    store-Goes :
        (bag head : ℕ)
        → Knows g i (push_store bag head)
        → Goes i g contents
            (push_store bag head)
            (record g { bags = write g.bags bag head }, push_exchange bag head)
    store-Goes bag head (o, nz) = record {
      after = contents;
      inv = record {
        listed =
            IsList-frame g.bags.next bag head 0 contents (ground (arith, nz, o, inv.member bag))
              inv.listed;
        member = inv.member;
        whole = inv.whole;
        origin = inv.origin;
      };
      knows = (o, nz, ground arith);
      leaves = λ j ne a p az. (p, ground (arith, p, o, ne), refl);
      effect = quiet (push_store bag head) (push_exchange bag head) refl refl;
    }

    exchange-Goes :
        (bag head : ℕ)
        → Knows g i (push_exchange bag head)
        → g.bags.next 0 ≡ head
        → Goes i g contents
            (push_exchange bag head)
            (record { bags = write g.bags 0 bag; status = update g.status bag inside }, pushed bag)
    unfolding Retired.push
    exchange-Goes bag head (o, nz, e) same = record {
      after = bag ∷ contents;
      inv = record {
        listed = (
          ground arith,
          nz,
          IsList-frame g.bags.next 0 bag bag contents
              (ground (arith, nz, elem_zero g.bags.next 0 contents inv.listed))
              (IsList-moved g.bags.next 0 bag contents (e ∙ sym same) inv.listed),
        );
        member = λ a h. ground (arith, h, inv.member a);
        whole = λ a h. ground (arith, h, inv.whole a);
        origin = ground (arith, inv.origin, nz);
      };
      knows = tt;
      leaves = λ j ne a p az. (ground (arith, p, o, ne), ground (arith, az), refl);
      effect = pushes bag head Retired.null refl;
    }

    swap-Goes : Goes i g contents take_swap (
      record { bags = write g.bags 0 0; status = λ a. take_out i (g.status a) },
      taken (g.bags.next 0),
    )
    unfolding Retired.take_and_merge
    swap-Goes = record {
      after = [];
      inv = record {
        listed = ground arith;
        member = λ a h. ground (arith, h);
        whole = λ a h. absurd (none_inside (g.status a) h);
        origin = ground (arith, inv.origin);
      };
      knows = tt;
      leaves = λ j ne a p az. (ground (arith, p), ground (arith, az), refl);
      effect =
          takes take_swap (g.bags.next 0) refl
            (merge_taken-take_and_merge (write g.bags 0 0) (g.bags.next 0) contents
              (IsQueue-taken g.bags.next contents inv.listed))
            refl;
    }
      where
        none_inside : (x : Status) → take_out i x ≡ inside → ⊥
        none_inside unused h = ground (arith, h)
        none_inside (owned j) h = ground (arith, h)
        none_inside inside h = ground (arith, h)
        none_inside (removed j) h = ground (arith, h)

    -- A look at an empty queue is a take.
    probe-Goes : g.bags.next 0 ≡ 0 → Goes i g contents take_probe (g, taken 0)
    unfolding Retired.take_and_merge merge_taken
    probe-Goes e = record {
      after = contents;
      inv = inv;
      knows = tt;
      leaves = λ j ne a o nz. (o, refl, refl);
      effect = takes take_probe 0 refl (empty contents inv.listed).0 (empty contents inv.listed).1;
    }
      where
        empty :
            (l : List ℕ)
            → IsList g.bags.next 0 l
            → (merge_taken (length l) g.bags 0
                ≡ some
                    (inner_of (Retired.take_and_merge (record { head = links g.bags.inner l })).0))
              × (links g.bags.inner l
                  ≡ (Retired.take_and_merge (record { head = links g.bags.inner l })).1.head)
        empty [] h = (refl, refl)
        empty (a ∷ l) (f, nz, h) = absurd (nz (sym f ∙ e))

    pub advance-Goes :
        (spurious : Bool) (pc : Pc) → Knows g i pc → Goes i g contents pc (advance i spurious g pc)
    unfolding advance step
    advance-Goes spurious ready k = reads ready ready refl tt
    advance-Goes spurious (push_load bag) k =
        reads (push_load bag) (push_store bag (g.bags.next 0)) refl k
    advance-Goes spurious (push_store bag head) k = store-Goes bag head k
    advance-Goes spurious (push_exchange bag head) k =
        elim (Bool-cases (succeeds spurious g.bags head)) [
          | inl done ↦ rw done (exchange-Goes bag head k (ground (arith, done)))
          | inr failed ↦ rw failed (reads (push_exchange bag head) (push_load bag) refl (k.0, k.1))
        ]
    advance-Goes spurious (pushed bag) k = reads (pushed bag) (pushed bag) refl tt
    advance-Goes spurious take_probe k = elim (Bool-cases (g.bags.next 0 == 0)) [
      | inl null ↦ rw null (probe-Goes (ground (arith, null)))
      | inr more ↦ rw more (reads take_probe take_swap refl tt)
    ]
    advance-Goes spurious take_swap k = swap-Goes
    advance-Goes spurious (taken queue) k = reads (taken queue) (taken queue) refl tt
