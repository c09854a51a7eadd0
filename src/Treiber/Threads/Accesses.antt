-- ===== src/Treiber/Threads/Accesses.antt =====
-- Each access to the shared stack keeps its invariant and acts on the stack of elements as one step of
-- the specification, or not at all: examples/treiber/stack.rs.
use hazptr.Prelude.{
  update, ℕ, ◌≡◌, inl, inr, refl, sym, ap, subst, ◌∙◌, Bool, true, false, none, some, List, [], ◌∷◌,
  arith, ◌==◌, if◌then◌else◌, elem, Bool-cases,
}
use hazptr.Std.Linked.{IsList-apart, IsList-moved, elem_zero, IsList, IsList-frame}
use hazptr.Treiber.Threads.{
  pushed, popped, Pc, push_load, push_store, push_exchange, pop_load, pop_next, pop_exchange,
  pop_read, pop_retire, finished, ready, write, succeeds, step, inside, taken, retired, Shared,
  advance,
}
use hazptr.Treiber.Threads.Spec.{phase_of, push, pop}
use hazptr.Treiber.Threads.Invariant.{Inv, Knows, same-Leaves}
use hazptr.Treiber.Threads.Effects.{quiet, takes, Goes}

module _ {T : Type 0} where
  module _ (i : ℕ) (g : Shared T) (contents : List ℕ) (inv : Inv g contents) where
    reads :
        (pc pc' : Pc T)
        → phase_of g.memory pc' ≡ phase_of g.memory pc
        → Knows g i pc'
        → Goes i pc g contents (g, pc')
    reads pc pc' e k = record {
      after = contents;
      inv = inv;
      knows = k;
      leaves = λ j ne other. same-Leaves j other g;
      effect = quiet refl e;
    }

    store-Goes :
        (node head : ℕ)
        → Knows g i (push_store node head)
        → Goes i
            (push_store node head)
            g
            contents
            (record g { memory = write g.memory node head }, push_exchange node head)
    store-Goes node head (o, nz) = record {
      after = contents;
      inv = record {
        listed =
            IsList-frame g.memory.next node head 0 contents (ground (arith, nz, o, inv.member node))
              inv.listed;
        member = inv.member;
        whole = inv.whole;
        origin = inv.origin;
      };
      knows = (o, nz, ground arith);
      leaves = λ j ne other. record {
        own = λ a m az. (refl, (ground (arith, m, o, ne), refl));
        guarded = λ a p u az. (u, (ground (arith, u, o), refl));
      };
      effect = quiet refl refl;
    }

    push-Goes :
        (node head : ℕ)
        → Knows g i (push_exchange node head)
        → g.memory.next 0 ≡ head
        → Goes i (push_exchange node head) g contents (
          record { memory = write g.memory 0 node; status = update g.status node inside },
          finished pushed,
        )
    push-Goes node head (o, nz, e) at_head = record {
      after = node ∷ contents;
      inv = record {
        listed = (
          ground arith,
          nz,
          IsList-frame g.memory.next 0 node node contents
              (ground (arith, nz, elem_zero g.memory.next 0 contents inv.listed))
              (IsList-moved g.memory.next 0 node contents (e ∙ sym at_head) inv.listed),
        );
        member = λ a h. ground (arith, h, inv.member a);
        whole = λ a h. ground (arith, h, inv.whole a);
        origin = ground (arith, nz, inv.origin);
      };
      knows = tt;
      leaves = λ j ne other. record {
        own = λ a m az. (ground (arith, m, o, ne), (ground (arith, az), refl));
        guarded = λ a p u az. (ground (arith, u), (ground (arith, az), refl));
      };
      effect = takes (push (g.memory.elems node)) refl refl refl;
    }

    load-Goes :
        (c : List ℕ)
        → contents ≡ c
        → Goes i pop_load g contents (
          g,
          (if g.memory.next 0 == 0 then finished (popped none) else pop_next (g.memory.next 0)),
        )
    load-Goes [] e = rw (last e) (record {
      after = contents;
      inv = inv;
      knows = tt;
      leaves = (reads pop_load pop_load refl tt).leaves;
      effect = rw e (takes pop refl refl refl);
    })
      where
        last : contents ≡ [] → (g.memory.next 0 == 0) ≡ true
        last e = ground (arith, subst (IsList g.memory.next 0) e inv.listed)
    load-Goes (a ∷ l) e =
        let h : IsList g.memory.next 0 (a ∷ l) = subst (IsList g.memory.next 0) e inv.listed in
        let nz : (g.memory.next 0 == 0) ≡ false = ground (arith, h.0, h.1) in
        rw nz (
          reads pop_load (pop_next (g.memory.next 0)) refl
            (ground (arith, h.0, inv.member a, ap (elem a) e), ground (arith, h.0, h.1)))

    pop-Goes :
        (head next : ℕ) (c : List ℕ)
        → contents ≡ c
        → Knows g i (pop_exchange head next)
        → g.memory.next 0 ≡ head
        → Goes i (pop_exchange head next) g contents (
          record { memory = write g.memory 0 next; status = update g.status head (taken i) },
          pop_read head,
        )
    pop-Goes head next [] e (u, nz, n) at_head =
        absurd (nz (sym at_head ∙ subst (IsList g.memory.next 0) e inv.listed))
    pop-Goes head next (a ∷ l) e (u, nz, n) at_head = record {
      after = l;
      inv = record {
        listed = IsList-moved (write g.memory 0 next).next a 0 l (ground (arith, nz, first, n)) (
            IsList-frame g.memory.next 0 next a l
              (ground (arith, listed.1, elem_zero g.memory.next a l listed.2)) listed.2);
        member = λ b h.
            ground (
              arith,
              h,
              first,
              inv.member b,
              ap (elem b) e,
              IsList-apart g.memory.next a l listed.2,
            );
        whole = λ b h. ground (arith, h, first, inv.whole b, ap (elem b) e);
        origin = ground (arith, nz, inv.origin);
      };
      knows = (ground arith, nz);
      leaves = λ j ne other. record {
        own = λ b m bz.
            (ground (arith, m, first, inv.member a, ap (elem a) e), (ground (arith, bz), refl));
        guarded = λ b p v bz. (ground (arith, v), (ground (arith, bz), refl));
      };
      effect = takes pop refl (rw e refl) (rw (e, first) refl);
    }
      where
        listed : IsList g.memory.next 0 (a ∷ l)
        listed = subst (IsList g.memory.next 0) e inv.listed

        first : a ≡ head
        first = sym listed.0 ∙ at_head

    retire-Goes :
        (unlinked : ℕ) (res : T)
        → Knows g i (pop_retire unlinked res)
        → Goes i
            (pop_retire unlinked res)
            g
            contents
            (record g { status = update g.status unlinked retired }, finished (popped (some res)))
    retire-Goes unlinked res (o, nz) = record {
      after = contents;
      inv = record {
        listed = inv.listed;
        member = λ b h. ground (arith, inv.member b h, o);
        whole = λ b h. inv.whole b (ground (arith, h));
        origin = ground (arith, nz, inv.origin);
      };
      knows = tt;
      leaves = λ j ne other. record {
        own = λ b m bz. (ground (arith, m, o, ne), (refl, refl));
        guarded = λ b p v bz. (ground (arith, v), (refl, refl));
      };
      effect = quiet refl refl;
    }

    pub advance-Goes :
        (spurious : Bool) (pc : Pc T)
        → Knows g i pc
        → Goes i pc g contents (advance i spurious g pc)
    unfolding advance step
    advance-Goes spurious ready k = reads ready ready refl tt
    advance-Goes spurious (push_load node) k =
        reads (push_load node) (push_store node (g.memory.next 0)) refl k
    advance-Goes spurious (push_store node head) k = store-Goes node head k
    advance-Goes spurious (push_exchange node head) (o, nz, e) =
        elim (Bool-cases (succeeds spurious g.memory head)) [
          | inl done ↦ rw done (push-Goes node head (o, nz, e) (ground (arith, done)))
          | inr failed ↦ rw failed (reads (push_exchange node head) (push_load node) refl (o, nz))
        ]
    advance-Goes spurious pop_load k = load-Goes contents refl
    advance-Goes spurious (pop_next head) (u, nz) =
        reads (pop_next head) (pop_exchange head (g.memory.next head)) refl (u, nz, refl)
    advance-Goes spurious (pop_exchange head next) k =
        elim (Bool-cases (succeeds spurious g.memory head)) [
          | inl done ↦ rw done (pop-Goes head next contents refl k (ground (arith, done)))
          | inr failed ↦ rw failed (reads (pop_exchange head next) pop_load refl tt)
        ]
    advance-Goes spurious (pop_read unlinked) k =
        reads (pop_read unlinked) (pop_retire unlinked (g.memory.elems unlinked)) refl k
    advance-Goes spurious (pop_retire unlinked res) k = retire-Goes unlinked res k
    advance-Goes spurious (finished a) k = reads (finished a) (finished a) refl tt
