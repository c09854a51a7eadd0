-- ===== src/Hazard/Threads/Accesses.antt =====
-- Each access to the list of hazards keeps what holds of it: src/hazard/list.rs.
use hazptr.Prelude.{
  update, ℕ, ◌≡◌, ◌≢◌, ◌⊎◌, inl, inr, refl, sym, subst, ◌∙◌, Bool, true, false, some, [], ◌∷◌, ◌++◌,
  arith, ◌==◌, elem, elem-append, Bool-cases,
}
use hazptr.Hazard.{free}
use hazptr.Hazard.Threads.{
  Pc, load_next, load_protected, swap_protected, append, idle, step, unused, made, linked, Shared,
  took, advance,
}
use hazptr.Std.Linked.{IsList-frame, IsList-append, elem-next}
use hazptr.Hazard.Threads.Invariant.{IsLinked, Inv, IsLocation, Knows, Grows, Goes}

module _ (i ptr : ℕ) (g : Shared) (inv : Inv g) where
  same-Grows : Grows i g g
  same-Grows = record { stays = λ a l. l; theirs = λ x j m ne. (m, refl, refl) }

  reads : (pc : Pc) → Knows g i ptr pc → Goes i ptr g (g, pc)
  reads pc k = record { inv = inv; knows = k; grows = same-Grows; words = λ j h ne b. (b, refl) }

  behind : (p : ℕ) → IsLocation g p → g.nodes.next p ≢ 0 → IsLinked g (g.nodes.next p)
  behind p l nz =
      inv.member (g.nodes.next p) (elem-next g.nodes.next 0 p inv.chain inv.listed (there l) nz)
    where
      there : IsLocation g p → elem p (0 ∷ inv.chain) ≡ true
      there (inl z) = ground (arith, z)
      there (inr m) = ground (arith, inv.whole p m)

  look-Goes :
      (spurious : Bool) (address prev : ℕ)
      → g.status address ≡ unused
      → address ≢ 0
      → Knows g i ptr (load_next prev)
      → Goes i ptr g (advance i spurious address ptr g (load_next prev))
  unfolding advance step
  look-Goes spurious address prev fresh az (nf, l) = elim (Bool-cases (g.nodes.next prev == 0)) [
    | inl null ↦ rw null (record {
      inv = record {
        chain = inv.chain;
        listed = IsList-frame g.nodes.next address 0 0 inv.chain out inv.listed;
        member = λ a h. ground (arith, inv.member a h, fresh);
        whole = λ a h. inv.whole a (ground (arith, h));
        origin = ground (arith, inv.origin, az);
        busy = λ j h b. ground (arith, inv.busy j h b, fresh);
        apart = inv.apart;
      };
      knows = (nf, kept prev l, ground arith, ground arith, ground arith, az);
      grows = record {
        stays = λ a m. ground (arith, m, fresh);
        theirs = λ x j m ne. ground (arith, m, fresh);
      };
      words = λ j h ne b. (b, ground (arith, inv.busy j h b, fresh));
    })
    | inr there ↦
        rw there
          (reads (load_protected (g.nodes.next prev)) (nf, behind prev l (ground (arith, there))))
  ]
    where
      out : elem address (0 ∷ inv.chain) ≡ false
      out = ground (arith, az, fresh, inv.member address)

      kept : (p : ℕ) → IsLocation g p → (p ≡ 0) ⊎ (update g.status address (made i) p ≡ linked)
      kept p (inl z) = inl z
      kept p (inr m) = inr (ground (arith, m, fresh))

  -- Who has what, after the thread has got a hazard that no thread had.
  newly :
      (node j h : ℕ)
      → took i (some node) g.has j h ≡ true
      → ((j ≡ i) × (h ≡ node)) ⊎ (g.has j h ≡ true)
  newly node j h b = elim (Bool-cases (i == j)) [
    | inl same ↦ elim (Bool-cases (node == h)) [
      | inl here ↦ inl (ground (arith, same), ground (arith, here))
      | inr other ↦
          let e : i ≡ j = ground (arith, same) in
          inr (subst (λ k. g.has k h ≡ true) e (ground (arith, b, same, other)))
    ]
    | inr other ↦ inr (ground (arith, b, other))
  ]

  newly_apart :
      (node : ℕ)
      → ((j : ℕ) → g.has j node ≡ false)
      → (j k h : ℕ) → took i (some node) g.has j h ≡ true
      → took i (some node) g.has k h ≡ true
      → j ≡ k
  newly_apart node none_has j k h b c = elim (newly node j h b) [
    | inl (mine, e) ↦ elim (newly node k h c) [
      | inl (yours, f) ↦ mine ∙ sym yours
      | inr old ↦ absurd (ground (arith, none_has k, subst (λ x. g.has k x ≡ true) e old))
    ]
    | inr old ↦ elim (newly node k h c) [
      | inl (yours, f) ↦ absurd (ground (arith, none_has j, subst (λ x. g.has j x ≡ true) f old))
      | inr old' ↦ inv.apart j k h old old'
    ]
  ]

  swap-Goes :
      (spurious : Bool) (address node : ℕ)
      → Knows g i ptr (swap_protected node)
      → Goes i ptr g (advance i spurious address ptr g (swap_protected node))
  unfolding advance step
  swap-Goes spurious address node (nf, l) = elim (Bool-cases (g.nodes.protected node == free)) [
    | inl isfree ↦ rw isfree (record {
      inv = record {
        chain = inv.chain;
        listed = inv.listed;
        member = inv.member;
        whole = inv.whole;
        origin = inv.origin;
        busy = λ j h b. elim (newly node j h b) [
          | inl (mine, e) ↦ (subst (IsLinked g) (sym e) l, ground (arith, e, nf))
          | inr old ↦ ((inv.busy j h old).0, ground (arith, inv.busy j h old, nf))
        ];
        apart = newly_apart node (λ j. unheld j (ground (arith, isfree)));
      };
      knows = tt;
      grows = record { stays = λ a m. m; theirs = λ x j m ne. (m, ground (arith, m, l), refl) };
      words = λ j h ne b. (ground (arith, ne, b), ground (arith, inv.busy j h b, isfree));
    })
    | inr other ↦ rw other (reads (load_next node) (nf, inr l))
  ]
    where
      unheld : (j : ℕ) → g.nodes.protected node ≡ free → g.has j node ≡ false
      unheld j e = elim (Bool-cases (g.has j node)) [
        | inl b ↦ absurd ((inv.busy j node b).1 e)
        | inr b ↦ b
      ]

  append-Goes :
      (spurious : Bool) (address tail node : ℕ)
      → Knows g i ptr (append tail node)
      → Goes i ptr g (advance i spurious address ptr g (append tail node))
  unfolding advance step
  append-Goes spurious address tail node (nf, l, m, p, z, nz) =
      elim (Bool-cases (g.nodes.next tail == 0)) [
        | inl null ↦ rw null (elim (Bool-cases spurious) [
          | inl failed ↦ rw failed (reads (append tail node) (nf, l, m, p, z, nz))
          | inr done ↦ rw done (record {
            inv = record {
              chain = inv.chain ++ node ∷ [];
              listed =
                  IsList-append g.nodes.next tail node 0 inv.chain (there tail l)
                    (ground (arith, null)) out nz z inv.listed;
              member = λ a h. ground (arith, h, elem-append a inv.chain (node ∷ []), inv.member a);
              whole = λ a h. ground (arith, h, elem-append a inv.chain (node ∷ []), inv.whole a);
              origin = ground (arith, inv.origin, nz);
              busy = λ j h b. elim (newly node j h b) [
                | inl (mine, e) ↦ (ground (arith, e), ground (arith, e, p, nf))
                | inr old ↦ (ground (arith, inv.busy j h old), (inv.busy j h old).1)
              ];
              apart = newly_apart node unheld;
            };
            knows = tt;
            grows = record {
              stays = λ a k. ground (arith, k);
              theirs = λ x j k ne. ground (arith, k, m, ne, l, inv.origin);
            };
            words = λ j h ne b. (ground (arith, ne, b), refl);
          })
        ])
        | inr there ↦ rw there (
            reads (append (g.nodes.next tail) node)
              (nf, inr (behind tail l (ground (arith, there))), m, p, z, nz))
      ]
    where
      there : (t : ℕ) → IsLocation g t → elem t (0 ∷ inv.chain) ≡ true
      there t (inl e) = ground (arith, e)
      there t (inr k) = ground (arith, inv.whole t k)

      out : elem node (0 ∷ inv.chain) ≡ false
      out = ground (arith, nz, m, inv.member node)

      unheld : (j : ℕ) → g.has j node ≡ false
      unheld j = elim (Bool-cases (g.has j node)) [
        | inl b ↦ absurd (ground (arith, m, (inv.busy j node b).0))
        | inr b ↦ b
      ]

pub step-Goes :
    (i ptr : ℕ) (g : Shared) (inv : Inv g) (spurious : Bool) (address : ℕ) (pc : Pc)
    → g.status address ≡ unused
    → address ≢ 0
    → Knows g i ptr pc
    → Goes i ptr g (advance i spurious address ptr g pc)
unfolding advance step
step-Goes i ptr g inv spurious address (load_next prev) fresh az k =
    look-Goes i ptr g inv spurious address prev fresh az k
step-Goes i ptr g inv spurious address (load_protected node) fresh az (nf, l) =
    elim (Bool-cases (g.nodes.protected node == free)) [
      | inl isfree ↦ rw isfree (reads i ptr g inv (swap_protected node) (nf, l))
      | inr other ↦ rw other (reads i ptr g inv (load_next node) (nf, inr l))
    ]
step-Goes i ptr g inv spurious address (swap_protected node) fresh az k =
    swap-Goes i ptr g inv spurious address node k
step-Goes i ptr g inv spurious address (append tail node) fresh az k =
    append-Goes i ptr g inv spurious address tail node k
step-Goes i ptr g inv spurious address idle fresh az k = reads i ptr g inv idle tt
