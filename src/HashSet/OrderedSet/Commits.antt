-- ===== src/HashSet/OrderedSet/Commits.antt =====
-- The writes of the ordered set one by one, as they keep the invariant and what the threads know: examples/hash_set/ordered.rs.
use hazptr.Prelude.{ℕ, ◌≡◌, inl, inr, refl, sym, ◌∙◌, Bool, true, arith, Bool-cases}
use hazptr.HashSet.OrderedSet.{
  Order, link, same_link, Op, insert_node, remove_node, cleanup, get, success, Pc, load_curr,
  unlink, store_next, link_node, mark, unlink_marked, finished, step,
}
use hazptr.HashSet.OrderedSet.Invariant.{Shared, Inv, Knows, next, same-Grows, advance}
use hazptr.HashSet.OrderedSet.Effects.{
  same-SameSet, unlinked-SameSet, store-SameSet, mark-Removes, grown-Adds,
}
use hazptr.HashSet.OrderedSet.Writes.{mark-Inv, mark-Grows, store-Inv, store-Grows}
use hazptr.HashSet.OrderedSet.Unlinking.{unlinked-Inv, unlinked-Grows}
use hazptr.HashSet.OrderedSet.Linking.{grown-Inv, grown-Grows}
use hazptr.HashSet.OrderedSet.Steps.{took_effect, effect_of, quiet, takes, Goes}
use hazptr.HashSet.OrderedSet.Accesses.{same_link_eq, still, Before-loc, again}

module _ {T : Type 0} (o : Order T) (i : ℕ) (value : T) (g : Shared T) (inv : Inv o g)
    (changed : Bool) where
  module _ (op : Op) where
    pub unlink-Goes :
        (p c n : ℕ)
        → Knows o g i op value (unlink p c n)
        → Goes o i op value (unlink p c n) g (advance o changed op value g (unlink p c n))
    unfolding advance step
    unlink-Goes p c n (h, b, k, m) = elim (Bool-cases (same_link (next g p) (link c))) [
      | inl same ↦
          let at_p : next g p ≡ link c = same_link_eq (next g p) (link c) same in
          let loc = Before-loc o i value g inv changed p b in
          rw same (record {
            inv = unlinked-Inv o i g inv p c n loc at_p k m;
            knows = (h, b);
            grows = unlinked-Grows o i g inv p c n loc at_p k m;
            effect =
                quiet (still op (unlink p c n) (load_curr p) refl refl)
                  (unlinked-SameSet o i g inv p c n at_p);
          })
      | inr other ↦ rw other (again o i value g inv changed op (unlink p c n) refl h)
    ]

    pub store_next-Goes :
        (x p n : ℕ)
        → Knows o g i op value (store_next x p n)
        → Goes o i op value (store_next x p n) g (advance o changed op value g (store_next x p n))
    unfolding advance step
    store_next-Goes x p n (h, b, y, e) = record {
      inv = store-Inv o i g inv x n value h;
      knows = (h, b, y, e, ground arith);
      grows = store-Grows o i g inv x n value h;
      effect =
          quiet (still op (store_next x p n) (link_node x p n) refl refl)
            (store-SameSet o i g inv x n value h);
    }

  pub link_node-Goes :
      (x p n : ℕ)
      → Knows o g i (insert_node x) value (link_node x p n)
      → Goes o i
          (insert_node x)
          value
          (link_node x p n)
          g
          (advance o changed (insert_node x) value g (link_node x p n))
  unfolding advance step
  link_node-Goes x p n (h, b, y, e, at_x) = elim (Bool-cases (same_link (next g p) (link n))) [
    | inl same ↦
        let at_p : next g p ≡ link n = same_link_eq (next g p) (link n) same in
        rw same (record {
          inv = grown-Inv o i g inv x p n value h b y at_x at_p;
          knows = tt;
          grows = grown-Grows o i g inv x p n value h b y at_x at_p;
          effect = takes refl refl (grown-Adds o i g inv x p n value h b y at_x at_p);
        })
    | inr other ↦ rw other (again o i value g inv changed (insert_node x) (link_node x p n) refl h)
  ]

  pub mark-Goes :
      (p c n : ℕ)
      → Knows o g i remove_node value (mark p c n)
      → Goes o i remove_node value
          (mark p c n)
          g
          (advance o changed remove_node value g (mark p c n))
  unfolding advance step
  mark-Goes p c n (e, b, k, q) = elim (Bool-cases (same_link (next g c) (link n))) [
    | inl same ↦
        let at_c : next g c ≡ link n = same_link_eq (next g c) (link n) same in
        rw same (record {
          inv = mark-Inv o i g inv c n k at_c;
          knows = (b, k, ground arith);
          grows = mark-Grows o i g inv c n k at_c;
          effect = takes refl refl (mark-Removes o i g inv c n value k at_c q);
        })
    | inr other ↦ rw other (again o i value g inv changed remove_node (mark p c n) refl tt)
  ]

  pub unlink_marked-Goes :
      (op : Op) (p c n : ℕ)
      → Knows o g i op value (unlink_marked p c n)
      → Goes o i op value
          (unlink_marked p c n)
          g
          (advance o changed op value g (unlink_marked p c n))
  unfolding advance step
  unlink_marked-Goes op p c n (b, k, m) = elim (Bool-cases (same_link (next g p) (link c))) [
    | inl same ↦
        let at_p : next g p ≡ link c = same_link_eq (next g p) (link c) same in
        let loc = Before-loc o i value g inv changed p b in
        rw same (record {
          inv = unlinked-Inv o i g inv p c n loc at_p k m;
          knows = tt;
          grows = unlinked-Grows o i g inv p c n loc at_p k m;
          effect =
              quiet
                (done op (finished (success true)) refl ∙ sym (done op (unlink_marked p c n) refl))
                (unlinked-SameSet o i g inv p c n at_p);
        })
    | inr other ↦ rw other (record {
      inv = inv;
      knows = (tt, inl refl);
      grows = same-Grows o i g;
      effect = quiet (sym (done op (unlink_marked p c n) refl)) (same-SameSet o g);
    })
  ]
    where
      done : (op : Op) (pc : Pc) → took_effect pc ≡ true → effect_of op pc ≡ true
      done (insert_node x) pc e = e
      done remove_node pc e = e
      done cleanup pc e = refl
      done get pc e = e
