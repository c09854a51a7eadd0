-- ===== src/HashSet/OrderedSet/Looks.antt =====
-- What a thread sees at each of its accesses: examples/hash_set/ordered.rs, `find`.
use hazptr.Prelude.{
  ℕ, ◌≡◌, inl, inr, refl, sym, ap, subst, Bool, true, false, arith, ◌==◌, Ordering, Bool-cases,
  if◌then◌else◌,
}
use hazptr.HashSet.OrderedSet.{
  Order, Link, link, same_link, Op, insert_node, remove_node, cleanup, get, found, insert, Pc,
  load_curr, load_next, compare_next, protect_next, check_prev, unlink, store_next, link_node, mark,
  unlink_marked, finished, resolve, visit, step,
}
use hazptr.HashSet.OrderedSet.Invariant.{Shared, Inv, IsNode, Before, Beyond, Knows, next, advance}
use hazptr.HashSet.OrderedSet.Sorted.{absent}
use hazptr.HashSet.OrderedSet.Effects.{Present}
use hazptr.HashSet.OrderedSet.Writes.{kept_location}
use hazptr.HashSet.OrderedSet.Accesses.{same_link_eq, Before-loc}
use hazptr.HashSet.OrderedSet.Sees.{Has, Lacks, Tail, Sees}

module _ {T : Type 0} (o : Order T) (value : T) (i : ℕ) (Was : (Shared T → Type 0) → Type 0)
    (weaken : (Q Q' : Shared T → Type 0) → ((g : Shared T) → Q g → Q' g) → Was Q → Was Q') where
  module _ (g : Shared T) (inv : Inv o g) (now : (Q : Shared T → Type 0) → Q g → Was Q) where
    -- Between a live location and the node behind it there is no other value.
    between :
        (p : ℕ)
        → Before o g p value
        → Beyond o g (next g p).ptr value
        → (next g p).deleted ≡ false
        → Was (Lacks o value)
    between p b y live = now (Lacks o value) (λ (a, m, l, e).
        absent o g inv p a value
          (kept_location o i g inv p (Before-loc o i value g inv true p b) live) b y
          (inv.reach a m l) e)

    at_head : Tail o value Was g 0
    at_head d z = ground (arith, d, inv.head_kept)

    insert-Sees :
        (op : Op) (p n : ℕ) → Was (Lacks o value) → Sees o value Was g op (resolve op (insert p n))
    insert-Sees (insert_node x) p n w = tt
    insert-Sees remove_node p n w = w
    insert-Sees cleanup p n w = tt
    insert-Sees get p n w = w

    found-Sees :
        (op : Op) (p c n : ℕ)
        → Was (Has o value c)
        → Sees o value Was g op (resolve op (found p c n))
    found-Sees (insert_node x) p c n w =
        weaken (Has o value c) (λ g. Present o g value) (λ g (m, l, e). (c, m, l, e)) w
    found-Sees remove_node p c n w = tt
    found-Sees cleanup p c n w = tt
    found-Sees get p c n w = w

    check-Sees :
        (op : Op) (p c : ℕ) (l : Link)
        → Before o g p value
        → IsNode g c
        → Sees o value Was g op (check_prev p c l)
        → next g p ≡ link c
        → Sees o value Was g op (visit o op value g.memory p c l)
    check-Sees op p c l b n s at_p = flagged l.deleted refl
      where
        compared :
            (r : Ordering)
            → o.cmp (g.memory.elems c) value ≡ r
            → l.deleted ≡ false
            → Sees o value Was g op (elim r [
              | Ordering.eq ↦ resolve op (found p c l.ptr)
              | Ordering.gt ↦ resolve op (insert p c)
              | Ordering.lt ↦ load_curr c
            ])
        compared Ordering.eq q live = found-Sees op p c l.ptr ((s live).1 q)
        compared Ordering.gt q live = insert-Sees op p c (
            between p b
              (subst (λ (l : Link). Beyond o g l.ptr value) (sym at_p)
                (inr (n, o.cmp_gt (g.memory.elems c) value q)))
              (ap (λ (l : Link). l.deleted) at_p))
        compared Ordering.lt q live = (s live).0 q

        flagged :
            (d : Bool)
            → l.deleted ≡ d
            → Sees o value Was g op (
                if d then unlink p c l.ptr else (elim (o.cmp (g.memory.elems c) value) [
                  | Ordering.eq ↦ resolve op (found p c l.ptr)
                  | Ordering.gt ↦ resolve op (insert p c)
                  | Ordering.lt ↦ load_curr c
                ]))
        flagged true d = tt
        flagged false d = compared (o.cmp (g.memory.elems c) value) refl d

    -- An access keeps what its thread has seen.
    pub step-Sees :
        (op : Op) (changed : Bool) (pc : Pc)
        → Knows o g i op value pc
        → Sees o value Was g op pc
        → let r = advance o changed op value g pc in Sees o value Was r.0 r.1 r.2
    unfolding advance step
    step-Sees op changed (load_curr p) (h, b) s = elim (Bool-cases ((next g p).ptr == 0)) [
      | inl null ↦ rw null (
          insert-Sees op p 0 (elim (Bool-cases (next g p).deleted) [
            | inl d ↦ s d (ground (arith, null))
            | inr d ↦ between p b (inl (ground (arith, null))) d
          ]))
      | inr there ↦
          rw there (elim (Bool-cases (next g p).deleted) [ inl d ↦ rw d at_head | inr d ↦ rw d tt ])
    ]
    step-Sees op changed (load_next p c) k s = tt
    step-Sees op changed (compare_next p c raw) k s = elim (Bool-cases (same_link (next g c) raw)) [
      | inl same ↦ rw same tt
      | inr other ↦ rw other at_head
    ]
    step-Sees op changed (protect_next p c) (h, b, n) s = elim (Bool-cases ((next g c).ptr == 0)) [
      | inl null ↦ rw null seen
      | inr there ↦
          rw there
            (elim (Bool-cases changed) [ inl failed ↦ rw failed at_head | inr kept ↦ rw kept seen ])
    ]
      where
        seen : Sees o value Was g op (check_prev p c (next g c))
        seen live = (λ l d. ground (arith, d, live), λ q. now (Has o value c) (n, live, q))
    step-Sees op changed (check_prev p c l) (h, b, n, m) s =
        elim (Bool-cases (same_link (next g p) (link c))) [
          | inl same ↦ rw same (check-Sees op p c l b n s (same_link_eq (next g p) (link c) same))
          | inr other ↦ rw other at_head
        ]
    step-Sees op changed (unlink p c n) k s = elim (Bool-cases (same_link (next g p) (link c))) [
      | inl same ↦ rw same (λ d. ground (arith, d))
      | inr other ↦ rw other at_head
    ]
    step-Sees op changed (store_next x p n) k s = tt
    step-Sees op changed (link_node x p n) (h, b, y, e, l) s =
        elim (Bool-cases (same_link (next g p) (link n))) [
          | inl same ↦ rw (same, e) tt
          | inr other ↦ rw other at_head
        ]
    step-Sees op changed (mark p c n) (e, b, k, q) s =
        elim (Bool-cases (same_link (next g c) (link n))) [
          | inl same ↦ rw same e
          | inr other ↦ rw other at_head
        ]
    step-Sees op changed (unlink_marked p c n) k s =
        elim (Bool-cases (same_link (next g p) (link c))) [
          | inl same ↦ rw (same, s) tt
          | inr other ↦ rw other at_head
        ]
    step-Sees op changed (finished a) k s = s
