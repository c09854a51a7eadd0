-- ===== src/HashSet/OrderedSet/Accesses.antt =====
-- The shared accesses of the ordered set one by one, as they keep the invariant and what the threads
-- know: examples/hash_set/ordered.rs.
use hazptr.Prelude.{
  ℕ, ◌≡◌, ◌⊎◌, inl, inr, refl, sym, ap, ◌∙◌, Bool, true, false, arith, ◌==◌, Ordering, Bool-cases,
  if◌then◌else◌,
}
use hazptr.HashSet.OrderedSet.{
  Order, Link, link, same_link, Op, insert_node, remove_node, cleanup, get, found, insert, Pc,
  load_curr, load_next, compare_next, protect_next, check_prev, unlink, resolve, step,
}
use hazptr.HashSet.OrderedSet.Invariant.{Shared, Inv, IsNode, Before, Holds, Knows, next, advance}
use hazptr.HashSet.OrderedSet.Steps.{
  took_effect, effect_of, Goes, reads, retry, insert-Goes, found-Goes,
}

pub same_link_eq : (a b : Link) → same_link a b ≡ true → a ≡ b
same_link_eq a b e = ground (arith, e)

-- On the way through a `find`, an operation has not taken effect.
pub pending :
    (op : Op) (pc : Pc) → took_effect pc ≡ false → effect_of op pc ≡ effect_of op (load_curr 0)
pending (insert_node x) pc e = e
pending remove_node pc e = e
pending cleanup pc e = refl
pending get pc e = e

pub still :
    (op : Op) (pc pc' : Pc)
    → took_effect pc ≡ false
    → took_effect pc' ≡ false
    → effect_of op pc' ≡ effect_of op pc
still op pc pc' e e' = pending op pc' e' ∙ sym (pending op pc e)

module _ {T : Type 0} (o : Order T) (i : ℕ) (value : T) (g : Shared T) (inv : Inv o g)
    (changed : Bool) where
  pub Before-loc : (p : ℕ) → Before o g p value → (p ≡ 0) ⊎ IsNode g p
  Before-loc p (inl z) = inl z
  Before-loc p (inr (n, l)) = inr n

  module _ (op : Op) where
    module _ (pc : Pc) (e : took_effect pc ≡ false) where
      pub again : Holds o g i op value → Goes o i op value pc g (g, op, load_curr 0)
      again h = retry o i op value g inv pc (pending op pc e) h

      pub onward :
          (pc' : Pc)
          → took_effect pc' ≡ false
          → Knows o g i op value pc'
          → Goes o i op value pc g (g, op, pc')
      onward pc' e' k = reads o i op value g inv pc pc' (still op pc pc' e e') k

    pub load_curr-Goes :
        (p : ℕ)
        → Knows o g i op value (load_curr p)
        → Goes o i op value (load_curr p) g (advance o changed op value g (load_curr p))
    unfolding advance step
    load_curr-Goes p (h, b) = elim (Bool-cases ((next g p).ptr == 0)) [
      | inl null ↦ rw null (
          insert-Goes o i op value g inv (load_curr p) p 0 (pending op (load_curr p) refl) h b
            (inl refl))
      | inr there ↦ rw there (elim (Bool-cases (next g p).deleted) [
        | inl d ↦ rw d (again (load_curr p) refl h)
        | inr d ↦ rw d (
            onward (load_curr p) refl (load_next p (next g p).ptr) refl
              (h, b, inv.closed p (Before-loc p b) (ground (arith, there))))
      ])
    ]

    pub compare_next-Goes :
        (p c : ℕ) (raw : Link)
        → Knows o g i op value (compare_next p c raw)
        → Goes o i op value
            (compare_next p c raw)
            g
            (advance o changed op value g (compare_next p c raw))
    unfolding advance step
    compare_next-Goes p c raw (h, b, n) = elim (Bool-cases (same_link (next g c) raw)) [
      | inl same ↦ rw same (onward (compare_next p c raw) refl (protect_next p c) refl (h, b, n))
      | inr other ↦ rw other (again (compare_next p c raw) refl h)
    ]

    pub protect_next-Goes :
        (p c : ℕ)
        → Knows o g i op value (protect_next p c)
        → Goes o i op value (protect_next p c) g (advance o changed op value g (protect_next p c))
    unfolding advance step
    protect_next-Goes p c (h, b, n) = elim (Bool-cases ((next g c).ptr == 0)) [
      | inl null ↦ rw null validated
      | inr there ↦ rw there (elim (Bool-cases changed) [
        | inl failed ↦ rw failed (again (protect_next p c) refl h)
        | inr kept ↦ rw kept validated
      ])
    ]
      where
        validated : Goes o i op value (protect_next p c) g (g, op, check_prev p c (next g c))
        validated =
            onward (protect_next p c) refl (check_prev p c (next g c)) refl (h, b, n, λ d. refl)

    pub check_prev-Goes :
        (p c : ℕ) (l : Link)
        → Knows o g i op value (check_prev p c l)
        → Goes o i op value (check_prev p c l) g (advance o changed op value g (check_prev p c l))
    unfolding advance step
    check_prev-Goes p c l (h, b, n, m) = elim (Bool-cases (same_link (next g p) (link c))) [
      | inl same ↦ rw same (flagged l.deleted refl)
      | inr other ↦ rw other (again (check_prev p c l) refl h)
    ]
      where
        compared :
            (r : Ordering)
            → o.cmp (g.memory.elems c) value ≡ r
            → Goes o i op value (check_prev p c l) g (
              g,
              op,
              elim r [
                | Ordering.eq ↦ resolve op (found p c l.ptr)
                | Ordering.gt ↦ resolve op (insert p c)
                | Ordering.lt ↦ load_curr c
              ],
            )
        compared Ordering.eq q =
            found-Goes o i op value g inv (check_prev p c l) p c l.ptr
              (pending op (check_prev p c l) refl) b n q
        compared Ordering.gt q =
            insert-Goes o i op value g inv (check_prev p c l) p c
              (pending op (check_prev p c l) refl) h b
              (inr (n, o.cmp_gt (g.memory.elems c) value q))
        compared Ordering.lt q = onward (check_prev p c l) refl (load_curr c) refl (h, inr (n, q))

        flagged :
            (d : Bool)
            → l.deleted ≡ d
            → Goes o i op value (check_prev p c l) g (
              g,
              op,
              (if d then unlink p c l.ptr else (elim (o.cmp (g.memory.elems c) value) [
                | Ordering.eq ↦ resolve op (found p c l.ptr)
                | Ordering.gt ↦ resolve op (insert p c)
                | Ordering.lt ↦ load_curr c
              ])),
            )
        flagged true d =
            onward (check_prev p c l) refl (unlink p c l.ptr) refl
              (h, b, n, m d ∙ ap (λ t. record { ptr = l.ptr; deleted = t }) d)
        flagged false d = compared (o.cmp (g.memory.elems c) value) refl
