-- ===== src/HashSet/OrderedSet/Steps.antt =====
-- Each shared access of the ordered set keeps the invariant and what the threads know, and changes
-- the set as its operation says: examples/hash_set/ordered.rs.
use hazptr.Prelude.{ℕ, ◌≡◌, inl, refl, sym, Bool, true, false, none, some, Ordering}
use hazptr.HashSet.OrderedSet.{
  Order, Op, insert_node, remove_node, cleanup, get, success, element, found, insert, Pc, load_curr,
  load_next, compare_next, protect_next, check_prev, unlink, store_next, link_node, mark,
  unlink_marked, finished, resolve,
}
use hazptr.HashSet.OrderedSet.Invariant.{
  Shared, Inv, IsNode, Before, Beyond, Holds, Knows, Grows, same-Grows,
}
use hazptr.HashSet.OrderedSet.Effects.{SameSet, Adds, Removes, same-SameSet}

-- Whether an operation has taken effect, by where its thread is.
abbrev pub took_effect : Pc → Bool
took_effect (load_curr p) = false
took_effect (load_next p c) = false
took_effect (compare_next p c raw) = false
took_effect (protect_next p c) = false
took_effect (check_prev p c l) = false
took_effect (unlink p c n) = false
took_effect (store_next x p n) = false
took_effect (link_node x p n) = false
took_effect (mark p c n) = false
took_effect (unlink_marked p c n) = true
took_effect (finished (success b)) = b
took_effect (finished (element e)) = false

abbrev pub effect_of : Op → Pc → Bool
effect_of (insert_node x) pc = took_effect pc
effect_of remove_node pc = took_effect pc
effect_of cleanup pc = true
effect_of get pc = took_effect pc

module _ {T : Type 0} (o : Order T) where
  -- What an operation does to the set when it takes effect.
  abbrev pub Changes : Op → T → Shared T → Shared T → Type 0
  Changes (insert_node x) value g g' = Adds o value g g'
  Changes remove_node value g g' = Removes o value g g'
  Changes cleanup value g g' = ⊥
  Changes get value g g' = ⊥

  -- The step from `pc` leaves the set as it was, or it is the one at which the operation takes effect.
  pub data Effect (op : Op) (value : T) (pc : Pc) (g : Shared T) (r : Shared T × Op × Pc)
      : Type 0 where
    quiet : effect_of r.1 r.2 ≡ effect_of op pc → SameSet o g r.0 → Effect op value pc g r
    takes :
        effect_of op pc ≡ false
        → effect_of r.1 r.2 ≡ true
        → Changes op value g r.0
        → Effect op value pc g r

  pub record Goes (i : ℕ) (op : Op) (value : T) (pc : Pc) (g : Shared T) (r : Shared T × Op × Pc)
      : Type 0 where
    pub inv : Inv o r.0
    pub knows : Knows o r.0 i r.1 value r.2
    pub grows : Grows o i g r.0
    pub effect : Effect op value pc g r

  module _ (i : ℕ) (op : Op) (value : T) (g : Shared T) (inv : Inv o g) where
    -- An access that only reads.
    pub reads :
        (pc pc' : Pc)
        → effect_of op pc' ≡ effect_of op pc
        → Knows o g i op value pc'
        → Goes i op value pc g (g, op, pc')
    reads pc pc' e k = record {
      inv = inv;
      knows = k;
      grows = same-Grows o i g;
      effect = quiet e (same-SameSet o g);
    }

    pub retry :
        (pc : Pc)
        → effect_of op pc ≡ effect_of op (load_curr 0)
        → Holds o g i op value
        → Goes i op value pc g (g, op, load_curr 0)
    retry pc e h = reads pc (load_curr 0) (sym e) (h, inl refl)

  -- A `find` that has come to an end.
  pub insert-Goes :
      (i : ℕ) (op : Op) (value : T) (g : Shared T) (inv : Inv o g) (pc : Pc) (p n : ℕ)
      → effect_of op pc ≡ effect_of op (load_curr 0)
      → Holds o g i op value
      → Before o g p value
      → Beyond o g n value
      → Goes i op value pc g (g, op, resolve op (insert p n))
  insert-Goes i (insert_node x) value g inv pc p n e h b y =
      reads i (insert_node x) value g inv pc (store_next x p n) (sym e) (h, b, y, refl)
  insert-Goes i remove_node value g inv pc p n e h b y =
      reads i remove_node value g inv pc (finished (success false)) (sym e) tt
  insert-Goes i cleanup value g inv pc p n e h b y =
      reads i cleanup value g inv pc (finished (success true)) refl tt
  insert-Goes i get value g inv pc p n e h b y =
      reads i get value g inv pc (finished (element none)) (sym e) tt

  pub found-Goes :
      (i : ℕ) (op : Op) (value : T) (g : Shared T) (inv : Inv o g) (pc : Pc) (p c n : ℕ)
      → effect_of op pc ≡ effect_of op (load_curr 0)
      → Before o g p value
      → IsNode g c
      → o.cmp (g.memory.elems c) value ≡ Ordering.eq
      → Goes i op value pc g (g, op, resolve op (found p c n))
  found-Goes i (insert_node x) value g inv pc p c n e b m q =
      reads i (insert_node x) value g inv pc (finished (success false)) (sym e) tt
  found-Goes i remove_node value g inv pc p c n e b m q =
      reads i remove_node value g inv pc (mark p c n) (sym e) (refl, b, m, q)
  found-Goes i cleanup value g inv pc p c n e b m q =
      reads i cleanup value g inv pc (finished (success true)) refl tt
  found-Goes i get value g inv pc p c n e b m q =
      reads i get value g inv pc (finished (element (some c))) (sym e) tt
