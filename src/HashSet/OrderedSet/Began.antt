-- ===== src/HashSet/OrderedSet/Began.antt =====
-- The state in which a call of the ordered set begins: examples/hash_set/ordered.rs.
use hazptr.Prelude.{ℕ, ◌≡◌, inl, refl, sym, ap, subst, Bool, false, arith, ==_refl, if◌then◌else◌}
use hazptr.HashSet.OrderedSet.{Order, Op, insert_node, remove_node, cleanup, get, load_curr, head}
use hazptr.HashSet.OrderedSet.Invariant.{Shared, Inv}
use hazptr.HashSet.OrderedSet.Effects.{SameSet, same-SameSet}
use hazptr.HashSet.OrderedSet.Threads.{System, begin, enter, perform, CanEnter, Allowed, Reached}
use hazptr.HashSet.OrderedSet.Steps.{effect_of}
use hazptr.HashSet.OrderedSet.Reached.{perform-Good, Reached-Good}
use hazptr.HashSet.OrderedSet.Calls.{begun}
use hazptr.HashSet.OrderedSet.Effects.{SameSet, same-SameSet}
use hazptr.HashSet.OrderedSet.Allocating.{allocate-SameSet}
use hazptr.HashSet.OrderedSet.Answers.{Runs}

module _ {T : Type 0} (o : Order T) (i : ℕ) (op : Op) (value : T) where
  enter-SameSet :
      (op : Op) (g : Shared T) → Inv o g → CanEnter op g → SameSet o g (enter i op value g)
  enter-SameSet (insert_node x) g inv (fresh, nz) = allocate-SameSet o i x value g inv fresh nz
  enter-SameSet remove_node g inv can = same-SameSet o g
  enter-SameSet get g inv can = same-SameSet o g
  enter-SameSet cleanup g inv can = same-SameSet o g

  enter-pending : (op : Op) (g : Shared T) → CanEnter op g → effect_of op (load_curr head) ≡ false
  enter-pending (insert_node x) g can = refl
  enter-pending remove_node g can = refl
  enter-pending get g can = refl
  enter-pending cleanup g can = absurd can

  pub begun-Runs :
      (s : System T) (r : Reached o s) (ok : Allowed (begin i op value) s)
      → Runs o i op value
          (perform o (begin i op value) s)
          (begun s r ok)
          ((perform o (begin i op value) s).threads i)
  unfolding perform
  begun-Runs s r ok =
      subst (Runs o i op value (perform o (begin i op value) s) (begun s r ok))
        (ap
          (λ (b : Bool).
            if b then record { op = op; value = value; pc = load_curr head } else s.threads i)
          (sym (==_refl i)))
        (record {
          same_value = refl;
          same_op = inl refl;
          effect = inl (
            enter-pending op s.shared ok.1,
            enter-SameSet op s.shared (Reached-Good o s r).inv ok.1,
          );
          sees = λ d e. absurd (
              ground (
                arith,
                d,
                (perform-Good o (begin i op value) s (Reached-Good o s r) ok).inv.head_kept,
              ));
        })
