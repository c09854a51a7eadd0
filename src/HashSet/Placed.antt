-- ===== src/HashSet/Placed.antt =====
-- The nodes of a bucket have the values that belong there: examples/hash_set/main.rs.
use hazptr.Prelude.{ℕ, ◌%◌, ◌≡◌, ◌≢◌, refl, inl, inr, Bool, ◌==◌, arith, Bool-cases}
use hazptr.HashSet.OrderedSet.{
  Order, Op, insert_node, remove_node, cleanup, get, step, Pc, load_curr, load_next, compare_next,
  protect_next, check_prev, unlink, store_next, link_node, mark, unlink_marked, finished, link,
  same_link,
}
use hazptr.HashSet.OrderedSet.Invariant.{Shared, unused, Knows, next, advance}
use hazptr.HashSet.OrderedSet.Threads.{System, Action, run, begin, perform, initial, enter}
use hazptr.HashSet.OrderedSet.Reached.{Good}

module _ {T : Type 0} where
  -- Each node of the bucket has a value that belongs there.
  abbrev pub Placed : (T → ℕ) → ℕ → ℕ → Shared T → Type 0
  Placed hash size k g = (a : ℕ) → g.status a ≢ unused → hash (g.memory.elems a) % size ≡ k

module _ {T : Type 0} (o : Order T) where
  module _ (hash : T → ℕ) (size k : ℕ) where
    step-Placed :
        (i : ℕ) (op : Op) (v : T) (g : Shared T) (changed : Bool) (pc : Pc)
        → Knows o g i op v pc
        → Placed hash size k g
        → Placed hash size k (advance o changed op v g pc).0
    unfolding advance step
    step-Placed i op v g changed (load_curr q) w p = p
    step-Placed i op v g changed (load_next q c) w p = p
    step-Placed i op v g changed (compare_next q c raw) w p = p
    step-Placed i op v g changed (protect_next q c) w p = p
    step-Placed i op v g changed (check_prev q c l) w p = p
    step-Placed i op v g changed (unlink q c n) w p =
        elim (Bool-cases (same_link (next g q) (link c))) [
          | inl same ↦ rw same p
          | inr other ↦ rw other p
        ]
    step-Placed i op v g changed (store_next x q n) w p = p
    step-Placed i op v g changed (link_node x q n) w p =
        elim (Bool-cases (same_link (next g q) (link n))) [
          | inl same ↦ rw same (λ a ne. p a (λ e. ne (ground (arith, e, w.0.0))))
          | inr other ↦ rw other p
        ]
    step-Placed i op v g changed (mark q c n) w p =
        elim (Bool-cases (same_link (next g c) (link n))) [
          | inl same ↦ rw same p
          | inr other ↦ rw other p
        ]
    step-Placed i op v g changed (unlink_marked q c n) w p =
        elim (Bool-cases (same_link (next g q) (link c))) [
          | inl same ↦ rw same p
          | inr other ↦ rw other p
        ]
    step-Placed i op v g changed (finished r) w p = p

    enter-Placed :
        (i : ℕ) (op : Op) (v : T) (g : Shared T)
        → hash v % size ≡ k
        → Placed hash size k g
        → Placed hash size k (enter i op v g)
    enter-Placed i (insert_node x) v g e p a ne = elim (Bool-cases (x == a)) [
      | inl same ↦ rw same e
      | inr other ↦ rw other (p a (λ u. ne (ground (arith, other, u))))
    ]
    enter-Placed i remove_node v g e p a ne = p a ne
    enter-Placed i cleanup v g e p a ne = p a ne
    enter-Placed i get v g e p a ne = p a ne

    -- An access leaves the values where they belong, if the call that it begins is for a value there.
    abbrev pub BelongsTo : Action T → Type 0
    BelongsTo (run i changed) = Unit {0}
    BelongsTo (begin i op v) = hash v % size ≡ k

    pub perform-Placed :
        (a : Action T) (s : System T)
        → Good o s
        → BelongsTo a
        → Placed hash size k s.shared
        → Placed hash size k (perform o a s).shared
    unfolding perform
    perform-Placed (run i changed) s good b p =
        step-Placed i (s.threads i).op (s.threads i).value s.shared changed (s.threads i).pc
          (good.knows i) p
    perform-Placed (begin i op v) s good b p = enter-Placed i op v s.shared b p

    pub initial-Placed : (blank : T) → Placed hash size k (initial blank).shared
    initial-Placed blank a ne = absurd (ne refl)
