-- ===== src/HashSet/OrderedSet/Meanwhile.antt =====
-- What a thread has seen, while others act: examples/hash_set/ordered.rs.
use hazptr.Prelude.{ℕ, ◌≡◌, inl, inr, sym, subst, ◌∙◌, arith, Ordering, Bool-cases}
use hazptr.HashSet.OrderedSet.{
  Order, Op, Pc, load_curr, load_next, compare_next, protect_next, check_prev, unlink, store_next,
  link_node, mark, unlink_marked, finished,
}
use hazptr.HashSet.OrderedSet.Invariant.{Inv, IsNode, Less, Before, Knows, next}
use hazptr.HashSet.OrderedSet.Threads.{System, Action, perform, Allowed}
use hazptr.HashSet.OrderedSet.Sees.{Lacks, Tail, Sees}
use hazptr.HashSet.OrderedSet.Sorted.{absent}
use hazptr.HashSet.OrderedSet.Writes.{kept_location}
use hazptr.HashSet.OrderedSet.Reached.{perform-Good, perform-Grows}
use hazptr.HashSet.OrderedSet.Calls.{Within, Call, goes}
use hazptr.HashSet.OrderedSet.Sees.{Ends-lift}
use hazptr.HashSet.OrderedSet.Answers.{Was, now, Call-Good}

module _ {T : Type 0} (o : Order T) (i : ℕ) (op : Op) (value : T) where
  -- A location that another thread marks as the last one was behind where the value was looked for.
  Tail-kept :
      (s : System T) (c : Call o i op value s) (a : Action T) (ok : Allowed a s)
      (w : Within o i op value a) (p : ℕ)
      → Before o s.shared p value
      → Tail o value (Was o i op value s c) s.shared p
      → Tail o value (Was o i op value (perform o a s) (goes a s c ok w)) (perform o a s).shared p
  Tail-kept s c a ok w p (inl z) t d e =
      absurd
        (ground (arith, d, z, (perform-Good o a s (Call-Good o i op value s c) ok).inv.head_kept))
  Tail-kept s c a ok w p (inr (n, l)) t d e = elim (Bool-cases (next s.shared p).deleted) [
    | inl old ↦ inl (t old null)
    | inr live ↦ inl (
        now o i op value (Lacks o value) s c (λ (b, m, k, q).
          absent o s.shared inv p b value (kept_location o i s.shared inv p (inr n) live)
            (inr (n, l)) (inl null) (inv.reach b m k) q))
  ]
    where
      inv : Inv o s.shared
      inv = (Call-Good o i op value s c).inv

      null : (next s.shared p).ptr ≡ 0
      null = sym ((perform-Grows o a s (Call-Good o i op value s c) ok).frozen p n d) ∙ e

  -- What a thread has seen stays true while another acts.
  pub other-Sees :
      (s : System T) (c : Call o i op value s) (a : Action T) (ok : Allowed a s)
      (w : Within o i op value a) (top : Op) (pc : Pc)
      → Knows o s.shared i top value pc
      → Sees o value (Was o i op value s c) s.shared top pc
      → Sees o value
          (Was o i op value (perform o a s) (goes a s c ok w))
          (perform o a s).shared
          top
          pc
  other-Sees s c a ok w top (load_curr p) (h, b) t = Tail-kept s c a ok w p b t
  other-Sees s c a ok w top (load_next p d) k t = tt
  other-Sees s c a ok w top (compare_next p d raw) k t = tt
  other-Sees s c a ok w top (protect_next p d) k t = tt
  other-Sees s c a ok w top (check_prev p d l) (h, b, n, m) t = λ live. (
    λ less.
        let old : Less o (s.shared.memory.elems d) value =
          subst (λ v. Less o v value) (kept d n) less in
        Tail-kept s c a ok w d (inr (n, old)) ((t live).0 old),
    λ q. inl ((t live).1 (subst (λ v. o.cmp v value ≡ Ordering.eq) (kept d n) q)),
  )
    where
      kept :
          (d : ℕ)
          → IsNode s.shared d
          → (perform o a s).shared.memory.elems d ≡ s.shared.memory.elems d
      kept d n = (perform-Grows o a s (Call-Good o i op value s c) ok).elems d n
  other-Sees s c a ok w top (unlink p d n) k t = tt
  other-Sees s c a ok w top (store_next x p n) k t = tt
  other-Sees s c a ok w top (link_node x p n) k t = tt
  other-Sees s c a ok w top (mark p d n) k t = tt
  other-Sees s c a ok w top (unlink_marked p d n) k t = t
  other-Sees s c a ok w top (finished r) k t =
      Ends-lift o value (Was o i op value s c) (Was o i op value (perform o a s) (goes a s c ok w))
        (λ Q h. inl h) top r t
