-- ===== src/HashSet/Buckets.antt =====
-- Every value of the hash set is in its own bucket: examples/hash_set/main.rs.
use hazptr.Prelude.{
  ℕ, ◌<◌, ◌%◌, ◌≡◌, ◌↔◌, refl, sym, ap, subst, ◌∙◌, inl, inr, true, false, some, List, zero, suc,
  ◌==◌, get_elem?, set, length, length-set, get_elem?-set_self, get_elem?-set_ne, get_elem?_of_lt,
  panics, ◌>>=◌, Returns, ltb, arith, Ordering, Bool-cases,
}
use hazptr.HashSet
use hazptr.HashSet.{
  RawHashSet, Use, allocate_buckets, with_hasher, with_hasher_and_buckets, make_hash, in_bucket,
  use_set, CanUse, action_of,
}
use hazptr.HashSet.OrderedSet.{
  Order, Op, insert_node, remove_node, cleanup, get, step, Pc, load_curr, load_next, compare_next,
  protect_next, check_prev, unlink, store_next, link_node, mark, unlink_marked, finished, link,
  same_link,
}
use hazptr.HashSet.OrderedSet.Effects.{Present}
use hazptr.HashSet.OrderedSet.Threads.{
  System, Action, run, begin, perform, Allowed, initial, Reached, start, acts,
}
use hazptr.HashSet.OrderedSet.Reached.{Reached-Good}
use hazptr.HashSet.Placed.{Placed, BelongsTo, perform-Placed, initial-Placed}

module _ {T : Type 0} (o : Order T) where
  pub record Sound (h : RawHashSet T) : Type 0 where
    pub some_bucket : 0 < h.size
    pub all_buckets : length h.buckets ≡ h.size
    pub reached : (k : ℕ) (s : System T) → get_elem? h.buckets k ≡ some s → Reached o s
    pub placed :
        (k : ℕ) (s : System T)
        → get_elem? h.buckets k ≡ some s
        → Placed h.hash_builder h.size k s.shared

  -- The set has an element equal to the value, in some bucket.
  abbrev pub Contains : RawHashSet T → T → Type 0
  Contains h value =
      (k : ℕ) × (s : System T) × (get_elem? h.buckets k ≡ some s) × Present o s.shared value

  -- What holds of all buckets, and of what a bucket becomes, holds afterwards.
  all-set :
      (P : ℕ → System T → Type 0) (l : List (System T)) (k : ℕ) (s : System T)
      → k < length l
      → ((j : ℕ) (t : System T) → get_elem? l j ≡ some t → P j t)
      → P k s
      → (j : ℕ) (t : System T) → get_elem? (set l k s) j ≡ some t
      → P j t
  all-set P l k s lt h here j t e = elim (Bool-cases (k == j)) [
    | inl same ↦
        let z : k ≡ j = ground (arith, same) in
        let f : get_elem? (set l k s) j ≡ some s =
          subst (λ m. get_elem? (set l k s) m ≡ some s) z (get_elem?-set_self l k s lt) in
        subst (λ m. P m t) z (subst (P k) (cc (f, e)) here)
    | inr other ↦ h j t (sym (get_elem?-set_ne l k j s (ground (arith, other))) ∙ e)
  ]

  -- A use that finds its bucket leaves a set that is sound.
  in_bucket-Sound :
      (h : RawHashSet T) (a : Action T) (k : ℕ)
      → Sound h
      → k < h.size
      → ((s : System T) → get_elem? h.buckets k ≡ some s → Allowed a s)
      → BelongsTo o h.hash_builder h.size k a
      → Returns (in_bucket h (perform o a) k) Sound
  unfolding in_bucket
  in_bucket-Sound h a k sound lt ok b = go (get_elem?_of_lt h.buckets k inside)
    where
      inside : k < length h.buckets
      inside = omega (arith, lt, sound.all_buckets)

      go :
          (s : System T) × (get_elem? h.buckets k ≡ some s)
          → Returns (in_bucket h (perform o a) k) Sound
      go (s, e) =
          let here : Reached o s = sound.reached k s e in
          rw e (record {
            some_bucket = sound.some_bucket;
            all_buckets = length-set h.buckets k (perform o a s) ∙ sound.all_buckets;
            reached =
                all-set (λ j t. Reached o t) h.buckets k (perform o a s) inside sound.reached
                  (acts a s here (ok s e));
            placed =
                all-set (λ j t. Placed h.hash_builder h.size j t.shared) h.buckets k (perform o a s)
                  inside sound.placed
                  (perform-Placed o h.hash_builder h.size k a s (Reached-Good o s here) b
                    (sound.placed k s e));
          })

  -- A call goes on in the bucket of its value.
  make_hash-Sound :
      (h : RawHashSet T) (i : ℕ) (op : Op) (value : T)
      → Sound h
      → ((k : ℕ) (s : System T) → get_elem? h.buckets k ≡ some s → Allowed (begin i op value) s)
      → Returns
          (make_hash h.hash_builder value h.size >>= in_bucket h (perform o (begin i op value)))
          Sound
  unfolding make_hash
  make_hash-Sound h i op value sound ok = rw (nonzero) (
      in_bucket-Sound h (begin i op value) (h.hash_builder value % h.size) sound below
        (ok (h.hash_builder value % h.size)) refl)
    where
      nonzero : (h.size == 0) ≡ false
      nonzero = ground (arith, sound.some_bucket)

      below : h.hash_builder value % h.size < h.size
      below = omega (arith, sound.some_bucket)

  -- A hash set in use never panics: each call finds its bucket, and what holds of the set stays so.
  pub use_set-Sound :
      (a : Use T) (h : RawHashSet T) → Sound h → CanUse a h → Returns (use_set o a h) Sound
  unfolding use_set
  use_set-Sound (HashSet.contains i value) h sound ok =
      make_hash-Sound h i hazptr.HashSet.OrderedSet.get value sound ok
  use_set-Sound (HashSet.get i value) h sound ok =
      make_hash-Sound h i hazptr.HashSet.OrderedSet.get value sound ok
  use_set-Sound (HashSet.insert i node value) h sound ok =
      make_hash-Sound h i (insert_node node) value sound ok
  use_set-Sound (HashSet.remove i value) h sound ok = make_hash-Sound h i remove_node value sound ok
  use_set-Sound (HashSet.proceed bucket i changed) h sound ok =
      in_bucket-Sound h (run i changed) bucket sound ok (λ s e. tt) tt

  pub allocate_buckets-get :
      (blank : T) (n k : ℕ) (s : System T)
      → get_elem? (allocate_buckets blank n) k ≡ some s
      → s ≡ initial blank
  allocate_buckets-get blank zero k s e = absurd (cc)
  allocate_buckets-get blank (suc n) zero s e = cc e
  allocate_buckets-get blank (suc n) (suc k) s e = allocate_buckets-get blank n k s e

  length-allocate_buckets : (blank : T) (n : ℕ) → length (allocate_buckets blank n) ≡ n
  length-allocate_buckets blank zero = refl
  length-allocate_buckets blank (suc n) = ap suc (length-allocate_buckets blank n)

  -- A new hash set is sound, and a hash set of no buckets is refused.
  pub with_hasher_and_buckets-Sound :
      (blank : T) (hash_builder : T → ℕ) (buckets : ℕ)
      → (0 < buckets → Returns (with_hasher_and_buckets blank hash_builder buckets) Sound)
        × (buckets ≡ 0 → with_hasher_and_buckets blank hash_builder buckets ≡ panics)
  unfolding with_hasher_and_buckets
  with_hasher_and_buckets-Sound blank hash_builder buckets = (
    λ lt. rw (ltb_of_lt buckets lt) (record {
      some_bucket = lt;
      all_buckets = length-allocate_buckets blank buckets;
      reached =
          λ k s e. subst (Reached o) (sym (allocate_buckets-get blank buckets k s e)) (start blank);
      placed = λ k s e.
          subst (λ t. Placed hash_builder buckets k t.shared)
            (sym (allocate_buckets-get blank buckets k s e))
            (initial-Placed o hash_builder buckets k blank);
    }),
    λ z. rw z refl,
  )
    where
      ltb_of_lt : (n : ℕ) → 0 < n → ltb 0 n ≡ true
      ltb_of_lt n lt = ground (arith, lt)

  module _ (h : RawHashSet T) (sound : Sound h)
      (same_hash : (a b : T) → o.cmp a b ≡ Ordering.eq → h.hash_builder a ≡ h.hash_builder b)
      (value : T) where
    -- A value is in the hash set exactly when it is in the bucket that a call for it looks into.
    pub Contains-bucket :
        (s : System T) × (get_elem? h.buckets (h.hash_builder value % h.size) ≡ some s)
        × (Contains h value ↔ Present o s.shared value)
    Contains-bucket = (
      here.0,
      here.1,
      (
        λ (j, t, f, (a, m, live, q)).
            let z : h.hash_builder value % h.size ≡ j =
              subst (λ n. n % h.size ≡ j) (same_hash (t.shared.memory.elems a) value q)
                (sound.placed j t f a (λ e. ground (arith, e, m))) in
            let y : here.0 ≡ t = cc (z, f, here.1) in
            subst (λ b. Present o b.shared value) (sym y) (a, m, live, q),
        λ present. (h.hash_builder value % h.size, here.0, here.1, present),
      ),
    )
      where
        below : h.hash_builder value % h.size < h.size
        below = omega (arith, sound.some_bucket)

        here : (s : System T) × (get_elem? h.buckets (h.hash_builder value % h.size) ≡ some s)
        here =
            get_elem?_of_lt h.buckets (h.hash_builder value % h.size)
              (omega (arith, below, sound.all_buckets))
