-- ===== src/HashSet/OrderedSet/Linear.antt =====
-- Each answer of the ordered set is right at some moment of its call: examples/hash_set/ordered.rs.
use hazptr.Prelude.{
  ℕ, ◌≡◌, ◌≢◌, ◌⊎◌, inl, inr, refl, sym, ap, subst, ◌∙◌, Bool, arith, ==_refl, ◌==◌, Bool-cases,
  if◌then◌else◌,
}
use hazptr.HashSet.OrderedSet.{
  Order, link, same_link, Op, remove_node, cleanup, Answer, Pc, load_curr, load_next, compare_next,
  protect_next, check_prev, unlink, store_next, link_node, mark, unlink_marked, finished, step,
}
use hazptr.HashSet.OrderedSet.Invariant.{Shared, Knows, next, advance}
use hazptr.HashSet.OrderedSet.Steps.{Effect}
use hazptr.HashSet.OrderedSet.Threads.{System, Action, run, begin, ran, perform, Allowed, actor}
use hazptr.HashSet.OrderedSet.Steps.{Changes}
use hazptr.HashSet.OrderedSet.Sees.{Sees}
use hazptr.HashSet.OrderedSet.Looks.{step-Sees}
use hazptr.HashSet.OrderedSet.Steps.{quiet, takes}
use hazptr.HashSet.OrderedSet.Reached.{run-Goes, perform-others}
use hazptr.HashSet.OrderedSet.Calls.{Within, Call, begun, goes, Keeps, IsRight}
use hazptr.HashSet.OrderedSet.Steps.{Effect}
use hazptr.HashSet.OrderedSet.Sees.{Sees-lift}
use hazptr.HashSet.OrderedSet.Answers.{Was, weaken, now, Call-Good, Took, Runs, Runs-IsRight}
use hazptr.HashSet.OrderedSet.Meanwhile.{other-Sees}
use hazptr.HashSet.OrderedSet.Began.{begun-Runs}

module _ {T : Type 0} (o : Order T) (i : ℕ) (op : Op) (value : T) where
  own-op :
      (top : Op) (v : T) (g : Shared T) (changed : Bool) (W : (Shared T → Type 0) → Type 0)
      (pc : Pc)
      → Sees o value W g top pc
      → ((advance o changed top v g pc).1 ≡ top)
        ⊎ ((top ≡ remove_node) × ((advance o changed top v g pc).1 ≡ cleanup))
  unfolding advance step
  own-op top v g changed W (load_curr p) t = inl refl
  own-op top v g changed W (load_next p c) t = inl refl
  own-op top v g changed W (compare_next p c raw) t = inl refl
  own-op top v g changed W (protect_next p c) t = inl refl
  own-op top v g changed W (check_prev p c l) t = inl refl
  own-op top v g changed W (unlink p c n) t = elim (Bool-cases (same_link (next g p) (link c))) [
    | inl same ↦ rw same (inl refl)
    | inr other ↦ rw other (inl refl)
  ]
  own-op top v g changed W (store_next x p n) t = inl refl
  own-op top v g changed W (link_node x p n) t = elim (Bool-cases (same_link (next g p) (link n))) [
    | inl same ↦ rw same (inl refl)
    | inr other ↦ rw other (inl refl)
  ]
  own-op top v g changed W (mark p c n) t = elim (Bool-cases (same_link (next g c) (link n))) [
    | inl same ↦ rw same (inl refl)
    | inr other ↦ rw other (inl refl)
  ]
  own-op top v g changed W (unlink_marked p c n) t =
      elim (Bool-cases (same_link (next g p) (link c))) [
        | inl same ↦ rw same (inl refl)
        | inr other ↦ rw other (inr (t, refl))
      ]
  own-op top v g changed W (finished a) t = inl refl

  module _ (s : System T) (c : Call o i op value s) where
    other-Runs :
        (a : Action T) (ok : Allowed a s) (w : Within o i op value a)
        → i ≢ actor a
        → Runs o i op value s c (s.threads i)
        → Runs o i op value (perform o a s) (goes a s c ok w) ((perform o a s).threads i)
    other-Runs a ok w ne r =
        subst (Runs o i op value (perform o a s) (goes a s c ok w))
          (sym (perform-others o a s i ne))
          (record {
            same_value = r.same_value;
            same_op = r.same_op;
            effect = elim r.effect [
              | inl (f, n) ↦ inl (f, (n, idle))
              | inr (t, n) ↦ inr (t, inl (n, idle))
            ];
            sees =
                other-Sees o i op value s c a ok w (s.threads i).op (s.threads i).pc
                  (subst (λ v. Knows o s.shared i (s.threads i).op v (s.threads i).pc) r.same_value
                    ((Call-Good o i op value s c).knows i))
                  r.sees;
          })
      where
        idle : Keeps o i op value a s
        idle e = absurd (ne (sym e))

    own-Took :
        (changed : Bool) (w : Within o i op value (run i changed))
        → Runs o i op value s c (s.threads i)
        → Took o i op value
            (perform o (run i changed) s)
            (goes (run i changed) s c tt w)
            (ran o i changed s).1
            (ran o i changed s).2
    unfolding perform
    own-Took changed w r = go (run-Goes o i changed s (Call-Good o i op value s c)).effect r.effect
      where
        top : Op
        top = (s.threads i).op

        same :
            Changes o top (s.threads i).value s.shared (ran o i changed s).0
            → Changes o op value s.shared (ran o i changed s).0
        same h = elim r.same_op [
          | inl e ↦
              subst (λ k. Changes o k value s.shared (ran o i changed s).0) e
                (subst (λ v. Changes o top v s.shared (ran o i changed s).0) r.same_value h)
          | inr (e, f) ↦
              absurd
                (subst (λ k. Changes o k (s.threads i).value s.shared (ran o i changed s).0) f h)
        ]

        go :
            Effect o top (s.threads i).value (s.threads i).pc s.shared (ran o i changed s)
            → Took o i op value s c top (s.threads i).pc
            → Took o i op value
                (perform o (run i changed) s)
                (goes (run i changed) s c tt w)
                (ran o i changed s).1
                (ran o i changed s).2
        go (quiet e k) (inl (f, n)) = inl (e ∙ f, (n, λ z. k))
        go (quiet e k) (inr (t, n)) = inr (e ∙ t, inl (n, λ z. k))
        go (takes f t h) (inl (f', n)) = inr (t, inr (n, refl, same h))
        go (takes f t h) (inr (t', n)) = absurd (ground (arith, f, t'))

    own-Runs :
        (changed : Bool) (w : Within o i op value (run i changed))
        → Runs o i op value s c (s.threads i)
        → Runs o i op value
            (perform o (run i changed) s)
            (goes (run i changed) s c tt w)
            ((perform o (run i changed) s).threads i)
    unfolding perform
    own-Runs changed w r =
        subst (Runs o i op value (perform o (run i changed) s) (goes (run i changed) s c tt w))
          (ap
            (λ (b : Bool).
              if b
              then record { op = to.1; value = (s.threads i).value; pc = to.2 }
              else s.threads i)
            (sym (==_refl i)))
          (record {
            same_value = r.same_value;
            same_op = same_op r.same_op;
            effect = own-Took changed w r;
            sees =
                Sees-lift o value (Was o i op value s c)
                  (Was o i op value (perform o (run i changed) s) (goes (run i changed) s c tt w))
                  (λ Q h. inl h) to.0 to.1 to.2
                  (subst
                    (λ v.
                      let r = advance o changed (s.threads i).op v s.shared (s.threads i).pc in
                      Sees o value (Was o i op value s c) r.0 r.1 r.2)
                    (sym r.same_value)
                    (step-Sees o value i (Was o i op value s c)
                      (λ Q Q' f h. weaken o i op value Q Q' s c f h) s.shared
                      (Call-Good o i op value s c).inv (λ Q h. now o i op value Q s c h)
                      (s.threads i).op changed (s.threads i).pc
                      (subst (λ v. Knows o s.shared i (s.threads i).op v (s.threads i).pc)
                        r.same_value ((Call-Good o i op value s c).knows i))
                      r.sees));
          })
      where
        to : Shared T × Op × Pc
        to = ran o i changed s

        same_op :
            ((s.threads i).op ≡ op) ⊎ ((op ≡ remove_node) × ((s.threads i).op ≡ cleanup))
            → (to.1 ≡ op) ⊎ ((op ≡ remove_node) × (to.1 ≡ cleanup))
        same_op h =
            elim (own-op (s.threads i).op (s.threads i).value s.shared changed
              (Was o i op value s c) (s.threads i).pc r.sees) [
                | inl e ↦ rw e h
                | inr (e, f) ↦ elim h [ inl z ↦ inr (sym z ∙ e, f) | inr (y, z) ↦ inr (y, f) ]
              ]

  pub Call-Runs : (s : System T) (c : Call o i op value s) → Runs o i op value s c (s.threads i)
  Call-Runs _ (begun s r ok) = begun-Runs o i op value s r ok
  Call-Runs _ (goes (run j changed) s c ok w) = elim (Bool-cases (i == j)) [
    | inl same ↦
        let mine : i ≡ j = ground (arith, same) in
        subst
          (λ k.
            Runs o i op value (perform o (run k changed) s) (goes (run k changed) s c ok w)
              ((perform o (run k changed) s).threads i))
          mine (own-Runs s c changed w (Call-Runs s c))
    | inr other ↦ other-Runs s c (run j changed) ok w (ground (arith, other)) (Call-Runs s c)
  ]
  Call-Runs _ (goes (begin j top v) s c ok w) =
      other-Runs s c (begin j top v) ok w (λ e. w (sym e)) (Call-Runs s c)

  -- Whatever other threads do while a call runs, its answer is right: an `insert_node` or a `remove_node`
  -- that returns `true` has added its value to the set, or taken it out, at exactly one of its accesses;
  -- any other call has not changed the set, and its answer was so in some state while it ran.
  pub Call-IsRight :
      (s : System T) (c : Call o i op value s) (a : Answer)
      → (s.threads i).pc ≡ finished a
      → IsRight o i op value s c op a
  Call-IsRight s c a e = Runs-IsRight o i op value s c (s.threads i) a (Call-Runs s c) e
