-- ===== src/HashSet/OrderedSet/Answers.antt =====
-- What a thread knows of its call at each state, and that the answers are right: examples/hash_set/ordered.rs.
use hazptr.Prelude.{
  ℕ, ◌≡◌, ◌≢◌, ◌⊎◌, inl, inr, refl, sym, subst, ◌∙◌, true, false, none, some, arith,
}
use hazptr.HashSet.OrderedSet.{
  Order, Op, insert_node, remove_node, cleanup, get, Answer, success, element, Pc, finished,
}
use hazptr.HashSet.OrderedSet.Invariant.{Shared}
use hazptr.HashSet.OrderedSet.Threads.{Thread, System, begin, perform, CanEnter, Reached, acts}
use hazptr.HashSet.OrderedSet.Sees.{Ends, Sees}
use hazptr.HashSet.OrderedSet.Steps.{effect_of}
use hazptr.HashSet.OrderedSet.Reached.{Good, Reached-Good}
use hazptr.HashSet.OrderedSet.Calls.{Call, begun, goes, Sometime, Never, Once, IsRight}

module _ {T : Type 0} (o : Order T) (i : ℕ) (op : Op) (value : T) where
  abbrev pub Was : (s : System T) → Call o i op value s → (Shared T → Type 0) → Type 0
  Was s c Q = Sometime o i op value Q s c

  pub weaken :
      (Q Q' : Shared T → Type 0) (s : System T) (c : Call o i op value s)
      → ((g : Shared T) → Q g → Q' g)
      → Was s c Q
      → Was s c Q'
  weaken Q Q' _ (begun s r ok) f w = f (perform o (begin i op value) s).shared w
  weaken Q Q' _ (goes a s c ok k) f (inl w) = inl (weaken Q Q' s c f w)
  weaken Q Q' _ (goes a s c ok k) f (inr w) = inr (f (perform o a s).shared w)

  pub now :
      (Q : Shared T → Type 0) (s : System T) (c : Call o i op value s) → Q s.shared → Was s c Q
  now Q _ (begun s r ok) q = q
  now Q _ (goes a s c ok k) q = inr q

  pub Call-Reached : (s : System T) → Call o i op value s → Reached o s
  Call-Reached _ (begun s r ok) = acts (begin i op value) s r ok
  Call-Reached _ (goes a s c ok k) = acts a s (Call-Reached s c) ok

  pub Call-Good : (s : System T) → Call o i op value s → Good o s
  Call-Good s c = Reached-Good o s (Call-Reached s c)

  pub Call-op : (s : System T) → Call o i op value s → op ≢ cleanup
  Call-op _ (begun s r (idle, can)) z = subst (λ k. CanEnter k s.shared) z can
  Call-op _ (goes a s c ok k) z = Call-op s c z

  abbrev pub Took : (s : System T) → Call o i op value s → Op → Pc → Type 0
  Took s c top pc =
      ((effect_of top pc ≡ false) × Never o i op value s c)
      ⊎ ((effect_of top pc ≡ true) × Once o i op value s c)

  -- What is so of the call and its thread in every state.
  pub record Runs (s : System T) (c : Call o i op value s) (t : Thread T) : Type 0 where
    pub same_value : t.value ≡ value
    pub same_op : (t.op ≡ op) ⊎ ((op ≡ remove_node) × (t.op ≡ cleanup))
    pub effect : Took s c t.op t.pc
    pub sees : Sees o value (Was s c) s.shared t.op t.pc

  module _ (s : System T) (c : Call o i op value s) where
    Ends-IsRight :
        (top : Op) (a : Answer)
        → top ≢ cleanup
        → Took s c top (finished a)
        → Ends o value (Was s c) top a
        → IsRight o i op value s c top a
    Ends-IsRight (insert_node x) (success true) ne (inl (f, n)) w = absurd (ground (arith, f))
    Ends-IsRight (insert_node x) (success true) ne (inr (t, n)) w = n
    Ends-IsRight (insert_node x) (success false) ne (inl (f, n)) w = (n, w)
    Ends-IsRight (insert_node x) (success false) ne (inr (t, n)) w = absurd (ground (arith, t))
    Ends-IsRight (insert_node x) (element e) ne t w = w
    Ends-IsRight remove_node (success true) ne (inl (f, n)) w = absurd (ground (arith, f))
    Ends-IsRight remove_node (success true) ne (inr (t, n)) w = n
    Ends-IsRight remove_node (success false) ne (inl (f, n)) w = (n, w)
    Ends-IsRight remove_node (success false) ne (inr (t, n)) w = absurd (ground (arith, t))
    Ends-IsRight remove_node (element e) ne t w = w
    Ends-IsRight cleanup a ne t w = absurd (ne refl)
    Ends-IsRight get (success b) ne t w = w
    Ends-IsRight get (element none) ne (inl (f, n)) w = (n, w)
    Ends-IsRight get (element none) ne (inr (t, n)) w = absurd (ground (arith, t))
    Ends-IsRight get (element (some a)) ne (inl (f, n)) w = (n, w)
    Ends-IsRight get (element (some a)) ne (inr (t, n)) w = absurd (ground (arith, t))

    cleanup-IsRight :
        (a : Answer)
        → Took s c cleanup (finished a)
        → Ends o value (Was s c) cleanup a
        → IsRight o i op value s c remove_node a
    cleanup-IsRight (success true) (inl (f, n)) w = absurd (ground (arith, f))
    cleanup-IsRight (success true) (inr (t, n)) w = n
    cleanup-IsRight (success false) t w = absurd w
    cleanup-IsRight (element e) t w = absurd w

    pub Runs-IsRight :
        (t : Thread T) (a : Answer) → Runs s c t → t.pc ≡ finished a → IsRight o i op value s c op a
    Runs-IsRight t a r e =
        let sees : Ends o value (Was s c) t.op a =
          subst (Sees o value (Was s c) s.shared t.op) e r.sees in
        let took : Took s c t.op (finished a) = subst (Took s c t.op) e r.effect in
        elim r.same_op [
          | inl same ↦
              subst (λ k. IsRight o i op value s c k a) same
                (Ends-IsRight t.op a (λ z. Call-op s c (sym same ∙ z)) took sees)
          | inr (remove, clean) ↦
              subst (λ k. IsRight o i op value s c k a) (sym remove)
                (cleanup-IsRight a (subst (λ k. Took s c k (finished a)) clean took)
                  (subst (λ k. Ends o value (Was s c) k a) clean sees))
        ]
