-- ===== src/Treiber/Chain.antt =====
-- Treiber's stack is a list: examples/treiber/stack.rs.
use hazptr.Prelude.{
  ℕ, zero, suc, ◌≤◌, ◌≡◌, ◌≢◌, refl, ap, Bool, true, false, Option, none, some, List, [], ◌∷◌, ◌==◌,
  arith, ==_refl, length, map, All,
}
use hazptr.Treiber.{Node, Stack, write, link, push, pop, drop}

ne_zero : (a : ℕ) → a ≢ 0 → (a == 0) ≡ false
ne_zero a h = ground (arith, h)

module _ {T : Type 0} where
  -- The nodes from an address on, with what they hold.
  abbrev pub IsChain : (ℕ → Node T) → ℕ → List (ℕ × T) → Type 0
  IsChain heap p [] = p ≡ 0
  IsChain heap p (x ∷ l) =
      (p ≡ x.0) × (p ≢ 0) × ((heap p).elem ≡ x.1) × IsChain heap (heap p).next l

  -- The stack holds these elements, and its nodes lie at these addresses.
  abbrev pub Holds : Stack T → List (ℕ × T) → Type 0
  Holds s l = IsChain s.heap s.head l

  abbrev pub IsFresh : ℕ → List (ℕ × T) → Type 0
  IsFresh a l = All (λ x. x.0 ≢ a) l

  write-IsChain :
      (heap : ℕ → Node T) (a : ℕ) (n : Node T) (p : ℕ) (l : List (ℕ × T))
      → IsFresh a l
      → IsChain heap p l
      → IsChain (write heap a n) p l
  write-IsChain heap a n p [] fresh c = c
  write-IsChain heap a n p (x ∷ l) fresh c =
      let other : (a == p) ≡ false = ground (arith, c.0, fresh.0) in
      rw other (c.0, c.1, c.2, write-IsChain heap a n (heap p).next l fresh.1 c.3)

  -- The stack after a push that has succeeded, or that still goes on.
  abbrev pub Pushed : ℕ → T → List (ℕ × T) → List Bool → Option (Stack T) → Type 0
  Pushed a elem l attempts none = All (λ b. b ≡ false) attempts
  Pushed a elem l attempts (some t) = Holds t ((a, elem) ∷ l)

  -- A push of an element, with a node that is not in the stack, puts it before the elements that the
  -- stack holds. It goes on only as long as every compare-and-swap fails.
  pub push-Pushed :
      (s : Stack T) (a : ℕ) (elem : T) (l : List (ℕ × T)) (attempts : List Bool)
      → a ≢ 0
      → IsFresh a l
      → Holds s l
      → Pushed a elem l attempts (push s a elem attempts)
  unfolding push
  push-Pushed s a elem l [] ne fresh c = tt
  push-Pushed s a elem l (true ∷ attempts) ne fresh c =
      rw (==_refl a) (refl, ne, refl, write-IsChain s.heap a _ s.head l fresh c)
  push-Pushed s a elem l (false ∷ attempts) ne fresh c = go (push (link s a elem) a elem attempts) (
      push-Pushed (link s a elem) a elem l attempts ne fresh
        (write-IsChain s.heap a _ s.head l fresh c))
    where
      go :
          (o : Option (Stack T)) → Pushed a elem l attempts o → Pushed a elem l (false ∷ attempts) o
      go none h = (refl, h)
      go (some t) h = h

  -- The result of a pop that has come to an end, or that still goes on.
  abbrev pub Popped : Stack T → List (ℕ × T) → List Bool → Option (Option T × Stack T) → Type 0
  Popped s [] attempts o = o ≡ some (none, s)
  Popped s (x ∷ l) attempts none = All (λ b. b ≡ false) attempts
  Popped s (x ∷ l) attempts (some r) =
      (r.0 ≡ some x.1) × Holds r.1 l × (r.1.retired ≡ x.0 ∷ s.retired)

  -- A pop of an empty stack returns none and changes nothing. Otherwise it returns the element that
  -- was pushed last, retires exactly its node, and the stack holds the others; it goes on only as
  -- long as every compare-and-swap fails.
  pub pop-Popped :
      (s : Stack T) (l : List (ℕ × T)) (attempts : List Bool)
      → Holds s l
      → Popped s l attempts (pop s attempts)
  unfolding pop
  pop-Popped s [] [] c = rw c refl
  pop-Popped s [] (b ∷ attempts) c = rw c refl
  pop-Popped s (x ∷ l) [] c = rw (ne_zero s.head c.1) tt
  pop-Popped s (x ∷ l) (true ∷ attempts) c =
      rw (ne_zero s.head c.1) (ap some c.2, c.3, ap (λ a. a ∷ s.retired) c.0)
  pop-Popped s (x ∷ l) (false ∷ attempts) c =
      rw (ne_zero s.head c.1) (go (pop s attempts) (pop-Popped s (x ∷ l) attempts c))
    where
      go :
          (o : Option (Option T × Stack T))
          → Popped s (x ∷ l) attempts o
          → Popped s (x ∷ l) (false ∷ attempts) o
      go none h = (refl, h)
      go (some r) h = h

  -- With a step for each node, dropping the stack ends, and drops each element once, from the head on.
  pub drop-map :
      (heap : ℕ → Node T) (p : ℕ) (l : List (ℕ × T)) (fuel : ℕ)
      → length l ≤ fuel
      → IsChain heap p l
      → drop fuel heap p ≡ some (map (λ x. x.1) l)
  unfolding drop
  drop-map heap p [] zero le c = rw c refl
  drop-map heap p [] (suc fuel) le c = rw c refl
  drop-map heap p (x ∷ l) zero le c = absurd (omega (arith, le))
  drop-map heap p (x ∷ l) (suc fuel) le c =
      rw (ne_zero p c.1, drop-map heap (heap p).next l fuel (omega (arith, le)) c.3)
        (ap (λ e. some (e ∷ map (λ x. x.1) l)) c.2)
