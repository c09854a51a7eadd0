-- ===== src/Treiber.antt =====
-- examples/treiber/stack.rs: Treiber's stack, over a heap of nodes. A pointer is an address, and null
-- is 0. The atomics keep their values during an operation, but a weak compare-and-swap may fail; the
-- results of the attempts are an argument, and `none` is an operation that has used them up.
pub mod Chain
pub mod Threads
use hazptr.Prelude.{
  ℕ, zero, suc, Bool, true, false, Option, none, some, List, [], ◌∷◌, ◌==◌, if◌then◌else◌,
}

pub record Node (T : Type 0) : Type 0 where
  pub elem : T
  pub next : ℕ

pub record Stack (T : Type 0) : Type 0 where
  pub heap : ℕ → Node T
  pub head : ℕ
  pub retired : List ℕ  -- the nodes handed to `retire_unchecked`, the last one first

module _ {T : Type 0} where
  abbrev pub write : (ℕ → Node T) → ℕ → Node T → ℕ → Node T
  write heap a n b = if a == b then n else heap b

  -- `node.next.store(head, ..)`
  abbrev pub link : Stack T → ℕ → T → Stack T
  link s a elem = record s { heap = write s.heap a (record { elem = elem; next = s.head }) }

  -- `push`, with the node at `a`.
  unfoldable pub push : Stack T → ℕ → T → List Bool → Option (Stack T)
  push s a elem [] = none
  push s a elem (success ∷ attempts) =
      let rest = push (link s a elem) a elem attempts in
      if success then some (record (link s a elem) { head = a }) else rest

  -- The head replaced by the next node, which unlinks it.
  abbrev pub unlinked : Stack T → Stack T
  unlinked s = record s { head = (s.heap s.head).next; retired = s.head ∷ s.retired }

  unfoldable pub pop : Stack T → List Bool → Option (Option T × Stack T)
  pop s [] = if s.head == 0 then some (none, s) else none
  pop s (success ∷ attempts) =
      let rest = pop s attempts in
      if s.head == 0
      then some (none, s)
      else (if success then some (some (s.heap s.head).elem, unlinked s) else rest)

  -- `Stack::drop`: the elements in the order in which they are dropped; the fuel bounds the loop.
  unfoldable pub drop : ℕ → (ℕ → Node T) → ℕ → Option (List T)
  drop zero heap curr = if curr == 0 then some [] else none
  drop (suc fuel) heap curr =
      let rest = drop fuel heap (heap curr).next in
      if curr == 0
      then some []
      else (elim rest [ none ↦ none | some elems ↦ some ((heap curr).elem ∷ elems) ])
