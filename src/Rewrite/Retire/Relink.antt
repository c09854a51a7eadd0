-- ===== src/Rewrite/Retire/Relink.antt =====
-- hazptr_rewrite/src/retire/global_retire.rs: `reclaim_all_unprotected` over the nodes of the global queue
-- in memory. A node is the address of its record, null is 0, and location 0 of `next` is the queue's head.
pub mod Kept
pub mod Loop
pub mod Refines
use hazptr.Prelude.{
  update, ℕ, zero, suc, ◌≡◌, ◌≢◌, Option, none, some, List, [], ◌∷◌, ◌++◌, ◌==◌, if◌then◌else◌,
  Outcome, returns, panics, ◌>>=◌,
}
use hazptr.Std.Search.{binary_search_by, is_ok}
use hazptr.Rewrite.Queue.Threads.{take_all}
use hazptr.Rewrite.Retire.{compare_with}

-- The headers in memory, the chain of the nodes to be put back, and the log of reclaimed records.
pub record Memory (R : Type 0) : Type 0 where
  pub next : ℕ → ℕ
  pub retired : ℕ → Option R
  pub first : ℕ
  pub last : ℕ
  pub reclaimed : List R

module _ {R : Type 0} where
  -- The record is still protected: its node becomes the last one of the chain.
  unfoldable pub keep_node : (curr : ℕ) → Memory R → Memory R
  keep_node curr m =
      let next = update m.next curr 0 in
      if m.first == 0
      then record m { next = next; first = curr; last = curr }
      else record m { next = update next m.last curr; last = curr }

  -- `(*curr).retired.take().unwrap().reclaim()`
  unfoldable pub reclaim_node : (curr : ℕ) → Memory R → Option R → Outcome (Memory R)
  reclaim_node curr m none = panics
  reclaim_node curr m (some r) =
      returns (record m { retired = update m.retired curr none; reclaimed = m.reclaimed ++ r ∷ [] })

  -- The `while` loop; to run out of fuel counts as a panic.
  unfoldable pub reclaim_loop :
      (fuel : ℕ) (protected : List ℕ) (curr : ℕ) → Memory R → Outcome (Memory R)
  unfolding keep_node reclaim_node
  reclaim_loop zero protected curr m = if curr == 0 then returns m else panics
  reclaim_loop (suc fuel) protected curr m =
      let next = m.next curr in
      let kept = reclaim_loop fuel protected next (keep_node curr m) in
      let rest = reclaim_node curr m (m.retired curr) >>= reclaim_loop fuel protected next in
      if curr == 0
      then returns m
      else (if is_ok (binary_search_by protected (compare_with curr)) then kept else rest)

  -- `self.raw.push_many((first, last))`, without another thread in between.
  unfoldable pub push_chain : Memory R → Memory R
  push_chain m =
      if m.first == 0
      then m
      else record m { next = update (update m.next m.last (m.next 0)) 0 m.first }

  unfoldable pub reclaim_all_unprotected :
      (fuel : ℕ) (protected : List ℕ) → (ℕ → ℕ) → (ℕ → Option R) → Outcome (Memory R)
  unfolding take_all reclaim_loop push_chain
  reclaim_all_unprotected fuel protected next retired =
      let (curr, emptied) = take_all next in
      reclaim_loop fuel protected curr
        (record { next = emptied; retired = retired; first = 0; last = 0; reclaimed = [] })
      >>= λ m. returns (push_chain m)
