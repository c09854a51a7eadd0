-- ===== src/Rewrite/Retire/Relink/Refines.antt =====
-- What the global queue is after a reclamation: hazptr_rewrite/src/retire/global_retire.rs,
-- `reclaim_all_unprotected` over the nodes in memory.
use hazptr.Prelude.{
  update, ℕ, ◌≡◌, refl, ap, subst, ◌∙◌, inl, inr, not, Option, List, [], arith, ◌==◌, elem, map,
  keep, length, Bool-cases, Returns, >>=-Returns,
}
use mathlib.Core.Path.{fun_ext}
use hazptr.Std.Linked.{IsList}
use hazptr.Std.Sort.{Ascending}
use hazptr.Std.Search.{binary_search_by-elem}
use hazptr.Retired.Threads.Merging.{IsQueue-taken}
use hazptr.Rewrite.Retire.{is_retained}
use hazptr.Rewrite.Retire.Relink.{Memory, reclaim_loop, push_chain, reclaim_all_unprotected}
use hazptr.Rewrite.Retire.Relink.Loop.{Headers, Loops, reclaim_loop-Loops}
use hazptr.Rewrite.Retire.Relink.Kept.{Chained, push_chain-IsList}

push_chain-same : {R : Type 0} (m : Memory R) → (push_chain m).reclaimed ≡ m.reclaimed
unfolding push_chain
push_chain-same m = elim (Bool-cases (m.first == 0)) [ inl e ↦ rw e refl | inr e ↦ rw e refl ]

module _ {R : Type 0} (address : R → ℕ) (protected : List ℕ) where
  is_retained-elem :
      Ascending 0 protected → is_retained address protected ≡ (λ r. elem (address r) protected)
  unfolding is_retained
  is_retained-elem sorted = fun_ext λ r. binary_search_by-elem protected (address r) sorted

  -- With a step for each record of the queue, the addresses in `protected` sorted, and each record in its
  -- header, where `retire` puts it, the reclamation ends without a panic. The queue in memory is then the nodes of exactly the records whose address is in
  -- `protected`, in their order, and all others have been reclaimed in theirs.
  pub reclaim_all_unprotected-Relinks :
      (next : ℕ → ℕ) (retired : ℕ → Option R) (queue : List R)
      → Ascending 0 protected
      → IsList next 0 (map address queue)
      → Headers address retired queue
      → Returns (reclaim_all_unprotected (length queue) protected next retired) (λ m.
        IsList m.next 0 (map address (keep (λ r. elem (address r) protected) queue))
        × (m.reclaimed ≡ keep (λ r. not (elem (address r) protected)) queue))
  unfolding reclaim_all_unprotected
  reclaim_all_unprotected-Relinks next retired queue sorted listed headers =
      >>=-Returns (Loops address protected [] queue start) _
        (reclaim_loop (length queue) protected (next 0) start) _
        (reclaim_loop-Loops address protected (length queue) start (next 0) [] queue (omega arith)
          (IsQueue-taken next (map address queue) listed) headers (λ a i. refl) empty)
        (λ d (c, e). (
          subst (λ p. IsList (push_chain d).next 0 (map address (keep p queue))) found
              (push_chain-IsList _ d c),
          push_chain-same d ∙ e ∙ ap (λ p. keep (λ r. not (p r)) queue) found,
        ))
    where
      start : Memory R
      start = record {
        next = update next 0 0;
        retired = retired;
        first = 0;
        last = 0;
        reclaimed = [];
      }

      empty : Chained [] start
      empty = record {
        head = refl;
        starts = refl;
        ends = refl;
        path = tt;
        zeroed = λ ne. absurd (ne refl);
        nonzero = refl;
        distinct = tt;
      }

      found : is_retained address protected ≡ (λ r. elem (address r) protected)
      found = is_retained-elem sorted
