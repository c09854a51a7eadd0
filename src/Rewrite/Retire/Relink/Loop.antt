-- ===== src/Rewrite/Retire/Relink/Loop.antt =====
-- The loop of `reclaim_all_unprotected` over the nodes in memory, and what it keeps:
-- hazptr_rewrite/src/retire/global_retire.rs.
use hazptr.Prelude.{
  update, ℕ, zero, suc, ◌≤◌, ◌≡◌, ◌≢◌, refl, ap, sym, subst, ◌∙◌, inl, inr, true, false, not,
  Option, some, none, List, [], ◌∷◌, ◌++◌, arith, ◌==◌, elem, map, keep, All, elem-append, length,
  Bool-cases, Returns, Returns-weaken,
}
use mathlib.Core.List.{append-nil}
use hazptr.Std.Linked.{IsList, IsList-frame, IsList-apart}
use hazptr.Retired.Threads.Merging.{IsQueue}
use hazptr.Rewrite.Queue.Segments.{elem-last}
use hazptr.Rewrite.Retire.{is_retained}
use hazptr.Rewrite.Retire.Relink.{Memory, keep_node, reclaim_node, reclaim_loop}
use hazptr.Rewrite.Retire.Relink.Kept.{Chained, elem_apart, keep_node-Chained}

append_assoc : {A : Type 0} (a b c : List A) → (a ++ b) ++ c ≡ a ++ (b ++ c)
append_assoc [] b c = refl
append_assoc (x ∷ a) b c = ap (◌∷◌ x) (append_assoc a b c)

-- A write elsewhere leaves the nodes that a pointer leads to as they are.
IsQueue-frame :
    (next : ℕ → ℕ) (x n q : ℕ) (l : List ℕ)
    → elem x l ≡ false
    → IsQueue next q l
    → IsQueue (update next x n) q l
IsQueue-frame next x n q [] out e = e
IsQueue-frame next x n q (a ∷ l) out (e, nz, h) = (e, nz, IsList-frame next x n a l out h)

IsList-IsQueue : (next : ℕ → ℕ) (p : ℕ) (l : List ℕ) → IsList next p l → IsQueue next (next p) l
IsList-IsQueue next p [] e = e
IsList-IsQueue next p (a ∷ l) h = h

module _ {R : Type 0} where
  keep_node-same :
      (a : ℕ) (m : Memory R)
      → ((keep_node a m).retired ≡ m.retired) × ((keep_node a m).reclaimed ≡ m.reclaimed)
  unfolding keep_node
  keep_node-same a m = elim (Bool-cases (m.first == 0)) [
    | inl e ↦ rw e (refl, refl)
    | inr e ↦ rw e (refl, refl)
  ]

  -- The nodes still to come are neither `curr` nor in the chain.
  keep_node-IsQueue :
      (k : List ℕ) (a q : ℕ) (l : List ℕ) (m : Memory R)
      → Chained k m
      → elem a l ≡ false
      → ((b : ℕ) → elem b l ≡ true → elem b k ≡ false)
      → IsQueue m.next q l
      → IsQueue (keep_node a m).next q l
  unfolding keep_node
  keep_node-IsQueue [] a q l m c out apart h =
      let e : (m.first == 0) ≡ true = ground (arith, c.starts) in
      let kept : keep_node a m ≡ record m { next = update m.next a 0; first = a; last = a } =
        rw e refl in
      subst (λ (n : Memory R). IsQueue n.next q l) (sym kept) (IsQueue-frame m.next a 0 q l out h)
  keep_node-IsQueue (b ∷ k) a q l m c out apart h =
      let e : (m.first == 0) ≡ false = ground (arith, c.starts, c.nonzero) in
      let kept : keep_node a m ≡ record m { next = update (update m.next a 0) m.last a; last = a } =
        rw e refl in
      subst (λ (n : Memory R). IsQueue n.next q l) (sym kept)
        (IsQueue-frame (update m.next a 0) m.last a q l away (IsQueue-frame m.next a 0 q l out h))
    where
      away : elem m.last l ≡ false
      away = elim (Bool-cases (elem m.last l)) [
        | inl there ↦
            let inside =
              subst (λ x. elem x (b ∷ k) ≡ true) (sym c.ends) (elem-last (b ∷ k) (λ z. cc)) in
            absurd (ground (arith, apart m.last there, inside))
        | inr gone ↦ gone
      ]

module _ {R : Type 0} (address : R → ℕ) where
  -- The header of each record holds it.
  abbrev pub Headers : (ℕ → Option R) → List R → Type 0
  Headers retired l = All (λ r. retired (address r) ≡ some r) l

  Headers-taken :
      (retired : ℕ → Option R) (a : ℕ) (l : List R)
      → elem a (map address l) ≡ false
      → Headers retired l
      → Headers (update retired a none) l
  Headers-taken retired a [] out h = tt
  Headers-taken retired a (r ∷ l) out (e, h) =
      let other : (a == address r) ≡ false = ground (arith, out) in
      (rw other e, Headers-taken retired a l (ground (arith, out)) h)

  module _ (protected : List ℕ) where
    -- The chain and the log at the end of the loop, which begins with the chain `k` and the records `l`.
    abbrev pub Loops : List ℕ → List R → Memory R → Memory R → Type 0
    Loops k l m d =
        Chained (k ++ map address (keep (is_retained address protected) l)) d
        × (d.reclaimed ≡ m.reclaimed ++ keep (λ r. not (is_retained address protected r)) l)

    ended-Loops : (k : List ℕ) (m : Memory R) → Chained k m → Loops k [] m m
    ended-Loops k m c =
        (subst (λ x. Chained x m) (sym (append-nil k)) c, sym (append-nil m.reclaimed))

    kept-Loops :
        (k : List ℕ) (r : R) (l : List R) (m d : Memory R)
        → is_retained address protected r ≡ true
        → Loops (k ++ address r ∷ []) l (keep_node (address r) m) d
        → Loops k (r ∷ l) m d
    kept-Loops k r l m d y (c, e) =
        let rest = map address (keep (is_retained address protected) l) in
        rw y (
          subst (λ x. Chained x d) (append_assoc k (address r ∷ []) rest) c,
          e
              ∙ ap (λ x. x ++ keep (λ r. not (is_retained address protected r)) l)
                  (keep_node-same (address r) m).1,
        )

    reclaim_loop-kept :
        (fuel : ℕ) (m : Memory R) (r : R)
        → address r ≢ 0
        → is_retained address protected r ≡ true
        → reclaim_loop (suc fuel) protected (address r) m
          ≡ reclaim_loop fuel protected (m.next (address r)) (keep_node (address r) m)
    unfolding reclaim_loop is_retained
    reclaim_loop-kept fuel m r nz y =
        let ne : (address r == 0) ≡ false = ground (arith, nz) in rw (ne, y) refl

    abbrev without : R → Memory R → Memory R
    without r m = record m {
      retired = update m.retired (address r) none;
      reclaimed = m.reclaimed ++ r ∷ [];
    }

    without-Loops :
        (k : List ℕ) (r : R) (l : List R) (m d : Memory R)
        → is_retained address protected r ≡ false
        → Loops k l (without r m) d
        → Loops k (r ∷ l) m d
    without-Loops k r l m d y (c, e) =
        let rest = keep (λ r. not (is_retained address protected r)) l in
        rw y (c, e ∙ append_assoc m.reclaimed (r ∷ []) rest)

    reclaim_loop-without :
        (fuel : ℕ) (m : Memory R) (r : R)
        → address r ≢ 0
        → is_retained address protected r ≡ false
        → m.retired (address r) ≡ some r
        → reclaim_loop (suc fuel) protected (address r) m
          ≡ reclaim_loop fuel protected (m.next (address r)) (without r m)
    unfolding reclaim_loop is_retained reclaim_node
    reclaim_loop-without fuel m r nz y has =
        let ne : (address r == 0) ≡ false = ground (arith, nz) in rw (ne, y, has) refl

    -- With a step for each record the loop ends, without a panic.
    pub reclaim_loop-Loops :
        (fuel : ℕ) (m : Memory R) (curr : ℕ) (k : List ℕ) (l : List R)
        → length l ≤ fuel
        → IsQueue m.next curr (map address l)
        → Headers m.retired l
        → ((a : ℕ) → elem a (map address l) ≡ true → elem a k ≡ false)
        → Chained k m
        → Returns (reclaim_loop fuel protected curr m) (Loops k l m)
    unfolding reclaim_loop
    reclaim_loop-Loops zero m curr k [] le e h apart c = rw e (ended-Loops k m c)
    reclaim_loop-Loops (suc fuel) m curr k [] le e h apart c = rw e (ended-Loops k m c)
    reclaim_loop-Loops zero m curr k (r ∷ l) le e h apart c = absurd (omega (arith, le))
    reclaim_loop-Loops (suc fuel) m curr k (r ∷ l) le (e, nz, q) (has, h) apart c =
        let a = address r in
        let out : elem a (map address l) ≡ false = IsList-apart m.next a (map address l) q in
        let fresh : elem a k ≡ false = apart a (ground arith) in
        let later = λ (b : ℕ) (i : elem b (map address l) ≡ true). apart b (ground (arith, i)) in
        let go : Returns (reclaim_loop (suc fuel) protected a m) (Loops k (r ∷ l) m) =
          elim (Bool-cases (is_retained address protected r)) [
            | inl y ↦
                subst (λ x. Returns x (Loops k (r ∷ l) m)) (sym (reclaim_loop-kept fuel m r nz y))
                  (Returns-weaken _ _ (reclaim_loop fuel protected (m.next a) (keep_node a m))
                    (λ d. kept-Loops k r l m d y)
                    (reclaim_loop-Loops fuel (keep_node a m) (m.next a) (k ++ a ∷ []) l
                      (omega (arith, le))
                      (keep_node-IsQueue k a (m.next a) (map address l) m c out later
                        (IsList-IsQueue m.next a (map address l) q))
                      (subst (λ x. Headers x l) (sym (keep_node-same a m).0) h)
                      (λ b i. ground (
                        arith,
                        elem-append b k (a ∷ []),
                        later b i,
                        elem_apart b a (map address l) i out,
                      ))
                      (keep_node-Chained k a m fresh nz c)))
            | inr y ↦
                subst (λ x. Returns x (Loops k (r ∷ l) m))
                  (sym (reclaim_loop-without fuel m r nz y has))
                  (Returns-weaken _ _ (reclaim_loop fuel protected (m.next a) (without r m))
                    (λ d. without-Loops k r l m d y)
                    (reclaim_loop-Loops fuel (without r m) (m.next a) k l (omega (arith, le))
                      (IsList-IsQueue m.next a (map address l) q)
                      (Headers-taken m.retired a l out h) later
                      (record {
                        head = c.head;
                        starts = c.starts;
                        ends = c.ends;
                        path = c.path;
                        zeroed = c.zeroed;
                        nonzero = c.nonzero;
                        distinct = c.distinct;
                      })))
          ] in
        subst (λ x. Returns (reclaim_loop (suc fuel) protected x m) (Loops k (r ∷ l) m)) (sym e) go
