-- ===== src/Rewrite/Retire/Relink/Kept.antt =====
-- The chain of the nodes that are put back, `first` to `last`:
-- hazptr_rewrite/src/retire/global_retire.rs, `reclaim_all_unprotected`.
use hazptr.Prelude.{
  update, sym, subst, inl, inr, Bool-cases, ℕ, ◌≡◌, ◌≢◌, refl, false, true, List, [], ◌∷◌, ◌++◌,
  arith, ◌==◌, elem, elem-append,
}
use hazptr.Std.Linked.{IsList, IsDistinct}
use hazptr.Rewrite.Queue.Threads.{first, last, IsPath}
use hazptr.Rewrite.Queue.Segments.{IsPath-kept, IsPath-last, elem-last, IsList-path}
use hazptr.Rewrite.Retire.Relink.{Memory, keep_node, push_chain}
use mathlib.Core.List.{append-nil}

-- The chain is made of the nodes `k`, in order, and the queue is empty.
pub record Chained {R : Type 0} (k : List ℕ) (m : Memory R) : Type 0 where
  pub head : m.next 0 ≡ 0
  pub starts : m.first ≡ first k
  pub ends : m.last ≡ last k
  pub path : IsPath m.next k
  pub zeroed : k ≢ [] → m.next (last k) ≡ 0
  pub nonzero : elem 0 k ≡ false
  pub distinct : IsDistinct k

last-snoc : (k : List ℕ) (a : ℕ) → last (k ++ a ∷ []) ≡ a
last-snoc [] a = refl
last-snoc (b ∷ []) a = refl
last-snoc (b ∷ c ∷ k) a = last-snoc (c ∷ k) a

IsPath-snoc :
    (next : ℕ → ℕ) (k : List ℕ) (a : ℕ)
    → IsPath next k
    → (k ≢ [] → next (last k) ≡ a)
    → IsPath next (k ++ a ∷ [])
IsPath-snoc next [] a p e = tt
IsPath-snoc next (b ∷ []) a p e = (e (λ z. cc), tt)
IsPath-snoc next (b ∷ c ∷ k) a (f, p) e = (f, IsPath-snoc next (c ∷ k) a p (λ z. e (λ y. cc)))

IsDistinct-snoc : (k : List ℕ) (a : ℕ) → IsDistinct k → elem a k ≡ false → IsDistinct (k ++ a ∷ [])
IsDistinct-snoc [] a d out = (refl, tt)
IsDistinct-snoc (b ∷ k) a (fresh, d) out = (
  ground (arith, elem-append b k (a ∷ []), fresh, out),
  IsDistinct-snoc k a d (ground (arith, out)),
)

-- What is in a list differs from what is not.
pub elem_apart : (x a : ℕ) (k : List ℕ) → elem x k ≡ true → elem a k ≡ false → (x == a) ≡ false
elem_apart x a k e f = elim (Bool-cases (x == a)) [
  | inl same ↦
      let z : x ≡ a = ground (arith, same) in
      absurd (ground (arith, f, subst (λ y. elem y k ≡ true) z e))
  | inr other ↦ other
]

pushed-IsList :
    (next : ℕ → ℕ) (b : ℕ) (k : List ℕ)
    → IsPath next (b ∷ k)
    → IsDistinct (b ∷ k)
    → elem 0 (b ∷ k) ≡ false
    → IsList (update (update next (last (b ∷ k)) 0) 0 b) 0 (b ∷ k)
pushed-IsList next b k path distinct nz =
    let there = elem-last (b ∷ k) (λ z. cc) in
    let apart = elem_apart (last (b ∷ k)) 0 (b ∷ k) there nz in
    let ends = update (update next (last (b ∷ k)) 0) 0 b in
    let linked : IsPath ends (b ∷ k) =
      IsPath-kept (update next (last (b ∷ k)) 0) 0 b (b ∷ k) nz
        (IsPath-last next 0 (b ∷ k) distinct path) in
    subst (IsList ends 0) (append-nil (b ∷ k))
      (IsList-path ends 0 (b ∷ k) [] (λ z. cc) (ground arith) linked nz (ground (arith, apart)))

pushed_as-IsList :
    (next : ℕ → ℕ) (h l f b : ℕ) (k : List ℕ)
    → h ≡ 0
    → l ≡ last (b ∷ k)
    → f ≡ b
    → IsPath next (b ∷ k)
    → IsDistinct (b ∷ k)
    → elem 0 (b ∷ k) ≡ false
    → IsList (update (update next l h) 0 f) 0 (b ∷ k)
pushed_as-IsList next h l f b k eh el ef path distinct nz =
    subst (λ x. IsList (update (update next l x) 0 f) 0 (b ∷ k)) (sym eh)
      (subst (λ x. IsList (update (update next x 0) 0 f) 0 (b ∷ k)) (sym el)
        (subst (λ x. IsList (update (update next (last (b ∷ k)) 0) 0 x) 0 (b ∷ k)) (sym ef)
          (pushed-IsList next b k path distinct nz)))

module _ {R : Type 0} where
  -- A node that is kept becomes the last one of the chain.
  pub keep_node-Chained :
      (k : List ℕ) (a : ℕ) (m : Memory R)
      → elem a k ≡ false
      → a ≢ 0
      → Chained k m
      → Chained (k ++ a ∷ []) (keep_node a m)
  unfolding keep_node
  keep_node-Chained [] a m out nz c =
      let e : (m.first == 0) ≡ true = ground (arith, c.starts) in
      rw e (record {
        head = ground (arith, c.head);
        starts = refl;
        ends = refl;
        path = tt;
        zeroed = λ ne. ground arith;
        nonzero = ground (arith, nz);
        distinct = (refl, tt);
      })
  keep_node-Chained (b ∷ k) a m out nz c =
      let e : (m.first == 0) ≡ false = ground (arith, c.starts, c.nonzero) in
      let there = elem-last (b ∷ k) (λ z. cc) in
      rw (e, c.ends)
        (record {
          head = ground (arith, c.head, nz, there, c.nonzero);
          starts = c.starts;
          ends = sym (last-snoc (b ∷ k) a);
          path =
              IsPath-snoc (update (update m.next a 0) (last (b ∷ k)) a) (b ∷ k) a
                (IsPath-last (update m.next a 0) a (b ∷ k) c.distinct
                  (IsPath-kept m.next a 0 (b ∷ k) out c.path))
                (λ ne. ground arith);
          zeroed = λ ne.
              subst (λ x. update (update m.next a 0) (last (b ∷ k)) a x ≡ 0)
                (sym (last-snoc (b ∷ k) a))
                (ground (arith, there, out, elem_apart (last (b ∷ k)) a (b ∷ k) there out));
          nonzero = ground (arith, elem-append 0 (b ∷ k) (a ∷ []), nz, c.nonzero);
          distinct = IsDistinct-snoc (b ∷ k) a c.distinct out;
        })

  -- Once the chain is pushed, the queue consists of its nodes.
  pub push_chain-IsList : (k : List ℕ) (m : Memory R) → Chained k m → IsList (push_chain m).next 0 k
  unfolding push_chain
  push_chain-IsList [] m c = let e : (m.first == 0) ≡ true = ground (arith, c.starts) in rw e c.head
  push_chain-IsList (b ∷ k) m c =
      let e : (m.first == 0) ≡ false = ground (arith, c.starts, c.nonzero) in
      let pushed : push_chain m
          ≡ record m { next = update (update m.next m.last (m.next 0)) 0 m.first } =
        rw e refl in
      subst (λ (n : Memory R). IsList n.next 0 (b ∷ k)) (sym pushed)
        (pushed_as-IsList m.next (m.next 0) m.last m.first b k c.head c.ends c.starts c.path
          c.distinct c.nonzero)
