-- ===== src/Hazard/Threads/Alone.antt =====
-- A thread that runs alone gets a hazard: src/hazard/list.rs.
use hazptr.Prelude.{
  update, ℕ, zero, suc, ◌+◌, ◌*◌, ◌≤◌, ◌≡◌, ◌≢◌, inl, inr, refl, true, false, some, List, [], ◌∷◌,
  arith, ◌==◌, elem, length, Bool-cases,
}
use hazptr.Hazard.{free}
use hazptr.Hazard.Threads.{
  HazardNodes, Pc, load_next, load_protected, swap_protected, append, idle, step, After, goes_on,
  write_protected, alone, is_idle, System, Reached,
}
use hazptr.Std.Linked.{IsList, rest_of}
use hazptr.Hazard.Threads.Invariant.{IsLocation, Knows}
use hazptr.Hazard.Threads.Apart.{Good, Reached-Good}

-- The call has ended with a hazard that holds the word asked for.
abbrev pub Ends : ℕ → After → Type 0
Ends ptr r = (r.pc ≡ idle) × ((h : ℕ) × (r.got ≡ some h) × (r.nodes.protected h ≡ ptr))

module _ (address ptr : ℕ) where
  on :
      (n : ℕ) (m m' : HazardNodes) (pc pc' : Pc)
      → step false address ptr m pc ≡ goes_on m' pc'
      → is_idle pc' ≡ false
      → Ends ptr (alone n address ptr m' pc')
      → Ends ptr (alone (suc n) address ptr m pc)
  unfolding alone
  on n m m' pc pc' e busy h = rw (e, busy) h

  end :
      (n : ℕ) (m m' : HazardNodes) (pc : Pc) (h : ℕ)
      → step false address ptr m pc ≡ record { nodes = m'; pc = idle; got = some h }
      → m'.protected h ≡ ptr
      → Ends ptr (alone (suc n) address ptr m pc)
  unfolding alone
  end n m m' pc h e w = rw e (refl, (h, refl, w))

  append-Ends :
      (l : List ℕ) (m : HazardNodes) (t node n : ℕ)
      → IsList m.next t l
      → m.protected node ≡ ptr
      → length l + 1 ≤ n
      → Ends ptr (alone n address ptr m (append t node))
  unfolding step
  append-Ends l m t node zero e w le = absurd (omega (arith, le))
  append-Ends [] m t node (suc n) e w le =
      end n m (record m { next = update m.next t node }) (append t node) node (rw e refl) w
  append-Ends (a ∷ l) m t node (suc n) (e, nz, rest) w le =
      on n m m (append t node) (append a node) (rw (e, ne_zero a nz) refl) refl
        (append-Ends l m a node n rest w (omega (arith, le)))
    where
      ne_zero : (a : ℕ) → a ≢ 0 → (a == 0) ≡ false
      ne_zero a nz = ground (arith, nz)

  look-Ends :
      (l : List ℕ) (m : HazardNodes) (p n : ℕ)
      → IsList m.next p l
      → 2 * length l + 3 ≤ n
      → Ends ptr (alone n address ptr m (load_next p))
  unfolding step
  look-Ends l m p zero e le = absurd (omega (arith, le))
  look-Ends l m p (suc zero) e le = absurd (omega (arith, le))
  look-Ends [] m p (suc (suc n)) e le =
      let m' : HazardNodes = record {
        next = update m.next address 0;
        protected = update m.protected address ptr;
      } in
      on (suc n) m m' (load_next p) (append p address) (rw e refl) refl
        (append-Ends [] m' p address (suc n) (ground (arith, e)) (ground arith) (omega arith))
  look-Ends (a ∷ l) m p (suc (suc zero)) e le = absurd (omega (arith, le))
  look-Ends (a ∷ l) m p (suc (suc (suc n))) (e, nz, rest) le =
      on (suc (suc n)) m m (load_next p) (load_protected a) (rw (e, ne_zero a nz) refl) refl
        (elim (Bool-cases (m.protected a == free)) [
          | inl isfree ↦
              on (suc n) m m (load_protected a) (swap_protected a) (rw isfree refl) refl (
                end n m (write_protected m a ptr) (swap_protected a) a (rw isfree refl)
                  (ground arith))
          | inr other ↦
              on (suc n) m m (load_protected a) (load_next a) (rw other refl) refl
                (look-Ends l m a (suc n) rest (omega (arith, le)))
        ])
    where
      ne_zero : (a : ℕ) → a ≢ 0 → (a == 0) ≡ false
      ne_zero a nz = ground (arith, nz)

  protected-Ends :
      (l : List ℕ) (m : HazardNodes) (a n : ℕ)
      → IsList m.next a l
      → 2 * length l + 4 ≤ n
      → Ends ptr (alone n address ptr m (load_protected a))
  unfolding step
  protected-Ends l m a zero e le = absurd (omega (arith, le))
  protected-Ends l m a (suc zero) e le = absurd (omega (arith, le))
  protected-Ends l m a (suc (suc n)) e le = elim (Bool-cases (m.protected a == free)) [
    | inl isfree ↦
        on (suc n) m m (load_protected a) (swap_protected a) (rw isfree refl) refl
          (end n m (write_protected m a ptr) (swap_protected a) a (rw isfree refl) (ground arith))
    | inr other ↦
        on (suc n) m m (load_protected a) (load_next a) (rw other refl) refl
          (look-Ends l m a (suc n) e (omega (arith, le)))
  ]

  swap-Ends :
      (l : List ℕ) (m : HazardNodes) (a n : ℕ)
      → IsList m.next a l
      → 2 * length l + 4 ≤ n
      → Ends ptr (alone n address ptr m (swap_protected a))
  unfolding step
  swap-Ends l m a zero e le = absurd (omega (arith, le))
  swap-Ends l m a (suc n) e le = elim (Bool-cases (m.protected a == free)) [
    | inl isfree ↦
        end n m (write_protected m a ptr) (swap_protected a) a (rw isfree refl) (ground arith)
    | inr other ↦
        on n m m (swap_protected a) (load_next a) (rw other refl) refl
          (look-Ends l m a n e (omega (arith, le)))
  ]

-- From any state that the threads can get to, a thread in a call that then runs alone, and whose weak
-- compare-and-swap does not fail for no reason, has a hazard with the word it asked for after at most
-- two accesses for each node of the list and five more.
pub alone-Ends :
    (s : System) (i address : ℕ)
    → Reached s
    → is_idle (s.threads i).pc ≡ false
    → (l : List ℕ) × IsList s.shared.nodes.next 0 l
      × Ends
          (s.threads i).ptr
          (alone (2 * length l + 5) address (s.threads i).ptr s.shared.nodes (s.threads i).pc)
alone-Ends s i address r busy =
    (good.inv.chain, good.inv.listed, go (s.threads i).pc busy (good.knows i))
  where
    good : Good s
    good = Reached-Good s r

    ptr : ℕ
    ptr = (s.threads i).ptr

    m : HazardNodes
    m = s.shared.nodes

    steps : ℕ
    steps = 2 * length good.inv.chain + 5

    behind :
        (t : ℕ)
        → IsLocation s.shared t
        → (k : List ℕ) × IsList m.next t k × (length k ≤ length good.inv.chain)
    behind t loc = rest_of m.next 0 t good.inv.chain good.inv.listed (there t loc)
      where
        there : (t : ℕ) → IsLocation s.shared t → elem t (0 ∷ good.inv.chain) ≡ true
        there t (inl e) = ground (arith, e)
        there t (inr k) = ground (arith, good.inv.whole t k)

    go :
        (pc : Pc)
        → is_idle pc ≡ false
        → Knows s.shared i ptr pc
        → Ends ptr (alone steps address ptr m pc)
    go (load_next p) b (nf, loc) =
        let k = behind p loc in look-Ends address ptr k.0 m p steps k.1 (omega (arith, k.2))
    go (load_protected a) b (nf, l) =
        let k = behind a (inr l) in
        protected-Ends address ptr k.0 m a steps k.1 (omega (arith, k.2))
    go (swap_protected a) b (nf, l) =
        let k = behind a (inr l) in swap-Ends address ptr k.0 m a steps k.1 (omega (arith, k.2))
    go (append t node) b (nf, loc, made, w, z, nz) =
        let k = behind t loc in
        append-Ends address ptr k.0 m t node steps k.1 w (omega (arith, k.2))
    go idle b k = absurd (ground (arith, b))
