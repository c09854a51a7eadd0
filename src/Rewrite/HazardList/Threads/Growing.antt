-- ===== src/Rewrite/HazardList/Threads/Growing.antt =====
-- The rewrite's list of hazards only grows, at its end: hazptr_rewrite/src/hazard/list.rs.
use hazptr.Prelude.{
  ℕ, ◌≡◌, ◌≢◌, ◌⊎◌, inl, inr, refl, sym, subst, ◌∙◌, true, false, List, [], ◌∷◌, arith, ◌==◌, elem,
  Bool-cases,
}
use hazptr.Rewrite.HazardList.{elements}
use hazptr.Rewrite.HazardList.Threads.{
  HazardNodes, Pc, append, exchange_word, idle, Shared, advance, step, System, Action, run,
  get_or_insert, set_word, give_back, perform, Allowed, Reached, acts, unused,
}
use hazptr.Rewrite.HazardList.Threads
use hazptr.Std.Linked.{IsList, elem-next}
use hazptr.Rewrite.HazardList.Threads.Invariant.{IsLinked, Inv}
use hazptr.Rewrite.HazardList.Threads.Apart.{Good, Reached-Good}

abbrev pub IsLocation : Shared → ℕ → Type 0
IsLocation g p = (p ≡ 0) ⊎ IsLinked g p

-- The list leads from the location to the node.
pub data Leads (next : ℕ → ℕ) : ℕ → ℕ → Type 0 where
  arrives : (p a : ℕ) → next p ≡ a → a ≢ 0 → Leads next p a
  goes : (p q a : ℕ) → next p ≡ q → q ≢ 0 → Leads next q a → Leads next p a

pub Leads-nonzero : (next : ℕ → ℕ) (p a : ℕ) → Leads next p a → next p ≢ 0
Leads-nonzero next _ _ (arrives p a e nz) = λ z. nz (sym e ∙ z)
Leads-nonzero next _ _ (goes p q a e nz w) = λ z. nz (sym e ∙ z)

pub IsList-Leads :
    (next : ℕ → ℕ) (p a : ℕ) (l : List ℕ) → IsList next p l → elem a l ≡ true → Leads next p a
IsList-Leads next p a [] e h = absurd (ground (arith, h))
IsList-Leads next p a (b ∷ l) (e, nz, rest) h = elim (Bool-cases (a == b)) [
  | inl same ↦ subst (Leads next p) (ground (arith, same)) (arrives p b e nz)
  | inr other ↦ goes p b a e nz (IsList-Leads next b a l rest (ground (arith, h, other)))
]

-- A node that has a successor keeps it.
unfoldable KeepsNext : Shared → Shared → Type 0
KeepsNext g g' = (p : ℕ) → IsLocation g p → g.nodes.next p ≢ 0 → g'.nodes.next p ≡ g.nodes.next p

step-KeepsNext :
    (i address protected : ℕ) (g : Shared) (pc : Pc)
    → Inv g
    → g.status address ≡ unused
    → address ≢ 0
    → KeepsNext g (advance i address protected g pc).0
unfolding KeepsNext advance step
step-KeepsNext i address protected g (hazptr.Rewrite.HazardList.Threads.load_next prev) inv fresh az
      p l nz =
    elim (Bool-cases (g.nodes.next prev == 0)) [
      | inl null ↦ rw null (ground (arith, ne l))
      | inr more ↦ rw more refl
    ]
  where
    ne : IsLocation g p → (address == p) ≡ false
    ne (inl z) = ground (arith, z, az)
    ne (inr m) = elim (Bool-cases (address == p)) [
      | inl same ↦
          let e : address ≡ p = ground (arith, same) in
          absurd (ground (arith, m, subst (λ a. g.status a ≡ unused) e fresh))
      | inr other ↦ other
    ]
step-KeepsNext i address protected g (hazptr.Rewrite.HazardList.Threads.load_word own node idx) inv
      fresh az p l nz =
    refl
step-KeepsNext i address protected g (exchange_word own node idx current) inv fresh az p l nz =
    elim (Bool-cases (g.nodes.words node idx == current)) [
      | inl same ↦ rw same refl
      | inr other ↦ rw other refl
    ]
step-KeepsNext i address protected g (append tail own) inv fresh az p l nz =
    elim (Bool-cases (g.nodes.next tail == 0)) [
      | inl null ↦ rw null (elim (Bool-cases (tail == p)) [
        | inl same ↦
            let e : tail ≡ p = ground (arith, same) in
            absurd (nz (subst (λ p. g.nodes.next p ≡ 0) e (ground (arith, null))))
        | inr other ↦ ground (arith, other)
      ])
      | inr more ↦ rw more refl
    ]
step-KeepsNext i address protected g idle inv fresh az p l nz = refl

perform-KeepsNext :
    (a : Action) (s : System) → Good s → Allowed a s → KeepsNext s.shared (perform a s).shared
unfolding KeepsNext perform
perform-KeepsNext (run i address) s good (fresh, az) p l nz =
    step-KeepsNext i address (s.threads i).protected s.shared (s.threads i).pc good.inv fresh az p l
      nz
perform-KeepsNext (get_or_insert i protected) s good ok p l nz = refl
perform-KeepsNext (set_word i node idx word) s good ok p l nz = refl
perform-KeepsNext (give_back i node idx) s good ok p l nz = refl

-- Each location leads to a node of the list, or is the last one.
pub next-IsLinked :
    (g : Shared) (p : ℕ) → Inv g → IsLocation g p → g.nodes.next p ≢ 0 → IsLinked g (g.nodes.next p)
next-IsLinked g p inv l nz =
    inv.member (g.nodes.next p) (elem-next g.nodes.next 0 p inv.chain inv.listed (there l) nz)
  where
    there : IsLocation g p → elem p (0 ∷ inv.chain) ≡ true
    there (inl z) = ground (arith, z)
    there (inr m) = ground (arith, inv.whole p m)

pub perform-Leads :
    (a : Action) (s : System)
    → Reached s
    → Allowed a s
    → (p n : ℕ) → IsLocation s.shared p
    → Leads s.shared.nodes.next p n
    → Leads (perform a s).shared.nodes.next p n
unfolding KeepsNext
perform-Leads a s r ok p n l (arrives _ _ e nz) =
    arrives p n (perform-KeepsNext a s (Reached-Good s r) ok p l (λ z. nz (sym e ∙ z)) ∙ e) nz
perform-Leads a s r ok p n l (goes _ q _ e nz w) =
    let good = Reached-Good s r in
    let m : IsLinked s.shared q =
      subst (IsLinked s.shared) e (next-IsLinked s.shared p good.inv l (λ z. nz (sym e ∙ z))) in
    goes p q n (perform-KeepsNext a s good ok p l (λ z. nz (sym e ∙ z)) ∙ e) nz
      (perform-Leads a s r ok q n (inr m) w)
