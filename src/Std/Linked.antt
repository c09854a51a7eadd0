-- ===== src/Std/Linked.antt =====
-- Linked lists in memory: a location's `next` is the address of the node after it, and null is 0.
use hazptr.Prelude.{
  ℕ, suc, zero, ◌≤◌, ◌≡◌, ◌≢◌, length, ap, sym, subst, refl, ◌∙◌, inl, inr, true, false, Option,
  none, some, List, [], ◌∷◌, ◌++◌, arith, ◌==◌, if◌then◌else◌, elem, Bool-cases, update,
}

-- The nodes behind the location `p`, in order.
abbrev pub IsList : (ℕ → ℕ) → ℕ → List ℕ → Type 0
IsList next p [] = next p ≡ 0
IsList next p (a ∷ l) = (next p ≡ a) × (a ≢ 0) × IsList next a l

-- A write elsewhere leaves the list as it is.
pub IsList-frame :
    (next : ℕ → ℕ) (x n p : ℕ) (l : List ℕ)
    → elem x (p ∷ l) ≡ false
    → IsList next p l
    → IsList (update next x n) p l
IsList-frame next x n p [] out e = ground (arith, out, e)
IsList-frame next x n p (a ∷ l) out (e, nz, rest) =
    (ground (arith, out, e), nz, IsList-frame next x n a l (ground (arith, out)) rest)

-- A new node behind the last location is the last node.
pub IsList-append :
    (next : ℕ → ℕ) (t n p : ℕ) (l : List ℕ)
    → elem t (p ∷ l) ≡ true
    → next t ≡ 0
    → elem n (p ∷ l) ≡ false
    → n ≢ 0
    → next n ≡ 0
    → IsList next p l
    → IsList (update next t n) p (l ++ n ∷ [])
IsList-append next t n p [] there last out nz end e =
    (ground (arith, there), nz, ground (arith, there, out, end))
IsList-append next t n p (a ∷ l) there last out nz end (e, az, rest) = (
  ground (arith, other, e),
  az,
  IsList-append next t n a l (ground (arith, there, other)) last (ground (arith, out)) nz end rest,
)
  where
    other : (t == p) ≡ false
    other = ground (arith, last, e, az)

-- Each location of the list leads to one of its nodes, or is the last one.
pub elem-next :
    (next : ℕ → ℕ) (p a : ℕ) (l : List ℕ)
    → IsList next p l
    → elem a (p ∷ l) ≡ true
    → next a ≢ 0
    → elem (next a) l ≡ true
elem-next next p a [] e h nz = absurd (nz (ground (arith, h, e)))
elem-next next p a (b ∷ l) (e, bz, rest) h nz = elim (Bool-cases (a == p)) [
  | inl same ↦ ground (arith, same, e)
  | inr other ↦ ground (arith, elem-next next b a l rest (ground (arith, h, other)) nz)
]

-- The rest of a list, behind one of its locations.
pub rest_of :
    (next : ℕ → ℕ) (p t : ℕ) (l : List ℕ)
    → IsList next p l
    → elem t (p ∷ l) ≡ true
    → (k : List ℕ) × IsList next t k × (length k ≤ length l)
rest_of next p t [] e h = ([], ground (arith, h, e), omega arith)
rest_of next p t (a ∷ l) (e, nz, rest) h = elim (Bool-cases (t == p)) [
  | inl same ↦
      let z : p ≡ t = ground (arith, same) in (a ∷ l, (ap next (sym z) ∙ e, nz, rest), omega arith)
  | inr other ↦
      let r = rest_of next a t l rest (ground (arith, h, other)) in (r.0, r.1, omega (arith, r.2))
]

pub elem_zero : (next : ℕ → ℕ) (p : ℕ) (l : List ℕ) → IsList next p l → elem 0 l ≡ false
elem_zero next p [] e = refl
elem_zero next p (a ∷ l) (e, nz, rest) = ground (arith, nz, elem_zero next a l rest)

-- A list as seen from another location that leads to the same node.
pub IsList-moved :
    (next : ℕ → ℕ) (p q : ℕ) (l : List ℕ) → next q ≡ next p → IsList next p l → IsList next q l
IsList-moved next p q [] e h = e ∙ h
IsList-moved next p q (a ∷ l) e (f, nz, rest) = (e ∙ f, nz, rest)

-- A location is the start of one list only.
pub IsList-unique :
    (next : ℕ → ℕ) (p : ℕ) (l k : List ℕ) → IsList next p l → IsList next p k → l ≡ k
IsList-unique next p [] [] e f = refl
IsList-unique next p [] (b ∷ k) e (f, nz, h) = absurd (nz (sym f ∙ e))
IsList-unique next p (a ∷ l) [] (e, nz, h) f = absurd (nz (sym e ∙ f))
IsList-unique next p (a ∷ l) (b ∷ k) (e, nz, h) (f, nz', h') =
    let z : b ≡ a = sym f ∙ e in
    let h'' : IsList next a k = subst (λ c. IsList next c k) z h' in
    cc (z, IsList-unique next a l k h h'')

-- A list does not come back to where it starts.
pub IsList-apart : (next : ℕ → ℕ) (a : ℕ) (l : List ℕ) → IsList next a l → elem a l ≡ false
IsList-apart next a [] h = refl
IsList-apart next a (b ∷ l) (e, nz, h) = elim (Bool-cases (elem a (b ∷ l))) [
  | inl back ↦
      let (k, r, le) = rest_of next b a l h back in
      absurd (omega (arith, le, ap (length {A = ℕ}) (IsList-unique next a (b ∷ l) k (e, nz, h) r)))
  | inr out ↦ out
]

abbrev pub IsDistinct : List ℕ → Type 0
IsDistinct [] = Unit {0}
IsDistinct (a ∷ l) = (elem a l ≡ false) × IsDistinct l

-- No node comes twice.
pub IsList-IsDistinct : (next : ℕ → ℕ) (p : ℕ) (l : List ℕ) → IsList next p l → IsDistinct l
IsList-IsDistinct next p [] h = tt
IsList-IsDistinct next p (a ∷ l) (e, nz, h) =
    (IsList-apart next a l h, IsList-IsDistinct next a l h)

-- The nodes that a loop `while let Some(node) = curr { curr = node.next }` comes to; the fuel bounds it.
unfoldable pub walk : (fuel : ℕ) → (ℕ → ℕ) → (curr : ℕ) → Option (List ℕ)
walk zero next curr = if curr == 0 then some [] else none
walk (suc fuel) next curr =
    let rest = walk fuel next (next curr) in
    if curr == 0 then some [] else (elim rest [ none ↦ none | some l ↦ some (curr ∷ l) ])

-- With a step for each node, the loop comes to the end of the list, and to each node in order.
pub walk-IsList :
    (next : ℕ → ℕ) (p : ℕ) (l : List ℕ) → IsList next p l → walk (length l) next (next p) ≡ some l
unfolding walk
walk-IsList next p [] e = rw e refl
walk-IsList next p (a ∷ l) (e, nz, h) =
    let ne : (a == 0) ≡ false = ground (arith, nz) in
    subst (λ q. walk (length {A = ℕ} (a ∷ l)) next q ≡ some (a ∷ l)) (sym e)
      (rw (ne, walk-IsList next a l h) refl)
