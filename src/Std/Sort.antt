-- ===== src/Std/Sort.antt =====
-- `sort_unstable` on addresses. Equal addresses are the same value, so the sorted order of a list
-- is unique, and insertion gives the result of any sort.
use hazptr.Prelude.{ℕ, ◌≤◌, ◌≡◌, refl, List, [], ◌∷◌, ◌||◌, arith, leb, ◌==◌, if◌then◌else◌, elem}

insert : ℕ → List ℕ → List ℕ
insert a [] = a ∷ []
insert a (x ∷ xs) = if leb a x then a ∷ x ∷ xs else x ∷ insert a xs

unfoldable pub sort_unstable : List ℕ → List ℕ
unfolding insert
sort_unstable [] = []
sort_unstable (x ∷ xs) = insert x (sort_unstable xs)

-- Every element from `lo` on, in ascending order.
abbrev pub Ascending : ℕ → List ℕ → Type 0
Ascending lo [] = Unit {0}
Ascending lo (x ∷ xs) = (lo ≤ x) × Ascending x xs

insert-Ascending : (lo a : ℕ) (xs : List ℕ) → lo ≤ a → Ascending lo xs → Ascending lo (insert a xs)
unfolding insert
insert-Ascending lo a [] h s = (h, tt)
insert-Ascending lo a (x ∷ xs) h s = ground (arith, insert-Ascending x a xs)

pub sort_unstable-Ascending : (xs : List ℕ) → Ascending 0 (sort_unstable xs)
unfolding sort_unstable
sort_unstable-Ascending [] = tt
sort_unstable-Ascending (x ∷ xs) =
    insert-Ascending 0 x (sort_unstable xs) (omega arith) (sort_unstable-Ascending xs)

elem-insert : (b a : ℕ) (xs : List ℕ) → elem b (insert a xs) ≡ (b == a || elem b xs)
unfolding insert
elem-insert b a [] = refl
elem-insert b a (x ∷ xs) = ground (arith, elem-insert b a xs)

pub elem-sort_unstable : (b : ℕ) (xs : List ℕ) → elem b (sort_unstable xs) ≡ elem b xs
unfolding sort_unstable
elem-sort_unstable b [] = refl
elem-sort_unstable b (x ∷ xs) =
    ground (arith, elem-insert b x (sort_unstable xs), elem-sort_unstable b xs)
