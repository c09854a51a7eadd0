-- ===== src/Std/Vec.antt =====
-- `Vec<T>`: its elements in order, and its capacity. A full vector grows by doubling.
use hazptr.Prelude.{
  ℕ, ◌+◌, ◌-◌, ◌*◌, ◌≤◌, max, Bool, List, [], ◌∷◌, ◌++◌, arith, leb, if◌then◌else◌, length, keep,
  length-append,
}

pub record Vec {ℓ} (A : Type ℓ) : Type ℓ where
  pub items : List A
  pub capacity : ℕ

module _ {ℓ} {A : Type ℓ} where
  abbrev pub with_capacity : ℕ → Vec A
  with_capacity n = record { items = []; capacity = n }

  abbrev pub len : Vec A → ℕ
  len v = length v.items

  -- The capacity after room for `extra` more elements has been made.
  abbrev pub reserved : Vec A → ℕ → ℕ
  reserved v extra =
      if leb extra (v.capacity - len v) then v.capacity else max (v.capacity * 2) (len v + extra)

  abbrev pub push : Vec A → A → Vec A
  push v a = record { items = v.items ++ a ∷ []; capacity = reserved v 1 }

  -- `append` moves all elements of `other` to the end.
  abbrev pub append : Vec A → Vec A → Vec A
  append v other = record { items = v.items ++ other.items; capacity = reserved v (len other) }

  abbrev pub retain : (A → Bool) → Vec A → Vec A
  retain p v = record { items = keep p v.items; capacity = v.capacity }

  abbrev pub IsVec : Vec A → Type 0
  IsVec v = len v ≤ v.capacity

  pub append-IsVec : (v other : Vec A) → IsVec v → IsVec (append v other)
  append-IsVec v other h = ground (arith, length-append v.items other.items)
