-- ===== src/Hazard/HazardList.antt =====
-- src/hazard/list.rs: the global list of hazard pointers, from the head on. A node is never removed,
-- so a `&'static Hazard` is a position in the list. Each operation runs undisturbed here: a weak
-- compare-and-swap that fails with nothing changed is tried again, and is not shown.
use hazptr.Prelude.{
  ℕ, zero, suc, ◌+◌, ◌<◌, ◌≡◌, ◌≢◌, refl, ap, ◌⊎◌, inl, inr, Option, none, some, List, [], ◌∷◌,
  arith, ◌==◌, if◌then◌else◌, Outcome, returns, ◌>>=◌, Returns, >>=-Returns, length, get_elem?,
  Bool-cases,
}
use hazptr.Hazard.{free, thread_reserved, Hazard, new}

-- `HazardNode`: the hazard of a node; `next` is the rest of the list.
abbrev pub HazardList : Type 0
HazardList = List Hazard

-- The position of the node that is appended, counted from the tail, and the list from there on.
abbrev insert_back : ℕ → Outcome (ℕ × HazardList)
insert_back ptr = do node ← new ptr; returns (0, node ∷ [])

-- One position further, behind the node `h`.
abbrev behind : Hazard → ℕ × HazardList → ℕ × HazardList
behind h (i, hs) = (suc i, h ∷ hs)

unfoldable pub get_hazard_for : HazardList → ℕ → Outcome (ℕ × HazardList)
get_hazard_for [] ptr = insert_back ptr
get_hazard_for (h ∷ hs) ptr =
    let rest = get_hazard_for hs ptr in
    if h.protected == free
    then returns (0, record h { protected = ptr } ∷ hs)
    else rest >>= λ r. returns (behind h r)

-- The word that a request stores: the pointer to protect, or the reservation.
abbrev pub requested : Option ℕ → ℕ
requested (some protect) = protect
requested none = thread_reserved

unfoldable pub get_hazard : HazardList → Option ℕ → Outcome (ℕ × HazardList)
unfolding get_hazard_for
get_hazard hs protect = get_hazard_for hs (requested protect)

-- What the caller of `get_hazard` gets: position `i` holds the word, no position before it was
-- free, it was free itself or is new, and every other hazard is as before.
pub record Acquired (ptr : ℕ) (hs : HazardList) (r : ℕ × HazardList) : Type 0 where
  pub here : get_elem? r.1 r.0 ≡ some (record { protected = ptr })
  pub before : (j : ℕ) → j < r.0 → get_elem? hs j ≢ some (record { protected = free })
  pub source :
      ((get_elem? hs r.0 ≡ some (record { protected = free })) × (length r.1 ≡ length hs))
      ⊎ ((r.0 ≡ length hs) × (length r.1 ≡ length hs + 1))
  pub others : (j : ℕ) → j ≢ r.0 → get_elem? r.1 j ≡ get_elem? hs j

Acquired-first :
    (ptr : ℕ) (x : Hazard) (hs : HazardList)
    → x.protected ≡ free
    → Acquired ptr (x ∷ hs) (0, record x { protected = ptr } ∷ hs)
Acquired-first ptr x hs e = record {
  here = refl;
  before = λ j h. absurd (omega arith);
  source = inl (ap (λ (p : ℕ). some (record { protected = p })) e, refl);
  others = λ j h. skip j h;
}
  where
    skip : (j : ℕ) → j ≢ 0 → get_elem? (record x { protected = ptr } ∷ hs) j ≡ get_elem? (x ∷ hs) j
    skip zero h = absurd (h refl)
    skip (suc j) h = refl

Acquired-behind :
    (ptr : ℕ) (x : Hazard) (hs : HazardList) (r : ℕ × HazardList)
    → x.protected ≢ free
    → Acquired ptr hs r
    → Acquired ptr (x ∷ hs) (behind x r)
Acquired-behind ptr x hs r ne a = record {
  here = a.here;
  before = earlier;
  source = ground (arith, a.source);
  others = other;
}
  where
    word : Option Hazard → ℕ
    word none = free
    word (some y) = y.protected

    earlier : (j : ℕ) → j < suc r.0 → get_elem? (x ∷ hs) j ≢ some (record { protected = free })
    earlier zero h = λ e. ne (ap (λ (o : Option Hazard). word o) e)
    earlier (suc j) h = a.before j (omega arith)

    other : (j : ℕ) → j ≢ suc r.0 → get_elem? (x ∷ r.1) j ≡ get_elem? (x ∷ hs) j
    other zero h = refl
    other (suc j) h = a.others j (λ e. h (ap suc e))

get_hazard_for-Acquired :
    (hs : HazardList) (ptr : ℕ) → ptr ≢ free → Returns (get_hazard_for hs ptr) (Acquired ptr hs)
unfolding get_hazard_for
get_hazard_for-Acquired [] ptr h = elim (Bool-cases (ptr == free)) [
  | inl e ↦ absurd (h (ground arith))
  | inr e ↦ rw e (record {
    here = refl;
    before = λ j b. absurd (omega arith);
    source = inr (refl, refl);
    others = λ j b. past j b;
  })
]
  where
    past : (j : ℕ) → j ≢ 0 → get_elem? {A = Hazard} (record { protected = ptr } ∷ []) j ≡ none
    past zero b = absurd (b refl)
    past (suc j) b = refl
get_hazard_for-Acquired (x ∷ hs) ptr h = elim (Bool-cases (x.protected == free)) [
  | inl e ↦ rw e (Acquired-first ptr x hs (ground arith))
  | inr e ↦ rw e (
      >>=-Returns (Acquired ptr hs) (Acquired ptr (x ∷ hs)) (get_hazard_for hs ptr) _
        (get_hazard_for-Acquired hs ptr h) (λ r a. Acquired-behind ptr x hs r (ground arith) a))
]

-- A request for a non-null pointer, or for a reservation, ends without a panic and acquires the
-- first free hazard of the list, or a new one at its end if none is free.
pub get_hazard-Acquired :
    (hs : HazardList) (protect : Option ℕ)
    → requested protect ≢ free
    → Returns (get_hazard hs protect) (Acquired (requested protect) hs)
unfolding get_hazard
get_hazard-Acquired hs protect h = get_hazard_for-Acquired hs (requested protect) h
