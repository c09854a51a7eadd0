-- ===== src/Global/Collect.antt =====
-- What a scan of the hazard list sees: src/global.rs, `collect_protected_hazards`.
use hazptr.Prelude.{
  ℕ, zero, suc, ◌≡◌, ◌↔◌, Bool, true, false, ◌||◌, ◌&&◌, ◌≢◌, not, some, [], ◌∷◌, arith, ◌==◌,
  Returns, elem, elem-append, get_elem?, inl, inr, Bool-cases,
}
use hazptr.Std.Vec.{Vec}
use hazptr.Hazard.{Protected, free, thread_reserved, seq_cst, get_protected}
use hazptr.Hazard.HazardList.{HazardList}
use hazptr.Global.{Global, collect, collect_loop, collect_protected_hazards}

-- Whether some hazard of the list protects the address.
abbrev pub is_protected : ℕ → HazardList → Bool
is_protected a [] = false
is_protected a (h ∷ hs) =
    (a == h.protected && not (a == free || a == thread_reserved)) || is_protected a hs

elem-collect_loop :
    (a : ℕ) (vec : Vec Protected) (hs : HazardList)
    → elem a (collect_loop vec hs).items ≡ (elem a vec.items || is_protected a hs)
unfolding collect_loop
elem-collect_loop a vec [] = ground arith
elem-collect_loop a vec (h ∷ hs) = ground (
  arith,
  elem-collect_loop a (collect vec (get_protected h)) hs,
  elem-append a vec.items (h.protected ∷ []),
)

pub collect_protected_hazards-elem :
    {R : Type 0} (g : Global R) (vec : Vec Protected)
    → Returns
        (collect_protected_hazards g vec seq_cst)
        (λ v. (a : ℕ) → elem a v.items ≡ is_protected a g.hazards)
unfolding collect_protected_hazards
collect_protected_hazards-elem g vec a = elem-collect_loop a (record vec { items = [] }) g.hazards

-- An address is neither of the two sentinels.
abbrev pub IsAddress : ℕ → Type 0
IsAddress a = (a ≢ free) × (a ≢ thread_reserved)

-- Some hazard of the list protects the address.
abbrev pub Protects : HazardList → ℕ → Type 0
Protects hs a = (i : ℕ) × (get_elem? hs i ≡ some (record { protected = a }))

pub is_protected_iff :
    (a : ℕ) (hs : HazardList) → IsAddress a → (is_protected a hs ≡ true) ↔ Protects hs a
is_protected_iff a hs h = (forth hs, λ p. back hs p.0 p.1)
  where
    forth : (hs : HazardList) → is_protected a hs ≡ true → Protects hs a
    forth [] e = cc
    forth (x ∷ hs) e = elim (Bool-cases (is_protected a hs)) [
      | inl q ↦ let (i, at) = forth hs q in (suc i, at)
      | inr q ↦ (0, ground arith)
    ]

    back :
        (hs : HazardList) (i : ℕ)
        → get_elem? hs i ≡ some (record { protected = a })
        → is_protected a hs ≡ true
    back [] i e = cc
    back (x ∷ hs) zero e = ground (arith, h)
    back (x ∷ hs) (suc i) e = ground (arith, back hs i e)

-- A scan does not panic, and collects exactly the addresses that hazards of the list protect,
-- whatever the cache held before.
pub collect_protected_hazards-Protects :
    {R : Type 0} (g : Global R) (vec : Vec Protected)
    → Returns
        (collect_protected_hazards g vec seq_cst)
        (λ v. (a : ℕ) → IsAddress a → (elem a v.items ≡ true) ↔ Protects g.hazards a)
unfolding collect_protected_hazards
collect_protected_hazards-Protects g vec a h =
    rw (elem-collect_loop a (record vec { items = [] }) g.hazards) (is_protected_iff a g.hazards h)
