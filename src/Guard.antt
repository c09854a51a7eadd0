-- ===== src/Guard.antt =====
-- src/guard.rs: a guard is the position of its hazard.
-- The raw pointers of the `reclaim` crate are a parameter. Other threads may change the atomic
-- between two loads, so the values that the loads give are arguments.
pub mod Protect
pub mod IfEqual
pub mod Clone
pub mod Lifetime
use hazptr.Prelude.{
  ℕ, zero, suc, ◌≡◌, Bool, true, not, Option, none, some, List, [], ◌∷◌, ◌==◌, if◌then◌else◌,
  Outcome, returns, ◌>>=◌, Result, ok, err, modify, get_elem?,
}
use hazptr.Hazard.{
  AtomicOrdering, Protected, seq_cst, set_free, set_thread_reserved, get_protected, set_protected,
}
use hazptr.Hazard.HazardList.{HazardList}
use hazptr.Global.Collect.{IsAddress}
use hazptr.Local.{State, store}
use hazptr.Local.Access.{LocalAccess}

-- `reclaim::Marked`: a null pointer with its tag, or a value.
pub data Marked (V : Type 0) : Type 0 where
  null : (tag : ℕ) → Marked V
  value : V → Marked V

-- `MarkedPtr` and `MarkedNonNull` of the `reclaim` crate. No record lies at one of the two words
-- that stand for a hazard's states.
pub record Pointers : Type 1 where
  pub MarkedPtr : Type 0
  pub MarkedNonNull : Type 0
  pub marked : MarkedPtr → Marked MarkedNonNull  -- `MarkedNonNull::new`
  pub decompose : MarkedNonNull → ℕ  -- `decompose_non_null`, as an address
  pub eq : MarkedPtr → MarkedPtr → Bool
  pub eq_non_null : MarkedPtr → MarkedNonNull → Bool
  pub decompose-IsAddress : (v : MarkedNonNull) → IsAddress (decompose v)
  pub marked_of_eq :
      (p : MarkedPtr) (v : MarkedNonNull) → eq_non_null p v ≡ true → marked p ≡ value v

pub data NotEqualError : Type 0 where
  not_equal : NotEqualError

-- `self.hazard.set_protected(..)`
pub store_protected : HazardList → ℕ → ℕ → AtomicOrdering → Outcome HazardList
store_protected [] i protect order = returns []
store_protected (x ∷ hs) zero protect order =
    set_protected x protect order >>= λ y. returns (y ∷ hs)
store_protected (x ∷ hs) (suc i) protect order =
    store_protected hs i protect order >>= λ rest. returns (x ∷ rest)

-- `release`
unfoldable pub release : HazardList → ℕ → HazardList
release hs i = modify hs i set_thread_reserved

module _ (P : Pointers) (hazard : ℕ) where
  open P use {MarkedPtr, MarkedNonNull, marked, decompose, eq, eq_non_null}

  -- The `loop` of `protect`; `none` when the loads are used up and the loop goes on.
  protect_loop :
      ℕ → List MarkedPtr → HazardList → Outcome (Option (Marked MarkedNonNull × HazardList))
  protect_loop protect [] hs = returns none
  protect_loop protect (raw ∷ loads) hs = elim (marked raw) [
    | null tag ↦ returns (some (null tag, release hs hazard))
    | value ptr ↦
        if protect == decompose ptr
        then returns (some (value ptr, hs))
        else (store_protected hs hazard (decompose ptr) seq_cst >>= λ hs'.
            protect_loop (decompose ptr) loads hs')
  ]

  unfoldable pub protect :
      List MarkedPtr → HazardList → Outcome (Option (Marked MarkedNonNull × HazardList))
  unfolding store_protected protect_loop release
  protect [] hs = returns none
  protect (raw ∷ loads) hs = elim (marked raw) [
    | null tag ↦ returns (some (null tag, release hs hazard))
    | value ptr ↦ store_protected hs hazard (decompose ptr) seq_cst >>= λ hs'.
        protect_loop (decompose ptr) loads hs'
  ]

  -- The three loads of `protect_if_equal` give `first`, `second` and `third`.
  unfoldable pub protect_if_equal :
      (expected first second third : MarkedPtr)
      → HazardList
      → Outcome (Result NotEqualError (Marked MarkedNonNull) × HazardList)
  unfolding store_protected release
  protect_if_equal expected first second third hs =
      if not (eq first expected) then returns (err not_equal, hs) else (elim (marked second) [
        | null tag ↦ returns (ok (null tag), release hs hazard)
        | value ptr ↦ store_protected hs hazard (decompose ptr) seq_cst >>= λ hs'.
            if not (eq_non_null third ptr)
            then returns (err not_equal, release hs' hazard)
            else returns (ok (value ptr), hs')
      ])

-- `self.hazard.protected(Relaxed)`
abbrev pub protected_at : HazardList → ℕ → Option Protected
protected_at hs i = elim (get_elem? hs i) [ none ↦ none | some h ↦ get_protected h ]

module _ {R : Type 0} (access : LocalAccess R) where
  -- `Guard::with_access`
  unfoldable pub with_access : State R → Outcome (ℕ × State R)
  with_access s = access.get_hazard s none

  unfoldable pub clone : State R → ℕ → Outcome (ℕ × State R)
  clone s hazard = elim (protected_at s.global.hazards hazard) [
    | some protect ↦ access.get_hazard s (some protect)
    | none ↦ access.get_hazard s none
  ]

  -- The end of `drop`: a hazard that cannot be recycled is set free.
  give_back : State R → ℕ → State R
  give_back s hazard = elim (access.try_recycle_hazard s hazard) [
    | ok t ↦ t
    | err e ↦ store s (modify s.global.hazards hazard set_free)
  ]

  unfoldable pub drop : Bool → State R → ℕ → Outcome (State R)
  unfolding give_back
  drop count_release s hazard =
      (if count_release then access.increase_ops_count s else returns s) >>= λ t.
      returns (give_back t hazard)
