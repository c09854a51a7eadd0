-- ===== src/Rewrite/Guard.antt =====
-- hazptr_rewrite/src/guard.rs: a guard is the position of its hazard, over the state of its thread.
-- The pointers of the conquer_reclaim crate are a parameter; other threads may change the atomic
-- between two loads, so the values that the loads give are arguments.
pub mod Protect
pub mod Clone
pub mod Loop
use hazptr.Prelude.{
  ℕ, ◌<◌, ◌≡◌, Bool, true, not, Option, none, some, List, [], ◌∷◌, ◌==◌, if◌then◌else◌, Outcome,
  returns, ◌>>=◌, Result, ok, err, get_elem?,
}
use hazptr.Hazard.{seq_cst}
use hazptr.Rewrite.Config.{Operation}
use hazptr.Rewrite.Hazard.{
  set_free, set_thread_reserved, get_protected, as_option, ProtectStrategy, reserve_only,
}
use hazptr.Rewrite.Hazard
use hazptr.Rewrite.HazardList.{HazardList, iter}
use hazptr.Rewrite.HazardList.Collect.{IsAddress}
use hazptr.Rewrite.Local.{
  State, modify_hazard, store, set_protected, get_hazard, try_recycle_hazard,
  try_increase_ops_count,
}

-- `conquer_pointer::MaybeNull`
pub data MaybeNull (V : Type 0) : Type 0 where
  null : (tag : ℕ) → MaybeNull V
  not_null : V → MaybeNull V

-- `MarkedPtr` and `MarkedNonNull`. No record lies at one of the three words that stand for a
-- hazard's states.
pub record Pointers : Type 1 where
  pub MarkedPtr : Type 0
  pub MarkedNonNull : Type 0
  pub maybe_null : MarkedPtr → MaybeNull MarkedNonNull  -- `MaybeNull::from`
  pub into_marked_ptr : MarkedNonNull → MarkedPtr
  pub decompose : MarkedNonNull → ℕ  -- `decompose_non_null`, as an address
  pub eq : MarkedPtr → MarkedPtr → Bool
  pub decompose-IsAddress : (v : MarkedNonNull) → IsAddress (decompose v)
  pub eq_sound : (a b : MarkedPtr) → eq a b ≡ true → a ≡ b

pub data NotEqualError : Type 0 where
  not_equal : NotEqualError

-- `(*self.hazard).set_thread_reserved(..)`
abbrev pub reserve : {R : Type 0} → State R → ℕ → State R
reserve s hazard = store s (modify_hazard s.global.hazards hazard set_thread_reserved)

module _ {R : Type 0} (address : R → ℕ) (hazard : ℕ) where
  unfoldable pub release : State R → Outcome (State R)
  release s = try_increase_ops_count address s Operation.release >>= λ t. returns (reserve t hazard)

module _ (P : Pointers) {R : Type 0} (address : R → ℕ) (hazard : ℕ) where
  open P use {MarkedPtr, MarkedNonNull, maybe_null, into_marked_ptr, decompose, eq}

  -- `return release!(self, tag)`
  abbrev pub released_null : ℕ → State R → Outcome (Option (MaybeNull MarkedNonNull × State R))
  released_null tag s = release address hazard s >>= λ t. returns (some (null tag, t))

  -- The `loop` of `protect`; `none` when the loads are used up and the loop goes on.
  unfoldable pub protect_loop :
      ℕ → List MarkedPtr → State R → Outcome (Option (MaybeNull MarkedNonNull × State R))
  protect_loop protect [] s = returns none
  protect_loop protect (raw ∷ loads) s = elim (maybe_null raw) [
    | null tag ↦ released_null tag s
    | not_null ptr ↦
        if protect == decompose ptr
        then returns (some (not_null ptr, s))
        else (set_protected s hazard (decompose ptr) seq_cst >>= λ t.
            protect_loop (decompose ptr) loads t)
  ]

  unfoldable pub protect :
      List MarkedPtr → State R → Outcome (Option (MaybeNull MarkedNonNull × State R))
  unfolding protect_loop
  protect [] s = returns none
  protect (raw ∷ loads) s = elim (maybe_null raw) [
    | null tag ↦ released_null tag s
    | not_null ptr ↦
        set_protected s hazard (decompose ptr) seq_cst >>= λ t. protect_loop (decompose ptr) loads t
  ]

  -- The two loads of `protect_if_equal` give `first` and `second`.
  unfoldable pub protect_if_equal :
      (expected first second : MarkedPtr)
      → State R
      → Outcome (Result NotEqualError (MaybeNull MarkedNonNull) × State R)
  protect_if_equal expected first second s =
      if not (eq first expected) then returns (err not_equal, s) else (elim (maybe_null first) [
        | null tag ↦ release address hazard s >>= λ t. returns (ok (null tag), t)
        | not_null ptr ↦ set_protected s hazard (decompose ptr) seq_cst >>= λ t.
            if eq second (into_marked_ptr ptr)
            then returns (ok (not_null ptr), t)
            else returns (err not_equal, reserve t hazard)
      ])

-- `hazard.protected(Relaxed).protected()`
abbrev pub protected_at : {R : Type 0} → State R → ℕ → Option ℕ
protected_at s i = elim (get_elem? (iter s.global.hazards) i) [
  | none ↦ none
  | some h ↦ as_option (get_protected h)
]

module _ {R : Type 0} where
  -- `Guard::with_handle`
  unfoldable pub with_handle : State R → Outcome (ℕ × State R)
  with_handle s = get_hazard s reserve_only

  unfoldable pub clone : State R → ℕ → Outcome (ℕ × State R)
  clone s hazard = elim (protected_at s hazard) [
    | some protected ↦ get_hazard s (ProtectStrategy.protect protected)
    | none ↦ get_hazard s reserve_only
  ]

  unfoldable pub clone_from : State R → ℕ → ℕ → Outcome (State R)
  clone_from s hazard source = elim (protected_at s source) [
    | some protected ↦ set_protected s hazard protected seq_cst
    | none ↦ returns s
  ]

  -- The end of `drop`: a hazard that cannot be recycled is set free.
  give_back : State R → ℕ → State R
  give_back s hazard = elim (try_recycle_hazard s hazard) [
    | ok t ↦ t
    | err e ↦ store s (modify_hazard s.global.hazards hazard set_free)
  ]

  unfoldable pub drop : (R → ℕ) → State R → ℕ → Outcome (State R)
  unfolding give_back
  drop address s hazard =
      try_increase_ops_count address s Operation.release >>= λ t. returns (give_back t hazard)
