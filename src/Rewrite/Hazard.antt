-- ===== src/Rewrite/Hazard.antt =====
-- hazptr_rewrite/src/hazard/mod.rs: one hazard pointer. A pointer is its address.
use hazptr.Prelude.{ℕ, zero, suc, Option, none, some, Outcome, returns, panics, if◌then◌else◌}
use hazptr.Hazard.{AtomicOrdering, is_seq_cst}

abbrev pub free : ℕ
free = 0

abbrev pub thread_reserved : ℕ
thread_reserved = 1

-- A hazard that has never been acquired.
abbrev pub not_yet_used : ℕ
not_yet_used = 2

pub record HazardPtr : Type 0 where
  pub protected : ℕ

abbrev pub set_free : HazardPtr → HazardPtr
set_free h = record { protected = free }

abbrev pub set_thread_reserved : HazardPtr → HazardPtr
set_thread_reserved h = record { protected = thread_reserved }

pub data ProtectedResult : Type 0 where
  protected_ptr : ℕ → ProtectedResult
  unprotected : ProtectedResult
  abort : ProtectedResult

-- `HazardPtr::protected`
abbrev pub classify : ℕ → ProtectedResult
classify zero = unprotected
classify (suc zero) = unprotected
classify (suc (suc zero)) = abort
classify (suc (suc (suc n))) = protected_ptr (suc (suc (suc n)))

abbrev pub get_protected : HazardPtr → ProtectedResult
get_protected h = classify h.protected

-- `ProtectedResult::protected`
abbrev pub as_option : ProtectedResult → Option ℕ
as_option (protected_ptr p) = some p
as_option unprotected = none
as_option abort = none

abbrev pub set_protected : HazardPtr → ℕ → AtomicOrdering → Outcome HazardPtr
set_protected h protected order =
    if is_seq_cst order then returns (record { protected = protected }) else panics

-- `HazardPtr::new`
abbrev pub new : HazardPtr
new = record { protected = not_yet_used }

abbrev pub with_protected : ℕ → HazardPtr
with_protected protected = record { protected = protected }

pub data ProtectStrategy : Type 0 where
  reserve_only : ProtectStrategy
  protect : ℕ → ProtectStrategy
