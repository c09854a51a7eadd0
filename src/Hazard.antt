-- ===== src/Hazard.antt =====
-- src/hazard/mod.rs: one hazard pointer. Its `AtomicPtr` is a word that holds an address or one of
-- two sentinels; an atomic access is one read or write of the word, and its `Ordering` is modelled
-- only where the code tests it.
pub mod HazardList
pub mod Threads
use hazptr.Prelude.{
  ℕ, ◌≡◌, Bool, true, false, ◌||◌, Option, none, some, arith, ◌==◌, if◌then◌else◌, Outcome, returns,
  panics,
}

abbrev pub free : ℕ
free = 0

abbrev pub thread_reserved : ℕ
thread_reserved = 1

-- `core::sync::atomic::Ordering`
pub data AtomicOrdering : Type 0 where
  relaxed release acquire acq_rel seq_cst : AtomicOrdering

abbrev pub is_seq_cst : AtomicOrdering → Bool
is_seq_cst seq_cst = true
is_seq_cst _ = false

pub record Hazard : Type 0 where
  pub protected : ℕ

-- A pointer known to be non-null, by its address.
abbrev pub Protected : Type 0
Protected = ℕ

abbrev pub set_free : Hazard → Hazard
set_free h = record h { protected = free }

abbrev pub set_thread_reserved : Hazard → Hazard
set_thread_reserved h = record h { protected = thread_reserved }

-- `Hazard::protected`
abbrev pub get_protected : Hazard → Option Protected
get_protected h =
    if h.protected == free || h.protected == thread_reserved then none else some h.protected

abbrev pub set_protected : Hazard → ℕ → AtomicOrdering → Outcome Hazard
set_protected h protect order =
    if is_seq_cst order then returns (record h { protected = protect }) else panics

-- `Hazard::new`, with its debug assertion
abbrev pub new : ℕ → Outcome Hazard
new ptr = if ptr == free then panics else returns (record { protected = ptr })
