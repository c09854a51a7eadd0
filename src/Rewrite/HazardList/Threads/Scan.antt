-- ===== src/Rewrite/HazardList/Threads/Scan.antt =====
-- `Global::collect_protected_hazards` (hazptr_rewrite/src/global.rs) over `Iter` of
-- hazptr_rewrite/src/hazard/list.rs, one shared access at a time, while threads acquire hazards, write
-- to them and give them back.
use hazptr.Prelude.{ℕ, suc, ◌≡◌, true, List, [], ◌∷◌, ◌++◌, ◌==◌, if◌then◌else◌}
use hazptr.Rewrite.Hazard.{classify, protected_ptr, unprotected, abort}
use hazptr.Rewrite.HazardList.{elements}
use hazptr.Rewrite.HazardList.Threads.{HazardNodes, System, Action, perform, Allowed, Reached}

-- The next shared access of the scan.
pub data Iter : Type 0 where
  load_next : (prev : ℕ) → Iter
  load_word : (node idx : ℕ) → Iter
  ended : Iter

pub record Scan : Type 0 where
  pub iter : Iter
  pub protected : List ℕ  -- collected so far

abbrev pub next_hazard : (node idx : ℕ) → Iter
next_hazard node idx = if suc idx == elements then load_next node else load_word node (suc idx)

-- One hazard.
abbrev pub collect : (node idx word : ℕ) → List ℕ → Scan
collect node idx word protected = elim (classify word) [
  | protected_ptr p ↦ record { iter = next_hazard node idx; protected = protected ++ p ∷ [] }
  | abort ↦ record { iter = ended; protected = protected }
  | unprotected ↦ record { iter = next_hazard node idx; protected = protected }
]

unfoldable pub scan : HazardNodes → Iter → List ℕ → Scan
scan m (load_next prev) protected = record {
  iter = if m.next prev == 0 then ended else load_word (m.next prev) 0;
  protected = protected;
}
scan m (load_word node idx) protected = collect node idx (m.words node idx) protected
scan m ended protected = record { iter = ended; protected = protected }

-- A scan and the threads, from its first access on, while thread `i` has a hazard and leaves `word` in it.
pub data Scanning (i node idx word : ℕ) : System → Scan → Type 0 where
  begins :
      (s : System)
      → Reached s
      → s.shared.has i node idx ≡ true
      → s.shared.nodes.words node idx ≡ word
      → Scanning i node idx word s (record { iter = load_next 0; protected = [] })
  others :
      (a : Action) (s : System) (c : Scan)
      → Scanning i node idx word s c
      → Allowed a s
      → (perform a s).shared.has i node idx ≡ true
      → (perform a s).shared.nodes.words node idx ≡ word
      → Scanning i node idx word (perform a s) c
  scans :
      (s : System) (c : Scan)
      → Scanning i node idx word s c
      → Scanning i node idx word s (scan s.shared.nodes c.iter c.protected)
