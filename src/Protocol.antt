-- ===== src/Protocol.antt =====
-- Guards and reclaiming threads side by side: the shared accesses of src/guard.rs (`protect`,
-- `release`, `drop`), src/global.rs (`collect_protected_hazards`) and src/local.rs (`retire_record`,
-- `scan_hazards`), one at a time and in any order. The accesses are sequentially consistent. A guard
-- whose hazard lies in a thread's cache is an idle one.
pub mod Invariant
pub mod Reclaim
pub mod Safety
use hazptr.Prelude.{
  update, ℕ, zero, suc, ◌+◌, ◌≡◌, ◌≢◌, Bool, true, false, Option, none, some, List, [], ◌∷◌, ◌==◌,
  if◌then◌else◌, length, get_elem?, modify, elem,
}
use hazptr.Hazard.{Hazard, free, thread_reserved, set_free, set_thread_reserved, get_protected}
use hazptr.Hazard.HazardList.{HazardList}
use hazptr.Global.Collect.{IsAddress}
use hazptr.Local.Cache.{word_at}
use hazptr.Guard.Protect.{protecting}

-- What has become of the record at an address. A thread's bag is the set of its records.
pub data Status : Type 0 where
  unused : Status
  live : Status
  in_bag : (thread : ℕ) → Status
  abandoned : Status

-- Where a guard stands in `protect`, with its hazard, the atomic and the pointer loaded.
pub data Pc : Type 0 where
  absent : Pc
  idle : (hazard : ℕ) → Pc
  publish : (hazard cell p : ℕ) → Pc  -- before `set_protected`
  check : (hazard cell p : ℕ) → Pc  -- before the load that follows it
  holding : (hazard p : ℕ) → Pc  -- `protect` has returned `p`

-- A thread outside a scan, or about to read the hazard at `position`.
pub data Phase : Type 0 where
  running : Phase
  scanning : (position : ℕ) → (cache : List ℕ) → Phase

-- A guard acquires a hazard that was free, or that is new.
pub record Claims (hs : HazardList) (hazard : ℕ) (hs' : HazardList) : Type 0 where
  pub was : word_at hs hazard ≡ free
  pub now : word_at hs' hazard ≡ thread_reserved
  pub others : (j : ℕ) → j ≢ hazard → word_at hs' j ≡ word_at hs j

-- One access of a guard, by the contents of the atomics.
pub data GuardMove (cells : ℕ → ℕ) (hs : HazardList) : Pc → HazardList → Pc → Type 0 where
  acquire : {i : ℕ} {hs' : HazardList} → Claims hs i hs' → GuardMove cells hs absent hs' (idle i)
  load : {i c p : ℕ} → cells c ≡ p → p ≢ 0 → GuardMove cells hs (idle i) hs (publish i c p)
  load_again :
      {i c p q : ℕ} → cells c ≡ p → p ≢ 0 → GuardMove cells hs (holding i q) hs (publish i c p)
  store : {i c p : ℕ} → GuardMove cells hs (publish i c p) (protecting hs i p) (check i c p)
  confirm : {i c p : ℕ} → cells c ≡ p → GuardMove cells hs (check i c p) hs (holding i p)
  changed :
      {i c p q : ℕ}
      → cells c ≡ q
      → q ≢ 0
      → q ≢ p
      → GuardMove cells hs (check i c p) hs (publish i c q)
  was_null :
      {i c p : ℕ}
      → cells c ≡ 0
      → GuardMove cells hs (check i c p) (modify hs i set_thread_reserved) (idle i)
  release : {i p : ℕ} → GuardMove cells hs (holding i p) (modify hs i set_thread_reserved) (idle i)
  drop : {i : ℕ} → GuardMove cells hs (idle i) (modify hs i set_free) absent

pub record System : Type 0 where
  pub cells : ℕ → ℕ
  pub hazards : HazardList
  pub status : ℕ → Status
  pub pc : ℕ → Pc
  pub phase : ℕ → Phase

-- `vec.push(protected)`, if the hazard protects something.
abbrev pub collected : List ℕ → Option ℕ → List ℕ
collected cache none = cache
collected cache (some p) = p ∷ cache

-- What reclaiming, abandoning and adopting make of a record.
abbrev pub reclaimed : ℕ → List ℕ → ℕ → Status → Status
reclaimed t cache p (in_bag u) =
    if u == t then (if elem p cache then in_bag u else unused) else in_bag u
reclaimed t cache p unused = unused
reclaimed t cache p live = live
reclaimed t cache p abandoned = abandoned

abbrev pub left_behind : ℕ → Status → Status
left_behind t (in_bag u) = if u == t then abandoned else in_bag u
left_behind t unused = unused
left_behind t live = live
left_behind t abandoned = abandoned

abbrev pub adopted : ℕ → Status → Status
adopted t abandoned = in_bag t
adopted t unused = unused
adopted t live = live
adopted t (in_bag u) = in_bag u

pub data Step (s : System) : System → Type 0 where
  -- a guard
  guard :
      (g : ℕ) {hs : HazardList} {p : Pc}
      → GuardMove s.cells s.hazards (s.pc g) hs p
      → Step s (record s { hazards = hs; pc = update s.pc g p })
  -- the program: a new record, at an address that is in no use
  allocate :
      (p : ℕ)
      → IsAddress p
      → s.status p ≡ unused
      → Step s (record s { status = update s.status p live })
  -- the program: a store of null or of a record that has not been retired
  write_null : (c : ℕ) → Step s (record s { cells = update s.cells c 0 })
  write : (c p : ℕ) → s.status p ≡ live → Step s (record s { cells = update s.cells c p })
  -- `retire_record`, of a record that no atomic leads to any more
  retire :
      (t p : ℕ)
      → s.phase t ≡ running
      → s.status p ≡ live
      → ((c : ℕ) → s.cells c ≢ p)
      → Step s (record s { status = update s.status p (in_bag t) })
  -- `try_adopt_abandoned_records` and `merge`; the thread's end
  adopt : (t : ℕ) → s.phase t ≡ running → Step s (record s { status = λ p. adopted t (s.status p) })
  abandon :
      (t : ℕ) → s.phase t ≡ running → Step s (record s { status = λ p. left_behind t (s.status p) })
  -- a scan: one hazard after the other up to the end of the list, then the reclamation
  scan_begin :
      (t : ℕ) → s.phase t ≡ running → Step s (record s { phase = update s.phase t (scanning 0 []) })
  scan_read :
      (t k : ℕ) {cache : List ℕ} {h : Hazard}
      → s.phase t ≡ scanning k cache
      → get_elem? s.hazards k ≡ some h
      → Step s (record s {
        phase = update s.phase t (scanning (k + 1) (collected cache (get_protected h)));
      })
  scan_end :
      (t k : ℕ) {cache : List ℕ}
      → s.phase t ≡ scanning k cache
      → get_elem? s.hazards k ≡ none
      → Step s (record s {
        status = λ p. reclaimed t cache p (s.status p);
        phase = update s.phase t running;
      })

abbrev pub init : System
init = record {
  cells = λ _. 0;
  hazards = [];
  status = λ _. unused;
  pc = λ _. absent;
  phase = λ _. running;
}

pub data Reach : System → Type 0 where
  start : Reach init
  later : {s t : System} → Reach s → Step s t → Reach t
