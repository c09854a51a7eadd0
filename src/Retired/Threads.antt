-- ===== src/Retired/Threads.antt =====
-- src/retired.rs: several threads push abandoned bags and take them all, one shared access at a time, in
-- any order. A leaked bag is its address, null is 0, and location 0 of `next` is `head`. The merging
-- of the bags that a thread has taken is private to it.
pub mod Merging
pub mod Invariant
pub mod Accesses
pub mod Refines
use hazptr.Prelude.{
  ℕ, zero, suc, ◌≡◌, ◌≢◌, Bool, true, false, not, ◌&&◌, Option, none, some, ◌==◌, if◌then◌else◌,
  update,
}
use hazptr.Std.Vec.{Vec}
use hazptr.Retired.{merge}

pub record Bags (R : Type 0) : Type 0 where
  pub next : ℕ → ℕ
  pub inner : ℕ → Vec R

-- The next access of a thread.
pub data Pc : Type 0 where
  ready : Pc
  -- in `push`
  push_load : (bag : ℕ) → Pc
  push_store : (bag head : ℕ) → Pc
  push_exchange : (bag head : ℕ) → Pc
  pushed : (bag : ℕ) → Pc
  -- in `take_and_merge`
  take_probe : Pc
  take_swap : Pc
  taken : (queue : ℕ) → Pc

module _ {R : Type 0} where
  -- The loop of `take_and_merge`; the fuel bounds it.
  unfoldable pub merge_rest : (fuel : ℕ) → Bags R → (boxed : Vec R) → (curr : ℕ) → Option (Vec R)
  merge_rest zero m boxed curr = if curr == 0 then some boxed else none
  merge_rest (suc fuel) m boxed curr =
      let rest = merge_rest fuel m (merge boxed (m.inner curr)) (m.next curr) in
      if curr == 0 then some boxed else rest

  -- What `take_and_merge` makes of the bags that it has taken.
  unfoldable pub merge_taken : (fuel : ℕ) → Bags R → (queue : ℕ) → Option (Option (Vec R))
  unfolding merge_rest
  merge_taken fuel m queue =
      let rest = merge_rest fuel m (m.inner queue) (m.next queue) in
      if queue == 0 then some none else (elim rest [ none ↦ none | some v ↦ some (some v) ])

  abbrev pub write : Bags R → ℕ → ℕ → Bags R
  write m a p = record m { next = update m.next a p }

  -- `compare_exchange_weak(head, ..)`; `spurious` is a failure for no reason.
  abbrev pub succeeds : Bool → Bags R → ℕ → Bool
  succeeds spurious m head = (m.next 0 == head) && not spurious

  unfoldable pub step : (spurious : Bool) → Bags R → Pc → Bags R × Pc
  step spurious m ready = (m, ready)
  step spurious m (push_load bag) = (m, push_store bag (m.next 0))
  step spurious m (push_store bag head) = (write m bag head, push_exchange bag head)
  step spurious m (push_exchange bag head) =
      if succeeds spurious m head then (write m 0 bag, pushed bag) else (m, push_load bag)
  step spurious m (pushed bag) = (m, pushed bag)
  step spurious m take_probe = (m, if m.next 0 == 0 then taken 0 else take_swap)
  step spurious m take_swap = (write m 0 0, taken (m.next 0))
  step spurious m (taken queue) = (m, taken queue)

-- What has become of an address, which the code does not keep.
pub data Status : Type 0 where
  unused : Status
  owned : (thread : ℕ) → Status  -- by `push`, not yet in the queue
  inside : Status
  removed : (thread : ℕ) → Status

pub record Shared (R : Type 0) : Type 0 where
  pub bags : Bags R
  pub status : ℕ → Status

pub record System (R : Type 0) : Type 0 where
  pub shared : Shared R
  pub pc : ℕ → Pc

pub data Action (R : Type 0) : Type 0 where
  run : (i : ℕ) (spurious : Bool) → Action R
  push : (i bag : ℕ) (inner : Vec R) → Action R
  take_and_merge : (i : ℕ) → Action R
  deallocate : (bag : ℕ) → Action R  -- of a bag that has been taken and merged

abbrev pub take_out : ℕ → Status → Status
take_out i inside = removed i
take_out i unused = unused
take_out i (owned thread) = owned thread
take_out i (removed thread) = removed thread

-- Between two calls.
abbrev pub is_idle : Pc → Bool
is_idle ready = true
is_idle (push_load bag) = false
is_idle (push_store bag head) = false
is_idle (push_exchange bag head) = false
is_idle (pushed bag) = true
is_idle take_probe = false
is_idle take_swap = false
is_idle (taken queue) = true

module _ {R : Type 0} where
  abbrev pub status_after : ℕ → Bool → Bags R → Pc → (ℕ → Status) → ℕ → Status
  status_after i spurious m (push_exchange bag head) status =
      if succeeds spurious m head then update status bag inside else status
  status_after i spurious m take_swap status = λ a. take_out i (status a)
  status_after i spurious m ready status = status
  status_after i spurious m (push_load bag) status = status
  status_after i spurious m (push_store bag head) status = status
  status_after i spurious m (pushed bag) status = status
  status_after i spurious m take_probe status = status
  status_after i spurious m (taken queue) status = status

  -- A step of thread `i`, with what the code does not keep.
  unfoldable pub advance : ℕ → Bool → Shared R → Pc → Shared R × Pc
  unfolding step
  advance i spurious g pc =
      let r = step spurious g.bags pc in
      (record { bags = r.0; status = status_after i spurious g.bags pc g.status }, r.1)

  -- `Box::leak(abandoned)`, with any `next`.
  abbrev pub leak : ℕ → ℕ → Vec R → Shared R → Shared R
  leak i bag inner g = record {
    bags = record (g.bags) { inner = update g.bags.inner bag inner };
    status = update g.status bag (owned i);
  }

  unfoldable pub perform : Action R → System R → System R
  perform (run i spurious) s =
      let r = advance i spurious s.shared (s.pc i) in
      record { shared = r.0; pc = update s.pc i r.1 }
  perform (push i bag inner) s = record {
    shared = leak i bag inner s.shared;
    pc = update s.pc i (push_load bag);
  }
  perform (take_and_merge i) s = record s { pc = update s.pc i take_probe }
  perform (deallocate bag) s = record s {
    shared = record (s.shared) { status = update s.shared.status bag unused };
  }

  abbrev pub Allowed : Action R → System R → Type 0
  Allowed (run i spurious) s = Unit {0}
  Allowed (push i bag inner) s =
      (is_idle (s.pc i) ≡ true) × (s.shared.status bag ≡ unused) × (bag ≢ 0)
  Allowed (take_and_merge i) s = is_idle (s.pc i) ≡ true
  Allowed (deallocate bag) s = (i : ℕ) × (s.shared.status bag ≡ removed i)

  -- `AbandonedBags::new()`, and memory with anything in it.
  abbrev pub initial : (ℕ → Vec R) → System R
  initial blank = record {
    shared = record { bags = record { next = λ a. 0; inner = blank }; status = λ a. unused };
    pc = λ i. ready;
  }

  pub data Reached : System R → Type 0 where
    start : (blank : ℕ → Vec R) → Reached (initial blank)
    acts : (a : Action R) (s : System R) → Reached s → Allowed a s → Reached (perform a s)
