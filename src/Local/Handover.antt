-- ===== src/Local/Handover.antt =====
-- A thread ends and the next one starts: src/local.rs, `Drop for LocalInner` and `Local::new`.
use hazptr.Prelude.{
  ℕ, ◌≡◌, Option, [], ◌++◌, arith, Outcome, returns, ◌>>=◌, Returns, >>=-Returns, SameItems,
  count_p-append,
}
use hazptr.Config.{Config}
use hazptr.Retired.{null}
use hazptr.Retired.Merge.{records}
use hazptr.Hazard.HazardList.{HazardList}
use hazptr.Local
use hazptr.Local.{LocalInner, State, drop}
use hazptr.Local.New.{IsConfigured, IsHeld, Starts, new-Starts}
use hazptr.Local.Records.{shared_records, all_records, drop-SameItems}

module _ {R : Type 0} (address : R → ℕ) where
  -- The state of the next thread, with the log of both.
  abbrev pub handover : Option Config → State R → Outcome (State R)
  handover config s = drop address s >>= λ e.
      Local.new config e.0 >>= λ r. returns (record { local = r.0; global = r.1; reclaimed = e.1 })

  none-IsHeld : (hs : HazardList) → IsHeld [] hs
  none-IsHeld hs = record { once = λ i. omega arith; held = λ i h. absurd (omega (arith, h)) }

  -- When a thread ends and another one then starts, the new thread's bag and the log of reclaimed records
  -- hold exactly the records that the first one had retired or could have adopted, each as often, and no
  -- abandoned bag is left.
  pub handover-SameItems :
      (config : Option Config) (s : State R)
      → IsConfigured config
      → Returns (handover config s) (λ t.
        SameItems (t.local.retired_bag.inner.items ++ t.reclaimed) (all_records s)
        × (t.global.abandoned.head ≡ null))
  handover-SameItems config s ok =
      >>=-Returns (λ e. SameItems (shared_records e.0 e.1) (all_records s)) _ (drop address s) _
        (drop-SameItems address s)
        (λ e same.
          >>=-Returns (Starts [] e.0) _ (Local.new config e.0) _
            (new-Starts [] config e.0 ok (none-IsHeld e.0.hazards))
            (λ r begun. (
              λ p. omega (
                arith,
                same p,
                begun.adopted p,
                count_p-append p r.0.retired_bag.inner.items e.1,
                count_p-append p (records e.0.abandoned.head) e.1,
              ),
              begun.emptied,
            )))
