-- ===== src/Examples/Lists.antt =====
-- Two threads that acquire hazards, and the theorems at what they get to: src/hazard/list.rs.
use hazptr.Std.Linked.{IsDistinct}
use hazptr.Hazard.Threads.Drop.{drop, drop-linked}
use hazptr.Prelude.{
  some, ◌↔◌, ℕ, ◌≡◌, ◌≢◌, refl, true, false, List, [], ◌∷◌, ◌*◌, ◌+◌, elem, length, arith,
}
use hazptr.Hazard.{free}
use hazptr.Hazard.Threads.{
  linked, System, Action, run, get_hazard, perform, Allowed, initial, Reached, start, acts, advance,
  step, alone, is_idle,
}
use hazptr.Std.Linked.{IsList}
use hazptr.Hazard.Threads.Apart.{Reached-apart, perform-KeepsWords}
use hazptr.Hazard.Threads.Alone.{Ends, alone-Ends}

five_ne_zero : ◌≢◌ {A = ℕ} 5 0
five_ne_zero e = omega (arith, e)

six_ne_zero : ◌≢◌ {A = ℕ} 6 0
six_ne_zero e = omega (arith, e)

-- Thread 0 has looked at the empty list and made a node at 5; so has thread 1, at 6, ...
abbrev asked : List Action
asked = get_hazard 0 7 ∷ get_hazard 1 8 ∷ run 0 false 5 ∷ run 1 false 6 ∷ []

abbrev perform_all : List Action → System → System
perform_all [] s = s
perform_all (a ∷ l) s = perform_all l (perform a s)

abbrev AllAllowed : List Action → System → Type 0
AllAllowed [] s = Unit {0}
AllAllowed (a ∷ l) s = Allowed a s × AllAllowed l (perform a s)

perform_all-Reached :
    (l : List Action) (s : System) → Reached s → AllAllowed l s → Reached (perform_all l s)
perform_all-Reached [] s r ok = r
perform_all-Reached (a ∷ l) s r (ok, oks) = perform_all-Reached l (perform a s) (acts a s r ok) oks

abbrev both_made : System
both_made = perform_all asked initial

one_ne_free : (n : ℕ) → ◌≢◌ {A = ℕ} (n + 1) free
one_ne_free n e = omega (arith, e)

both_made-Reached : Reached both_made
unfolding perform advance step
both_made-Reached = perform_all-Reached asked initial start (
  (refl, one_ne_free 6),
  ((refl, one_ne_free 7), ((refl, five_ne_zero), ((refl, six_ne_zero), tt))),
)

-- ... and then the node of thread 0 is appended.
abbrev appended : System
appended = perform (run 0 false 9) both_made

nine_ne_zero : ◌≢◌ {A = ℕ} 9 0
nine_ne_zero e = omega (arith, e)

nine-Allowed : Allowed (run 0 false 9) both_made
unfolding perform advance step
nine-Allowed = (refl, nine_ne_zero)

appended-Reached : Reached appended
appended-Reached = acts (run 0 false 9) both_made both_made-Reached nine-Allowed

has_five : appended.shared.has 0 5 ≡ true
unfolding perform advance step
has_five = refl

Reached-apart_example :
    ◌≡◌ {A = ℕ} 0 0
    × (appended.shared.nodes.protected 5 ≢ free)
    × ((l : List ℕ) × IsList appended.shared.nodes.next 0 l × (elem 5 l ≡ true))
Reached-apart_example = Reached-apart appended 0 0 5 appended-Reached has_five has_five

drop-linked_example :
    (l : List ℕ) × (drop (length l) appended.shared.nodes ≡ some l)
    × IsDistinct l
    × ((a : ℕ) → (elem a l ≡ true) ↔ (appended.shared.status a ≡ linked))
drop-linked_example = drop-linked appended appended-Reached

appended-Allowed : Allowed (run 1 false 9) appended
unfolding perform advance step
appended-Allowed = (refl, nine_ne_zero)

zero_ne_one : ◌≢◌ {A = ℕ} 0 1
zero_ne_one e = omega (arith, e)

perform-KeepsWords_example :
    ((perform (run 1 false 9) appended).shared.has 0 5 ≡ true)
    × ((perform (run 1 false 9) appended).shared.nodes.protected 5
        ≡ appended.shared.nodes.protected 5)
perform-KeepsWords_example =
    perform-KeepsWords (run 1 false 9) appended 0 5 appended-Reached appended-Allowed zero_ne_one
      has_five

one_busy : is_idle (appended.threads 1).pc ≡ false
unfolding perform advance step
one_busy = refl

alone-Ends_example :
    (l : List ℕ) × IsList appended.shared.nodes.next 0 l
    × Ends (appended.threads 1).ptr (
        alone
          (2 * length l + 5)
          9
          (appended.threads 1).ptr
          appended.shared.nodes
          (appended.threads 1).pc)
alone-Ends_example = alone-Ends appended 1 9 appended-Reached one_busy
