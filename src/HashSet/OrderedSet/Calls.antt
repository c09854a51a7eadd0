-- ===== src/HashSet/OrderedSet/Calls.antt =====
-- The calls of the ordered set, with everything that other threads do meanwhile, and what an answer
-- means: examples/hash_set/ordered.rs.
use hazptr.Prelude.{ℕ, ◌≡◌, ◌≢◌, ◌⊎◌, true, false, none, some}
use hazptr.HashSet.OrderedSet.{
  Order, Op, insert_node, remove_node, cleanup, get, Answer, success, element,
}
use hazptr.HashSet.OrderedSet.Invariant.{Shared}
use hazptr.HashSet.OrderedSet.Effects.{Present, SameSet}
use hazptr.HashSet.OrderedSet.Threads.{System, Action, run, begin, perform, Allowed, actor, Reached}
use hazptr.HashSet.OrderedSet.Steps.{Changes}
use hazptr.HashSet.OrderedSet.Sees.{Has, Lacks}

module _ {T : Type 0} (o : Order T) (i : ℕ) (op : Op) (value : T) where
  -- The thread begins no other call.
  abbrev pub Within : Action T → Type 0
  Within (run j changed) = Unit {0}
  Within (begin j op' v) = j ≢ i

  -- The call of thread `i`, from where it begins to the state; any thread may act in between.
  pub data Call : System T → Type 0 where
    begun :
        (s : System T)
        → Reached o s
        → Allowed (begin i op value) s
        → Call (perform o (begin i op value) s)
    goes : (a : Action T) (s : System T) → Call s → Allowed a s → Within a → Call (perform o a s)

  -- In some state since the call began.
  abbrev pub Sometime : (Shared T → Type 0) → (s : System T) → Call s → Type 0
  Sometime Q _ (begun s r ok) = Q (perform o (begin i op value) s).shared
  Sometime Q _ (goes a s c ok w) = Sometime Q s c ⊎ Q (perform o a s).shared

  abbrev pub Keeps : Action T → System T → Type 0
  Keeps a s = actor a ≡ i → SameSet o s.shared (perform o a s).shared

  -- The call has not changed the set.
  abbrev pub Never : (s : System T) → Call s → Type 0
  Never _ (begun s r ok) = SameSet o s.shared (perform o (begin i op value) s).shared
  Never _ (goes a s c ok w) = Never s c × Keeps a s

  -- The call has changed the set at one of its accesses, in the way of its operation, and at no other.
  abbrev pub Once : (s : System T) → Call s → Type 0
  Once _ (begun s r ok) = ⊥
  Once _ (goes a s c ok w) =
      (Once s c × Keeps a s)
      ⊎ (Never s c × (actor a ≡ i) × Changes o op value s.shared (perform o a s).shared)

  -- What the answer of the call says of the states since it began.
  abbrev pub IsRight : (s : System T) → Call s → Op → Answer → Type 0
  IsRight s c (insert_node x) (success true) = Once s c
  IsRight s c (insert_node x) (success false) = Never s c × Sometime (λ g. Present o g value) s c
  IsRight s c (insert_node x) (element e) = ⊥
  IsRight s c remove_node (success true) = Once s c
  IsRight s c remove_node (success false) = Never s c × Sometime (Lacks o value) s c
  IsRight s c remove_node (element e) = ⊥
  IsRight s c cleanup a = ⊥
  IsRight s c get (success b) = ⊥
  IsRight s c get (element none) = Never s c × Sometime (Lacks o value) s c
  IsRight s c get (element (some a)) = Never s c × Sometime (Has o value a) s c
