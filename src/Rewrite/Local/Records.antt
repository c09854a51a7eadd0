-- ===== src/Rewrite/Local/Records.antt =====
-- No retired record is lost and none is reclaimed twice: hazptr_rewrite/src/local/inner.rs.
use hazptr.Prelude.{
  ◌+◌, ◌≡◌, refl, inl, inr, Bool, Option, none, some, List, [], ◌∷◌, ◌++◌, arith, Bool-cases,
  Returns, >>=-Returns, count_p, count_p-append, SameItems,
}
use hazptr.Rewrite.Config.{is_count_retire}
use hazptr.Rewrite.Retire.{GlobalRetireState, LocalRetireState, RetireNode, node_is_empty}
use hazptr.Rewrite.Retire.Merge.{node_records, taken_records, merge-SameItems}
use hazptr.Rewrite.Local.{State, retire_in, retire_inner, retire, adopt, abandon}

-- The thread and the global state follow the same strategy.
abbrev pub IsMatched : {R : Type 0} → LocalRetireState R → GlobalRetireState R → Type 0
IsMatched LocalRetireState.global_strategy (GlobalRetireState.global_strategy queue) = Unit {0}
IsMatched LocalRetireState.global_strategy (GlobalRetireState.local_strategy abandoned) = ⊥
IsMatched (LocalRetireState.local_strategy node) (GlobalRetireState.global_strategy queue) = ⊥
IsMatched (LocalRetireState.local_strategy node) (GlobalRetireState.local_strategy abandoned) =
    Unit {0}

abbrev pub local_records : {R : Type 0} → LocalRetireState R → List R
local_records LocalRetireState.global_strategy = []
local_records (LocalRetireState.local_strategy node) = node.vec.items

abbrev pub global_records : {R : Type 0} → GlobalRetireState R → List R
global_records (GlobalRetireState.global_strategy queue) = queue
global_records (GlobalRetireState.local_strategy abandoned) = node_records abandoned

-- The records that have been retired: of the thread, of the global state, and in the log.
abbrev pub all_records : {R : Type 0} → State R → List R
all_records s = local_records s.local.state ++ (global_records s.global.retire_state ++ s.reclaimed)

abbrev pub IsFit : {R : Type 0} → State R → Type 0
IsFit s = IsMatched s.local.state s.global.retire_state

module _ {R : Type 0} where
  pub count_p-all_records :
      (p : R → Bool) (s : State R)
      → count_p p (all_records s)
        ≡ count_p p (local_records s.local.state)
          + count_p p (global_records s.global.retire_state)
          + count_p p s.reclaimed
  count_p-all_records p s = omega (
    arith,
    count_p-append p (local_records s.local.state)
        (global_records s.global.retire_state ++ s.reclaimed),
    count_p-append p (global_records s.global.retire_state) s.reclaimed,
  )

  -- As `retire_inner`, in the two states.
  retire_in-Matched :
      (l : LocalRetireState R) (g : GlobalRetireState R) (r : R)
      → IsMatched l g
      → Returns (retire_in l g r) (λ e.
        IsMatched e.0 e.1
        × ((p : R → Bool)
            → count_p p (local_records e.0) + count_p p (global_records e.1)
              ≡ count_p p (r ∷ []) + count_p p (local_records l) + count_p p (global_records g)))
  unfolding retire_in
  retire_in-Matched LocalRetireState.global_strategy (GlobalRetireState.global_strategy queue) r h =
      (tt, λ p. ground arith)
  retire_in-Matched LocalRetireState.global_strategy (GlobalRetireState.local_strategy a) r h =
      absurd h
  retire_in-Matched (LocalRetireState.local_strategy node) (GlobalRetireState.global_strategy q) r
        h =
      absurd h
  retire_in-Matched (LocalRetireState.local_strategy node) (GlobalRetireState.local_strategy a) r
        h =
      (tt, λ p. ground (arith, count_p-append p node.vec.items (r ∷ [])))

  -- The step from `s` to `t` has retired `r`, and reclaimed nothing.
  pub record Adds (s : State R) (r : R) (t : State R) : Type 0 where
    pub fit : IsFit t
    pub records : SameItems (all_records t) (r ∷ all_records s)
    pub log : t.reclaimed ≡ s.reclaimed

  retire_inner-Adds : (s : State R) (r : R) → IsFit s → Returns (retire_inner s r) (Adds s r)
  unfolding retire_inner
  retire_inner-Adds s r h =
      >>=-Returns _ _ (retire_in s.local.state s.global.retire_state r) _
        (retire_in-Matched s.local.state s.global.retire_state r h)
        (λ e k. record {
          fit = k.0;
          records = λ p. ground (
            arith,
            k.1 p,
            count_p-all_records p s,
            count_p-append p (local_records e.0) (global_records e.1 ++ s.reclaimed),
            count_p-append p (global_records e.1) s.reclaimed,
          );
          log = refl;
        })

  -- Retiring a record does not panic where the thread and the global state follow the same strategy.
  -- It adds exactly that record to those that the thread, the global state and the log hold
  -- together, and reclaims nothing, whatever the operations count has come to.
  pub retire-Adds : (s : State R) (r : R) → IsFit s → Returns (retire s r) (Adds s r)
  unfolding retire
  retire-Adds s r h =
      >>=-Returns (Adds s r) _ (retire_inner s r) _ (retire_inner-Adds s r h) (λ t a.
        elim (Bool-cases (is_count_retire t.local.config)) [
          | inl e ↦ rw e (record { fit = a.fit; records = a.records; log = a.log })
          | inr e ↦ rw e a
        ])

  pub adopt-SameItems :
      (node : RetireNode R) (o : Option (RetireNode R))
      → SameItems (adopt node o).vec.items (node.vec.items ++ taken_records o)
  unfolding adopt
  adopt-SameItems node none p = omega (arith, count_p-append p node.vec.items [])
  adopt-SameItems node (some taken) p = merge-SameItems node taken.vec p

  pub abandon-SameItems :
      (l : LocalRetireState R) (g : GlobalRetireState R)
      → IsMatched l g
      → Returns
          (abandon l g)
          (λ e. SameItems (global_records e) (local_records l ++ global_records g))
  unfolding abandon
  abandon-SameItems LocalRetireState.global_strategy g h = λ p. refl
  abandon-SameItems (LocalRetireState.local_strategy node) (GlobalRetireState.global_strategy queue)
        h =
      absurd h
  abandon-SameItems (LocalRetireState.local_strategy node) (GlobalRetireState.local_strategy a) h =
      elim (Bool-cases (node_is_empty node)) [
        | inl e ↦ rw e (λ p. ground (arith, e, count_p-append p node.vec.items (node_records a)))
        | inr e ↦ rw e (λ p. refl)
      ]
