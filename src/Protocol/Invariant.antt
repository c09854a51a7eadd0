-- ===== src/Protocol/Invariant.antt =====
-- What holds of guards and their hazards in every state, and how a guard's accesses keep it.
use hazptr.Prelude.{
  update, ℕ, ◌<◌, ◌≡◌, ◌≢◌, ◌⊎◌, inl, inr, refl, sym, ap, subst, ◌∙◌, true, Option, none, some,
  List, ◌==◌, arith, if◌then◌else◌, modify, elem, Bool-cases, ==_refl,
}
use hazptr.Hazard.{Hazard, free, set_free, set_thread_reserved}
use hazptr.Hazard.HazardList.{HazardList}
use hazptr.Global.Collect.{IsAddress}
use hazptr.Local.Cache.{word, word_at, word_at-modify}
use hazptr.Protocol.{
  unused, live, in_bag, Pc, absent, idle, publish, check, holding, scanning, GuardMove, acquire,
  load, load_again, store, confirm, changed, was_null, release, drop, System,
}

abbrev pub uses : Pc → Option ℕ
uses absent = none
uses (idle i) = some i
uses (publish i c p) = some i
uses (check i c p) = some i
uses (holding i p) = some i

-- What a guard knows of its hazard.
abbrev pub Knows : HazardList → Pc → Type 0
Knows hs absent = Unit {0}
Knows hs (idle i) = word_at hs i ≢ free
Knows hs (publish i c p) = (word_at hs i ≢ free) × IsAddress p
Knows hs (check i c p) = (word_at hs i ≡ p) × IsAddress p
Knows hs (holding i p) = (word_at hs i ≡ p) × IsAddress p

pub record Inv (s : System) : Type 0 where
  pub linked : (c : ℕ) → s.cells c ≢ 0 → s.status (s.cells c) ≡ live
  pub valid : (p : ℕ) → s.status p ≢ unused → IsAddress p
  pub knows : (g : ℕ) → Knows s.hazards (s.pc g)
  pub apart : (g h i : ℕ) → uses (s.pc g) ≡ some i → uses (s.pc h) ≡ some i → g ≡ h
  pub held : (g i p : ℕ) → s.pc g ≡ holding i p → s.status p ≢ unused
  pub seen :
      (g i p t k : ℕ) (cache : List ℕ)
      → s.pc g ≡ holding i p
      → s.phase t ≡ scanning k cache
      → s.status p ≡ in_bag t
      → i < k
      → elem p cache ≡ true

Knows-ne : (hs : HazardList) (p : Pc) (i : ℕ) → Knows hs p → uses p ≡ some i → word_at hs i ≢ free
Knows-ne hs absent i k e = absurd (ground (arith, e))
Knows-ne hs (idle j) i k e = ground (arith, k, e)
Knows-ne hs (publish j c p) i k e = ground (arith, k, e)
Knows-ne hs (check j c p) i k e = ground (arith, k, e)
Knows-ne hs (holding j p) i k e = ground (arith, k, e)

-- A guard's knowledge rests on the word of its own hazard only.
Knows-of_eq :
    (hs hs' : HazardList) (p : Pc)
    → ((i : ℕ) → uses p ≡ some i → word_at hs' i ≡ word_at hs i)
    → Knows hs p
    → Knows hs' p
Knows-of_eq hs hs' absent same k = tt
Knows-of_eq hs hs' (idle i) same k = rw (same i refl) k
Knows-of_eq hs hs' (publish i c p) same k = rw (same i refl) k
Knows-of_eq hs hs' (check i c p) same k = rw (same i refl) k
Knows-of_eq hs hs' (holding i p) same k = rw (same i refl) k

-- What one access of a guard may change.
record Effect (s : System) (p : Pc) (hs' : HazardList) (p' : Pc) : Type 0 where
  knows : Knows hs' p'
  claims : (i : ℕ) → uses p' ≡ some i → (uses p ≡ some i) ⊎ (word_at s.hazards i ≡ free)
  others : (i : ℕ) → uses p ≢ some i → uses p' ≢ some i → word_at hs' i ≡ word_at s.hazards i
  linked : (i q : ℕ) → p' ≡ holding i q → s.status q ≡ live

module _ (s : System) (inv : Inv s) where
  status-live : (c p : ℕ) → s.cells c ≡ p → p ≢ 0 → s.status p ≡ live
  status-live c p e ne = subst (λ q. s.status q ≡ live) e (inv.linked c (λ z. ne (sym e ∙ z)))

  loaded-IsAddress : (c p : ℕ) → s.cells c ≡ p → p ≢ 0 → IsAddress p
  loaded-IsAddress c p e ne = inv.valid p (λ u. cc (status-live c p e ne))

  -- A store to the hazard that the guard has.
  Effect-modify :
      (p p' : Pc) (i : ℕ) (f : Hazard → Hazard)
      → uses p ≡ some i
      → word_at s.hazards i ≢ free
      → ((w : ℕ)
          → word_at (modify s.hazards i f) i ≡ (f (record { protected = w })).protected
          → Knows (modify s.hazards i f) p')
      → ((j : ℕ) → uses p' ≡ some j → i ≡ j)
      → ((j q : ℕ) → p' ≢ holding j q)
      → Effect s p (modify s.hazards i f) p'
  Effect-modify p p' i f u ne knows own not_holding = record {
    knows = knows (word_at s.hazards i) (now i ∙ rw (==_refl i));
    claims = λ j v. inl (u ∙ ap (λ k. some k) (own j v));
    others = λ j v w. now j ∙ ground (arith, v, u);
    linked = λ j q e. absurd (not_holding j q e);
  }
    where
      now :
          (j : ℕ)
          → word_at (modify s.hazards i f) j ≡ (
              if i == j
              then word (some (f (record { protected = word_at s.hazards i })))
              else word_at s.hazards j)
      now j = word_at-modify s.hazards f i j ne

  GuardMove-Effect :
      {p p' : Pc} {hs' : HazardList}
      → GuardMove s.cells s.hazards p hs' p'
      → Knows s.hazards p
      → Effect s p hs' p'
  GuardMove-Effect (acquire {i} c) k = record {
    knows = λ e. ground (arith, c.now, e);
    claims = λ j u. inr (ground (arith, c.was, u));
    others = λ j u v. c.others j (λ e. v (ap (λ n. some n) (sym e)));
    linked = λ j q e. absurd (cc);
  }
  GuardMove-Effect (load {i} {c} {p} e ne) k = record {
    knows = (k, loaded-IsAddress c p e ne);
    claims = λ j u. inl u;
    others = λ j u v. refl;
    linked = λ j q h. absurd (cc);
  }
  GuardMove-Effect (load_again {i} {c} {p} {q} e ne) k = record {
    knows = (λ z. k.1.0 (sym k.0 ∙ z), loaded-IsAddress c p e ne);
    claims = λ j u. inl u;
    others = λ j u v. refl;
    linked = λ j r h. absurd (cc);
  }
  GuardMove-Effect (store {i} {c} {p}) k =
      Effect-modify (publish i c p) (check i c p) i _ refl k.0 (λ w e. (e, k.1))
        (λ j u. ground (arith, u)) (λ j q e. cc)
  GuardMove-Effect (confirm {i} {c} {p} e) k = record {
    knows = k;
    claims = λ j u. inl u;
    others = λ j u v. refl;
    linked = λ j q h. subst (λ r. s.status r ≡ live) (ground (arith, h)) (status-live c p e k.1.0);
  }
  GuardMove-Effect (changed {i} {c} {p} {q} e ne nq) k = record {
    knows = (λ z. k.1.0 (sym k.0 ∙ z), loaded-IsAddress c q e ne);
    claims = λ j u. inl u;
    others = λ j u v. refl;
    linked = λ j r h. absurd (cc);
  }
  GuardMove-Effect (was_null {i} {c} {p} e) k =
      Effect-modify (check i c p) (idle i) i set_thread_reserved refl (λ z. k.1.0 (sym k.0 ∙ z))
        (λ w e z. ground (arith, e, z)) (λ j u. ground (arith, u)) (λ j q e. cc)
  GuardMove-Effect (release {i} {p}) k =
      Effect-modify (holding i p) (idle i) i set_thread_reserved refl (λ z. k.1.0 (sym k.0 ∙ z))
        (λ w e z. ground (arith, e, z)) (λ j u. ground (arith, u)) (λ j q e. cc)
  GuardMove-Effect (drop {i}) k =
      Effect-modify (idle i) absent i set_free refl k (λ w e. tt) (λ j u. absurd (cc)) (λ j q e. cc)

  module _ (g : ℕ) {hs' : HazardList} {p' : Pc} (eff : Effect s (s.pc g) hs' p') where
    -- Another guard's hazard is neither the mover's old one nor its new one.
    foreign :
        (h i : ℕ) → h ≢ g → uses (s.pc h) ≡ some i → (uses (s.pc g) ≢ some i) × (uses p' ≢ some i)
    foreign h i ne u = (λ v. ne (inv.apart h g i u v), λ v. clash (eff.claims i v))
      where
        clash : (uses (s.pc g) ≡ some i) ⊎ (word_at s.hazards i ≡ free) → ⊥
        clash (inl v) = ne (inv.apart h g i u v)
        clash (inr w) = Knows-ne s.hazards (s.pc h) i (inv.knows h) u w

    knows' : (h : ℕ) → Knows hs' (update s.pc g p' h)
    knows' h = elim (Bool-cases (g == h)) [
      | inl mine ↦ rw mine eff.knows
      | inr other ↦ rw other (
          Knows-of_eq s.hazards hs' (s.pc h)
            (λ i u. let f = foreign h i (λ e. ground (arith, other, e)) u in eff.others i f.0 f.1)
            (inv.knows h))
    ]

    apart' :
        (h k i : ℕ)
        → uses (update s.pc g p' h) ≡ some i
        → uses (update s.pc g p' k) ≡ some i
        → h ≡ k
    apart' h k i u v = elim (Bool-cases (g == h)) [
      | inl a ↦ elim (Bool-cases (g == k)) [
        | inl b ↦ ground (arith, a, b)
        | inr b ↦ absurd ((foreign k i (λ e. ground (arith, b, e)) (rw b at v)).1 (rw a at u))
      ]
      | inr a ↦ elim (Bool-cases (g == k)) [
        | inl b ↦ absurd ((foreign h i (λ e. ground (arith, a, e)) (rw a at u)).1 (rw b at v))
        | inr b ↦ inv.apart h k i (rw a at u) (rw b at v)
      ]
    ]

    -- A guard that holds a record is one that held it before, or has found it in an atomic.
    holders :
        (h i p : ℕ)
        → update s.pc g p' h ≡ holding i p
        → (s.pc h ≡ holding i p) ⊎ (s.status p ≡ live)
    holders h i p e = elim (Bool-cases (g == h)) [
      | inl mine ↦ inr (eff.linked i p (rw mine at e))
      | inr other ↦ inl (rw other at e)
    ]

    moved-Inv : Inv (record s { hazards = hs'; pc = update s.pc g p' })
    moved-Inv = record {
      linked = inv.linked;
      valid = inv.valid;
      knows = knows';
      apart = apart';
      held = λ h i p e u. ground (arith, holders h i p e, inv.held h i p, u);
      seen = λ h i p t k cache e f b lt. elim (holders h i p e) [
        | inl old ↦ inv.seen h i p t k cache old f b lt
        | inr fresh ↦ absurd (cc)
      ];
    }

-- An access of a guard keeps the invariant.
pub guard-Inv :
    (s : System)
    → Inv s
    → (g : ℕ) {hs' : HazardList} {p' : Pc} → GuardMove s.cells s.hazards (s.pc g) hs' p'
    → Inv (record s { hazards = hs'; pc = update s.pc g p' })
guard-Inv s inv g m = moved-Inv s inv g (GuardMove-Effect s inv m (inv.knows g))
