-- ===== src/Protocol/Reclaim.antt =====
-- The program's and the reclaiming threads' steps keep the invariant.
use hazptr.Prelude.{
  update, ℕ, ◌+◌, ◌<◌, ◌≡◌, ◌≢◌, inl, inr, refl, sym, ap, subst, ◌∙◌, true, none, some, List, [],
  ◌==◌, arith, length, get_elem?, elem, Bool-cases, Option-cases, lt-length_of_get_elem?,
  length-le_of_get_elem?,
}
use hazptr.Hazard.{Hazard, get_protected}
use hazptr.Global.Collect.{IsAddress}
use hazptr.Local.Cache.{word, word_at}
use hazptr.Protocol.{
  Status, unused, live, in_bag, holding, Phase, running, scanning, System, Step, guard, allocate,
  write_null, write, retire, adopt, abandon, scan_begin, scan_read, scan_end, collected, reclaimed,
  left_behind, adopted,
}
use hazptr.Protocol.Invariant.{Knows, Inv, guard-Inv}

module _ (s : System) (inv : Inv s) where
  allocate-Inv :
      (p : ℕ)
      → IsAddress p
      → s.status p ≡ unused
      → Inv (record s { status = update s.status p live })
  allocate-Inv p a new = record {
    linked = λ c ne. ground (arith, inv.linked c, new);
    valid = λ q h. ground (arith, inv.valid q, a, h);
    knows = inv.knows;
    apart = inv.apart;
    held = λ g i q e u. ground (arith, inv.held g i q e, u);
    seen = λ g i q t k cache e f b lt. inv.seen g i q t k cache e f (ground (arith, b)) lt;
  }

  write-Inv :
      (c p : ℕ) → (p ≢ 0 → s.status p ≡ live) → Inv (record s { cells = update s.cells c p })
  write-Inv c p l = record {
    linked = λ d ne. ground (arith, inv.linked d, l, ne);
    valid = inv.valid;
    knows = inv.knows;
    apart = inv.apart;
    held = inv.held;
    seen = inv.seen;
  }

  retire-Inv :
      (t p : ℕ)
      → s.phase t ≡ running
      → s.status p ≡ live
      → ((c : ℕ) → s.cells c ≢ p)
      → Inv (record s { status = update s.status p (in_bag t) })
  retire-Inv t p run l out = record {
    linked = λ c ne. ground (arith, inv.linked c ne, out c);
    valid = λ q h. ground (arith, inv.valid q, h, l);
    knows = inv.knows;
    apart = inv.apart;
    held = λ g i q e u. ground (arith, inv.held g i q e, u);
    seen = λ g i q u k cache e f b lt. ground (arith, inv.seen g i q u k cache e f, b, lt, run, f);
  }

  -- A change of what has become of the records, and of where the threads stand.
  remap-Inv :
      (status' : ℕ → Status) (phase' : ℕ → Phase)
      → ((q : ℕ) → s.status q ≡ live → status' q ≡ live)
      → ((q : ℕ) → s.status q ≡ unused → status' q ≡ unused)
      → ((g i q : ℕ) → s.pc g ≡ holding i q → status' q ≢ unused)
      → ((g i q t k : ℕ) (cache : List ℕ)
          → s.pc g ≡ holding i q
          → phase' t ≡ scanning k cache
          → status' q ≡ in_bag t
          → i < k
          → elem q cache ≡ true)
      → Inv (record s { status = status'; phase = phase' })
  remap-Inv status' phase' alive dead kept passed = record {
    linked = λ c ne. alive (s.cells c) (inv.linked c ne);
    valid = λ q h. inv.valid q (λ u. h (dead q u));
    knows = inv.knows;
    apart = inv.apart;
    held = kept;
    seen = passed;
  }

  adopt-Inv :
      (t : ℕ) → s.phase t ≡ running → Inv (record s { status = λ p. adopted t (s.status p) })
  adopt-Inv t run =
      remap-Inv (λ p. adopted t (s.status p)) s.phase (λ q e. ground (arith, e))
        (λ q e. ground (arith, e)) (λ g i q e u. ground (arith, u, inv.held g i q e))
        (λ g i q u k cache e f b lt. ground (arith, inv.seen g i q u k cache e f, b, lt, run, f))

  abandon-Inv :
      (t : ℕ) → s.phase t ≡ running → Inv (record s { status = λ p. left_behind t (s.status p) })
  abandon-Inv t run =
      remap-Inv (λ p. left_behind t (s.status p)) s.phase (λ q e. ground (arith, e))
        (λ q e. ground (arith, e)) (λ g i q e u. ground (arith, u, inv.held g i q e))
        (λ g i q u k cache e f b lt. ground (arith, inv.seen g i q u k cache e f, b, lt, run, f))

  scan_begin-Inv : (t : ℕ) → Inv (record s { phase = update s.phase t (scanning 0 []) })
  scan_begin-Inv t =
      remap-Inv s.status _ (λ q e. e) (λ q e. e) inv.held
        (λ g i q u k cache e f b lt. ground (arith, inv.seen g i q u k cache e, b, lt, f))

  holding-word : (g i q : ℕ) → s.pc g ≡ holding i q → (word_at s.hazards i ≡ q) × IsAddress q
  holding-word g i q e = subst (Knows s.hazards) e (inv.knows g)

  -- The hazard of a guard that holds a record lies in the list.
  holding-lt : (g i q : ℕ) → s.pc g ≡ holding i q → i < length s.hazards
  holding-lt g i q e = elim (Option-cases (get_elem? s.hazards i)) [
    | inl missing ↦ absurd (ground (arith, missing, holding-word g i q e))
    | inr (h, there) ↦ lt-length_of_get_elem? s.hazards i h there
  ]

  -- A scan that has read the guard's hazard has collected its record.
  read-elem :
      (t k : ℕ) (cache : List ℕ) (h : Hazard) (g i q : ℕ)
      → s.phase t ≡ scanning k cache
      → get_elem? s.hazards k ≡ some h
      → s.pc g ≡ holding i q
      → s.status q ≡ in_bag t
      → i < k + 1
      → elem q (collected cache (get_protected h)) ≡ true
  read-elem t k cache h g i q at read e b lt = elim (Bool-cases (i == k)) [
    | inl now ↦
        let same : i ≡ k = ground (arith, now) in
        let w : word_at s.hazards i ≡ h.protected =
          ap (λ j. word_at s.hazards j) same ∙ ap word read in
        ground (arith, w, holding-word g i q e)
    | inr before ↦ ground (arith, before, inv.seen g i q t k cache e at b)
  ]

  scan_read-Inv :
      (t k : ℕ) (cache : List ℕ) (h : Hazard)
      → s.phase t ≡ scanning k cache
      → get_elem? s.hazards k ≡ some h
      → Inv (record s {
        phase = update s.phase t (scanning (k + 1) (collected cache (get_protected h)));
      })
  scan_read-Inv t k cache h at read =
      remap-Inv s.status _ (λ q e. e) (λ q e. e) inv.held
        (λ g i q u n c e f b lt. elim (Bool-cases (t == u)) [
          | inl mine ↦
              let same : t ≡ u = ground (arith, mine) in
              let f' : scanning (k + 1) (collected cache (get_protected h)) ≡ scanning n c =
                rw mine at f in
              ground (
                arith,
                f',
                read-elem t k cache h g i q at read e (b ∙ ap (λ v. in_bag v) (sym same)),
              )
          | inr other ↦ inv.seen g i q u n c e (rw other at f) b lt
        ])

  scan_end-Inv :
      (t k : ℕ) (cache : List ℕ)
      → s.phase t ≡ scanning k cache
      → get_elem? s.hazards k ≡ none
      → Inv (record s {
        status = λ p. reclaimed t cache p (s.status p);
        phase = update s.phase t running;
      })
  scan_end-Inv t k cache at read =
      remap-Inv _ _ (λ q e. ground (arith, e)) (λ q e. ground (arith, e))
        (λ g i q e u. ground (
          arith,
          u,
          inv.held g i q e,
          inv.seen g i q t k cache e at,
          holding-lt g i q e,
          length-le_of_get_elem? s.hazards k read,
        ))
        (λ g i q u n c e f b lt. ground (arith, inv.seen g i q u n c e, b, lt, f))

-- Every step of the system keeps the invariant.
pub Step-Inv : {s t : System} → Step s t → Inv s → Inv t
Step-Inv {s} (guard g m) inv = guard-Inv s inv g m
Step-Inv {s} (allocate p a new) inv = allocate-Inv s inv p a new
Step-Inv {s} (write_null c) inv = write-Inv s inv c 0 (λ ne. absurd (ne refl))
Step-Inv {s} (write c p l) inv = write-Inv s inv c p (λ _. l)
Step-Inv {s} (retire t p run l out) inv = retire-Inv s inv t p run l out
Step-Inv {s} (adopt t run) inv = adopt-Inv s inv t run
Step-Inv {s} (abandon t run) inv = abandon-Inv s inv t run
Step-Inv {s} (scan_begin t run) inv = scan_begin-Inv s inv t
Step-Inv {s} (scan_read t k {cache} {h} at read) inv = scan_read-Inv s inv t k cache h at read
Step-Inv {s} (scan_end t k {cache} at read) inv = scan_end-Inv s inv t k cache at read
