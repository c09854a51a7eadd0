-- ===== src/Rewrite/HazardList/Threads/Collected.antt =====
-- Why a scan of the rewrite's list of hazards may stop at the first one that has never been used, whatever
-- the threads do meanwhile: hazptr_rewrite/src/global.rs and hazptr_rewrite/src/hazard/list.rs.
use hazptr.Prelude.{ℕ, ◌≡◌, ◌⊎◌, inl, inr, refl, subst, true, elem}
use hazptr.Rewrite.HazardList.Collect.{IsAddress}
use hazptr.Rewrite.HazardList.Threads.{System, Action, perform, Allowed, Reached, acts}
use hazptr.Rewrite.HazardList.Threads.Apart.{Reached-Good, perform-Grows}
use hazptr.Rewrite.HazardList.Threads.Growing.{IsList-Leads, perform-Leads}
use hazptr.Rewrite.HazardList.Threads.Scan.{
  Iter, load_next, load_word, ended, Scan, Scanning, begins, others, scans,
}
use hazptr.Rewrite.HazardList.Threads.Ahead.{IterKnows, IsAhead, Looks, scan-Looks}

record Finds (i node idx word : ℕ) (s : System) (c : Scan) : Type 0 where
  reached : Reached s
  has : s.shared.has i node idx ≡ true
  here : s.shared.nodes.words node idx ≡ word
  knows : IterKnows s.shared c.iter
  found : (elem word c.protected ≡ true) ⊎ IsAhead s.shared node idx c.iter

-- An action of a thread leaves the scan what it knows and has still to look at.
others-IterKnows :
    (a : Action) (s : System) (iter : Iter)
    → Reached s
    → Allowed a s
    → IterKnows s.shared iter
    → IterKnows (perform a s).shared iter
others-IterKnows a s (load_next prev) r ok (inl z) = inl z
others-IterKnows a s (load_next prev) r ok (inr m) =
    inr ((perform-Grows a s (Reached-Good s r) ok).1.stays prev m)
others-IterKnows a s (load_word n x) r ok (m, lt) =
    ((perform-Grows a s (Reached-Good s r) ok).1.stays n m, lt)
others-IterKnows a s ended r ok k = tt

others-IsAhead :
    (a : Action) (s : System) (node idx : ℕ) (iter : Iter)
    → Reached s
    → Allowed a s
    → IterKnows s.shared iter
    → IsAhead s.shared node idx iter
    → IsAhead (perform a s).shared node idx iter
others-IsAhead a s node idx (load_next prev) r ok k w = perform-Leads a s r ok prev node k w
others-IsAhead a s node idx (load_word n x) r ok k (inl h) = inl h
others-IsAhead a s node idx (load_word n x) r ok k (inr w) =
    inr (perform-Leads a s r ok n node (inr k.0) w)
others-IsAhead a s node idx ended r ok k w = elim w [ ]

Scanning-Finds :
    (i node idx word : ℕ) (s : System) (c : Scan)
    → IsAddress word
    → Scanning i node idx word s c
    → Finds i node idx word s c
unfolding Looks
Scanning-Finds i node idx word s _ addr (begins _ r has here) =
    let inv = (Reached-Good s r).inv in
    record {
      reached = r;
      has = has;
      here = here;
      knows = inl refl;
      found = inr (
          IsList-Leads s.shared.nodes.next 0 node inv.chain inv.listed
            (inv.whole node (inv.busy i node idx has).0));
    }
Scanning-Finds i node idx word _ c addr (others a s _ w ok has here) =
    let f = Scanning-Finds i node idx word s c addr w in
    record {
      reached = acts a s f.reached ok;
      has = has;
      here = here;
      knows = others-IterKnows a s c.iter f.reached ok f.knows;
      found = elim f.found [
        | inl e ↦ inl e
        | inr h ↦ inr (others-IsAhead a s node idx c.iter f.reached ok f.knows h)
      ];
    }
Scanning-Finds i node idx word s _ addr (scans _ c w) =
    let f = Scanning-Finds i node idx word s c addr w in
    let l =
      scan-Looks i node idx word addr s f.reached f.has f.here c.iter c.protected
        (f.knows, f.found) in
    record { reached = f.reached; has = f.has; here = f.here; knows = l.0; found = l.1 }

-- A scan that has ended, at the end of the list or at a hazard that has never been used, has collected
-- every address that a thread has kept in one of its hazards since the scan began, whatever all
-- threads did between its accesses.
pub Scanning-Collects :
    (i node idx word : ℕ) (s : System) (c : Scan)
    → IsAddress word
    → Scanning i node idx word s c
    → c.iter ≡ ended
    → elem word c.protected ≡ true
Scanning-Collects i node idx word s c addr w e =
    let f = Scanning-Finds i node idx word s c addr w in
    elim f.found [
      | inl here ↦ here
      | inr ahead ↦ absurd (subst (IsAhead s.shared node idx) e ahead)
    ]
