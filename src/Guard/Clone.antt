-- ===== src/Guard/Clone.antt =====
-- What a cloned guard protects: src/guard.rs, `clone`, over the thread's own state.
use hazptr.Prelude.{ℕ, ◌≡◌, some, List, if◌then◌else◌, Returns, Returns-weaken, is_empty, arith}
use hazptr.Hazard.{thread_reserved}
use hazptr.Local.{State, get_hazard}
use hazptr.Local.Cache.{IsOwned, word_at, get_hazard-word}
use hazptr.Local.Access.{local_access}
use hazptr.Guard.{protected_at, clone}
use hazptr.Guard.Lifetime.{protected_at_word}

module _ {R : Type 0} (address : R → ℕ) (owned : List ℕ) where
  -- A clone of a guard that protects `p` protects `p` exactly if the thread's hazard cache is empty;
  -- with a hazard from the cache it is left reserved, and protects nothing.
  pub clone-word :
      (s : State R) (hazard p : ℕ)
      → IsOwned owned s
      → protected_at s.global.hazards hazard ≡ some p
      → Returns (clone (local_access address) s hazard) (λ r.
        word_at r.1.global.hazards r.0
        ≡ (if is_empty s.local.hazard_cache then p else thread_reserved))
  unfolding clone
  clone-word s hazard p o e =
      rw (e, clone)
        (Returns-weaken _ _ (get_hazard s (some p)) (λ r words. ground (arith, words r.0))
          (get_hazard-word owned s (some p) (protected_at_word s.global.hazards hazard p e).1 o))
