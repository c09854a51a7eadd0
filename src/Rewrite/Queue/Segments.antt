-- ===== src/Rewrite/Queue/Segments.antt =====
-- The nodes of a queue in memory, and what a push puts before them: hazptr_rewrite/src/queue.rs.
use hazptr.Prelude.{update, ℕ, ◌≡◌, ◌≢◌, refl, sym, true, false, List, [], ◌∷◌, ◌++◌, arith, elem}
use hazptr.Std.Linked.{IsList}
use hazptr.Std.Linked.{IsDistinct}
use hazptr.Rewrite.Queue.Threads.{first, last, IsPath}

-- The nodes of a path come before the list behind its last node.
pub IsList-path :
    (next : ℕ → ℕ) (p : ℕ) (nodes l : List ℕ)
    → nodes ≢ []
    → next p ≡ first nodes
    → IsPath next nodes
    → elem 0 nodes ≡ false
    → IsList next (last nodes) l
    → IsList next p (nodes ++ l)
IsList-path next p [] l ne e path nz h = absurd (ne refl)
IsList-path next p (a ∷ []) l ne e path nz h = (e, ground (arith, nz), h)
IsList-path next p (a ∷ b ∷ k) l ne e (f, path) nz h =
    (e, ground (arith, nz), IsList-path next a (b ∷ k) l (λ z. cc) f path (ground (arith, nz)) h)

-- A write to the last node, or outside, keeps the path.
pub IsPath-kept :
    (next : ℕ → ℕ) (x n : ℕ) (nodes : List ℕ)
    → elem x nodes ≡ false
    → IsPath next nodes
    → IsPath (update next x n) nodes
IsPath-kept next x n [] out path = tt
IsPath-kept next x n (a ∷ []) out path = tt
IsPath-kept next x n (a ∷ b ∷ l) out (e, path) =
    (ground (arith, out, e), IsPath-kept next x n (b ∷ l) (ground (arith, out)) path)

pub elem-last : (nodes : List ℕ) → nodes ≢ [] → elem (last nodes) nodes ≡ true
elem-last [] ne = absurd (ne refl)
elem-last (a ∷ []) ne = ground arith
elem-last (a ∷ b ∷ l) ne = ground (arith, elem-last (b ∷ l) (λ z. cc))

pub IsPath-last :
    (next : ℕ → ℕ) (n : ℕ) (nodes : List ℕ)
    → IsDistinct nodes
    → IsPath next nodes
    → IsPath (update next (last nodes) n) nodes
IsPath-last next n [] d path = tt
IsPath-last next n (a ∷ []) d path = tt
IsPath-last next n (a ∷ b ∷ l) (out, d) (e, path) =
    (ground (arith, out, e, elem-last (b ∷ l) (λ z. cc)), IsPath-last next n (b ∷ l) d path)

-- A list from its first node on.
pub IsList-first : (next : ℕ → ℕ) (p : ℕ) (l : List ℕ) → IsList next p l → first l ≡ next p
IsList-first next p [] e = sym e
IsList-first next p (a ∷ l) (e, nz, h) = sym e

-- The list is a path whose last node leads nowhere.
pub IsList-IsPath :
    (next : ℕ → ℕ) (p : ℕ) (l : List ℕ)
    → IsList next p l
    → IsPath next l × (l ≢ [] → next (last l) ≡ 0)
IsList-IsPath next p [] e = (tt, λ ne. absurd (ne refl))
IsList-IsPath next p (a ∷ []) (e, nz, h) = (tt, λ ne. h)
IsList-IsPath next p (a ∷ b ∷ l) (e, nz, (f, nz', h)) =
    let r = IsList-IsPath next a (b ∷ l) (f, nz', h) in ((f, r.0), λ ne. r.1 (λ z. cc))
