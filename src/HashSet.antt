-- ===== src/HashSet.antt =====
-- examples/hash_set/main.rs: a hash set of buckets, which are ordered sets, that threads share.
-- What `BuildHasher` and `Hash` make of a value is a function into u64. A bucket is its memory with the
-- accesses that threads are about to make in it.
pub mod OrderedSet
pub mod Placed
pub mod Buckets
use hazptr.Prelude.{
  ℕ, ◌<◌, ◌%◌, ◌≡◌, Bool, Option, none, some, List, [], ◌∷◌, zero, suc, ◌==◌, if◌then◌else◌,
  get_elem?, set, Outcome, returns, panics, ◌>>=◌, ltb,
}
use hazptr.HashSet.OrderedSet.{Order, insert_node, remove_node}
use hazptr.HashSet.OrderedSet.Threads.{System, Action, run, begin, perform, Allowed, initial}

abbrev pub default_buckets : ℕ
default_buckets = 64

pub record RawHashSet (T : Type 0) : Type 0 where
  pub size : ℕ
  pub buckets : List (System T)
  pub hash_builder : T → ℕ

-- What a thread does with its handle: it makes a call, or goes on in the bucket of its call.
pub data Use (T : Type 0) : Type 0 where
  contains : (i : ℕ) (value : T) → Use T
  get : (i : ℕ) (value : T) → Use T
  insert : (i : ℕ) (node : ℕ) (value : T) → Use T
  remove : (i : ℕ) (value : T) → Use T
  proceed : (bucket i : ℕ) (changed : Bool) → Use T

module _ {T : Type 0} where
  -- `blank` is what is read from memory that no node uses.
  abbrev pub allocate_buckets : T → ℕ → List (System T)
  allocate_buckets blank zero = []
  allocate_buckets blank (suc n) = initial blank ∷ allocate_buckets blank n

  abbrev pub with_hasher : T → (T → ℕ) → RawHashSet T
  with_hasher blank hash_builder = record {
    size = default_buckets;
    buckets = allocate_buckets blank default_buckets;
    hash_builder = hash_builder;
  }

  unfoldable pub with_hasher_and_buckets : T → (T → ℕ) → ℕ → Outcome (RawHashSet T)
  with_hasher_and_buckets blank hash_builder buckets =
      if ltb 0 buckets
      then returns (record {
        size = buckets;
        buckets = allocate_buckets blank buckets;
        hash_builder = hash_builder;
      })
      else panics

  -- The remainder panics for 0.
  unfoldable pub make_hash : (T → ℕ) → T → ℕ → Outcome ℕ
  make_hash builder value buckets =
      if buckets == 0 then panics else returns (builder value % buckets)

  -- `self.buckets[k]`, with what the call does there.
  unfoldable pub in_bucket : RawHashSet T → (System T → System T) → ℕ → Outcome (RawHashSet T)
  in_bucket h f k = at (get_elem? h.buckets k)
    where
      at : Option (System T) → Outcome (RawHashSet T)
      at none = panics
      at (some s) = returns (record h { buckets = set h.buckets k (f s) })

  -- What a use does in the bucket that it finds.
  abbrev pub action_of : Use T → Action T
  action_of (contains i value) = begin i OrderedSet.get value
  action_of (get i value) = begin i OrderedSet.get value
  action_of (insert i node value) = begin i (insert_node node) value
  action_of (remove i value) = begin i remove_node value
  action_of (proceed bucket i changed) = run i changed

  unfoldable pub use_set : Order T → Use T → RawHashSet T → Outcome (RawHashSet T)
  unfolding make_hash in_bucket
  use_set o (contains i value) h =
      make_hash h.hash_builder value h.size
      >>= in_bucket h (perform o (begin i OrderedSet.get value))
  use_set o (get i value) h =
      make_hash h.hash_builder value h.size
      >>= in_bucket h (perform o (begin i OrderedSet.get value))
  use_set o (insert i node value) h =
      make_hash h.hash_builder value h.size
      >>= in_bucket h (perform o (begin i (insert_node node) value))
  use_set o (remove i value) h =
      make_hash h.hash_builder value h.size >>= in_bucket h (perform o (begin i remove_node value))
  use_set o (proceed bucket i changed) h = in_bucket h (perform o (run i changed)) bucket

  -- A thread makes one call at a time, and a new node has an address that no bucket uses.
  abbrev pub CanUse : Use T → RawHashSet T → Type 0
  CanUse (proceed bucket i changed) h = bucket < h.size
  CanUse (contains i value) h =
      (k : ℕ) (s : System T)
      → get_elem? h.buckets k ≡ some s
      → Allowed (begin i OrderedSet.get value) s
  CanUse (get i value) h =
      (k : ℕ) (s : System T)
      → get_elem? h.buckets k ≡ some s
      → Allowed (begin i OrderedSet.get value) s
  CanUse (insert i node value) h =
      (k : ℕ) (s : System T)
      → get_elem? h.buckets k ≡ some s
      → Allowed (begin i (insert_node node) value) s
  CanUse (remove i value) h =
      (k : ℕ) (s : System T)
      → get_elem? h.buckets k ≡ some s
      → Allowed (begin i remove_node value) s
