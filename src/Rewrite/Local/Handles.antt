-- ===== src/Rewrite/Local/Handles.antt =====
-- hazptr_rewrite/src/local/mod.rs: the handles of a thread's `Local`, of which some own it together. A
-- handle that is borrowed or raw may be used only while the `Local` lives; the model panics otherwise.
pub mod Owners
use hazptr.Prelude.{
  ℕ, suc, ◌+◌, ◌-◌, ◌<◌, ◌≡◌, List, [], ◌∷◌, ◌++◌, ◌==◌, if◌then◌else◌, Outcome, returns, panics,
  ◌>>=◌,
}
use hazptr.Rewrite.Config.{Config, Operation}
use hazptr.Rewrite.Local
use hazptr.Rewrite.Local.{Global, State}

pub data Ref : Type 0 where
  rc : Ref
  reference : Ref
  raw : Ref

-- The `Local` with the strong count of its `Rc`, or what is left once it has been dropped.
pub data SharedLocal (R : Type 0) : Type 0 where
  alive : (strong : ℕ) (inner : State R) → SharedLocal R
  gone : Global R → (reclaimed : List R) → SharedLocal R

-- What a thread does with a handle.
pub data Use (R : Type 0) : Type 0 where
  clone : Ref → Use R
  drop : Ref → Use R
  retire : Ref → R → Use R
  try_increase_ops_count : Operation → Use R

module _ {R : Type 0} where
  -- `LocalHandle::new`
  unfoldable pub new : Config → Global R → List R → SharedLocal R
  new config global reclaimed =
      let r = hazptr.Rewrite.Local.new config global in
      alive 1 (record { local = r.0; global = r.1; reclaimed = reclaimed })

  -- `Ref::clone`
  unfoldable pub clone_handle : Ref → SharedLocal R → Outcome (SharedLocal R)
  clone_handle rc (alive strong s) = returns (alive (suc strong) s)
  clone_handle rc (gone g log) = panics
  clone_handle reference local = returns local
  clone_handle raw local = returns local

module _ {R : Type 0} (address : R → ℕ) where
  -- The end of a handle; the last one that owns the `Local` drops it.
  unfoldable pub drop_handle : Ref → SharedLocal R → Outcome (SharedLocal R)
  drop_handle rc (alive strong s) =
      let last = hazptr.Rewrite.Local.drop address s >>= λ e. returns (gone e.0 e.1) in
      if strong == 1 then last else returns (alive (strong - 1) s)
  drop_handle rc (gone g log) = panics
  drop_handle reference local = returns local
  drop_handle raw local = returns local

  -- `ReclaimRef::retire`, which consumes the handle.
  unfoldable pub retire_by : Ref → R → SharedLocal R → Outcome (SharedLocal R)
  retire_by handle r (alive strong s) =
      hazptr.Rewrite.Local.retire s r >>= λ t. drop_handle handle (alive strong t)
  retire_by handle r (gone g log) = panics

  -- `Local::try_increase_ops_count`
  unfoldable pub count : Operation → SharedLocal R → Outcome (SharedLocal R)
  count op (alive strong s) =
      hazptr.Rewrite.Local.try_increase_ops_count address s op >>= λ t. returns (alive strong t)
  count op (gone g log) = panics

  unfoldable pub use_handle : Use R → SharedLocal R → Outcome (SharedLocal R)
  use_handle (clone handle) local = clone_handle handle local
  use_handle (drop handle) local = drop_handle handle local
  use_handle (retire handle r) local = retire_by handle r local
  use_handle (try_increase_ops_count op) local = count op local

  unfoldable pub use_all : List (Use R) → SharedLocal R → Outcome (SharedLocal R)
  use_all [] local = returns local
  use_all (u ∷ us) local = use_handle u local >>= λ l. use_all us l
