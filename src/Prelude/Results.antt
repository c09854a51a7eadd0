-- ===== src/Prelude/Results.antt =====
-- Code that may panic: a failed assertion ends the run.
use mathlib.Core.Path.{◌≡◌}
use mathlib.Core.Logic.{◌≢◌}

pub data Outcome {ℓ} (A : Type ℓ) : Type ℓ where
  returns : A → Outcome A
  panics : Outcome A

infixl 5 ◌>>=◌ ◌>>◌
abbrev pub ◌>>=◌ {ℓ κ} : {A : Type ℓ} {B : Type κ} → Outcome A → (A → Outcome B) → Outcome B
returns a >>= f = f a
panics >>= f = panics

abbrev pub ◌>>◌ {ℓ} : {B : Type ℓ} → Outcome (Unit {0}) → Outcome B → Outcome B
m >> k = m >>= λ _. k

-- The run ends without a panic, in a value that satisfies `P`.
abbrev pub Returns {ℓ} : {A : Type ℓ} → Outcome A → (A → Type 0) → Type 0
Returns (returns a) P = P a
Returns panics P = ⊥

pub >>=-Returns {ℓ κ} :
    {A : Type ℓ} {B : Type κ} (P : A → Type 0) (Q : B → Type 0) (m : Outcome A) (f : A → Outcome B)
    → Returns m P
    → ((a : A) → P a → Returns (f a) Q)
    → Returns (m >>= f) Q
>>=-Returns P Q (returns a) f h k = k a h
>>=-Returns P Q panics f h k = absurd h

-- `Result<T, E>`
pub data Result {ℓ κ} (E : Type ℓ) (A : Type κ) : Type (ℓ ⊔ κ) where
  ok : A → Result E A
  err : E → Result E A

pub Returns-weaken {ℓ} :
    {A : Type ℓ} (P Q : A → Type 0) (m : Outcome A)
    → ((a : A) → P a → Q a)
    → Returns m P
    → Returns m Q
Returns-weaken P Q (returns a) h r = h a r
Returns-weaken P Q panics h r = r

pub Returns-both {ℓ} :
    {A : Type ℓ} (P Q : A → Type 0) (m : Outcome A)
    → Returns m P
    → Returns m Q
    → Returns m (λ a. P a × Q a)
Returns-both P Q (returns a) p q = (p, q)
Returns-both P Q panics p q = absurd p

module _ {ℓ κ} {E : Type ℓ} {A : Type κ} where
  pub ok_injective : {a b : A} → ◌≡◌ {A = Result E A} (ok a) (ok b) → a ≡ b
  ok_injective e = cc

  pub err_ne_ok : {x : E} {a : A} → ◌≢◌ {A = Result E A} (err x) (ok a)
  err_ne_ok e = cc
