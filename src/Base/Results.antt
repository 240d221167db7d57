-- ===== src/Base/Results.antt =====
-- The result of a call: it returns, it is still waiting at the end of the schedule that it was
-- given, or it ran into undefined behaviour (a store outside an array).
use mathlib.Core.Path.{refl}
use mathlib.Core.Logic.{◌≢◌}

pub data Outcome {ℓ} (A : Type ℓ) : Type ℓ where
  returns : A → Outcome A
  blocks : Outcome A
  undefined : Outcome A

infixl 5 ◌>>=◌
abbrev pub ◌>>=◌ {ℓ κ} : {A : Type ℓ} {B : Type κ} → Outcome A → (A → Outcome B) → Outcome B
returns a >>= f = f a
blocks >>= f = blocks
undefined >>= f = undefined

-- A returned value has the property; a call that does not return claims nothing.
abbrev pub Holds {ℓ κ} : {A : Type ℓ} → (A → Type κ) → Outcome A → Type κ
Holds P (returns a) = P a
Holds P blocks = Unit
Holds P undefined = Unit

-- A family of properties, each of which holds of the result, holds of it as a whole.
pub Holds-all {ℓ κ ι} :
    {A : Type ℓ} {I : Type ι} (P : I → A → Type κ) (o : Outcome A)
    → ((i : I) → Holds (P i) o)
    → Holds (λ a. (i : I) → P i a) o
Holds-all P (returns a) h = h
Holds-all P blocks h = tt
Holds-all P undefined h = tt

-- A consequence of a property holds of every result that has it.
pub Holds-map {ℓ κ ι} :
    {A : Type ℓ} (P : A → Type κ) (Q : A → Type ι)
    → ((a : A) → P a → Q a)
    → (o : Outcome A) → Holds P o
    → Holds Q o
Holds-map P Q k (returns a) h = k a h
Holds-map P Q k blocks h = tt
Holds-map P Q k undefined h = tt

-- The call returns, and its value has the property.
abbrev pub Returns {ℓ} : {A : Type ℓ} → (A → Type 0) → Outcome A → Type 0
Returns P (returns a) = P a
Returns P blocks = ⊥
Returns P undefined = ⊥

pub Returns->>= {ℓ κ} :
    {A : Type ℓ} {B : Type κ} (P : A → Type 0) (Q : B → Type 0) (k : A → Outcome B)
    → ((a : A) → P a → Returns Q (k a))
    → (o : Outcome A) → Returns P o
    → Returns Q (o >>= k)
Returns->>= P Q k h (returns a) p = h a p
Returns->>= P Q k h blocks p = absurd p
Returns->>= P Q k h undefined p = absurd p

pub Holds->>= {ℓ κ ι ν} :
    {A : Type ℓ} {B : Type κ} (P : A → Type ι) (Q : B → Type ν) (k : A → Outcome B)
    → ((a : A) → P a → Holds Q (k a))
    → (o : Outcome A) → Holds P o
    → Holds Q (o >>= k)
Holds->>= P Q k h (returns a) p = h a p
Holds->>= P Q k h blocks p = tt
Holds->>= P Q k h undefined p = tt

-- What holds of a continuation's results holds of the whole.
pub Holds-bind {ℓ κ ν} :
    {A : Type ℓ} {B : Type κ} (Q : B → Type ν) (k : A → Outcome B)
    → ((a : A) → Holds Q (k a))
    → (o : Outcome A) → Holds Q (o >>= k)
Holds-bind Q k h (returns a) = h a
Holds-bind Q k h blocks = tt
Holds-bind Q k h undefined = tt

pub Holds→Returns {ℓ} :
    {A : Type ℓ} (P : A → Type 0) (o : Outcome A)
    → o ≢ blocks
    → o ≢ undefined
    → Holds P o
    → Returns P o
Holds→Returns P (returns a) n m h = h
Holds→Returns P blocks n m h = n refl
Holds→Returns P undefined n m h = m refl
