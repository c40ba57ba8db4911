-- ===== src/Prelude/Results.antt =====
-- How a Go call ends: with a value, or in a panic (a nil dereference, an index out of range, a call
-- of log.Panic). `out_of_fuel` belongs to the model alone: theorems show that it does not come out.
use mathlib.Core.Path.{◌≡◌, refl}
use mathlib.Core.Bool.{Bool, true, false}
use native.Mathlib.Omega.{arith}
use mathlib.Core.Option.{Option, none, some}
use mathlib.Core.List.{List, [], ◌∷◌}
use monosulfide.Prelude.Tests.{if◌then◌else◌}

pub data Outcome {ℓ} (A : Type ℓ) : Type ℓ where
  ok : A → Outcome A
  panic out_of_fuel : Outcome A

infixl 5 ◌>>=◌
abbrev pub ◌>>=◌ {ℓ κ} : {A : Type ℓ} {B : Type κ} → Outcome A → (A → Outcome B) → Outcome B
ok a >>= f = f a
panic >>= f = panic
out_of_fuel >>= f = out_of_fuel

-- A dereference: nil panics.
abbrev pub deref {ℓ} : {A : Type ℓ} → Option A → Outcome A
deref (some a) = ok a
deref none = panic

abbrev pub map_outcome {ℓ κ} : {A : Type ℓ} {B : Type κ} → (A → B) → Outcome A → Outcome B
map_outcome f o = o >>= λ a. ok (f a)

-- The call returns, with a value that satisfies `P`.
pub data Returns {ℓ κ} {A : Type ℓ} (P : A → Type κ) : Outcome A → Type (ℓ ⊔ κ) where
  returns : (a : A) → P a → Returns P (ok a)

module _ {ℓ κ} {A : Type ℓ} {P : A → Type κ} where
  pub Returns-bind {ℓ' κ'} :
      {B : Type ℓ'} {Q : B → Type κ'} {o : Outcome A} (f : A → Outcome B)
      → Returns P o
      → ((a : A) → P a → Returns Q (f a))
      → Returns Q (o >>= f)
  Returns-bind f (returns a p) next = next a p

  pub Returns-weaken {κ'} :
      {Q : A → Type κ'} {o : Outcome A} → Returns P o → ((a : A) → P a → Q a) → Returns Q o
  Returns-weaken (returns a p) weaken = returns a (weaken a p)

  pub Returns-value : {o : Outcome A} → Returns P o → (a : A) × (o ≡ ok a) × P a
  Returns-value (returns a p) = (a, refl, p)

  pub Returns-test :
      {x y : Outcome A} (b : Bool)
      → (b ≡ true → Returns P x)
      → (b ≡ false → Returns P y)
      → Returns P (if b then x else y)
  Returns-test true yes_case no_case = yes_case refl
  Returns-test false yes_case no_case = no_case refl

-- A value that the call returns satisfies `P`, where it returns; it may panic.
pub data Ensures {ℓ κ} {A : Type ℓ} (P : A → Type κ) : Outcome A → Type (ℓ ⊔ κ) where
  ensured : (a : A) → P a → Ensures P (ok a)
  panics : Ensures P panic
  runs_out : Ensures P out_of_fuel

module _ {ℓ κ} {B : Type ℓ} {Q : B → Type κ} where
  pub Ensures-bind {ℓ' κ'} :
      {A : Type ℓ'} {P : A → Type κ'} {o : Outcome A} (f : A → Outcome B)
      → Ensures P o
      → ((a : A) → P a → Ensures Q (f a))
      → Ensures Q (o >>= f)
  Ensures-bind f (ensured a p) next = next a p
  Ensures-bind f panics next = panics
  Ensures-bind f runs_out next = runs_out

  -- The same, with the equation of the value instead of a property.
  pub Ensures-step {ℓ'} :
      {A : Type ℓ'} (o : Outcome A) (f : A → Outcome B)
      → ((a : A) → o ≡ ok a → Ensures Q (f a))
      → Ensures Q (o >>= f)
  Ensures-step (ok a) f next = next a refl
  Ensures-step panic f next = panics
  Ensures-step out_of_fuel f next = runs_out

  pub Ensures-test :
      {x y : Outcome B} (b : Bool)
      → (b ≡ true → Ensures Q x)
      → (b ≡ false → Ensures Q y)
      → Ensures Q (if b then x else y)
  Ensures-test true yes_case no_case = yes_case refl
  Ensures-test false yes_case no_case = no_case refl

pub Ensures-value {ℓ κ} : {A : Type ℓ} {P : A → Type κ} {a : A} → Ensures P (ok a) → P a
Ensures-value (ensured a p) = p

pub Ensures-weaken {ℓ κ κ'} :
    {A : Type ℓ} {P : A → Type κ} {Q : A → Type κ'} {o : Outcome A}
    → Ensures P o
    → ((a : A) → P a → Q a)
    → Ensures Q o
Ensures-weaken (ensured a p) weaken = ensured a (weaken a p)
Ensures-weaken panics weaken = panics
Ensures-weaken runs_out weaken = runs_out

pub deref_ok {ℓ} : {A : Type ℓ} (o : Option A) (a : A) → deref o ≡ ok a → o ≡ some a
deref_ok none a h = ground arith
deref_ok (some b) a h = ground (arith, h)

-- The call returns with a value that satisfies `P`, or panics: it does not run out of fuel.
pub data Ends {ℓ κ} {A : Type ℓ} (P : A → Type κ) : Outcome A → Type (ℓ ⊔ κ) where
  ended : (a : A) → P a → Ends P (ok a)
  panicked : Ends P panic

module _ {ℓ κ} {B : Type ℓ} {Q : B → Type κ} where
  pub Ends-bind {ℓ' κ'} :
      {A : Type ℓ'} {P : A → Type κ'} {o : Outcome A} (f : A → Outcome B)
      → Ends P o
      → ((a : A) → P a → Ends Q (f a))
      → Ends Q (o >>= f)
  Ends-bind f (ended a p) next = next a p
  Ends-bind f panicked next = panicked

  pub Ends-test :
      {x y : Outcome B} (b : Bool)
      → (b ≡ true → Ends Q x)
      → (b ≡ false → Ends Q y)
      → Ends Q (if b then x else y)
  Ends-test true yes_case no_case = yes_case refl
  Ends-test false yes_case no_case = no_case refl

  -- A call that reads a pointer, which may be nil.
  pub Ends-deref {ℓ'} :
      {A : Type ℓ'} (o : Option A) (f : A → Outcome B)
      → ((a : A) → o ≡ some a → Ends Q (f a))
      → Ends Q (deref o >>= f)
  Ends-deref (some a) f next = next a refl
  Ends-deref none f next = panicked

pub Ends-weaken {ℓ κ κ'} :
    {A : Type ℓ} {P : A → Type κ} {Q : A → Type κ'} {o : Outcome A}
    → Ends P o
    → ((a : A) → P a → Q a)
    → Ends Q o
Ends-weaken (ended a p) weaken = ended a (weaken a p)
Ends-weaken panicked weaken = panicked

-- The value of the first call of a chain that returns.
pub bind_ok {ℓ κ} :
    {A : Type ℓ} {B : Type κ} (o : Outcome A) (f : A → Outcome B) (b : B)
    → (o >>= f) ≡ ok b
    → (a : A) × (o ≡ ok a) × (f a ≡ ok b)
bind_ok (ok a) f b e = (a, refl, e)
bind_ok panic f b e = ground (arith, e)
bind_ok out_of_fuel f b e = ground (arith, e)

-- The call ends.
abbrev pub Stops {ℓ} : {A : Type ℓ} → Outcome A → Type ℓ
Stops o = Ends (λ a. o ≡ ok a) o

pub Ends-Stops {ℓ κ} : {A : Type ℓ} {P : A → Type κ} {o : Outcome A} → Ends P o → Stops o
Ends-Stops (ended a p) = ended a refl
Ends-Stops panicked = panicked

module _ {ℓ κ ℓ'} {B : Type ℓ} {Q : B → Type κ} {A : Type ℓ'} where
  pub Ends-option :
      (o : Option A) (x : Outcome B) (f : A → Outcome B)
      → (o ≡ none → Ends Q x)
      → ((a : A) → o ≡ some a → Ends Q (f a))
      → Ends Q (elim o [ none ↦ x | some a ↦ f a ])
  Ends-option none x f none_case some_case = none_case refl
  Ends-option (some a) x f none_case some_case = some_case a refl

pub Ends-Ensures {ℓ κ} : {A : Type ℓ} {P : A → Type κ} {o : Outcome A} → Ends P o → Ensures P o
Ends-Ensures (ended a p) = ensured a p
Ends-Ensures panicked = panics

module _ {ℓ κ ℓ'} {B : Type ℓ} {Q : B → Type κ} {A : Type ℓ'} where
  pub Ensures-option :
      (o : Option A) (x : Outcome B) (f : A → Outcome B)
      → (o ≡ none → Ensures Q x)
      → ((a : A) → o ≡ some a → Ensures Q (f a))
      → Ensures Q (elim o [ none ↦ x | some a ↦ f a ])
  Ensures-option none x f none_case some_case = none_case refl
  Ensures-option (some a) x f none_case some_case = some_case a refl

pub Ensures-deref {ℓ} : {A : Type ℓ} (o : Option A) → Ensures (λ a. o ≡ some a) (deref o)
Ensures-deref none = panics
Ensures-deref (some a) = ensured a refl

module _ {ℓ κ ℓ'} {B : Type ℓ} {Q : B → Type κ} {A : Type ℓ'} where
  pub Returns-list :
      (xs : List A) (x : Outcome B) (f : A → List A → Outcome B)
      → (xs ≡ [] → Returns Q x)
      → ((a : A) (rest : List A) → xs ≡ a ∷ rest → Returns Q (f a rest))
      → Returns Q (elim xs [ [] ↦ x | a ∷ rest ↦ f a rest ])
  Returns-list [] x f empty filled = empty refl
  Returns-list (a ∷ rest) x f empty filled = filled a rest refl

-- The call returns or panics.
abbrev pub Halts {ℓ} : {A : Type ℓ} → Outcome A → Type ℓ
Halts o = Ends (λ a. Unit {0}) o

module _ {ℓ κ} {A : Type ℓ} {B : Type κ} where
  pub Halts-bind :
      (o : Outcome A) (f : A → Outcome B) → Halts o → ((a : A) → Halts (f a)) → Halts (o >>= f)
  Halts-bind o f (ended a p) next = next a
  Halts-bind o f panicked next = panicked

  pub Halts-deref :
      (o : Option A) (f : A → Outcome B) → ((a : A) → Halts (f a)) → Halts (deref o >>= f)
  Halts-deref none f next = panicked
  Halts-deref (some a) f next = next a

pub Halts-ok {ℓ} : {A : Type ℓ} (a : A) → Halts (ok a)
Halts-ok a = ended a tt

pub Halts-if {ℓ} :
    {A : Type ℓ} (b : Bool) (x y : Outcome A) → Halts x → Halts y → Halts (if b then x else y)
Halts-if true x y p q = p
Halts-if false x y p q = q

pub Returns-Ends {ℓ κ} : {A : Type ℓ} {P : A → Type κ} {o : Outcome A} → Returns P o → Ends P o
Returns-Ends (returns a p) = ended a p
