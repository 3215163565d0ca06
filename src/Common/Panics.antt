-- ===== src/Common/Panics.antt =====
-- The result of code that may panic. The kernel is built with the `dev` profile (the Makefile's
-- default), so an arithmetic overflow panics like an index out of bounds.
use mathlib.Core.Path.{◌≡◌, refl, ap, ◌∙◌}
use mathlib.Core.Logic.{◌⊎◌, ◌≢◌, inl, inr}
use mathlib.Core.Option.{Option, none, some}
use mathlib.Core.Bool.{Bool, true, false}

-- Why a computation did not return. Two of these are no panics of the program: at `bad_pointer` a
-- raw pointer has left the memory that it was made for, and at `stuck` a loop of the model ran out
-- of fuel.
pub data Fault : Type 0 where
  overflow out_of_bounds unwrap_failed assert_failed explicit_panic bad_pointer stuck : Fault

pub data Outcome {ℓ} (A : Type ℓ) : Type ℓ where
  ok : A → Outcome A
  panic : Fault → Outcome A

infixl 5 ◌>>=◌ ◌>>◌
abbrev pub ◌>>=◌ {ℓ κ} : {A : Type ℓ} {B : Type κ} → Outcome A → (A → Outcome B) → Outcome B
ok a >>= f = f a
panic e >>= f = panic e

abbrev pub ◌>>◌ {ℓ} : {B : Type ℓ} → Outcome (Unit {0}) → Outcome B → Outcome B
m >> k = m >>= λ _. k

-- `Option::unwrap`
abbrev pub unwrap {ℓ} : {A : Type ℓ} → Option A → Outcome A
unwrap none = panic unwrap_failed
unwrap (some a) = ok a

-- An index into a slice.
abbrev pub in_bounds {ℓ} : {A : Type ℓ} → Option A → Outcome A
in_bounds none = panic out_of_bounds
in_bounds (some a) = ok a

-- `assert!`
abbrev pub assert : Bool → Outcome (Unit {0})
assert true = ok tt
assert false = panic assert_failed

pub Option-cases {ℓ} : {A : Type ℓ} (o : Option A) → (o ≡ none) ⊎ ((a : A) × (o ≡ some a))
Option-cases none = inl refl
Option-cases (some a) = inr (a, refl)

-- A computation that returns what `P` holds of, or panics. That the loops of the model had fuel
-- enough is part of it.
abbrev pub Settles {ℓ} : {A : Type ℓ} → (A → Type 0) → Outcome A → Type 0
Settles P (ok a) = P a
Settles P (panic stuck) = ⊥
Settles P (panic _) = Unit {0}

pub Settles-bind {ℓ κ} :
    {A : Type ℓ} {B : Type κ} (P : A → Type 0) (Q : B → Type 0) (m : Outcome A) (f : A → Outcome B)
    → Settles P m
    → ((a : A) → P a → Settles Q (f a))
    → Settles Q (m >>= f)
Settles-bind P Q (ok a) f h g = g a h
Settles-bind P Q (panic overflow) f h g = tt
Settles-bind P Q (panic out_of_bounds) f h g = tt
Settles-bind P Q (panic unwrap_failed) f h g = tt
Settles-bind P Q (panic assert_failed) f h g = tt
Settles-bind P Q (panic explicit_panic) f h g = tt
Settles-bind P Q (panic bad_pointer) f h g = tt
Settles-bind P Q (panic stuck) f h g = absurd h

abbrev pub Ends {ℓ} : {A : Type ℓ} → Outcome A → Type 0
Ends m = Settles (λ _. Unit {0}) m

pub Ends-bind {ℓ κ} :
    {A : Type ℓ} {B : Type κ} (m : Outcome A) (f : A → Outcome B)
    → Ends m
    → ((a : A) → Ends (f a))
    → Ends (m >>= f)
Ends-bind m f h g = Settles-bind (λ _. Unit {0}) (λ _. Unit {0}) m f h (λ a _. g a)

pub Ends-unwrap {ℓ} : {A : Type ℓ} (o : Option A) → Ends (unwrap o)
Ends-unwrap none = tt
Ends-unwrap (some a) = tt

pub Ends-in_bounds {ℓ} : {A : Type ℓ} (o : Option A) → Ends (in_bounds o)
Ends-in_bounds none = tt
Ends-in_bounds (some a) = tt

pub ne_stuck_of_Ends {ℓ} : {A : Type ℓ} (m : Outcome A) → Ends m → m ≢ panic stuck
ne_stuck_of_Ends m h e = rw e at h

-- A computation that does not return.
abbrev pub DoesPanic {ℓ} : {A : Type ℓ} → Outcome A → Type 0
DoesPanic (ok a) = ⊥
DoesPanic (panic e) = Unit {0}

pub DoesPanic-bind {ℓ κ} :
    {A : Type ℓ} {B : Type κ} (m : Outcome A) (f : A → Outcome B)
    → ((a : A) → m ≡ ok a → DoesPanic (f a))
    → DoesPanic (m >>= f)
DoesPanic-bind (ok a) f h = h a refl
DoesPanic-bind (panic e) f h = tt

pub DoesPanic-bind-first {ℓ κ} :
    {A : Type ℓ} {B : Type κ} (m : Outcome A) (f : A → Outcome B)
    → DoesPanic m
    → DoesPanic (m >>= f)
DoesPanic-bind-first (ok a) f h = absurd h
DoesPanic-bind-first (panic e) f h = tt

-- What holds of the result of a computation that returns.
abbrev pub Whenever {ℓ} : {A : Type ℓ} → (A → Type 0) → Outcome A → Type 0
Whenever P (ok a) = P a
Whenever P (panic e) = Unit {0}

pub Whenever-bind {ℓ κ} :
    {A : Type ℓ} {B : Type κ} (Q : B → Type 0) (m : Outcome A) (f : A → Outcome B)
    → ((a : A) → m ≡ ok a → Whenever Q (f a))
    → Whenever Q (m >>= f)
Whenever-bind Q (ok a) f g = g a refl
Whenever-bind Q (panic e) f g = tt

pub Whenever-ok {ℓ} :
    {A : Type ℓ} (P : A → Type 0) (m : Outcome A) (a : A) → Whenever P m → m ≡ ok a → P a
Whenever-ok P m a h e = rw e at h

pub Whenever-mono {ℓ} :
    {A : Type ℓ} (P Q : A → Type 0) (m : Outcome A)
    → ((a : A) → P a → Q a)
    → Whenever P m
    → Whenever Q m
Whenever-mono P Q (ok a) f h = f a h
Whenever-mono P Q (panic e) f h = tt

abbrev pub returns {ℓ} : {A : Type ℓ} → Outcome A → Bool
returns (ok a) = true
returns (panic e) = false

-- The value of a computation that returns.
abbrev pub returned {ℓ} : {A : Type ℓ} (m : Outcome A) → returns m ≡ true → (a : A) × (m ≡ ok a)
returned (ok a) h = (a, refl)
returned (panic e) h = cc h

-- What a `do` block does when its first step returns.
pub bind-ok {ℓ κ} :
    {A : Type ℓ} {B : Type κ} {m : Outcome A} (f : A → Outcome B) (a : A)
    → m ≡ ok a
    → (b : B) × (f a ≡ ok b)
    → (b : B) × ((m >>= f) ≡ ok b)
bind-ok f a e (b, r) = (b, ap (λ k. k >>= f) e ∙ r)

-- A computation that returns, and what holds of its result.
abbrev pub Returns {ℓ} : {A : Type ℓ} → (A → Type 0) → Outcome A → Type 0
Returns P (ok a) = P a
Returns P (panic e) = ⊥

pub Returns-bind {ℓ κ} :
    {A : Type ℓ} {B : Type κ} (P : A → Type 0) (Q : B → Type 0) (m : Outcome A) (f : A → Outcome B)
    → Returns P m
    → ((a : A) → m ≡ ok a → P a → Returns Q (f a))
    → Returns Q (m >>= f)
Returns-bind P Q (ok a) f h g = g a refl h
Returns-bind P Q (panic e) f h g = absurd h

pub Returns-mono {ℓ} :
    {A : Type ℓ} (P Q : A → Type 0) (m : Outcome A)
    → ((a : A) → P a → Q a)
    → Returns P m
    → Returns Q m
Returns-mono P Q (ok a) f h = f a h
Returns-mono P Q (panic e) f h = absurd h

pub Returns-ok {ℓ} :
    {A : Type ℓ} (P : A → Type 0) (m : Outcome A) → Returns P m → (a : A) × (m ≡ ok a) × P a
Returns-ok P (ok a) h = (a, refl, h)
Returns-ok P (panic e) h = absurd h

pub ok-Returns {ℓ} :
    {A : Type ℓ} (P : A → Type 0) (m : Outcome A) (a : A) → m ≡ ok a → P a → Returns P m
ok-Returns P m a e h = rw e h

pub Whenever-all {ℓ} :
    {A : Type ℓ} (P : A → Type 0) (m : Outcome A) → ((a : A) → P a) → Whenever P m
Whenever-all P (ok a) f = f a
Whenever-all P (panic e) f = tt
