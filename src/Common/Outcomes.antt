-- ===== src/Common/Outcomes.antt =====
-- How a call ends: with a value, in a fault, or with the model's fuel used up.
use mathlib.Core.Path.{◌≡◌, refl}
use mathlib.Core.Bool.{Bool, true, false}
use mathlib.Core.Option.{Option, none, some}

pub data Fault : Type 0 where
  assertion_failed : Fault
  undefined_behaviour : Fault

pub data Outcome {ℓ} (A : Type ℓ) : Type ℓ where
  done : A → Outcome A
  fault : Fault → Outcome A
  out_of_fuel : Outcome A

infixl 5 ◌>>=◌ ◌>>◌
abbrev pub ◌>>=◌ {ℓ κ} : {A : Type ℓ} {B : Type κ} → Outcome A → (A → Outcome B) → Outcome B
done a >>= f = f a
fault e >>= f = fault e
out_of_fuel >>= f = out_of_fuel

abbrev pub ◌>>◌ {ℓ} : {B : Type ℓ} → Outcome (Unit {0}) → Outcome B → Outcome B
m >> k = m >>= λ _. k

-- `assert(c)`; the build files define no NDEBUG.
abbrev pub assert : Bool → Outcome (Unit {0})
assert true = done tt
assert false = fault assertion_failed

module _ {ℓ} {A : Type ℓ} where
  -- What a pointer or an iterator refers to; to follow one past the end is undefined.
  abbrev pub deref : Option A → Outcome A
  deref none = fault undefined_behaviour
  deref (some a) = done a

  -- The call returns, and what it returns has the property.
  abbrev pub Returns : Outcome A → (A → Type 0) → Type 0
  Returns (done a) P = P a
  Returns (fault e) P = ⊥
  Returns out_of_fuel P = ⊥

  pub Returns-mono :
      {P : A → Type 0} (Q : A → Type 0) (m : Outcome A)
      → Returns m P
      → ((a : A) → P a → Q a)
      → Returns m Q
  Returns-mono Q (done a) r f = f a r
  Returns-mono Q (fault e) r f = r
  Returns-mono Q out_of_fuel r f = r

module _ {ℓ κ} {A : Type ℓ} {B : Type κ} where
  pub Returns->>= :
      {P : A → Type 0} (Q : B → Type 0) (m : Outcome A) (f : A → Outcome B)
      → Returns m P
      → ((a : A) → P a → Returns (f a) Q)
      → Returns (m >>= f) Q
  Returns->>= Q (done a) f r k = k a r
  Returns->>= Q (fault e) f r k = absurd r
  Returns->>= Q out_of_fuel f r k = absurd r

pub >>=_assoc {ℓ κ μ} :
    {A : Type ℓ} {B : Type κ} {C : Type μ} (m : Outcome A) (f : A → Outcome B) (g : B → Outcome C)
    → ((m >>= f) >>= g) ≡ (m >>= λ a. f a >>= g)
>>=_assoc (done a) f g = refl
>>=_assoc (fault e) f g = refl
>>=_assoc out_of_fuel f g = refl

-- If the call returns, what it returns has the property.
abbrev pub Whenever : {A : Type 0} → Outcome A → (A → Type 0) → Type 0
Whenever (done a) P = P a
Whenever (fault e) P = Unit
Whenever out_of_fuel P = Unit

pub Whenever->>= :
    {A B : Type 0} {P : A → Type 0} (Q : B → Type 0) (m : Outcome A) (f : A → Outcome B)
    → Whenever m P
    → ((a : A) → P a → Whenever (f a) Q)
    → Whenever (m >>= f) Q
Whenever->>= Q (done a) f h k = k a h
Whenever->>= Q (fault e) f h k = tt
Whenever->>= Q out_of_fuel f h k = tt

Whenever-any : {A : Type 0} (m : Outcome A) → Whenever m (λ a. Unit)
Whenever-any (done a) = tt
Whenever-any (fault e) = tt
Whenever-any out_of_fuel = tt

pub Whenever-mono :
    {A : Type 0} {P : A → Type 0} (Q : A → Type 0) (m : Outcome A)
    → Whenever m P
    → ((a : A) → P a → Q a)
    → Whenever m Q
Whenever-mono Q (done a) h k = k a h
Whenever-mono Q (fault e) h k = tt
Whenever-mono Q out_of_fuel h k = tt

-- What holds of all results of what comes last holds of all results.
pub Whenever-last :
    {A B : Type 0} (Q : B → Type 0) (m : Outcome A) (f : A → Outcome B)
    → ((a : A) → Whenever (f a) Q)
    → Whenever (m >>= f) Q
Whenever-last Q m f k = Whenever->>= {P = λ a. Unit} Q m f (Whenever-any m) (λ a t. k a)

-- A call that returns, and whose results all have the second property.
pub Returns-Whenever :
    {A : Type 0} (P Q : A → Type 0) (m : Outcome A)
    → Returns m P
    → Whenever m Q
    → Returns m (λ a. P a × Q a)
Returns-Whenever P Q (done a) r h = (r, h)
Returns-Whenever P Q (fault e) r h = r
Returns-Whenever P Q out_of_fuel r h = r
