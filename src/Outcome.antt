-- ===== src/Outcome.antt =====
-- What a call of the C++ code comes to: a value, an exception, or behaviour that C++ leaves undefined.
use cs.Prelude.{Option, none, some, ◌≡◌, refl}

pub data Outcome {ℓ} (A : Type ℓ) : Type ℓ where
  returned : A → Outcome A
  thrown : Outcome A
  undefined : Outcome A

infixl 5 ◌>>=◌
abbrev pub ◌>>=◌ {ℓ ℓ'} : {A : Type ℓ} {B : Type ℓ'} → Outcome A → (A → Outcome B) → Outcome B
◌>>=◌ (returned a) f = f a
◌>>=◌ thrown f = thrown
◌>>=◌ undefined f = undefined

pub then_assoc {ℓ ℓ' ℓ''} :
    {A : Type ℓ} {B : Type ℓ'} {C : Type ℓ''} (m : Outcome A) (f : A → Outcome B)
    (g : B → Outcome C)
    → ((m >>= f) >>= g) ≡ (m >>= (λ a. f a >>= g))
then_assoc (returned a) f g = refl
then_assoc thrown f g = refl
then_assoc undefined f g = refl

pub then_eq {ℓ ℓ'} :
    {A : Type ℓ} {B : Type ℓ'} (m : Outcome A) (f g : A → Outcome B)
    → ((a : A) → f a ≡ g a)
    → (m >>= f) ≡ (m >>= g)
then_eq (returned a) f g h = h a
then_eq thrown f g h = refl
then_eq undefined f g h = refl

-- A call whose `none` is an exception.
abbrev pub of_option {ℓ} : {A : Type ℓ} → Option A → Outcome A
of_option none = thrown
of_option (some a) = returned a

-- What holds of the value, if there is one.
abbrev pub Holds {ℓ} : {A : Type ℓ} → (A → Type 0) → Outcome A → Type 0
Holds P (returned a) = P a
Holds P thrown = Unit {0}
Holds P undefined = Unit {0}

pub Holds-then {ℓ ℓ'} :
    {A : Type ℓ} {B : Type ℓ'} (P : A → Type 0) (Q : B → Type 0) (m : Outcome A) (f : A → Outcome B)
    → Holds P m
    → ((a : A) → P a → Holds Q (f a))
    → Holds Q (m >>= f)
Holds-then P Q (returned a) f p k = k a p
Holds-then P Q thrown f p k = tt
Holds-then P Q undefined f p k = tt

pub Holds-of_option {ℓ ℓ'} :
    {A : Type ℓ} {B : Type ℓ'} (Q : B → Type 0) (o : Option A) (f : A → Outcome B)
    → ((a : A) → Holds Q (f a))
    → Holds Q (of_option o >>= f)
Holds-of_option Q none f k = tt
Holds-of_option Q (some a) f k = k a

-- There is a value, and this holds of it.
abbrev pub Returns {ℓ} : {A : Type ℓ} → (A → Type 0) → Outcome A → Type 0
Returns P (returned a) = P a
Returns P thrown = ⊥
Returns P undefined = ⊥

pub Returns-then {ℓ ℓ'} :
    {A : Type ℓ} {B : Type ℓ'} (P : A → Type 0) (Q : B → Type 0) (m : Outcome A) (f : A → Outcome B)
    → Returns P m
    → ((a : A) → P a → Returns Q (f a))
    → Returns Q (m >>= f)
Returns-then P Q (returned a) f p k = k a p
Returns-then P Q thrown f p k = absurd p
Returns-then P Q undefined f p k = absurd p

pub Returns-weaken {ℓ} :
    {A : Type ℓ} (P Q : A → Type 0) (m : Outcome A)
    → ((a : A) → P a → Q a)
    → Returns P m
    → Returns Q m
Returns-weaken P Q (returned a) f p = f a p
Returns-weaken P Q thrown f p = p
Returns-weaken P Q undefined f p = p

pub Returns-value {ℓ} :
    {A : Type ℓ} (P : A → Type 0) (m : Outcome A) → Returns P m → (a : A) × (m ≡ returned a) × P a
Returns-value P (returned a) p = (a, refl, p)
Returns-value P thrown p = absurd p
Returns-value P undefined p = absurd p

-- The call comes to a value, of which this holds, or to an exception: nothing is undefined.
abbrev pub Ends {ℓ} : {A : Type ℓ} → (A → Type 0) → Outcome A → Type 0
Ends P (returned a) = P a
Ends P thrown = Unit {0}
Ends P undefined = ⊥

pub Ends-then {ℓ ℓ'} :
    {A : Type ℓ} {B : Type ℓ'} (P : A → Type 0) (Q : B → Type 0) (m : Outcome A) (f : A → Outcome B)
    → Ends P m
    → ((a : A) → P a → Ends Q (f a))
    → Ends Q (m >>= f)
Ends-then P Q (returned a) f p k = k a p
Ends-then P Q thrown f p k = tt
Ends-then P Q undefined f p k = absurd p

pub Ends-weaken {ℓ} :
    {A : Type ℓ} (P Q : A → Type 0) (m : Outcome A) → ((a : A) → P a → Q a) → Ends P m → Ends Q m
Ends-weaken P Q (returned a) f p = f a p
Ends-weaken P Q thrown f p = tt
Ends-weaken P Q undefined f p = p

pub Holds-weaken {ℓ} :
    {A : Type ℓ} (P Q : A → Type 0) (m : Outcome A) → ((a : A) → P a → Q a) → Holds P m → Holds Q m
Holds-weaken P Q (returned a) f p = f a p
Holds-weaken P Q thrown f p = tt
Holds-weaken P Q undefined f p = tt

pub Returns-Holds {ℓ} :
    {A : Type ℓ} (P Q : A → Type 0) (m : Outcome A)
    → Returns P m
    → Holds Q m
    → Returns (λ a. P a × Q a) m
Returns-Holds P Q (returned a) p q = (p, q)
Returns-Holds P Q thrown p q = p
Returns-Holds P Q undefined p q = p
