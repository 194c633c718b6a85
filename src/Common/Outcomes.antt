-- ===== src/Common/Outcomes.antt =====
-- The result of code that may stop: at a failed `assert`, at undefined behaviour, or at a throw.
use mathlib.Core.Path.{◌≡◌, refl}
use mathlib.Core.Logic.{◌↔◌}
use mathlib.Core.Bool.{Bool, true, false}

pub data Outcome {ℓ} (A : Type ℓ) : Type ℓ where
  ok : A → Outcome A
  fault : Outcome A

infixl 5 ◌>>=◌
abbrev pub ◌>>=◌ {ℓ κ} : {A : Type ℓ} {B : Type κ} → Outcome A → (A → Outcome B) → Outcome B
ok a >>= f = f a
fault >>= f = fault

-- In sequence, where the first gives no value.
infixl 5 ◌>>◌
abbrev pub ◌>>◌ {ℓ} : {B : Type ℓ} → Outcome (Unit {0}) → Outcome B → Outcome B
m >> k = m >>= λ _. k

-- `assert(test)`, with assertions compiled in.
abbrev pub assert : Bool → Outcome (Unit {0})
assert true = ok tt
assert false = fault

-- What holds of the value, if there is one.
abbrev pub Ensures {ℓ κ} : {A : Type ℓ} → (A → Type κ) → Outcome A → Type κ
Ensures P (ok a) = P a
Ensures P fault = Unit

-- There is a value, and `P` holds of it.
abbrev pub Returns {ℓ} : {A : Type ℓ} → (A → Type 0) → Outcome A → Type 0
Returns P (ok a) = P a
Returns P fault = ⊥

-- A bind keeps a postcondition that its two parts keep.
pub Ensures-bind {ℓ κ} :
    {A : Type ℓ} {B : Type κ} (P : A → Type 0) (Q : B → Type 0) (m : Outcome A) (f : A → Outcome B)
    → Ensures P m
    → ((a : A) → P a → Ensures Q (f a))
    → Ensures Q (m >>= f)
Ensures-bind P Q (ok a) f h k = k a h
Ensures-bind P Q fault f h k = tt

pub Returns-bind {ℓ κ} :
    {A : Type ℓ} {B : Type κ} (P : A → Type 0) (Q : B → Type 0) (m : Outcome A) (f : A → Outcome B)
    → Returns P m
    → ((a : A) → P a → Returns Q (f a))
    → Returns Q (m >>= f)
Returns-bind P Q (ok a) f h k = k a h
Returns-bind P Q fault f h k = absurd h

-- A postcondition, read at a value that was returned.
pub Ensures-at {ℓ} :
    {A : Type ℓ} (P : A → Type 0) {m : Outcome A} {a : A} → Ensures P m → m ≡ ok a → P a
Ensures-at P {m} {a} h e = rw e at h

pub Returns-value {ℓ} :
    {A : Type ℓ} (P : A → Type 0) (m : Outcome A) → Returns P m → (a : A) × (m ≡ ok a) × P a
Returns-value P (ok a) h = (a, refl, h)
Returns-value P fault h = absurd h

pub Ensures-of_Returns {ℓ} :
    {A : Type ℓ} (P : A → Type 0) (m : Outcome A) → Returns P m → Ensures P m
Ensures-of_Returns P (ok a) h = h
Ensures-of_Returns P fault h = absurd h

pub Returns-mono {ℓ} :
    {A : Type ℓ} (P Q : A → Type 0) (m : Outcome A)
    → ((a : A) → P a → Q a)
    → Returns P m
    → Returns Q m
Returns-mono P Q (ok a) k h = k a h
Returns-mono P Q fault k h = absurd h

-- A bind whose second part always returns stops exactly where its first part does.
pub bind-ok-fault {ℓ κ} :
    {A : Type ℓ} {B : Type κ} (m : Outcome A) (f : A → B)
    → ((m >>= λ a. ok (f a)) ≡ fault) ↔ (m ≡ fault)
bind-ok-fault (ok a) f = ((λ h. cc), (λ h. cc))
bind-ok-fault fault f = ((λ _. refl), (λ _. refl))

pub Ensures-any {ℓ} : {A : Type ℓ} (m : Outcome A) → Ensures (λ _. Unit {0}) m
Ensures-any (ok a) = tt
Ensures-any fault = tt

pub Ensures-mono {ℓ} :
    {A : Type ℓ} (P Q : A → Type 0) (m : Outcome A)
    → ((a : A) → P a → Q a)
    → Ensures P m
    → Ensures Q m
Ensures-mono P Q (ok a) k h = k a h
Ensures-mono P Q fault k h = tt

-- A postcondition of code that is known to return.
pub Returns-of_Ensures {ℓ} :
    {A : Type ℓ} (P : A → Type 0) (m : Outcome A)
    → Returns (λ _. Unit {0}) m
    → Ensures P m
    → Returns P m
Returns-of_Ensures P (ok a) r h = h
Returns-of_Ensures P fault r h = absurd r
