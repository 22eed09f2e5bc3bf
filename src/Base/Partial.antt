-- ===== src/Base/Partial.antt =====
-- What a piece of C code does: it ends with a value, it returns early on input that it refuses or
-- ends the process, or
-- it does what C leaves undefined.
use mathlib.Core.Path.{◌≡◌, refl}
use mathlib.Core.Logic.{◌⊎◌, inl, inr}
use mathlib.Core.Bool.{Bool, true, false}
use mathlib.Core.Option.{Option, none, some}

pub data Outcome {ℓ} (A : Type ℓ) : Type ℓ where
  ok : A → Outcome A
  refused : Outcome A
  fault : Outcome A

infixl 5 ◌>>=◌ ◌>>◌
abbrev pub ◌>>=◌ {ℓ κ} :
    {Before : Type ℓ} {After : Type κ} → Outcome Before → (Before → Outcome After) → Outcome After
refused >>= rest = refused
fault >>= rest = fault
ok a >>= rest = rest a

abbrev pub ◌>>◌ {ℓ κ} :
    {Before : Type ℓ} {After : Type κ} → Outcome Before → Outcome After → Outcome After
step >> rest = step >>= λ _. rest

-- `if (!b) return m;`
abbrev pub check : Bool → Outcome (Unit {0})
check true = ok tt
check false = refused

-- What must hold for the code to be defined.
abbrev pub require : Bool → Outcome (Unit {0})
require true = ok tt
require false = fault

-- A pointer that is read: `none` is one that is NULL or was not set.
abbrev pub deref {ℓ} : {A : Type ℓ} → Option A → Outcome A
deref none = fault
deref (some a) = ok a

pub >>=-ok {ℓ} : {A : Type ℓ} (m : Outcome A) → (m >>= ok) ≡ m
>>=-ok (ok a) = refl
>>=-ok refused = refl
>>=-ok fault = refl

-- A chain of steps that ends well has a first step that ends well.
pub >>=-eq-ok {ℓ κ} :
    {Before : Type ℓ} {After : Type κ} (step : Outcome Before) (rest : Before → Outcome After)
    {result : After}
    → (step >>= rest) ≡ ok result
    → (a : Before) × (step ≡ ok a) × (rest a ≡ ok result)
>>=-eq-ok refused rest h = cc
>>=-eq-ok fault rest h = cc
>>=-eq-ok (ok a) rest h = (a, refl, h)

pub Outcome-cases {ℓ} :
    {A : Type ℓ} (o : Outcome A) → ((a : A) × (o ≡ ok a)) ⊎ ((o ≡ refused) ⊎ (o ≡ fault))
Outcome-cases (ok a) = inl (a, refl)
Outcome-cases refused = inr (inl refl)
Outcome-cases fault = inr (inr refl)

-- A chain whose first step is not refused, and that goes wrong behind it.
pub >>=-fault {ℓ κ} :
    {Before : Type ℓ} {After : Type κ} (step : Outcome Before) (rest : Before → Outcome After)
    → ¬ (step ≡ refused)
    → ((a : Before) → step ≡ ok a → rest a ≡ fault)
    → (step >>= rest) ≡ fault
>>=-fault (ok a) rest n k = k a refl
>>=-fault refused rest n k = absurd (n refl)
>>=-fault fault rest n k = refl

pub >>=-unrefused {ℓ κ} :
    {Before : Type ℓ} {After : Type κ} (step : Outcome Before) (rest : Before → Outcome After)
    → ¬ (step ≡ refused)
    → ((a : Before) → ¬ (rest a ≡ refused))
    → ¬ ((step >>= rest) ≡ refused)
>>=-unrefused (ok a) rest n k = k a
>>=-unrefused refused rest n k = absurd (n refl)
>>=-unrefused fault rest n k = λ e. cc
