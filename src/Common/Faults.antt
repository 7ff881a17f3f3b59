-- ===== src/Common/Faults.antt =====
-- What a piece of the program ends in: a value, or a fault where the C++ has undefined behaviour.
use mathlib.Core.Path.{◌≡◌, refl}
use mathlib.Core.Option.{Option, none, some}

pub data Fault : Type 0 where
  stale_pointer : Fault
  index_out_of_range : Fault
  front_of_empty : Fault

pub data Outcome {ℓ} (A : Type ℓ) : Type ℓ where
  ok : A → Outcome A
  fault : Fault → Outcome A

infixl 5 ◌>>=◌
abbrev pub ◌>>=◌ {ℓ κ} : {A : Type ℓ} {B : Type κ} → Outcome A → (A → Outcome B) → Outcome B
ok a >>= f = f a
fault e >>= f = fault e

abbrev pub or_fault {ℓ} : {A : Type ℓ} → Option A → Fault → Outcome A
or_fault none e = fault e
or_fault (some a) e = ok a

-- A chain that ends in a value had a value after its first step.
pub >>=-eq-ok {ℓ κ} :
    {A : Type ℓ} {B : Type κ} (first : Outcome A) (next : A → Outcome B) {end : B}
    → first >>= next ≡ ok end
    → (mid : A) × (first ≡ ok mid) × (next mid ≡ ok end)
>>=-eq-ok (ok mid) next run = (mid, refl, run)
>>=-eq-ok (fault cause) next run = cc

-- A property of the value, if there is one.
abbrev pub IfOk {ℓ κ} : {A : Type ℓ} → (A → Type κ) → Outcome A → Type κ
IfOk P (ok a) = P a
IfOk P (fault e) = Unit

pub IfOk->>= {ℓ κ μ ν} :
    {A : Type ℓ} {B : Type κ} (P : A → Type μ) (Q : B → Type ν) (o : Outcome A) (f : A → Outcome B)
    → IfOk P o
    → ((a : A) → P a → IfOk Q (f a))
    → IfOk Q (o >>= f)
IfOk->>= P Q (ok a) f h k = k a h
IfOk->>= P Q (fault e) f h k = tt

pub IfOk-map {ℓ κ μ} :
    {A : Type ℓ} (P : A → Type κ) (Q : A → Type μ) (o : Outcome A)
    → IfOk P o
    → ((a : A) → P a → Q a)
    → IfOk Q o
IfOk-map P Q (ok a) h k = k a h
IfOk-map P Q (fault e) h k = tt

pub IfOk-then {ℓ κ μ} :
    {A : Type ℓ} {B : Type κ} (Q : B → Type μ) (o : Outcome A) (f : A → Outcome B)
    → ((a : A) → IfOk Q (f a))
    → IfOk Q (o >>= f)
IfOk-then Q (ok a) f k = k a
IfOk-then Q (fault e) f k = tt

pub IfOk-or_fault {ℓ κ μ} :
    {A : Type ℓ} {B : Type κ} (Q : B → Type μ) (o : Option A) (e : Fault) (f : A → Outcome B)
    → ((a : A) → o ≡ some a → IfOk Q (f a))
    → IfOk Q (or_fault o e >>= f)
IfOk-or_fault Q none e f k = tt
IfOk-or_fault Q (some a) e f k = k a refl

pub IfOk-both {ℓ κ μ} :
    {A : Type ℓ} (P : A → Type κ) (Q : A → Type μ) (o : Outcome A)
    → IfOk P o
    → IfOk Q o
    → IfOk (λ a. P a × Q a) o
IfOk-both P Q (ok a) h k = (h, k)
IfOk-both P Q (fault e) h k = tt

-- There is a value, and it has the property.
abbrev pub Runs {ℓ} : {A : Type ℓ} → (A → Type 0) → Outcome A → Type 0
Runs P (ok a) = P a
Runs P (fault e) = ⊥

pub Runs->>= {ℓ κ} :
    {A : Type ℓ} {B : Type κ} (P : A → Type 0) (Q : B → Type 0) (o : Outcome A) (f : A → Outcome B)
    → Runs P o
    → ((a : A) → P a → Runs Q (f a))
    → Runs Q (o >>= f)
Runs->>= P Q (ok a) f h k = k a h
Runs->>= P Q (fault e) f h k = absurd h

pub Runs-map {ℓ} :
    {A : Type ℓ} (P : A → Type 0) (Q : A → Type 0) (o : Outcome A)
    → Runs P o
    → ((a : A) → P a → Q a)
    → Runs Q o
Runs-map P Q (ok a) h k = k a h
Runs-map P Q (fault e) h k = absurd h
