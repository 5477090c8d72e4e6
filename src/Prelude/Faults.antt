-- ===== src/Prelude/Faults.antt =====
-- What a call comes to: a value, or the fault that ends it. The asserts of the sources are kept, so
-- this is the build without NDEBUG.
use mathlib.Core.Bool.{Bool, true, false}
use mathlib.Core.Path.{◌≡◌, ap}
use lux_polaris.Prelude.Tests.{if◌then◌else◌}

-- `length_error` is what std::vector throws, `out_of_bounds` a copy outside an array's storage, and
-- `fatal_log` a message of level FATAL, behind which the logger aborts.
pub data Fault : Type 0 where
  assertion_failed length_error out_of_bounds null_pointer fatal_log : Fault

pub data Outcome {ℓ} (A : Type ℓ) : Type ℓ where
  ok : A → Outcome A
  fault : Fault → Outcome A

infixl 5 ◌>>=◌ ◌>>◌
abbrev pub ◌>>=◌ {ℓ κ} : {A : Type ℓ} {B : Type κ} → Outcome A → (A → Outcome B) → Outcome B
ok a >>= f = f a
fault e >>= f = fault e

abbrev pub ◌>>◌ {ℓ} : {B : Type ℓ} → Outcome (Unit {0}) → Outcome B → Outcome B
m >> k = m >>= λ _. k

-- `assert(b)`
abbrev pub assert : Bool → Outcome (Unit {0})
assert true = ok tt
assert false = fault assertion_failed

-- A call that returns gives a value with the property.
abbrev pub Holds {ℓ κ} : {A : Type ℓ} → (A → Type κ) → Outcome A → Type κ
Holds P (ok a) = P a
Holds P (fault f) = Unit

pub >>=-Holds {ℓ κ μ} :
    {A : Type ℓ} {B : Type κ} (P : B → Type μ) (o : Outcome A) (k : A → Outcome B)
    → ((a : A) → Holds P (k a))
    → Holds P (o >>= k)
>>=-Holds P (ok a) k h = h a
>>=-Holds P (fault f) k h = tt

pub if-Holds {ℓ κ} :
    {A : Type ℓ} (P : A → Type κ) (b : Bool) (x y : Outcome A)
    → Holds P x
    → Holds P y
    → Holds P (if b then x else y)
if-Holds P true x y h k = h
if-Holds P false x y h k = k

pub ok_injective {ℓ} : {A : Type ℓ} {a b : A} → ok a ≡ ok b → a ≡ b
ok_injective {a = a} e = ap (λ o. elim o [ ok x ↦ x | fault f ↦ a ]) e
