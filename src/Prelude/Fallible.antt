-- ===== src/Prelude/Fallible.antt =====
-- A Go pair `(value, error)`, for code that reads the value only where the error is nil.
use mathlib.Core.Path.{◌≡◌, refl}
use mathlib.Core.Bool.{Bool, true, false}
use mathlib.Core.Option.{Option, none, some}
use mathlib.Core.Logic.{◌⊎◌, inl, inr}

pub data Result {ℓ κ} (E : Type ℓ) (A : Type κ) : Type (ℓ ⊔ κ) where
  err : E → Result E A
  ok : A → Result E A

-- `if err != nil { return err }`, and then the rest of the function.
infixl 5 ◌>>=◌
abbrev pub ◌>>=◌ {κ υ ℓ} :
    {E : Type κ} {A : Type υ} {B : Type ℓ} → Result E A → (A → Result E B) → Result E B
err e >>= next = err e
ok a >>= next = next a

-- A chain that succeeds did so at its first step too.
pub >>=-ok {κ υ ℓ} :
    {E : Type κ} {A : Type υ} {B : Type ℓ} (r : Result E A) (next : A → Result E B) {b : B}
    → (r >>= next) ≡ ok b
    → (a : A) × (r ≡ ok a) × (next a ≡ ok b)
>>=-ok (err e) next ended = cc
>>=-ok (ok a) next ended = (a, refl, ended)

pub Result-cases {κ υ} :
    {E : Type κ} {A : Type υ} (r : Result E A) → ((e : E) × (r ≡ err e)) ⊎ ((a : A) × (r ≡ ok a))
Result-cases (err e) = inl (e, refl)
Result-cases (ok a) = inr (a, refl)

abbrev pub is_ok {ℓ κ} : {E : Type ℓ} {A : Type κ} → Result E A → Bool
is_ok (err e) = false
is_ok (ok a) = true

false_not_true : false ≡ true → ⊥
false_not_true h = cc

-- The value of a result that is no error.
pub value_of {ℓ κ} :
    {E : Type ℓ} {A : Type κ} (r : Result E A) → is_ok r ≡ true → (a : A) × (r ≡ ok a)
value_of (err e) h = absurd (false_not_true h)
value_of (ok a) h = (a, refl)

abbrev pub is_some {ℓ} : {A : Type ℓ} → Option A → Bool
is_some none = false
is_some (some a) = true

pub content_of {ℓ} : {A : Type ℓ} (o : Option A) → is_some o ≡ true → (a : A) × (o ≡ some a)
content_of none h = absurd (false_not_true h)
content_of (some a) h = (a, refl)
