-- ===== src/Base/Results.antt =====
-- Go's `(value, error)` pair: a value, or one of the errors of the type `E`.
use mathlib.Core.Path.{◌≡◌, refl, ap}

pub data Result {ℓ} (E : Type 0) (A : Type ℓ) : Type ℓ where
  err : E → Result E A
  ok : A → Result E A

-- `if err != nil { return err }` after a call.
infixl 5 ◌>>=◌ ◌>>◌
abbrev pub ◌>>=◌ {ℓ κ} :
    {Error : Type 0} {Value : Type ℓ} {Next : Type κ}
    → Result Error Value
    → (Value → Result Error Next)
    → Result Error Next
err failure >>= next = err failure
ok value >>= next = next value

-- The same after a call that only returns an error.
abbrev pub ◌>>◌ {ℓ} :
    {Error : Type 0} {Next : Type ℓ}
    → Result Error (Unit {0})
    → Result Error Next
    → Result Error Next
check >> next = check >>= λ done. next

-- `fmt.Errorf("…: %w", err)`: the error of a step, wrapped.
abbrev pub wrap {ℓ} :
    {Inner Outer : Type 0} {Value : Type ℓ}
    → (Inner → Outer)
    → Result Inner Value
    → Result Outer Value
wrap f (err failure) = err (f failure)
wrap f (ok value) = ok value

-- What a successful chain of steps went through.
pub >>=-eq-ok {ℓ κ} :
    {Error : Type 0} {Value : Type ℓ} {Next : Type κ} (call : Result Error Value)
    (next : Value → Result Error Next) {result : Next}
    → (call >>= next) ≡ ok result
    → (value : Value) × (call ≡ ok value) × (next value ≡ ok result)
>>=-eq-ok (err failure) next reached = cc
>>=-eq-ok (ok value) next reached = (value, refl, reached)

pub ok-injective {ℓ} :
    {E : Type 0} {A : Type ℓ} {a b : A} → ◌≡◌ {A = Result E A} (ok a) (ok b) → a ≡ b
ok-injective h = cc

pub err-injective {ℓ} :
    {E : Type 0} {A : Type ℓ} {e f : E} → ◌≡◌ {A = Result E A} (err e) (err f) → e ≡ f
err-injective h = cc

pub wrap-eq-ok {ℓ} :
    {E F : Type 0} {A : Type ℓ} (f : E → F) (r : Result E A) {a : A} → wrap f r ≡ ok a → r ≡ ok a
wrap-eq-ok f (ok x) h = ap ok (ok-injective h)
wrap-eq-ok f (err e) h = cc
