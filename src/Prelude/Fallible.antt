-- ===== src/Prelude/Fallible.antt =====
-- A Go function that returns a value and an error.
use mathlib.Core.Path.{◌≡◌, refl}
use mathlib.Core.Bool.{Bool, true, false}
use mathlib.Core.Logic.{◌⊎◌, ◌≢◌, inl, inr}
use native.Mathlib.Omega.{arith}

pub data Result {ℓ} (Failure : Type ℓ) (Value : Type ℓ) : Type ℓ where
  err : Failure → Result Failure Value
  ok : Value → Result Failure Value

infixl 5 ◌>>◌ ◌>>=◌
abbrev pub ◌>>=◌ {ℓ} :
    {Failure Value Next : Type ℓ}
    → Result Failure Value
    → (Value → Result Failure Next)
    → Result Failure Next
err failure >>= next = err failure
ok value >>= next = next value

abbrev pub ◌>>◌ {ℓ} :
    {Failure Value Next : Type ℓ} → Result Failure Value → Result Failure Next → Result Failure Next
first >> next = first >>= λ _. next

-- An early return: the error is returned where the test holds.
abbrev pub fail_if : {E : Type 0} → Bool → E → Result E (Unit {0})
fail_if true e = err e
fail_if false e = ok tt

-- What succeeds in two parts has an intermediate value.
pub >>=-eq-ok {ℓ} :
    {Failure Value Next : Type ℓ} (first : Result Failure Value)
    (next : Value → Result Failure Next) {result : Next}
    → (first >>= next) ≡ ok result
    → (middle : Value) × (first ≡ ok middle) × (next middle ≡ ok result)
>>=-eq-ok (err failure) next same = cc
>>=-eq-ok (ok value) next same = (value, refl, same)

pub Result-cases {ℓ} :
    {E A : Type ℓ} (r : Result E A) → ((a : A) × (r ≡ ok a)) ⊎ ((e : E) × (r ≡ err e))
Result-cases (ok a) = inl (a, refl)
Result-cases (err e) = inr (e, refl)

pub fail_if-ok :
    {Failure : Type 0} (test : Bool) (failure : Failure) (result : Unit {0})
    → fail_if test failure ≡ ok result
    → test ≡ false
fail_if-ok test failure result h = ground arith

pub err-not_ok {ℓ} : {Failure Value : Type ℓ} (e : Failure) (a : Value) → err e ≢ ok a
err-not_ok e a h = ground arith

-- A statement about what succeeds in two parts, from the second part.
pub >>=-elim {ℓ κ} :
    {Failure Value Next : Type ℓ} {P : Type κ} (first : Result Failure Value)
    (next : Value → Result Failure Next) {result : Next}
    → ((middle : Value) → first ≡ ok middle → next middle ≡ ok result → P)
    → (first >>= next) ≡ ok result
    → P
>>=-elim (err failure) next k same = absurd (err-not_ok failure _ same)
>>=-elim (ok value) next k same = k value refl same

-- A result that is known to succeed determines its value.
pub ok_injective {ℓ} :
    {Failure Value : Type ℓ} {r : Result Failure Value} {a b : Value} → r ≡ ok a → r ≡ ok b → a ≡ b
ok_injective h k = cc
