-- ===== src/Common/Results.antt =====
-- What a Go call that returns `(value, error)` does: it returns a value, returns an error, or
-- panics on an index out of range or a nil pointer.
use mathlib.Core.Path.{◌≡◌, refl}

-- The errors that the modelled code returns, by what was wrong.
pub data Error : Type 0 where
  unexpected_eof : Error
  eof : Error
  too_large : Error
  invalid_utf8 : Error
  bad_signature : Error
  other_error : Error

pub data Outcome {ℓ} (A : Type ℓ) : Type ℓ where
  panic : Outcome A
  err : Error → Outcome A
  ok : A → Outcome A

infixl 5 ◌>>=◌ ◌>>◌
-- The rest `next` of a function runs on the value of the call `call`; an error returns at once,
-- and a panic ends the function.
abbrev pub ◌>>=◌ {ℓ κ} : {A : Type ℓ} {R : Type κ} → Outcome A → (A → Outcome R) → Outcome R
panic >>= next = panic
err e >>= next = err e
ok a >>= next = next a

abbrev pub ◌>>◌ {ℓ} : {R : Type ℓ} → Outcome (Unit {0}) → Outcome R → Outcome R
call >> next = call >>= λ _. next

-- A sequence that succeeds had a first call that succeeded.
pub bind-ok {ℓ κ} :
    {A : Type ℓ} {R : Type κ} {r : R} (call : Outcome A) (next : A → Outcome R)
    → (call >>= next) ≡ ok r
    → (a : A) × (call ≡ ok a) × (next a ≡ ok r)
bind-ok panic next h = cc
bind-ok (err e) next h = cc
bind-ok (ok a) next h = (a, refl, h)
