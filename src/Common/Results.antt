-- ===== src/Common/Results.antt =====
-- What a call returns: a value, or the exception that it raises. `queue_error`, `not_found` and
-- `precondition` are core.py's QueueError, NotFoundError and PreconditionError, without their
-- messages; `grant_error` is auth.py's GrantError; `argument_type` is argparse's ArgumentTypeError;
-- `key_error`, `type_error`, `value_error`, `overflow_error`, `recursion_error` and `os_error` are
-- Python's own, `operational_error` is sqlite3's.
use mathlib.Core.Path.{◌≡◌, refl}
use mathlib.Core.Logic.{◌⊎◌, inl, inr}
use mathlib.Core.Bool.{Bool, true, false}

pub data Error : Type 0 where
  queue_error not_found precondition grant_error argument_type : Error
  key_error type_error value_error overflow_error recursion_error : Error
  os_error operational_error : Error

pub data Result {ℓ} (A : Type ℓ) : Type ℓ where
  ok : A → Result A
  err : Error → Result A

abbrev pub is_ok {ℓ} : {A : Type ℓ} → Result A → Bool
is_ok (ok a) = true
is_ok (err e) = false

pub Result-cases {ℓ} :
    {A : Type ℓ} (r : Result A) → ((a : A) × (r ≡ ok a)) ⊎ ((e : Error) × (r ≡ err e))
Result-cases (ok a) = inl (a, refl)
Result-cases (err e) = inr (e, refl)
