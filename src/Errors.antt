-- ===== src/Errors.antt =====
-- The errors that travel through the service: internal/platform/apperror/errors.go, the limit error of
-- internal/authlimit/limiter.go, those of package `context`, gRPC statuses, and any other.
use our_ne_zt_core.Common.{ℕ, String, Option, ◌≡◌, refl}

-- The gRPC status codes that the service uses.
pub data Code : Type 0 where
  canceled deadline_exceeded invalid_argument not_found already_exists permission_denied : Code
  resource_exhausted failed_precondition unimplemented internal unauthenticated : Code

-- A gRPC status: its code, its message, and the delay of a `RetryInfo` detail.
pub record Status : Type 0 where
  pub status_code : Code
  pub message : String
  pub retry_delay : Option ℕ

pub data Error : Type 0 where
  unauthenticated forbidden not_found conflict invalid_argument disabled_user : Error
  password_change_required : Error
  -- `authlimit.LimitError`, with the time after which to try again.
  limited : ℕ → Error
  canceled deadline_exceeded : Error
  -- An error that `status.FromError` recognises.
  status : Status → Error
  -- Any other error, with its message.
  other : String → Error

-- What Go returns as a value and an error, of which exactly one counts.
pub data Result {ℓ} (T : Type ℓ) : Type ℓ where
  err : (cause : Error) → Result T
  ok : (value : T) → Result T

-- `if err != nil { return err }`, and then the rest of the function.
infixl 5 ◌>>=◌
abbrev pub ◌>>=◌ {ℓ κ} : {T : Type ℓ} {U : Type κ} → Result T → (T → Result U) → Result U
err cause >>= rest = err cause
ok value >>= rest = rest value

-- A function that succeeds has seen its first call succeed.
pub first-ok {ℓ κ} :
    {T : Type ℓ} {U : Type κ} (rest : T → Result U) (first : Result T) {u : U}
    → (first >>= rest) ≡ ok u
    → (value : T) × (first ≡ ok value) × (rest value ≡ ok u)
first-ok rest (err cause) h = cc
first-ok rest (ok value) h = (value, refl, h)

pub ok_inj {ℓ} : {T : Type ℓ} {t u : T} → ok t ≡ ok u → t ≡ u
ok_inj h = cc
