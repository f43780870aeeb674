-- ===== src/Server/Errors.antt =====
-- internal/server/errors.go: the gRPC status of an error.
use our_ne_zt_core.Common.{String, none, some}
use our_ne_zt_core.Errors.{Code, Status, Error, Result, ok, err}
use our_ne_zt_core.Action.{Action}

abbrev plain : Code → String → Status
plain c m = record { status_code = c; message = m; retry_delay = none }

-- The status that `toStatusError` wraps.
unfoldable pub status_of : Error → Status
status_of (Error.status s) = s
status_of (Error.limited retry_after) = record {
  status_code = Code.resource_exhausted;
  message = "too many authentication attempts; please try again later";
  retry_delay = some retry_after;
}
status_of Error.canceled = plain Code.canceled "context canceled"
status_of Error.deadline_exceeded = plain Code.deadline_exceeded "context deadline exceeded"
status_of Error.invalid_argument = plain Code.invalid_argument "invalid argument"
status_of Error.unauthenticated = plain Code.unauthenticated "unauthenticated"
status_of Error.disabled_user = plain Code.unauthenticated "disabled user"
status_of Error.forbidden = plain Code.permission_denied "forbidden"
status_of Error.not_found = plain Code.not_found "not found"
status_of Error.conflict = plain Code.already_exists "conflict"
status_of Error.password_change_required = plain Code.failed_precondition "password change required"
status_of (Error.other m) = plain Code.internal "internal error"

unfoldable pub to_status_error : Error → Error
to_status_error e = Error.status (status_of e)

-- What a handler returns where it translates the error of each of its calls.
abbrev pub respond {κ} : {A : Type κ} → Result A → Result A
respond (ok a) = ok a
respond (err e) = err (to_status_error e)

abbrev pub handle {ℓ κ} : {S : Type ℓ} {A : Type κ} → Action S A → Action S A
handle m = λ s. (let (t, r) = m s in (t, respond r))
