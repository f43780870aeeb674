-- ===== src/Server/Requests.antt =====
-- The start that most handlers of internal/server share: a request that is missing is refused, then the
-- user is found, then the id that the request is about is trimmed; `respond` translates every error.
use our_ne_zt_core.Common.{Option, none, some}
use our_ne_zt_core.Domain.{EntityId}
use our_ne_zt_core.Errors.{Error}
use our_ne_zt_core.Action.{Action, ◌>>=◌, throw, lift}
use our_ne_zt_core.Server.Errors.{handle}
use our_ne_zt_core.Server.Messages.{ByIdRequest}
use our_ne_zt_core.Server.Mapping.{require_id}
use our_ne_zt_core.Server.Access.{Authenticator, request_actor_id}

unfoldable pub with_request {ℓ} :
    {S : Type 0} {A : Type ℓ}
    → Option (Authenticator S)
    → Option ByIdRequest
    → (EntityId → EntityId → Action S A)
    → Action S A
with_request auth none go = handle (throw Error.invalid_argument)
with_request auth (some req) go = handle (do
  viewer ← request_actor_id auth req.user_id
  target ← lift (require_id req.target_id)
  go target viewer)
