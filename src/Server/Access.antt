-- ===== src/Server/Access.antt =====
-- internal/server/auth_context.go: who makes a request.
use Prim.Native.String.{◌++◌}
use text.Mathlib.Text.{◌==◌}
use our_ne_zt_core.Common.{
  ℕ, suc, String, Bool, true, false, not, Option, none, some, List, [], ◌∷◌, if◌then◌else◌,
}
use our_ne_zt_core.Common.Text.{is_empty, trim_space, has_prefix, drop}
use our_ne_zt_core.Domain.{EntityId, Time, User, user_role_admin}
use our_ne_zt_core.Errors.{Error, Result, ok, err}
use our_ne_zt_core.Action.{Action, proceed, ◌>>=◌, give, throw, lift}
use our_ne_zt_core.Server.Repositories.{AuthSessionStore}
use our_ne_zt_core.Server.Mapping.{require_id}
pub mod Admission

-- `Authenticator`: the user of the request, as the context tells.
abbrev pub Authenticator : Type 0 → Type 0
Authenticator S = Action S User

-- The values of each header of a request, if it has any metadata; `md.Get`.
abbrev pub Metadata : Type 0
Metadata = Option (String → List String)

-- `to_lower` is `strings.ToLower`, which leaves no ASCII letter of "bearer " to any other character.
module _ (to_lower : String → String) where
  -- The loop over the authorization headers: the first one of the right scheme.
  unfoldable pub bearer_token : List String → String
  bearer_token [] = ""
  bearer_token (value ∷ values) =
      let rest = bearer_token values in
      let trimmed = trim_space value in
      if has_prefix "bearer " (to_lower trimmed) then trim_space (drop 7 trimmed) else rest

  unfoldable pub session_token : Metadata → String
  session_token none = ""
  session_token (some get) = elim (get "x-session-token") [
    | [] ↦ bearer_token (get "authorization")
    | value ∷ values ↦ trim_space value
  ]

-- The database's answer that no user has the session is no other failure.
unfoldable pub session_error : Error → Error
session_error Error.not_found = Error.unauthenticated
session_error e = e

unfoldable pub known_user : Result User → Result User
known_user (ok u) = elim u.disabled_at [ none ↦ ok u | some t ↦ err Error.disabled_user ]
known_user (err e) = err (session_error e)

-- `AuthServer.Authenticate`, on the token of the request, at the time `now`.
unfoldable pub authenticate :
    {S : Type 0} → AuthSessionStore S → (String → String) → String → Time → Action S User
authenticate sessions hash_token token now s =
    if is_empty token
    then (s, err Error.unauthenticated)
    else (let (t, found) = sessions.get_user_by_session_token_hash (hash_token token) now s in
        (t, known_user found))

module _ {S : Type 0} where
  unfoldable pub authenticate_user_id : Option (Authenticator S) → Action S EntityId
  authenticate_user_id none = throw Error.unauthenticated
  authenticate_user_id (some auth) = do user ← auth; give user.id

  abbrev pub admin_only : User → Action S User
  admin_only user =
      if not (user.role == user_role_admin)
      then throw Error.forbidden
      else if user.must_change_password
      then throw Error.password_change_required
      else give user

  unfoldable pub authenticated_admin : Option (Authenticator S) → Action S User
  authenticated_admin none = throw Error.unauthenticated
  authenticated_admin (some auth) = auth >>= admin_only

  unfoldable pub request_actor_id : Option (Authenticator S) → String → Action S EntityId
  request_actor_id none fallback = lift (require_id fallback)
  request_actor_id (some auth) fallback = authenticate_user_id (some auth)

  unfoldable pub optional_authenticated_actor_id : Option (Authenticator S) → Action S EntityId
  optional_authenticated_actor_id none = give ""
  optional_authenticated_actor_id (some auth) = authenticate_user_id (some auth)
