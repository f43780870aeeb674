-- ===== src/Server/Auth.antt =====
-- internal/server/auth.go: the handlers for accounts and sessions. The limiter and the database are the
-- state; `token` is the session token in the metadata of a request.
use text.Mathlib.Text.{◌==◌}
use our_ne_zt_core.Common.{◌+◌, String, Bool, true, Option, none, some, List, map, if◌then◌else◌}
use our_ne_zt_core.Common.Text.{is_empty}
use our_ne_zt_core.Common.Int64.{Int64, le}
use our_ne_zt_core.Domain.{EntityId, Time, User, UserRole, user_role_user}
use our_ne_zt_core.Errors.{Error, Result, ok, err}
use our_ne_zt_core.Action.{Action, ◌>>=◌, ◌>>◌, give, throw, lift}
use our_ne_zt_core.Service.Accounts
use our_ne_zt_core.Service.Accounts.{Accounts, Service, on_store}
use our_ne_zt_core.Server.Errors.{handle}
use our_ne_zt_core.Server.Messages.{
  UserMessage, CreateUserRequest, LoginRequest, LoginResponse, ChangePasswordRequest,
  UpdateMyAccountRequest, AccessKeyResponse,
}
use our_ne_zt_core.Server.Mapping.{Dates, require_id, user_to_proto}
use our_ne_zt_core.Server.Repositories.{AuthSessionStore}
use our_ne_zt_core.Server.Access.{authenticate, authenticate_user_id, authenticated_admin}
pub mod Calls
pub mod Lockout
pub mod Interceptor

pub record AuthServer (S : Type 0) : Type 0 where
  pub auth : Service S
  pub sessions : AuthSessionStore S
  pub token_bytes : Int64
  pub session_ttl : Int64
  pub now : Time

-- `NewAuthServer`; the defaults are 32 bytes and 24 hours.
unfoldable pub new_auth_server :
    {S : Type 0} → Service S → AuthSessionStore S → Int64 → Int64 → Time → AuthServer S
new_auth_server auth sessions token_bytes session_ttl now = record {
  auth = auth;
  sessions = sessions;
  token_bytes = if le token_bytes 0 then 32 else token_bytes;
  session_ttl = if le session_ttl 0 then 86_400_000_000_000 else session_ttl;
  now = now;
}

abbrev granted_role : UserRole → UserRole
granted_role role = if is_empty role then user_role_user else role

-- Why a login fails is not told.
unfoldable pub login_error : Error → Error
login_error Error.not_found = Error.unauthenticated
login_error Error.disabled_user = Error.unauthenticated
login_error Error.unauthenticated = Error.unauthenticated
login_error e = e

abbrev pub hide_reason : {A : Type 0} → Result A → Result A
hide_reason (ok a) = ok a
hide_reason (err e) = err (login_error e)

module _ {S : Type 0} (server : AuthServer S) (token : String) where
  -- `AuthServer.Authenticate` on the request's context.
  abbrev pub caller : Action S User
  caller = authenticate server.sessions server.auth.security.hash_token token server.now

  abbrev pub admin : Action (Accounts S) User
  admin = on_store (authenticated_admin (some caller))

  abbrev caller_id : Action (Accounts S) EntityId
  caller_id = on_store (authenticate_user_id (some caller))

  unfoldable pub create_user : Option CreateUserRequest → Action (Accounts S) UserMessage
  create_user none = handle (throw Error.invalid_argument)
  create_user (some req) = handle (do
    _ ← admin
    user ←
        Accounts.create_user server.auth req.email req.display_name req.password
          (granted_role req.role)
    give (user_to_proto user))

  abbrev pub start_session : User → Action (Accounts S) LoginResponse
  start_session user = on_store (do
    fresh ← server.auth.security.new_session_token server.token_bytes
    server.sessions.create_session user.id (server.auth.security.hash_token fresh)
        (server.now + server.session_ttl)
    give (record { user = user_to_proto user; session_token = fresh }))

  unfoldable pub login : Option LoginRequest → Action (Accounts S) LoginResponse
  login none = handle (throw Error.invalid_argument)
  login (some req) = handle (do
    user ← λ s.
        (let (t, r) = Accounts.login server.auth req.email req.password s in (t, hide_reason r))
    start_session user)

  unfoldable pub validate_session : Option String → Action (Accounts S) UserMessage
  validate_session none = handle (throw Error.invalid_argument)
  validate_session (some session_token) =
      if is_empty session_token
      then handle (throw Error.invalid_argument)
      else handle (do
        user ← on_store (
            server.sessions.get_user_by_session_token_hash
              (server.auth.security.hash_token session_token) server.now)
        elim user.disabled_at [
          | none ↦ give (user_to_proto user)
          | some t ↦ throw Error.disabled_user
        ])

  unfoldable pub change_password : Option ChangePasswordRequest → Action (Accounts S) (Unit {0})
  change_password none = handle (throw Error.invalid_argument)
  change_password (some req) = handle (do
    user_id ← caller_id
    Accounts.change_password server.auth user_id req.current_password req.new_password)

  unfoldable pub update_my_account : Option UpdateMyAccountRequest → Action (Accounts S) UserMessage
  update_my_account none = handle (throw Error.invalid_argument)
  update_my_account (some req) = handle (do
    user_id ← caller_id
    user ← Accounts.update_my_account server.auth user_id req.email req.display_name
    give (user_to_proto user))

  unfoldable pub generate_admin_access_key : Dates → Action (Accounts S) AccessKeyResponse
  generate_admin_access_key dates = handle (do
    actor ← admin
    made ←
        Accounts.generate_admin_access_key server.auth actor.id server.token_bytes 600_000_000_000
          server.now
    give (record { access_key = made.0; expires_at = dates.format_rfc3339 made.1 }))

  unfoldable pub consume_admin_access_key : Option String → Action (Accounts S) Bool
  consume_admin_access_key none = handle (throw Error.invalid_argument)
  consume_admin_access_key (some key) = handle (do
    actor ← admin
    Accounts.consume_admin_access_key server.auth actor.id key server.now
    give true)

  unfoldable pub list_users : Action (Accounts S) (List UserMessage)
  list_users =
      handle (do _ ← admin; users ← Accounts.list_users server.auth; give (map user_to_proto users))

  -- `DisableUser` once the administrator is known and the id is trimmed.
  abbrev pub remove_user : User → EntityId → Action (Accounts S) (Unit {0})
  remove_user actor id = if id == actor.id then throw Error.invalid_argument else (do
    Accounts.disable_user server.auth id
    on_store (server.sessions.revoke_sessions_by_user_id id))

  unfoldable pub disable_user : Option String → Action (Accounts S) (Unit {0})
  disable_user none = handle (throw Error.invalid_argument)
  disable_user (some user_id) =
      handle (do actor ← admin; id ← lift (require_id user_id); remove_user actor id)
