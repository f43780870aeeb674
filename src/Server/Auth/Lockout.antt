-- ===== src/Server/Auth/Lockout.antt =====
-- What disabling a user, and who may do it, means on the tables of PostgreSQL.
use mathlib.Core.Path.{subst}
use text.Mathlib.Text.{◌==◌}
use text.Mathlib.TextEquality.{eq_iff}
use our_ne_zt_core.Common.{String, false, some, ◌≡◌, ◌≢◌, refl, ap, arith}
use our_ne_zt_core.Common.Trim.{trim_space_idem}
use our_ne_zt_core.Common.Text.{is_empty, trim_space}
use our_ne_zt_core.Domain.{EntityId, Time, User}
use our_ne_zt_core.Errors.{Error, ok}
use our_ne_zt_core.Action.{proceed-ok, ◌>>◌, ◌>>=◌, lift}
use our_ne_zt_core.Service.Accounts
use our_ne_zt_core.Service.Accounts.{Accounts, on_store}
use our_ne_zt_core.Server.Access.{authenticate}
use our_ne_zt_core.Server.Access.Admission.{authenticate-ok}
use our_ne_zt_core.Server.Mapping.{require_id}
use our_ne_zt_core.Server.Auth.{AuthServer, admin, remove_user, disable_user}
use our_ne_zt_core.Server.Auth.Calls.{handle-ok, on_store-ok, unless-ok, require_id-ok, on_postgres}
use our_ne_zt_core.Postgres.Sql.{done, find_row}
use our_ne_zt_core.Postgres.UserRows.{has_id}
use our_ne_zt_core.Postgres.Tables.{Engine, Database, cast}
use our_ne_zt_core.Postgres.Users
use our_ne_zt_core.Postgres.Users.{session_store, revoke_sessions_by_user_id}
use our_ne_zt_core.Postgres.Users.Sessions.{revoke_sessions_by_user_id-none}

require_id-filled :
    (value : String)
    → is_empty (trim_space value) ≡ false
    → require_id value ≡ ok (trim_space value)
unfolding require_id
require_id-filled value h = rw h refl

pub pair_of {ℓ κ} : {S : Type ℓ} {A : Type κ} (x : S × A) {a : A} → x.1 ≡ a → x ≡ (x.0, a)
pair_of x h = cc

module _ {F : Type 0} (engine : Engine) (to_lower : String → String)
    (server : AuthServer (Database F)) (token user_id : String) where
  -- The last step of the handler, and the state it starts in.
  disable_user-revoked :
      (s t : Accounts (Database F))
      → disable_user (on_postgres engine to_lower server) token (some user_id) s ≡ (t, ok tt)
      → (v : Accounts (Database F)) × (revoke_sessions_by_user_id engine to_lower
            (trim_space user_id)
            v.store
          ≡ (t.store, ok tt))
  unfolding disable_user
  disable_user-revoked s t h =
      let wired = on_postgres engine to_lower server in
      let revoke_it = λ (id : EntityId). on_store (wired.sessions.revoke_sessions_by_user_id id) in
      let go =
        λ (actor : User). lift (require_id user_id) >>= λ id. remove_user wired token actor id in
      let (s1, actor, _, rest) =
        proceed-ok go (admin wired token s) (handle-ok (admin wired token >>= go) s h) in
      let (s2, id, named, rest2) =
        proceed-ok (λ id. remove_user wired token actor id) (s1, require_id user_id) rest in
      let (_, rest3) =
        unless-ok (id == actor.id) Error.invalid_argument
          (Accounts.disable_user wired.auth id >> revoke_it id) s2 rest2 in
      let (v, _, _, last) =
        proceed-ok (λ _. revoke_it id) (Accounts.disable_user wired.auth id s2) rest3 in
      let same = require_id-ok user_id (ap (λ x. x.1) named) in
      let revoked = on_store-ok (revoke_sessions_by_user_id engine to_lower id) v last in
      (
        v,
        subst (λ x. revoke_sessions_by_user_id engine to_lower x v.store ≡ (t.store, ok tt)) same
            revoked,
      )

  -- Once an administrator has disabled a user, whatever way the user's UUID was written, no session
  -- token and no time authenticates a request as that user.
  pub disable_user-locks_out :
      (id : EntityId) (s t : Accounts (Database F))
      → cast engine (trim_space user_id) ≡ done id
      → disable_user (on_postgres engine to_lower server) token (some user_id) s ≡ (t, ok tt)
      → (hash_token : String → String) (other : String) (now : Time) (u : User)
      → (authenticate (session_store engine to_lower) hash_token other now t.store).1 ≡ ok u
      → u.id ≢ id
  disable_user-locks_out id s t c h hash_token other now u e =
      let (v, revoked) = disable_user-revoked s t h in
      let (_, known, _) =
        authenticate-ok (session_store engine to_lower) hash_token other now t.store _ u
          (pair_of _ e) in
      revoke_sessions_by_user_id-none engine to_lower (trim_space user_id) id v.store c revoked
        (hash_token other) now u (ap (λ x. x.1) known)

  remove_user-there :
      (id uid : EntityId) (actor u : User) (s : Accounts (Database F))
      → is_empty (trim_space id) ≡ false
      → (id == actor.id) ≡ false
      → cast engine id ≡ done uid
      → find_row (has_id uid) s.store.users ≡ some u
      → (remove_user (on_postgres engine to_lower server) token actor id s).1 ≡ ok tt
  unfolding Accounts.disable_user Users.disable_user revoke_sessions_by_user_id
  remove_user-there id uid actor u s filled other c found = simp (other, filled, c, found) refl

  -- The handler compares texts, the database UUIDs: an administrator's own UUID is refused only in the
  -- spelling of the database. In any other spelling the request succeeds on the administrator's account,
  -- and from then on no token authenticates a request as that administrator.
  pub disable_user-other_spelling :
      (s s1 : Accounts (Database F)) (actor : User)
      → admin (on_postgres engine to_lower server) token s ≡ (s1, ok actor)
      → is_empty (trim_space user_id) ≡ false
      → trim_space user_id ≢ actor.id
      → cast engine (trim_space user_id) ≡ done actor.id
      → find_row (has_id actor.id) s1.store.users ≡ some actor
      → (hash_token : String → String) (other : String) (now : Time) (u : User) → u.id ≡ actor.id
      → (t : Accounts (Database F)) × (disable_user
            (on_postgres engine to_lower server)
            token
            (some user_id)
            s
          ≡ (t, ok tt))
        × ((authenticate (session_store engine to_lower) hash_token other now t.store).1 ≢ ok u)
  unfolding disable_user
  disable_user-other_spelling s s1 actor e filled other c found hash_token presented now u same =
      let id = trim_space user_id in
      let wired = on_postgres engine to_lower server in
      let differs : (id == actor.id) ≡ false = ground (arith, eq_iff id actor.id) in
      let trimmed : is_empty (trim_space id) ≡ false = rw (trim_space_idem user_id) filled in
      let removed = remove_user-there id actor.id actor actor s1 trimmed differs c found in
      let named : require_id user_id ≡ ok id = require_id-filled user_id filled in
      let step : (disable_user wired token (some user_id) s).1 ≡ ok tt =
        simp (e, named, removed) refl in
      let end = pair_of (disable_user wired token (some user_id) s) step in
      (_, end, λ k. disable_user-locks_out actor.id s _ c end hash_token presented now u k same)
