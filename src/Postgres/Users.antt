-- ===== src/Postgres/Users.antt =====
-- internal/repository/postgres/users.go: users, sessions and the administrators' access keys. `to_lower`
-- is `strings.ToLower`. An update of no row and a query without a row are the same error, "not found".
use our_ne_zt_core.Common.{suc, String, Bool, not, Option, List, [], ◌∷◌, ◌++◌, keep}
use our_ne_zt_core.Common.Text.{trim_space}
use our_ne_zt_core.Domain.{EntityId, Time, User}
use our_ne_zt_core.Action.{Action}
use our_ne_zt_core.Service.Accounts.{UserRepository}
use our_ne_zt_core.Server.Repositories.{AuthSessionStore}
use our_ne_zt_core.Postgres.Sql.{
  Outcome, done, ◌>>=◌, ◌>>◌, run, ask, require, row_of, find_row, any_row, update_rows, order_by,
  check_violation, unique_violation, foreign_key_violation,
}
use our_ne_zt_core.Postgres.Tables.{Engine, Database, cast}
use our_ne_zt_core.Postgres.UserRows.{
  has_id, has_email, is_role, live_session, open_session, revoke, newer_session, session_hash,
  key_hash, usable_key, use_key, newer_user, active_admin, promoted, disabled, with_password,
  with_account, taken_by_other, inserted, new_session, new_key, first_user,
}
pub mod Calls
pub mod Effects
pub mod Invariant
pub mod Keys
pub mod Sessions

module _ {F : Type 0} (engine : Engine) (to_lower : String → String) where
  abbrev pub insert_user : User → Database F → Outcome (Database F × User)
  insert_user user db = do
    let row = inserted (engine.new_id db.drawn) db.clock user
    require (is_role user.role) check_violation
    require (not (any_row (has_id row.id) db.users)) unique_violation
    require (not (any_row (has_email user.email) db.users)) unique_violation
    done (record db { users = db.users ++ row ∷ []; drawn = suc db.drawn }, row)

  unfoldable pub create_user : User → Action (Database F) User
  create_user user = run (insert_user user)

  unfoldable pub list_users : Action (Database F) (List User)
  list_users = ask (λ db. done (order_by (newer_user engine) db.users))

  unfoldable pub get_user_by_email : String → Action (Database F) User
  get_user_by_email email =
      ask (λ db. row_of (find_row (has_email (to_lower (trim_space email))) db.users))

  abbrev pub select_user : EntityId → Database F → Outcome User
  select_user user_id db = do id ← cast engine user_id; row_of (find_row (has_id id) db.users)

  unfoldable pub get_user_by_id : EntityId → Action (Database F) User
  get_user_by_id user_id = ask (select_user user_id)

  unfoldable pub has_active_admin : Action (Database F) Bool
  has_active_admin = ask (λ db. done (any_row active_admin db.users))

  -- `UPDATE users SET ... WHERE id = $1::uuid`.
  abbrev pub change_user : EntityId → (User → User) → Database F → Outcome (Database F × User)
  change_user user_id f db = do
    id ← cast engine user_id
    u ← row_of (find_row (has_id id) db.users)
    done (record db { users = update_rows (has_id id) f db.users }, f u)

  abbrev pub only_change : EntityId → (User → User) → Database F → Outcome (Database F × Unit {0})
  only_change user_id f db = do changed ← change_user user_id f db; done (changed.0, tt)

  unfoldable pub promote_to_bootstrap_admin : EntityId → String → String → Action (Database F) User
  promote_to_bootstrap_admin user_id display_name password_hash =
      run (λ db. change_user user_id (promoted db.clock (trim_space display_name) password_hash) db)

  unfoldable pub disable_user : EntityId → Action (Database F) (Unit {0})
  disable_user user_id = run (λ db. only_change user_id (disabled db.clock) db)

  unfoldable pub update_user_password : EntityId → String → Bool → Action (Database F) (Unit {0})
  update_user_password user_id password_hash must_change =
      run (λ db. only_change user_id (with_password db.clock password_hash must_change) db)

  abbrev pub change_account : EntityId → String → String → Database F → Outcome (Database F × User)
  change_account user_id email display_name db = do
    id ← cast engine user_id
    u ← row_of (find_row (has_id id) db.users)
    require (not (any_row (taken_by_other id email) db.users)) unique_violation
    change_user user_id (with_account db.clock email display_name) db

  unfoldable pub update_user_account : EntityId → String → String → Action (Database F) User
  update_user_account user_id email display_name =
      run (change_account user_id (to_lower (trim_space email)) (trim_space display_name))

  abbrev pub insert_session :
      EntityId → String → Time → Database F → Outcome (Database F × Unit {0})
  insert_session user_id token_hash expires_at db = do
    user ← cast engine user_id
    require (not (any_row (session_hash token_hash) db.sessions)) unique_violation
    require (any_row (has_id user) db.users) foreign_key_violation
    let row = new_session db.clock user token_hash expires_at
    done (record db { sessions = db.sessions ++ row ∷ [] }, tt)

  unfoldable pub create_session : EntityId → String → Time → Action (Database F) (Unit {0})
  create_session user_id token_hash expires_at = run (insert_session user_id token_hash expires_at)

  abbrev pub insert_key : EntityId → String → Time → Database F → Outcome (Database F × Unit {0})
  insert_key user_id token_hash expires_at db = do
    user ← cast engine user_id
    require (not (any_row (key_hash token_hash) db.access_keys)) unique_violation
    require (any_row (has_id user) db.users) foreign_key_violation
    let row = new_key db.clock user token_hash expires_at
    done (record db { access_keys = db.access_keys ++ row ∷ [] }, tt)

  unfoldable pub create_admin_access_key : EntityId → String → Time → Action (Database F) (Unit {0})
  create_admin_access_key user_id token_hash expires_at =
      run (insert_key user_id token_hash expires_at)

  abbrev pub spend_key : EntityId → String → Time → Database F → Outcome (Database F × Bool)
  spend_key user_id token_hash now db = do
    user ← cast engine user_id
    let usable = usable_key user token_hash now
    done (
      record db { access_keys = update_rows usable (use_key now) db.access_keys },
      any_row usable db.access_keys,
    )

  unfoldable pub consume_admin_access_key : EntityId → String → Time → Action (Database F) Bool
  consume_admin_access_key user_id token_hash now = run (spend_key user_id token_hash now)

  unfoldable pub session_user : String → Time → Database F → Option User
  session_user token_hash now db =
      first_user db.users (order_by newer_session (keep (live_session token_hash now) db.sessions))

  unfoldable pub get_user_by_session_token_hash : String → Time → Action (Database F) User
  get_user_by_session_token_hash token_hash now =
      ask (λ db. row_of (session_user token_hash now db))

  abbrev pub revoke_all : EntityId → Database F → Outcome (Database F × Unit {0})
  revoke_all user_id db = do
    user ← cast engine user_id
    done
        (record db { sessions = update_rows (open_session user) (revoke db.clock) db.sessions }, tt)

  unfoldable pub revoke_sessions_by_user_id : EntityId → Action (Database F) (Unit {0})
  revoke_sessions_by_user_id user_id = run (revoke_all user_id)

  abbrev pub user_repository : UserRepository (Database F)
  user_repository = record {
    create_user = create_user;
    list_users = list_users;
    has_active_admin = has_active_admin;
    get_user_by_id = get_user_by_id;
    get_user_by_email = get_user_by_email;
    update_user_account = update_user_account;
    promote_to_bootstrap_admin = promote_to_bootstrap_admin;
    update_user_password = update_user_password;
    disable_user = disable_user;
    create_admin_access_key = create_admin_access_key;
    consume_admin_access_key = consume_admin_access_key;
  }

  abbrev pub session_store : AuthSessionStore (Database F)
  session_store = record {
    create_session = create_session;
    get_user_by_session_token_hash = get_user_by_session_token_hash;
    revoke_sessions_by_user_id = revoke_sessions_by_user_id;
  }
