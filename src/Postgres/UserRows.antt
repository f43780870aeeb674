-- ===== src/Postgres/UserRows.antt =====
-- The tests, orders and changes on the rows that internal/repository/postgres/users.go reads and writes.
use text.Mathlib.Text.{◌==◌}
use our_ne_zt_core.Common.{
  String, Bool, true, false, not, ◌&&◌, ◌||◌, Option, none, some, List, [], ◌∷◌, ltb, if◌then◌else◌,
}
use our_ne_zt_core.Common.Text.{is_empty}
use our_ne_zt_core.Domain.{EntityId, Time, User, UserRole, user_role_admin, user_role_user}
use our_ne_zt_core.Postgres.Sql.{find_row}
use our_ne_zt_core.Postgres.Tables.{Engine, SessionRow, AccessKeyRow}

abbrev pub has_id : EntityId → User → Bool
has_id id u = u.id == id

abbrev pub has_email : String → User → Bool
has_email email u = u.email == email

abbrev pub is_role : UserRole → Bool
is_role role = (role == user_role_admin) || (role == user_role_user)

abbrev pub is_set : Option Time → Bool
is_set none = false
is_set (some t) = true

abbrev pub live_session : String → Time → SessionRow → Bool
live_session token_hash now s =
    (s.token_hash == token_hash) && not (is_set s.revoked_at) && ltb now s.expires_at

abbrev pub open_session : EntityId → SessionRow → Bool
open_session user s = (s.user_id == user) && not (is_set s.revoked_at)

abbrev pub revoke : Time → SessionRow → SessionRow
revoke now s = record s { revoked_at = some now }

abbrev pub newer_session : SessionRow → SessionRow → Bool
newer_session s t = not (ltb s.created_at t.created_at)

abbrev pub session_hash : String → SessionRow → Bool
session_hash token_hash s = s.token_hash == token_hash

abbrev pub key_hash : String → AccessKeyRow → Bool
key_hash token_hash k = k.token_hash == token_hash

-- The rows that `ConsumeAdminAccessKey` updates, and what becomes of them.
abbrev pub usable_key : EntityId → String → Time → AccessKeyRow → Bool
usable_key user token_hash now k =
    (k.user_id == user)
    && (k.token_hash == token_hash)
    && not (is_set k.used_at)
    && ltb now k.expires_at

abbrev pub use_key : Time → AccessKeyRow → AccessKeyRow
use_key now k = record k { used_at = some now }

-- The first session with a user, and its user.
unfoldable pub first_user : List User → List SessionRow → Option User
first_user users [] = none
first_user users (s ∷ rest) =
    let later = first_user users rest in
    elim (find_row (has_id s.user_id) users) [ none ↦ later | some u ↦ some u ]

-- `ORDER BY created_at DESC, email ASC`.
abbrev pub newer_user : Engine → User → User → Bool
newer_user engine u v =
    ltb v.created_at u.created_at
    || (not (ltb u.created_at v.created_at) && engine.text_le u.email v.email)

abbrev pub active_admin : User → Bool
active_admin u = (u.role == user_role_admin) && not (is_set u.disabled_at)

abbrev pub promoted : Time → String → String → User → User
promoted now display_name password_hash u = record u {
  role = user_role_admin;
  display_name = if is_empty display_name then u.display_name else display_name;
  password_hash = password_hash;
  must_change_password = true;
  disabled_at = none;
  updated_at = now;
}

abbrev pub disabled : Time → User → User
disabled now u = record u { disabled_at = some now; updated_at = now }

abbrev pub with_password : Time → String → Bool → User → User
with_password now password_hash must_change u = record u {
  password_hash = password_hash;
  must_change_password = must_change;
  updated_at = now;
}

abbrev pub with_account : Time → String → String → User → User
with_account now email display_name u = record u {
  email = email;
  display_name = display_name;
  updated_at = now;
}

-- Whether a user other than the one of an id has an address.
abbrev pub taken_by_other : EntityId → String → User → Bool
taken_by_other id email u = not (u.id == id) && (u.email == email)

abbrev pub inserted : EntityId → Time → User → User
inserted id now user = record user {
  id = id;
  disabled_at = none;
  created_at = now;
  updated_at = now;
}

abbrev pub new_session : Time → EntityId → String → Time → SessionRow
new_session now user token_hash expires_at = record {
  user_id = user;
  token_hash = token_hash;
  expires_at = expires_at;
  revoked_at = none;
  created_at = now;
}

abbrev pub new_key : Time → EntityId → String → Time → AccessKeyRow
new_key now user token_hash expires_at = record {
  user_id = user;
  token_hash = token_hash;
  expires_at = expires_at;
  used_at = none;
  created_at = now;
}
