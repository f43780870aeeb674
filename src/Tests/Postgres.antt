-- ===== src/Tests/Postgres.antt =====
-- The tables of users and families: runs, and instances of the theorems.
use text.Mathlib.TextEquality.{eq_iff}
use our_ne_zt_core.Common.{ℕ, true, false, none, some, [], ◌∷◌, ◌≡◌, ◌≢◌, refl, arith, String}
use our_ne_zt_core.Common.Text.{is_empty, trim_space, trim_left, trim_right, is_space}
use our_ne_zt_core.Domain.{Family, role_owner, role_member, family_couple}
use our_ne_zt_core.Errors.{ok}
use our_ne_zt_core.AuthLimit.{new}
use our_ne_zt_core.Service.Accounts
use our_ne_zt_core.Service.Accounts.{Accounts, Service, Security}
use our_ne_zt_core.Action.{give}
use our_ne_zt_core.Server.Access.{authenticate, authenticated_admin, known_user}
use our_ne_zt_core.Server.Mapping.{require_id}
use our_ne_zt_core.Server.Auth
use our_ne_zt_core.Server.Auth.{AuthServer}
use our_ne_zt_core.Server.Auth.Calls.{on_postgres}
use our_ne_zt_core.Server.Auth.Lockout.{disable_user-locks_out, disable_user-other_spelling}
use our_ne_zt_core.Postgres.Sql.{done, any_row, find_row, update_rows, order_by, put_in_order}
use our_ne_zt_core.Postgres.Tables.{Database, cast}
use our_ne_zt_core.Postgres.UserRows.{has_id, first_user}
use our_ne_zt_core.Postgres.FamilyRows.{first_family, not_past}
use our_ne_zt_core.Postgres.Access.{is_member, manages}
use our_ne_zt_core.Postgres.Users
use our_ne_zt_core.Postgres.Users.{
  create_user, create_session, consume_admin_access_key, create_admin_access_key, disable_user,
  revoke_sessions_by_user_id, get_user_by_session_token_hash, session_user, user_repository,
  session_store,
}
use our_ne_zt_core.Postgres.Users.Calls.{create, add_key, perform, perform_all}
use our_ne_zt_core.Postgres.Users.Invariant.{IsKeyed, perform-IsKeyed}
use our_ne_zt_core.Postgres.Users.Keys.{consume_admin_access_key-once}
use our_ne_zt_core.Postgres.Users.Sessions.{create_session-found}
use our_ne_zt_core.Postgres.Families.{
  create_family, join_family_by_code, generate_family_join_code, assert_family_manager,
}
use our_ne_zt_core.Postgres.Families.Membership.{role_of, assign, admit}
use our_ne_zt_core.Postgres.Families.Refinement.{create_family-refines, join_family_by_code-refines}
use our_ne_zt_core.Postgres.Families.Codes.{generate_family_join_code-joins}
use our_ne_zt_core.Tests.AuthLimit.{small}
use our_ne_zt_core.Tests.Database.{engine, plain, plain-IsEngine, same, ann, bob, home, db}

db-IsKeyed : IsKeyed db
unfolding any_row
db-IsKeyed = record {
  ids = (refl, (refl, tt));
  emails = (refl, (refl, tt));
  session_hashes = (refl, (refl, tt));
  key_hashes = (refl, tt);
}

perform-IsKeyed_example : IsKeyed (perform plain same (create (record bob { email = "c@b.sg" })) db)
perform-IsKeyed_example =
    perform-IsKeyed plain same db (create (record bob { email = "c@b.sg" })) db-IsKeyed

abbrev spent : Database ℕ
spent = (consume_admin_access_key plain same "a" "k" 20 db).0

consumes : consume_admin_access_key plain same "a" "k" 20 db ≡ (spent, ok true)
unfolding consume_admin_access_key any_row update_rows
consumes = refl

consume_admin_access_key-once_example :
    (consume_admin_access_key plain same "b" "k" 21
      (perform_all plain same (add_key "b" "k" 200 ∷ []) spent)).1
    ≢ ok true
consume_admin_access_key-once_example =
    consume_admin_access_key-once plain same "k" "a" 20 db-IsKeyed consumes
      (add_key "b" "k" 200 ∷ []) "b" 21

abbrev with_session : Database ℕ
with_session = (create_session plain same "b" "tc" 100 db).0

opens : create_session plain same "b" "tc" 100 db ≡ (with_session, ok tt)
unfolding create_session any_row
opens = refl

bob_there : find_row (has_id "b") db.users ≡ some bob
unfolding find_row
bob_there = refl

create_session-found_example :
    get_user_by_session_token_hash plain same "tc" 50 with_session ≡ (with_session, ok bob)
create_session-found_example =
    create_session-found plain same "b" "b" "tc" 100 50 db refl bob_there opens (omega arith)

-- Creating a family, and joining one.
abbrev draft : Family
draft = record home { id = ""; name = "Cabin" }

abbrev founded : Database ℕ
founded = (create_family plain draft "b" db).0

abbrev cabin : Family
cabin = record {
  id = "n";
  name = "Cabin";
  family_type = family_couple;
  created_at = 10;
  updated_at = 10;
}

creates : create_family plain draft "b" db ≡ (founded, ok cabin)
unfolding create_family any_row trim_space trim_left trim_right is_space
creates = refl

create_family-refines_example :
    (owner : String) × (cast plain "b" ≡ done owner)
    × (role_of founded.members ≡ assign "n" owner role_owner (role_of db.members))
create_family-refines_example =
    create_family-refines plain plain-IsEngine draft "b" db founded cabin creates

abbrev invited : Database ℕ
invited = (generate_family_join_code plain "a" "f" "code" (some 50) db).0

invites : generate_family_join_code plain "a" "f" "code" (some 50) db ≡ (invited, ok tt)
unfolding generate_family_join_code assert_family_manager is_member any_row trim_space trim_left
    trim_right is_space
invites = refl

filled : is_empty (trim_space "b") ≡ false
unfolding trim_space trim_left trim_right is_space
filled = refl

bob_known : any_row (has_id "b") invited.users ≡ true
unfolding generate_family_join_code assert_family_manager is_member any_row trim_space trim_left
    trim_right is_space
bob_known = refl

lasts : not_past 30 (some 50) ≡ true
lasts = refl

generate_family_join_code-joins_example :
    (family actor : String) × (f : Family) × (cast plain "f" ≡ done family)
    × (cast plain "a" ≡ done actor)
    × (is_member manages family actor db.members ≡ true)
    × (f.id ≡ family)
    × ((join_family_by_code plain "b" "code" (record invited { clock = 30 })).1 ≡ ok f)
generate_family_join_code-joins_example =
    generate_family_join_code-joins plain plain-IsEngine "a" "f" "code" (some 50) db invited invites
      30 "b" "b" filled lasts refl bob_known

abbrev joined : Database ℕ
joined = (join_family_by_code plain "b" "code" invited).0

joins_home : join_family_by_code plain "b" "code" invited ≡ (joined, ok home)
unfolding generate_family_join_code assert_family_manager join_family_by_code is_member any_row
    find_row order_by put_in_order first_family trim_space trim_left trim_right is_space
joins_home = refl

join_family_by_code-refines_example :
    (id user : String) × (cast plain home.id ≡ done id)
    × (cast plain "b" ≡ done user)
    × (role_of joined.members ≡ admit id user role_member (role_of invited.members))
join_family_by_code-refines_example =
    join_family_by_code-refines plain "b" "code" invited joined home joins_home

-- Disabling users.
abbrev security : Security (Database ℕ)
security = record {
  hash_password = λ password. give password;
  verify_password = λ password hash. ok true;
  new_session_token = λ size. give "token";
  hash_token = λ token. token;
}

abbrev service : Service (Database ℕ)
service = record {
  users = user_repository engine same;
  security = security;
  sha256 = λ s. 0;
  to_lower = same;
  context_error = none;
  now = 20;
}

abbrev server : AuthServer (Database ℕ)
server = record {
  auth = service;
  sessions = session_store engine same;
  token_bytes = 32;
  session_ttl = 100;
  now = 20;
}

abbrev start : Accounts (Database ℕ)
start = record { limits = new small; store = db }

abbrev without_bob : Accounts (Database ℕ)
without_bob = (Auth.disable_user (on_postgres engine same server) "ta" (some " b") start).0

disables :
    Auth.disable_user (on_postgres engine same server) "ta" (some " b") start ≡ (without_bob, ok tt)
unfolding Auth.disable_user Accounts.disable_user Users.disable_user revoke_sessions_by_user_id
    get_user_by_session_token_hash session_user first_user authenticate authenticated_admin
    known_user require_id any_row find_row update_rows order_by put_in_order trim_space trim_left
    trim_right is_space
disables = refl

ann_authenticates :
    (authenticate (session_store engine same) same "ta" 30 without_bob.store).1 ≡ ok ann
unfolding Auth.disable_user Accounts.disable_user Users.disable_user revoke_sessions_by_user_id
    get_user_by_session_token_hash session_user first_user authenticate authenticated_admin
    known_user require_id any_row find_row update_rows order_by put_in_order trim_space trim_left
    trim_right is_space
ann_authenticates = refl

spelled_b : cast engine (trim_space " b") ≡ done "b"
unfolding trim_space trim_left trim_right is_space
spelled_b = refl

disable_user-locks_out_example : ann.id ≢ "b"
disable_user-locks_out_example =
    disable_user-locks_out engine same server "ta" " b" "b" start without_bob spelled_b disables
      same "ta" 30 ann ann_authenticates

ann_is_admin : Auth.admin (on_postgres engine same server) "ta" start ≡ (start, ok ann)
unfolding get_user_by_session_token_hash session_user first_user authenticate authenticated_admin
    known_user find_row order_by put_in_order
ann_is_admin = refl

filled_a : is_empty (trim_space "A") ≡ false
unfolding trim_space trim_left trim_right is_space
filled_a = refl

spelled_a : cast engine (trim_space "A") ≡ done ann.id
unfolding trim_space trim_left trim_right is_space
spelled_a = refl

other_text : trim_space "A" ≢ ann.id
unfolding trim_space trim_left trim_right is_space
other_text h = ground (arith, eq_iff "A" "a", h)

ann_there : find_row (has_id ann.id) db.users ≡ some ann
unfolding find_row
ann_there = refl

disable_user-other_spelling_example :
    (t : Accounts (Database ℕ)) × (Auth.disable_user
        (on_postgres engine same server)
        "ta"
        (some "A")
        start
      ≡ (t, ok tt))
    × ((authenticate (session_store engine same) same "ta" 30 t.store).1 ≢ ok ann)
disable_user-other_spelling_example =
    disable_user-other_spelling engine same server "ta" "A" start start ann ann_is_admin filled_a
      other_text spelled_a ann_there same "ta" 30 ann refl
