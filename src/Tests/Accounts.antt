-- ===== src/Tests/Accounts.antt =====
-- Accounts: runs on a store of one user, and instances of the theorems.
use text.Mathlib.Text.{◌==◌}
use our_ne_zt_core.Common.{
  some, ◌-◌, ℕ, ◌+◌, ◌≡◌, refl, true, false, none, [], ◌∷◌, String, if◌then◌else◌, arith,
}
use our_ne_zt_core.Common.Int64.{le}
use our_ne_zt_core.Common.Text.{trim_space, trim_left, trim_right, is_space}
use our_ne_zt_core.Domain.{User, user_role_admin, user_role_user, zero_time}
use our_ne_zt_core.Errors.{Error, ok, err}
use our_ne_zt_core.Action.{Action, give}
use our_ne_zt_core.AuthLimit.{
  new, with_defaults, allow, allow_account, clean, admit, charge, acquire, release, minute,
}
use our_ne_zt_core.AuthLimit.Table.{IsMap, lookup, insert, drop_expired}
use our_ne_zt_core.Service.Accounts.{
  Accounts, Service, UserRepository, Security, create_user, login, change_password,
  ensure_bootstrap_admin, holding, begin_password_work, attempt, acquire_slot, check_password,
}
use our_ne_zt_core.Service.Accounts.Slots.{GivesBack, slots_given_back}
use our_ne_zt_core.Service.Accounts.Checks.{login-ok, login-limited}
use our_ne_zt_core.Tests.AuthLimit.{small}

abbrev user : User
user = record {
  id = "u1";
  email = "a@b.sg";
  display_name = "A";
  role = user_role_admin;
  password_hash = "secret";
  must_change_password = false;
  disabled_at = none;
  created_at = zero_time;
  updated_at = zero_time;
}

abbrev find : String → Action ℕ User
find email s = if email == "a@b.sg" then (s, ok user) else (s, err Error.not_found)

-- A store that counts the changes.
abbrev users : UserRepository ℕ
users = record {
  create_user = λ u s. (s + 1, ok u);
  list_users = give (user ∷ []);
  has_active_admin = give true;
  get_user_by_id = λ id. give user;
  get_user_by_email = find;
  update_user_account = λ id email name s. (s + 1, ok user);
  promote_to_bootstrap_admin = λ id name hash s. (s + 1, ok user);
  update_user_password = λ id hash must s. (s + 1, ok tt);
  disable_user = λ id s. (s + 1, ok tt);
  create_admin_access_key = λ id hash expires s. (s + 1, ok tt);
  consume_admin_access_key = λ id hash now s. (s + 1, ok true);
}

-- Passwords as they are.
abbrev security : Security ℕ
security = record {
  hash_password = λ password. give password;
  verify_password = λ password hash. ok (password == hash);
  new_session_token = λ size. give "token";
  hash_token = λ token. token;
}

abbrev service : Service ℕ
service = record {
  users = users;
  security = security;
  sha256 = λ s. 0;
  to_lower = λ s. s;
  context_error = none;
  now = zero_time;
}

abbrev fresh : Accounts ℕ
fresh = record { limits = new small; store = 0 }

abbrev after_login : Accounts ℕ
after_login = (login service " a@b.sg" "secret" fresh).0

logs_in : login service " a@b.sg" "secret" fresh ≡ (after_login, ok user)
unfolding login holding begin_password_work attempt acquire_slot check_password trim_space trim_left
    trim_right is_space new with_defaults allow_account allow clean admit charge acquire release
    lookup insert drop_expired le
logs_in = refl

wrong_password : (login service "a@b.sg" "guess" fresh).1 ≡ err Error.unauthenticated
unfolding login holding begin_password_work attempt acquire_slot check_password trim_space trim_left
    trim_right is_space new with_defaults allow_account allow clean admit charge acquire release
    lookup insert drop_expired le
wrong_password = refl

login-ok_example :
    (users.get_user_by_email (trim_space " a@b.sg") 0 ≡ (after_login.store, ok user))
    × (user.disabled_at ≡ none)
    × (security.verify_password "secret" user.password_hash ≡ ok true)
login-ok_example = login-ok service " a@b.sg" "secret" fresh after_login user logs_in

-- A limiter that has seen the account as often as it allows.
abbrev spent : Accounts ℕ
spent = record {
  limits = record {
    buckets = (0, record { count = 1; until = zero_time + minute }) ∷ [];
    next_cleanup = zero_time + minute;
    cfg = small;
    slots = 0;
  };
  store = 0;
}

spent-IsMap : IsMap spent.limits.buckets
unfolding lookup
spent-IsMap = (refl, tt)

spent_bucket :
    lookup 0 spent.limits.buckets ≡ some (record { count = 1; until = zero_time + minute })
unfolding lookup
spent_bucket = refl

login-limited_example :
    let r = login service "a@b.sg" "secret" spent in
    (r.1 ≡ err (Error.limited (zero_time + minute - zero_time)))
    × (r.0.store ≡ 0)
    × (lookup 0 r.0.limits.buckets ≡ some (record { count = 1; until = zero_time + minute }))
login-limited_example =
    login-limited service "a@b.sg" "secret" spent (record { count = 1; until = zero_time + minute })
      refl spent-IsMap spent_bucket (omega arith) (omega arith)

slots_given_back_example :
    GivesBack (create_user service "a@b.sg" "A" "secret" user_role_user)
    × GivesBack (login service "a@b.sg" "secret")
    × GivesBack (change_password service "u1" "secret" "other")
    × GivesBack (ensure_bootstrap_admin service "a@b.sg" "A" "secret")
slots_given_back_example =
    slots_given_back service "a@b.sg" "A" "secret" user_role_user "u1" "other"
