-- ===== src/Service/Accounts.antt =====
-- internal/service/auth.go: accounts, passwords and the administrators' access keys, over a user
-- repository, with the limiter in front of all work on passwords. One call runs at a time.
use Prim.Native.String.{◌++◌}
use text.Mathlib.Text.{◌==◌}
use our_ne_zt_core.Common.{
  ℕ, ◌+◌, ◌*◌, String, Bool, true, false, not, ◌&&◌, ◌||◌, Option, none, some, List, if◌then◌else◌,
  ltb,
}
use our_ne_zt_core.Common.Text.{is_empty, trim_space}
use our_ne_zt_core.Common.Int64.{Int64, le}
use our_ne_zt_core.Domain.{
  EntityId, Time, User, UserRole, user_role_admin, user_role_user, zero_time,
}
use our_ne_zt_core.Errors.{Error, Result, ok, err}
use our_ne_zt_core.Action.{Action, proceed, ◌>>=◌, ◌>>◌, give, throw, lift}
use our_ne_zt_core.AuthLimit.{Limiter, allow_account, acquire, release}
pub mod Slots
pub mod Checks

-- `UserRepository`.
pub record UserRepository (S : Type 0) : Type 0 where
  pub create_user : User → Action S User
  pub list_users : Action S (List User)
  pub has_active_admin : Action S Bool
  pub get_user_by_id : EntityId → Action S User
  pub get_user_by_email : String → Action S User
  pub update_user_account : EntityId → String → String → Action S User
  pub promote_to_bootstrap_admin : EntityId → String → String → Action S User
  pub update_user_password : EntityId → String → Bool → Action S (Unit {0})
  pub disable_user : EntityId → Action S (Unit {0})
  pub create_admin_access_key : EntityId → String → Time → Action S (Unit {0})
  pub consume_admin_access_key : EntityId → String → Time → Action S Bool

-- What the service uses of internal/platform/security: hashing draws a salt, and making a token draws
-- its bytes, so both change the state, which holds the source of randomness too.
pub record Security (S : Type 0) : Type 0 where
  pub hash_password : String → Action S String
  pub verify_password : String → String → Result Bool
  pub new_session_token : Int64 → Action S String
  pub hash_token : String → String

-- The limiter of the service, and what the repository and the randomness change.
pub record Accounts (S : Type 0) : Type 0 where
  pub limits : Limiter
  pub store : S

-- What the service is built with, and what the context and the clock say when it is called: the error
-- of a context that is done, and the time. `to_lower` is `strings.ToLower`.
pub record Service (S : Type 0) : Type 0 where
  pub users : UserRepository S
  pub security : Security S
  pub sha256 : String → ℕ
  pub to_lower : String → String
  pub context_error : Option Error
  pub now : Time

module _ {S : Type 0} where
  -- A call that leaves the limiter alone.
  abbrev pub on_store {ℓ} : {A : Type ℓ} → Action S A → Action (Accounts S) A
  on_store m s = (record s { store = (m s.store).0 }, (m s.store).1)

  abbrev give_back {ℓ} : {A : Type ℓ} → Accounts S × Result A → Accounts S × Result A
  give_back (s, r) = (record s { limits = release s.limits }, r)

  -- `defer release()`: once a slot is held, the body runs and the slot is given back in every case.
  unfoldable pub holding {ℓ} :
      {A : Type ℓ} → Action (Accounts S) (Unit {0}) → Action S A → Action (Accounts S) A
  holding begin body = λ s. proceed (λ u t. give_back (on_store body t)) (begin s)

  -- `ctx.Err()`, looked at first.
  abbrev unless_done {ℓ} : {A : Type ℓ} → Option Error → Action S A → Action S A
  unless_done none m = m
  unless_done (some e) m = throw e

module _ {S : Type 0} (service : Service S) where
  unfoldable pub acquire_slot : Action (Accounts S) (Unit {0})
  acquire_slot s =
      let (limits, r) = acquire service.context_error s.limits in (record s { limits = limits }, r)

  unfoldable pub attempt : String → Action (Accounts S) (Unit {0})
  attempt account s =
      let (limits, retry) =
        allow_account service.sha256 service.to_lower s.limits service.now account in
      let t = record s { limits = limits } in
      if ltb 0 retry then (t, err (Error.limited retry)) else acquire_slot t

  unfoldable pub begin_password_work : String → Action (Accounts S) (Unit {0})
  begin_password_work account = unless_done service.context_error (attempt account)

  abbrev pub normalize_email : String → String
  normalize_email email = service.to_lower (trim_space email)

  abbrev pub new_user : String → String → UserRole → String → Bool → User
  new_user email name role hash must_change = record {
    id = "";
    email = email;
    display_name = name;
    role = role;
    password_hash = hash;
    must_change_password = must_change;
    disabled_at = none;
    created_at = zero_time;
    updated_at = zero_time;
  }

  abbrev role_or_user : UserRole → UserRole
  role_or_user role = if is_empty role then user_role_user else role

  unfoldable pub create_user : String → String → String → UserRole → Action (Accounts S) User
  create_user email display_name password role =
      let address = normalize_email email in
      let granted = role_or_user role in
      if is_empty address || is_empty (trim_space password)
      then throw Error.invalid_argument
      else if not (granted == user_role_user) && not (granted == user_role_admin)
      then throw Error.invalid_argument
      else holding (begin_password_work ("create:" ++ address)) (do
        hash ← service.security.hash_password password
        service.users.create_user
            (new_user address (trim_space display_name) granted hash (granted == user_role_admin)))

  unfoldable pub list_users : Action (Accounts S) (List User)
  list_users = on_store service.users.list_users

  -- The tests that a password passes: the account is enabled and its hash is that of the password.
  unfoldable pub check_password : User → String → Result (Unit {0})
  check_password user password = elim user.disabled_at [
    | some t ↦ err Error.disabled_user
    | none ↦ elim (service.security.verify_password password user.password_hash) [
      | ok matches ↦ if matches then ok tt else err Error.unauthenticated
      | err e ↦ err e
    ]
  ]

  -- What `Login` does while it holds a slot.
  abbrev pub verified_user : String → String → Action S User
  verified_user address password = do
    user ← service.users.get_user_by_email address
    lift (check_password user password)
    give user

  unfoldable pub login : String → String → Action (Accounts S) User
  login email password =
      let address = normalize_email email in
      holding (begin_password_work ("login:" ++ address)) (verified_user address password)

  unfoldable pub change_password : EntityId → String → String → Action (Accounts S) (Unit {0})
  change_password user_id current_password new_password =
      if is_empty (trim_space user_id)
        || is_empty (trim_space current_password)
        || is_empty (trim_space new_password)
      then throw Error.invalid_argument
      else holding (begin_password_work ("password:" ++ user_id)) (do
        user ← service.users.get_user_by_id user_id
        lift (check_password user current_password)
        hash ← service.security.hash_password new_password
        service.users.update_user_password user_id hash false)

  unfoldable pub update_my_account : EntityId → String → String → Action (Accounts S) User
  update_my_account user_id email display_name =
      if is_empty (trim_space user_id)
        || is_empty (normalize_email email)
        || is_empty (trim_space display_name)
      then throw Error.invalid_argument
      else on_store (
          service.users.update_user_account user_id (normalize_email email)
            (trim_space display_name))

  abbrev pub key_admin : User → Result User
  key_admin user =
      if not (user.role == user_role_admin)
      then err Error.forbidden
      else if user.must_change_password
      then err Error.password_change_required
      else ok user

  -- The two results that Go returns are a pair here; the lengths and times fall back to the defaults.
  unfoldable pub generate_admin_access_key :
      EntityId → Int64 → Int64 → Time → Action (Accounts S) (String × Time)
  generate_admin_access_key admin_user_id key_bytes ttl now =
      let size = if le key_bytes 0 then 32 else key_bytes in
      let life = if le ttl 0 then 600_000_000_000 else ttl in
      if is_empty (trim_space admin_user_id)
      then throw Error.invalid_argument
      else on_store (do
        user ← service.users.get_user_by_id admin_user_id
        lift (key_admin user)
        key ← service.security.new_session_token size
        service.users.create_admin_access_key admin_user_id (service.security.hash_token key)
            (now + life)
        give (key, now + life))

  abbrev pub admin_role : User → Result (Unit {0})
  admin_role user = if user.role == user_role_admin then ok tt else err Error.forbidden

  abbrev granted_if : Bool → Result (Unit {0})
  granted_if consumed = if consumed then ok tt else err Error.forbidden

  unfoldable pub consume_admin_access_key :
      EntityId → String → Time → Action (Accounts S) (Unit {0})
  consume_admin_access_key admin_user_id key now =
      if is_empty (trim_space admin_user_id) || is_empty (trim_space key)
      then throw Error.invalid_argument
      else on_store (do
        user ← service.users.get_user_by_id admin_user_id
        lift (admin_role user)
        consumed ←
            service.users.consume_admin_access_key admin_user_id (service.security.hash_token key)
              now
        lift (granted_if consumed))

  unfoldable pub disable_user : EntityId → Action (Accounts S) (Unit {0})
  disable_user user_id =
      if is_empty (trim_space user_id)
      then throw Error.invalid_argument
      else on_store (service.users.disable_user user_id)

  -- The administrator's account: the one with the address is promoted, or else one is created.
  unfoldable pub promote_or_create : String → String → String → S × Result User → S × Result User
  promote_or_create address name hash (s, ok existing) =
      service.users.promote_to_bootstrap_admin existing.id name hash s
  promote_or_create address name hash (s, err Error.not_found) =
      service.users.create_user (new_user address name user_role_admin hash true) s
  promote_or_create address name hash (s, err e) = (s, err e)

  abbrev bootstrap_name : String → String
  bootstrap_name name = if is_empty name then "Bootstrap Admin" else name

  -- `none` where there is an administrator already and nothing is done.
  unfoldable pub ensure_bootstrap_admin :
      String → String → String → Action (Accounts S) (Option User)
  ensure_bootstrap_admin email display_name temporary_password =
      let address = normalize_email email in
      let password = trim_space temporary_password in
      if is_empty address || is_empty password then throw Error.invalid_argument else (do
        present ← on_store service.users.has_active_admin
        if present then give none else (do
          user ← holding acquire_slot (do
            hash ← service.security.hash_password password
            λ s.
                promote_or_create address (bootstrap_name (trim_space display_name)) hash
                  (service.users.get_user_by_email address s))
          give (some user)))
