-- ===== src/Service/Accounts/Checks.antt =====
-- What the calls of internal/service/auth.go check before they succeed.
use Prim.Native.String.{◌++◌}
use our_ne_zt_core.Common.Text.{trim_space}
use our_ne_zt_core.Common.{
  ℕ, ◌-◌, ◌≤◌, ◌<◌, String, true, Option, none, some, ◌≡◌, refl, sym, ap, ◌∙◌, lt→ltb, arith,
}
use our_ne_zt_core.Domain.{User}
use our_ne_zt_core.Errors.{Error, Result, ok, err, ok_inj}
use our_ne_zt_core.Action.{Action, proceed, proceed-ok, lift, give, ◌>>◌}
use our_ne_zt_core.AuthLimit.{allow, allow_account}
use our_ne_zt_core.AuthLimit.Table.{Bucket, IsMap, lookup}
use our_ne_zt_core.AuthLimit.Blocked.{refused}
use our_ne_zt_core.Service.Accounts.{
  Accounts, Service, on_store, give_back, holding, acquire_slot, attempt, begin_password_work,
  login, verified_user, check_password, normalize_email, unless_done,
}

module _ {S : Type 0} (service : Service S) where
  attempt-store :
      (account : String) (s : Accounts S) → (attempt service account s).0.store ≡ s.store
  unfolding attempt acquire_slot
  attempt-store account s = ground arith

  begin-store :
      (c : Option Error) (account : String) (s : Accounts S)
      → (unless_done c (attempt service account) s).0.store ≡ s.store
  begin-store none account s = attempt-store account s
  begin-store (some e) account s = refl

  check_password-ok :
      (user : User) (password : String)
      → check_password service user password ≡ ok tt
      → (user.disabled_at ≡ none)
        × (service.security.verify_password password user.password_hash ≡ ok true)
  unfolding check_password
  check_password-ok user password h = ground (arith, h)

  holding-ok {ℓ} :
      {A : Type ℓ} (body : Action S A) (s t : Accounts S) (a : A)
      (x : Accounts S × Result (Unit {0}))
      → x.0.store ≡ s.store
      → proceed (λ u v. give_back (on_store body v)) x ≡ (t, ok a)
      → body s.store ≡ (t.store, ok a)
  holding-ok body s t a (v, ok u) e h =
      let first : (body v.store).0 ≡ t.store = ap (λ y. y.0.store) h in
      let second : (body v.store).1 ≡ ok a = ap (λ y. y.1) h in
      let whole : body v.store ≡ (t.store, ok a) = cc in ap body (sym e) ∙ whole
  holding-ok body s t a (v, err f) e h = cc

  -- What a check that is passed leaves: the state, and the user it was passed for.
  checked {ℓ} :
      {A : Type ℓ} (r : Result (Unit {0})) (a b : A) (s t : S)
      → proceed (λ u v. (v, ok a)) (s, r) ≡ (t, ok b)
      → (r ≡ ok tt) × (◌≡◌ {A = S × Result A} (s, ok a) (t, ok b)) × (a ≡ b)
  checked (ok u) a b s t h = (refl, h, ok_inj (ap (λ x. x.1) h))
  checked (err e) a b s t h = cc

  -- Whoever logs in is the user that the repository answers for the normalised address, is not
  -- disabled, and gave a password that the stored hash verifies; the store is left as the look-up
  -- left it.
  pub login-ok :
      (email password : String) (s t : Accounts S) (u : User)
      → login service email password s ≡ (t, ok u)
      → (service.users.get_user_by_email (normalize_email service email) s.store ≡ (t.store, ok u))
        × (u.disabled_at ≡ none)
        × (service.security.verify_password password u.password_hash ≡ ok true)
  unfolding login holding begin_password_work
  login-ok email password s t u h =
      let account = "login:" ++ normalize_email service email in
      let inner =
        holding-ok (verified_user service (normalize_email service email) password) s t u
          (unless_done service.context_error (attempt service account) s)
          (begin-store service.context_error account s) h in
      let (v, user, found, rest) =
        proceed-ok (λ user. lift (check_password service user password) >> give user)
          (service.users.get_user_by_email (normalize_email service email) s.store) inner in
      let (passed, same, is_user) =
        checked (check_password service user password) user u v t.store rest in
      let (enabled, verified) = check_password-ok user password passed in
      (found ∙ same, simp (sym is_user) enabled, simp (sym is_user) verified)

  -- The key of the limiter that a login is counted under.
  abbrev pub login_key : String → ℕ
  login_key email =
      let account = "login:" ++ normalize_email service email in
      service.sha256 ("account:" ++ service.to_lower (trim_space account))

  -- What a login comes to that the limiter makes wait.
  login-waits :
      (email password : String) (s : Accounts S) (wait : ℕ)
      → service.context_error ≡ none
      → let answer = allow s.limits service.now (login_key email) s.limits.cfg.account_limit in
        answer.1 ≡ wait
        → 0 < wait
        → login service email password s
          ≡ (record s { limits = answer.0 }, err (Error.limited wait))
  unfolding login holding begin_password_work attempt allow_account
  login-waits email password s wait live is_wait h = simp (live, is_wait, lt→ltb 0 wait h) refl

  -- With a live context and an account whose attempts are used up, a login fails with the rest of the
  -- account's window, whatever the password is; the store and the account's bucket stay as they are.
  pub login-limited :
      (email password : String) (s : Accounts S) (b : Bucket)
      → service.context_error ≡ none
      → IsMap s.limits.buckets
      → lookup (login_key email) s.limits.buckets ≡ some b
      → s.limits.cfg.account_limit ≤ b.count
      → service.now < b.until
      → let r = login service email password s in
        (r.1 ≡ err (Error.limited (b.until - service.now)))
        × (r.0.store ≡ s.store)
        × (lookup (login_key email) r.0.limits.buckets ≡ some b)
  login-limited email password s b live v found spent running =
      let key = login_key email in
      let (stays, waits) =
        refused s.limits service.now key s.limits.cfg.account_limit b v found spent running in
      let r = login-waits email password s (b.until - service.now) live waits (omega arith) in
      (ap (λ x. x.1) r, ap (λ x. x.0.store) r, ap (λ x. lookup key x.0.limits.buckets) r ∙ stays)
