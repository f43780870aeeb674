-- ===== src/Service/Accounts/Slots.antt =====
-- The slots of the limiter across the calls of internal/service/auth.go.
use Prim.Native.String.{◌++◌}
use our_ne_zt_core.Common.Text.{trim_space}
use our_ne_zt_core.Common.{
  ℕ, ◌+◌, String, Bool, true, false, Option, none, some, ◌≡◌, refl, ap, ◌∙◌, if◌then◌else◌, inl,
  inr, ltb, Bool-cases, Option-cases, arith,
}
use our_ne_zt_core.Domain.{EntityId, UserRole, Time}
use our_ne_zt_core.Errors.{Error, Result, ok, err}
use our_ne_zt_core.Action.{Action, proceed, ◌>>=◌, give, throw}
use our_ne_zt_core.AuthLimit.{Limiter, allow, allow_account, clean, admit, charge, acquire, release}
use our_ne_zt_core.AuthLimit.Table.{Bucket, lookup}
use our_ne_zt_core.Service.Accounts.{
  Accounts, Service, on_store, holding, acquire_slot, attempt, begin_password_work, create_user,
  login, change_password, ensure_bootstrap_admin,
}

charge-slots :
    (l : Limiter) (now : Time) (key limit : ℕ) (b : Bucket)
    → (charge l now key limit b).0.slots ≡ l.slots
unfolding charge
charge-slots l now key limit b = ground arith

admit-slots :
    (l : Limiter) (now : Time) (key limit : ℕ) (b : Option Bucket)
    → (admit l now key limit b).0.slots ≡ l.slots
unfolding admit
admit-slots l now key limit none =
    ground (arith, charge-slots l now key limit (record { count = 0; until = now + l.cfg.window }))
admit-slots l now key limit (some b) = charge-slots l now key limit _

allow-slots : (l : Limiter) (now : Time) (key limit : ℕ) → (allow l now key limit).0.slots ≡ l.slots
unfolding allow clean
allow-slots l now key limit =
    ground (arith, admit-slots (clean l now) now key limit (lookup key (clean l now).buckets))

module _ {S : Type 0} where
  -- A slot is taken if the start of a call succeeds, and none if it fails.
  abbrev Opens : Accounts S → Accounts S × Result (Unit {0}) → Type 0
  Opens s (t, ok u) = t.limits.slots ≡ s.limits.slots + 1
  Opens s (t, err e) = t.limits.slots ≡ s.limits.slots

  Opens-trans :
      (s t : Accounts S) (x : Accounts S × Result (Unit {0}))
      → t.limits.slots ≡ s.limits.slots
      → Opens t x
      → Opens s x
  Opens-trans s t (u, ok r) e o = omega (arith, e, o)
  Opens-trans s t (u, err f) e o = omega (arith, e, o)

  holding-slots {ℓ} :
      {A : Type ℓ} (body : Action S A) (s : Accounts S) (x : Accounts S × Result (Unit {0}))
      → Opens s x
      → (begin : Action (Accounts S) (Unit {0})) → begin s ≡ x
      → (holding begin body s).0.limits.slots ≡ s.limits.slots
  unfolding holding release
  holding-slots body s (t, ok u) o begin e = simp e (omega (arith, o))
  holding-slots body s (t, err f) o begin e = simp e o

  -- A call that leaves as many slots taken as it found, however it ends.
  pub record GivesBack {ℓ} {A : Type ℓ} (m : Action (Accounts S) A) : Type ℓ where
    pub same : (s : Accounts S) → (m s).0.limits.slots ≡ s.limits.slots

  guarded {ℓ} :
      {A : Type ℓ} (e : Error) (b : Bool) (m : Action (Accounts S) A)
      → GivesBack m
      → GivesBack (if b then throw e else m)
  guarded e true m h = record { same = λ s. refl }
  guarded e false m h = h

  proceed-give {ℓ κ} :
      {A : Type ℓ} {B : Type κ} (f : A → B) (x : Accounts S × Result A)
      → (proceed (λ a. give (f a)) x).0 ≡ x.0
  proceed-give f (s, ok a) = refl
  proceed-give f (s, err e) = refl

  unless-present {ℓ} :
      {A : Type ℓ} (m : Action (Accounts S) A)
      → GivesBack m
      → (t : Accounts S) (r : Result Bool)
      → (proceed
          (λ present. if present then give none else (m >>= λ a. give (some a)))
          (t, r)).0.limits.slots
        ≡ t.limits.slots
  unless-present m h t (ok true) = refl
  unless-present m h t (ok false) = ap (λ x. x.limits.slots) (proceed-give some (m t)) ∙ h.same t
  unless-present m h t (err e) = refl

  bootstrap-GivesBack {ℓ} :
      {A : Type ℓ} (present : Action S Bool) (m : Action (Accounts S) A)
      → GivesBack m
      → GivesBack
          (on_store present >>= λ found. if found then give none else (m >>= λ a. give (some a)))
  bootstrap-GivesBack present m h = record {
    same = λ s. unless-present m h (on_store present s).0 (on_store present s).1;
  }

module _ {S : Type 0} (service : Service S) where
  acquire_slot-Opens : (s : Accounts S) → Opens s (acquire_slot service s)
  unfolding acquire_slot acquire
  acquire_slot-Opens s = elim (Option-cases service.context_error) [
    | inl e ↦ elim (Bool-cases (ltb s.limits.slots s.limits.cfg.max_concurrent)) [
      | inl f ↦ simp (e, f) refl
      | inr f ↦ simp (e, f) refl
    ]
    | inr (x, e) ↦ simp e refl
  ]

  attempt-Opens : (account : String) (s : Accounts S) → Opens s (attempt service account s)
  unfolding attempt allow_account
  attempt-Opens account s =
      let key = service.sha256 ("account:" ++ service.to_lower (trim_space account)) in
      let limited = allow s.limits service.now key s.limits.cfg.account_limit in
      let kept = allow-slots s.limits service.now key s.limits.cfg.account_limit in
      let t = record s { limits = limited.0 } in
      elim (Bool-cases (ltb 0 limited.1)) [
        | inl e ↦ simp e kept
        | inr e ↦ simp e (Opens-trans s t (acquire_slot service t) kept (acquire_slot-Opens t))
      ]

  begin-Opens :
      (account : String) (s : Accounts S) → Opens s (begin_password_work service account s)
  unfolding begin_password_work
  begin-Opens account s = elim (Option-cases service.context_error) [
    | inl e ↦ simp e (attempt-Opens account s)
    | inr (x, e) ↦ simp e refl
  ]

  -- Work on passwords, after either start.
  working {ℓ} :
      {A : Type ℓ} (account : String) (body : Action S A)
      → GivesBack (holding (begin_password_work service account) body)
  working account body = record {
    same = λ s. holding-slots body s _ (begin-Opens account s) _ refl;
  }

  working_acquired {ℓ} :
      {A : Type ℓ} (body : Action S A) → GivesBack (holding (acquire_slot service) body)
  working_acquired body = record {
    same = λ s. holding-slots body s _ (acquire_slot-Opens s) _ refl;
  }

  -- Whatever the repository answers and however a call ends, all work on passwords leaves as many
  -- slots taken as it found.
  pub slots_given_back :
      (email name password : String) (role : UserRole) (user_id : EntityId) (new_password : String)
      → GivesBack (create_user service email name password role)
        × GivesBack (login service email password)
        × GivesBack (change_password service user_id password new_password)
        × GivesBack (ensure_bootstrap_admin service email name password)
  unfolding create_user login change_password ensure_bootstrap_admin
  slots_given_back email name password role user_id new_password = (
    search (guarded, working, working_acquired, bootstrap-GivesBack),
    working _ _,
    guarded _ _ _ (working _ _),
    search (guarded, working, working_acquired, bootstrap-GivesBack),
  )
