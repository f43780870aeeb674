-- ===== src/Server/Access/Admission.antt =====
-- Who is let in: internal/server/auth_context.go.
use text.Mathlib.TextEquality.{eq_iff}
use our_ne_zt_core.Common.{
  String, false, none, some, ◌≡◌, refl, sym, ap, ◌∙◌, inl, inr, Bool-cases, Option-cases, arith,
}
use our_ne_zt_core.Common.Text.{is_empty}
use our_ne_zt_core.Domain.{User, Time, user_role_admin}
use our_ne_zt_core.Errors.{Result, ok, err}
use our_ne_zt_core.Action.{proceed}
use our_ne_zt_core.Server.Repositories.{AuthSessionStore}
use our_ne_zt_core.Server.Access.{authenticate, authenticated_admin, known_user, admin_only}

known_user-ok :
    (r : Result User) (u : User) → known_user r ≡ ok u → (r ≡ ok u) × (u.disabled_at ≡ none)
unfolding known_user
known_user-ok (ok v) u h = elim (Option-cases v.disabled_at) [
  | inl e ↦ ground (arith, h, e)
  | inr (t, e) ↦ ground (arith, h, e)
]
known_user-ok (err e) u h = ground (arith, h)

module _ {S : Type 0} (sessions : AuthSessionStore S) (hash_token : String → String)
    (token : String) (now : Time) where
  found-ok :
      (s t : S) (r : Result User) (u : User)
      → ◌≡◌ {A = S × Result User} (s, known_user r) (t, ok u)
      → (◌≡◌ {A = S × Result User} (s, r) (t, ok u)) × (u.disabled_at ≡ none)
  found-ok s t r u h =
      let (found, enabled) = known_user-ok r u (ap (λ x. x.1) h) in
      let same : s ≡ t = ap (λ x. x.0) h in (cc, enabled)

  pub authenticate-ok :
      (s t : S) (u : User)
      → authenticate sessions hash_token token now s ≡ (t, ok u)
      → (is_empty token ≡ false)
        × (sessions.get_user_by_session_token_hash (hash_token token) now s ≡ (t, ok u))
        × (u.disabled_at ≡ none)
  unfolding authenticate
  authenticate-ok s t u h = elim (Bool-cases (is_empty token)) [
    | inl e ↦ ground (arith, h, e)
    | inr e ↦
        let x = sessions.get_user_by_session_token_hash (hash_token token) now s in
        let found : authenticate sessions hash_token token now s ≡ (x.0, known_user x.1) =
          simp e refl in
        let (known, enabled) = found-ok x.0 t x.1 u (sym found ∙ h) in (e, known, enabled)
  ]

  admin_only-ok :
      (x : S × Result User) (t : S) (u : User)
      → proceed admin_only x ≡ (t, ok u)
      → (x ≡ (t, ok u)) × (u.role ≡ user_role_admin) × (u.must_change_password ≡ false)
  admin_only-ok (s, ok v) t u h = ground (arith, h, eq_iff v.role user_role_admin)
  admin_only-ok (s, err e) t u h = ground (arith, h)

  -- A request passes as an administrator's only on a token that the database knows as a session of
  -- that user, who is not disabled, is an administrator and does not have to change the password.
  pub authenticated_admin-authenticate :
      (s t : S) (u : User)
      → authenticated_admin (some (authenticate sessions hash_token token now)) s ≡ (t, ok u)
      → (is_empty token ≡ false)
        × (sessions.get_user_by_session_token_hash (hash_token token) now s ≡ (t, ok u))
        × (u.disabled_at ≡ none)
        × (u.role ≡ user_role_admin)
        × (u.must_change_password ≡ false)
  unfolding authenticated_admin
  authenticated_admin-authenticate s t u h =
      let (x, y, z) = admin_only-ok (authenticate sessions hash_token token now s) t u h in
      let (a, b, c) = authenticate-ok s t u x in (a, b, c, y, z)
