-- ===== src/Server/Auth/Calls.antt =====
-- Taking apart the successful calls of the handlers of auth.go, and the server on PostgreSQL.
use our_ne_zt_core.Common.{
  String, Bool, true, false, ◌≡◌, ◌∙◌, refl, sym, ap, arith, Bool-cases, inl, inr, if◌then◌else◌,
}
use our_ne_zt_core.Common.Text.{is_empty, trim_space}
use our_ne_zt_core.Domain.{EntityId}
use our_ne_zt_core.Errors.{Error, Result, ok, err, ok_inj}
use our_ne_zt_core.Action.{Action, throw}
use our_ne_zt_core.Service.Accounts.{Accounts, on_store}
use our_ne_zt_core.Server.Errors.{handle, respond}
use our_ne_zt_core.Server.Mapping.{require_id}
use our_ne_zt_core.Server.Auth.{AuthServer}
use our_ne_zt_core.Postgres.Tables.{Engine, Database}
use our_ne_zt_core.Postgres.Users.{user_repository, session_store}

respond-ok {ℓ κ} :
    {S : Type ℓ} {A : Type κ} (x : S × Result A) {t : S} {a : A}
    → ◌≡◌ {A = S × Result A} (x.0, respond x.1) (t, ok a)
    → x ≡ (t, ok a)
respond-ok (s, ok a) h = h
respond-ok (s, err e) h = cc

pub handle-ok {ℓ κ} :
    {S : Type ℓ} {A : Type κ} (m : Action S A) (s : S) {t : S} {a : A}
    → handle m s ≡ (t, ok a)
    → m s ≡ (t, ok a)
handle-ok m s h = respond-ok (m s) h

pub on_store-ok {ℓ} :
    {S : Type 0} {A : Type ℓ} (m : Action S A) (s : Accounts S) {t : Accounts S} {a : A}
    → on_store m s ≡ (t, ok a)
    → m s.store ≡ (t.store, ok a)
on_store-ok m s {t = t} {a = a} h =
    let first : (m s.store).0 ≡ t.store = ap (λ x. x.0.store) h in
    let second : (m s.store).1 ≡ ok a = ap (λ x. x.1) h in cc

-- A call that succeeds passed the test in front of it.
pub unless-ok {ℓ κ} :
    {S : Type ℓ} {A : Type κ} (b : Bool) (e : Error) (m : Action S A) (s : S) {t : S} {a : A}
    → (if b then throw e else m) s ≡ (t, ok a)
    → (b ≡ false) × (m s ≡ (t, ok a))
unless-ok true e m s h = cc
unless-ok false e m s h = (refl, h)

pub require_id-ok :
    (value : String) {id : EntityId} → require_id value ≡ ok id → id ≡ trim_space value
unfolding require_id
require_id-ok value h = elim (Bool-cases (is_empty (trim_space value))) [
  | inl e ↦ ground (arith, h, e)
  | inr e ↦ ok_inj (sym h ∙ simp e refl)
]

-- The server as cmd/core/main.go puts it together: users and sessions are those of PostgreSQL.
abbrev pub on_postgres :
    {F : Type 0} → Engine → (String → String) → AuthServer (Database F) → AuthServer (Database F)
on_postgres engine to_lower server = record server {
  auth = record server.auth { users = user_repository engine to_lower };
  sessions = session_store engine to_lower;
}
