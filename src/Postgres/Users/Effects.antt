-- ===== src/Postgres/Users/Effects.antt =====
-- What the statements of users.go that succeed have found and what they leave.
use our_ne_zt_core.Common.{
  String, Bool, true, false, [], ◌∷◌, ◌≡◌, refl, arith, sym, ◌∙◌, suc, not, ◌++◌,
}
use our_ne_zt_core.Errors.{ok}
use our_ne_zt_core.Domain.{EntityId, Time, User}
use our_ne_zt_core.Postgres.Sql.{
  Outcome, done, failed, ◌>>=◌, settle, require, row_of, find_row, any_row, update_rows,
  check_violation, unique_violation, foreign_key_violation,
}
use our_ne_zt_core.Postgres.Tables.{Engine, Database, cast}
use our_ne_zt_core.Postgres.Users.{
  change_user, only_change, insert_user, insert_session, insert_key, change_account, spend_key,
  revoke_all,
}
use our_ne_zt_core.Postgres.UserRows.{
  has_id, has_email, is_role, inserted, taken_by_other, with_account, session_hash, new_session,
  key_hash, new_key, usable_key, use_key, open_session, revoke,
}

-- What holds after a failure and after a success holds after a statement.
pub settled {ℓ} :
    {S : Type 0} {T : Type 0} (P : S → Type ℓ) (s : S) (o : Outcome (S × T))
    → P s
    → ((t : S) (a : T) → o ≡ done (t, a) → P t)
    → P (settle s o).0
settled P s (failed e) h k = h
settled P s (done (t, a)) h k = k t a refl

-- A chain that ends well: its first part, and what follows.
pub >>=-done {ℓ κ} :
    {T : Type ℓ} {U : Type κ} (m : Outcome T) (f : T → Outcome U) {u : U}
    → (m >>= f) ≡ done u
    → (t : T) × (m ≡ done t) × (f t ≡ done u)
>>=-done (done t) f h = (t, refl, h)
>>=-done (failed e) f h = cc

-- A call that succeeds is a statement that succeeds.
pub settle-ok {ℓ κ} :
    {S : Type ℓ} {T : Type κ} (s : S) (o : Outcome (S × T)) {t : S} {a : T}
    → settle s o ≡ (t, ok a)
    → o ≡ done (t, a)
settle-ok s (done (t, a)) h = cc
settle-ok s (failed e) h = cc

pub not-true : (b : Bool) → not b ≡ true → b ≡ false
not-true b h = ground arith

pub require-done : (b : Bool) (e : _) {u : Unit {0}} → require b e ≡ done u → b ≡ true
require-done true e h = refl
require-done false e h = cc

pub done_state {ℓ κ} :
    {S : Type ℓ} {T : Type κ} (s t : S) (a b : T)
    → ◌≡◌ {A = Outcome (S × T)} (done (s, a)) (done (t, b))
    → t ≡ s
done_state s t a b h = cc

pub done_value {ℓ κ} :
    {S : Type ℓ} {T : Type κ} (s t : S) (a b : T)
    → ◌≡◌ {A = Outcome (S × T)} (done (s, a)) (done (t, b))
    → b ≡ a
done_value s t a b h = cc

pub done_inj {ℓ} : {T : Type ℓ} (a b : T) → ◌≡◌ {A = Outcome T} (done a) (done b) → b ≡ a
done_inj a b h = cc

-- The statements that succeed, and what they leave.
module _ {F : Type 0} (engine : Engine) (to_lower : String → String) (db : Database F) where
  abbrev pub with_user : EntityId → (User → User) → Database F
  with_user id f = record db { users = update_rows (has_id id) f db.users }

  pub change_user-done :
      (user_id : EntityId) (f : User → User) {t : Database F} {a : User}
      → change_user engine to_lower user_id f db ≡ done (t, a)
      → (id : EntityId) × (cast engine user_id ≡ done id) × (t ≡ with_user id f)
  change_user-done user_id f h =
      let (id, e, k) = >>=-done (cast engine user_id) _ h in
      let (u, found, end) = >>=-done (row_of (find_row (has_id id) db.users)) _ k in
      (id, e, done_state _ _ _ _ end)

  pub only_change-done :
      (user_id : EntityId) (f : User → User) {t : Database F} {a : Unit {0}}
      → only_change engine to_lower user_id f db ≡ done (t, a)
      → (id : EntityId) × (cast engine user_id ≡ done id) × (t ≡ with_user id f)
  only_change-done user_id f h =
      let ((s, u), e, end) = >>=-done (change_user engine to_lower user_id f db) _ h in
      let (id, c, k) = change_user-done user_id f e in (id, c, done_state _ _ _ _ end ∙ k)

  pub insert_user-done :
      (user : User) {t : Database F} {a : User}
      → insert_user engine to_lower user db ≡ done (t, a)
      → let row = inserted (engine.new_id db.drawn) db.clock user in
        (is_role user.role ≡ true)
        × (any_row (has_id row.id) db.users ≡ false)
        × (any_row (has_email row.email) db.users ≡ false)
        × (t ≡ record db { users = db.users ++ row ∷ []; drawn = suc db.drawn })
  insert_user-done user h =
      let (_, role, k) = >>=-done (require (is_role user.role) check_violation) _ h in
      let id = any_row (has_id (engine.new_id db.drawn)) db.users in
      let email = any_row (has_email user.email) db.users in
      let (_, fresh, k2) = >>=-done (require (not id) unique_violation) _ k in
      let (_, free, end) = >>=-done (require (not email) unique_violation) _ k2 in
      (
        require-done _ _ role,
        not-true _ (require-done _ _ fresh),
        not-true _ (require-done _ _ free),
        done_state _ _ _ _ end,
      )

  pub change_account-done :
      (user_id : EntityId) (email name : String) {t : Database F} {a : User}
      → change_account engine to_lower user_id email name db ≡ done (t, a)
      → (id : EntityId) × (any_row (taken_by_other id email) db.users ≡ false)
        × (t ≡ with_user id (with_account db.clock email name))
  change_account-done user_id email name h =
      let (id, e, k) = >>=-done (cast engine user_id) _ h in
      let (u, found, k2) = >>=-done (row_of (find_row (has_id id) db.users)) _ k in
      let taken = any_row (taken_by_other id email) db.users in
      let (_, free, k3) = >>=-done (require (not taken) unique_violation) _ k2 in
      let (id', e', end) = change_user-done user_id (with_account db.clock email name) k3 in
      (id, not-true _ (require-done _ _ free), rw (done_inj _ _ (sym e' ∙ e)) end)

  pub insert_session-done :
      (user_id : EntityId) (hash : String) (until : Time) {t : Database F} {a : Unit {0}}
      → insert_session engine to_lower user_id hash until db ≡ done (t, a)
      → (id : EntityId) × (cast engine user_id ≡ done id)
        × (any_row (session_hash hash) db.sessions ≡ false)
        × (any_row (has_id id) db.users ≡ true)
        × (t ≡ record db { sessions = db.sessions ++ new_session db.clock id hash until ∷ [] })
  insert_session-done user_id hash until h =
      let (id, e, k) = >>=-done (cast engine user_id) _ h in
      let used = any_row (session_hash hash) db.sessions in
      let (_, free, k2) = >>=-done (require (not used) unique_violation) _ k in
      let known = any_row (has_id id) db.users in
      let (_, user, end) = >>=-done (require known foreign_key_violation) _ k2 in
      (id, e, not-true _ (require-done _ _ free), require-done _ _ user, done_state _ _ _ _ end)

  pub insert_key-done :
      (user_id : EntityId) (hash : String) (until : Time) {t : Database F} {a : Unit {0}}
      → insert_key engine to_lower user_id hash until db ≡ done (t, a)
      → (id : EntityId) × (any_row (key_hash hash) db.access_keys ≡ false)
        × (any_row (has_id id) db.users ≡ true)
        × (t ≡ record db { access_keys = db.access_keys ++ new_key db.clock id hash until ∷ [] })
  insert_key-done user_id hash until h =
      let (id, e, k) = >>=-done (cast engine user_id) _ h in
      let used = any_row (key_hash hash) db.access_keys in
      let (_, free, k2) = >>=-done (require (not used) unique_violation) _ k in
      let known = any_row (has_id id) db.users in
      let (_, user, end) = >>=-done (require known foreign_key_violation) _ k2 in
      (id, not-true _ (require-done _ _ free), require-done _ _ user, done_state _ _ _ _ end)

  abbrev pub with_keys : EntityId → String → Time → Database F
  with_keys id hash now = record db {
    access_keys = update_rows (usable_key id hash now) (use_key now) db.access_keys;
  }

  pub spend_key-done :
      (user_id : EntityId) (hash : String) (now : Time) {t : Database F} {a : Bool}
      → spend_key engine to_lower user_id hash now db ≡ done (t, a)
      → (id : EntityId) × (t ≡ with_keys id hash now)
        × (a ≡ any_row (usable_key id hash now) db.access_keys)
  spend_key-done user_id hash now h =
      let (id, e, end) = >>=-done (cast engine user_id) _ h in
      (id, done_state _ _ _ _ end, done_value _ _ _ _ end)

  pub revoke_all-done :
      (user_id : EntityId) {t : Database F} {a : Unit {0}}
      → revoke_all engine to_lower user_id db ≡ done (t, a)
      → (id : EntityId) × (cast engine user_id ≡ done id)
        × (t ≡ record db { sessions = update_rows (open_session id) (revoke db.clock) db.sessions })
  revoke_all-done user_id h =
      let (id, e, end) = >>=-done (cast engine user_id) _ h in (id, e, done_state _ _ _ _ end)
