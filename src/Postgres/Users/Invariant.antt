-- ===== src/Postgres/Users/Invariant.antt =====
-- The unique columns of the tables that users.go writes.
use our_ne_zt_core.Common.{String, ◌≡◌, refl}
use our_ne_zt_core.Common.Text.{trim_space}
use our_ne_zt_core.Domain.{Time, User}
use our_ne_zt_core.Postgres.Sql.{settle}
use our_ne_zt_core.Postgres.Sql.Unique.{
  IsUnique, IsUnique-append, IsUnique-update_rows, IsUnique-set,
}
use our_ne_zt_core.Postgres.Tables.{Engine, Database}
use our_ne_zt_core.Postgres.UserRows.{
  has_id, inserted, promoted, disabled, with_password, with_account, new_session, new_key, revoke,
  use_key, usable_key, open_session,
}
use our_ne_zt_core.Postgres.Users.{
  create_user, promote_to_bootstrap_admin, disable_user, update_user_password, update_user_account,
  create_session, create_admin_access_key, consume_admin_access_key, revoke_sessions_by_user_id,
  insert_user, change_user, only_change, change_account, insert_session, insert_key, spend_key,
  revoke_all,
}
use our_ne_zt_core.Postgres.Users.Calls.{
  Call, create, promote, disable, set_password, set_account, start_session, revoke_sessions,
  add_key, take_key, perform,
}
use our_ne_zt_core.Postgres.Users.Effects.{
  with_user, change_user-done, only_change-done, insert_user-done, change_account-done,
  insert_session-done, insert_key-done, spend_key-done, revoke_all-done, settled,
}

-- No two users share an id or an address, and no two sessions or access keys a hash.
pub record IsKeyed {F : Type 0} (db : Database F) : Type 0 where
  pub ids : IsUnique (λ (u : User). u.id) db.users
  pub emails : IsUnique (λ (u : User). u.email) db.users
  pub session_hashes : IsUnique (λ s. s.token_hash) db.sessions
  pub key_hashes : IsUnique (λ k. k.token_hash) db.access_keys

module _ {F : Type 0} (engine : Engine) (to_lower : String → String) (db : Database F) where
  -- An update of users that keeps ids and addresses.
  with_user-IsKeyed :
      (id : String) (f : User → User)
      → ((u : User) → (f u).id ≡ u.id)
      → ((u : User) → (f u).email ≡ u.email)
      → IsKeyed db
      → IsKeyed (with_user engine to_lower db id f)
  with_user-IsKeyed id f i e v = record {
    ids = IsUnique-update_rows (λ u. u.id) (has_id id) f i db.users v.ids;
    emails = IsUnique-update_rows (λ u. u.email) (has_id id) f e db.users v.emails;
    session_hashes = v.session_hashes;
    key_hashes = v.key_hashes;
  }

  changed-IsKeyed :
      (user_id : String) (f : User → User)
      → ((u : User) → (f u).id ≡ u.id)
      → ((u : User) → (f u).email ≡ u.email)
      → IsKeyed db
      → IsKeyed (settle db (only_change engine to_lower user_id f db)).0
  changed-IsKeyed user_id f i e v =
      settled IsKeyed db (only_change engine to_lower user_id f db) v λ t a h.
        (let (id, _, end) = only_change-done engine to_lower db user_id f h in
          rw end (with_user-IsKeyed id f i e v))

  created-IsKeyed :
      (u : User) → IsKeyed db → IsKeyed (settle db (insert_user engine to_lower u db)).0
  created-IsKeyed u v = settled IsKeyed db (insert_user engine to_lower u db) v λ t a h.
      (let (_, id, email, end) = insert_user-done engine to_lower db u h in
        let row = inserted (engine.new_id db.drawn) db.clock u in
        rw end (record {
          ids = IsUnique-append (λ u. u.id) db.users row v.ids id;
          emails = IsUnique-append (λ u. u.email) db.users row v.emails email;
          session_hashes = v.session_hashes;
          key_hashes = v.key_hashes;
        }))

  promoted-IsKeyed :
      (user_id name hash : String)
      → IsKeyed db
      → let f = promoted db.clock name hash in
        IsKeyed (settle db (change_user engine to_lower user_id f db)).0
  promoted-IsKeyed user_id name hash v =
      let f = promoted db.clock name hash in
      settled IsKeyed db (change_user engine to_lower user_id f db) v λ t a h.
        (let (id, _, end) = change_user-done engine to_lower db user_id f h in
          rw end (with_user-IsKeyed id f (λ u. refl) (λ u. refl) v))

  account-IsKeyed :
      (user_id email name : String)
      → IsKeyed db
      → IsKeyed (settle db (change_account engine to_lower user_id email name db)).0
  account-IsKeyed user_id email name v =
      settled IsKeyed db (change_account engine to_lower user_id email name db) v λ t a h.
        (let (id, free, end) = change_account-done engine to_lower db user_id email name h in
          let f = with_account db.clock email name in
          rw end (record {
            ids = IsUnique-update_rows (λ u. u.id) (has_id id) f (λ u. refl) db.users v.ids;
            emails =
                IsUnique-set (λ u. u.id) (λ u. u.email) id email f (λ u. refl) db.users v.ids
                  v.emails free;
            session_hashes = v.session_hashes;
            key_hashes = v.key_hashes;
          }))

  session-IsKeyed :
      (user_id hash : String) (until : Time)
      → IsKeyed db
      → IsKeyed (settle db (insert_session engine to_lower user_id hash until db)).0
  session-IsKeyed user_id hash until v =
      settled IsKeyed db (insert_session engine to_lower user_id hash until db) v λ t a h.
        (let (id, _, free, _, end) = insert_session-done engine to_lower db user_id hash until h in
          let row = new_session db.clock id hash until in
          rw end (record {
            ids = v.ids;
            emails = v.emails;
            session_hashes =
                IsUnique-append (λ s. s.token_hash) db.sessions row v.session_hashes free;
            key_hashes = v.key_hashes;
          }))

  key-IsKeyed :
      (user_id hash : String) (until : Time)
      → IsKeyed db
      → IsKeyed (settle db (insert_key engine to_lower user_id hash until db)).0
  key-IsKeyed user_id hash until v =
      settled IsKeyed db (insert_key engine to_lower user_id hash until db) v λ t a h.
        (let (id, free, _, end) = insert_key-done engine to_lower db user_id hash until h in
          let row = new_key db.clock id hash until in
          rw end (record {
            ids = v.ids;
            emails = v.emails;
            session_hashes = v.session_hashes;
            key_hashes = IsUnique-append (λ k. k.token_hash) db.access_keys row v.key_hashes free;
          }))

  spent-IsKeyed :
      (user_id hash : String) (now : Time)
      → IsKeyed db
      → IsKeyed (settle db (spend_key engine to_lower user_id hash now db)).0
  spent-IsKeyed user_id hash now v =
      settled IsKeyed db (spend_key engine to_lower user_id hash now db) v λ t a h.
        (let (id, end, _) = spend_key-done engine to_lower db user_id hash now h in
          rw end (record {
            ids = v.ids;
            emails = v.emails;
            session_hashes = v.session_hashes;
            key_hashes =
                IsUnique-update_rows (λ k. k.token_hash) (usable_key id hash now) (use_key now)
                  (λ k. refl) db.access_keys v.key_hashes;
          }))

  revoked-IsKeyed :
      (user_id : String)
      → IsKeyed db
      → IsKeyed (settle db (revoke_all engine to_lower user_id db)).0
  revoked-IsKeyed user_id v = settled IsKeyed db (revoke_all engine to_lower user_id db) v λ t a h.
      (let (id, _, end) = revoke_all-done engine to_lower db user_id h in
        rw end (record {
          ids = v.ids;
          emails = v.emails;
          session_hashes =
              IsUnique-update_rows (λ s. s.token_hash) (open_session id) (revoke db.clock)
                (λ s. refl) db.sessions v.session_hashes;
          key_hashes = v.key_hashes;
        }))

  -- Every call that writes users, sessions or access keys keeps ids and addresses unique among users,
  -- and hashes unique among sessions and among access keys, whether it succeeds or fails.
  pub perform-IsKeyed : (c : Call) → IsKeyed db → IsKeyed (perform engine to_lower c db)
  unfolding perform create_user promote_to_bootstrap_admin disable_user update_user_password
      update_user_account create_session create_admin_access_key consume_admin_access_key
      revoke_sessions_by_user_id
  perform-IsKeyed (create u) v = created-IsKeyed u v
  perform-IsKeyed (promote id name hash) v = promoted-IsKeyed id (trim_space name) hash v
  perform-IsKeyed (disable id) v = changed-IsKeyed id (disabled db.clock) (λ u. refl) (λ u. refl) v
  perform-IsKeyed (set_password id hash must_change) v =
      changed-IsKeyed id (with_password db.clock hash must_change) (λ u. refl) (λ u. refl) v
  perform-IsKeyed (set_account id email name) v =
      account-IsKeyed id (to_lower (trim_space email)) (trim_space name) v
  perform-IsKeyed (start_session id hash until) v = session-IsKeyed id hash until v
  perform-IsKeyed (revoke_sessions id) v = revoked-IsKeyed id v
  perform-IsKeyed (add_key id hash until) v = key-IsKeyed id hash until v
  perform-IsKeyed (take_key id hash now) v = spent-IsKeyed id hash now v
