-- ===== src/Postgres/Users/Keys.antt =====
-- The access keys of administrators are good once.
use text.Mathlib.TextEquality.{eq_iff}
use mathlib.Core.Bool.{true≢false}
use our_ne_zt_core.Common.{
  String, Bool, true, false, not, ◌&&◌, List, [], ◌∷◌, ◌++◌, ◌≡◌, ◌≢◌, ◌∙◌, refl, sym, ap, arith,
  Bool-cases, inl, inr,
}
use our_ne_zt_core.Common.Text.{trim_space}
use our_ne_zt_core.Domain.{Time, EntityId}
use our_ne_zt_core.Errors.{ok}
use our_ne_zt_core.Postgres.Sql.{settle, any_row, update_rows, Outcome, done}
use our_ne_zt_core.Postgres.Sql.Unique.{
  IsUnique, any_row-append, any_row-update_rows, any_row-update_rows_none, any_row_mono,
}
use our_ne_zt_core.Postgres.Tables.{Engine, Database, AccessKeyRow}
use our_ne_zt_core.Postgres.UserRows.{
  is_set, key_hash, usable_key, use_key, new_key, promoted, disabled, with_password,
}
use our_ne_zt_core.Postgres.Users.{
  create_user, promote_to_bootstrap_admin, disable_user, update_user_password, update_user_account,
  create_session, create_admin_access_key, consume_admin_access_key, revoke_sessions_by_user_id,
  insert_user, change_user, only_change, change_account, insert_session, insert_key, spend_key,
  revoke_all,
}
use our_ne_zt_core.Postgres.Users.Calls.{
  Call, create, promote, disable, set_password, set_account, start_session, revoke_sessions,
  add_key, take_key, perform, perform_all,
}
use our_ne_zt_core.Postgres.Users.Effects.{
  settled, settle-ok, change_user-done, only_change-done, insert_user-done, change_account-done,
  insert_session-done, insert_key-done, spend_key-done, revoke_all-done,
}
use our_ne_zt_core.Postgres.Users.Invariant.{IsKeyed}

abbrev unused_key : String → AccessKeyRow → Bool
unused_key hash k = key_hash hash k && not (is_set k.used_at)

-- There is a key with a hash, and every such key is used.
abbrev IsSpent : String → List AccessKeyRow → Type 0
IsSpent hash keys = (any_row (key_hash hash) keys ≡ true) × (any_row (unused_key hash) keys ≡ false)

unused-use_key :
    (hash : String) (now : Time) (k : AccessKeyRow) → unused_key hash (use_key now k) ≡ false
unused-use_key hash now k = ground arith

usable-unused :
    (user : EntityId) (hash : String) (now : Time) (k : AccessKeyRow)
    → usable_key user hash now k ≡ true
    → unused_key hash k ≡ true
usable-unused user hash now k h = ground arith

usable-hash :
    (user : EntityId) (hash : String) (now : Time) (k : AccessKeyRow)
    → usable_key user hash now k ≡ true
    → key_hash hash k ≡ true
usable-hash user hash now k h = ground arith

-- No key that can be used, where there is no key with the hash.
no_usable :
    (user : EntityId) (hash : String) (now : Time) (keys : List AccessKeyRow)
    → any_row (key_hash hash) keys ≡ false
    → any_row (usable_key user hash now) keys ≡ false
no_usable user hash now keys h =
    any_row_mono (usable_key user hash now) (key_hash hash) (usable-hash user hash now) keys h

no_unused :
    (hash : String) (keys : List AccessKeyRow)
    → any_row (key_hash hash) keys ≡ false
    → any_row (unused_key hash) keys ≡ false
no_unused hash keys h = any_row_mono (unused_key hash) (key_hash hash) (λ k e. ground arith) keys h

-- Using the one key with a hash leaves none unused.
all_used :
    (user : EntityId) (hash : String) (now : Time) (keys : List AccessKeyRow)
    → IsUnique (λ k. k.token_hash) keys
    → any_row (usable_key user hash now) keys ≡ true
    → any_row (unused_key hash) (update_rows (usable_key user hash now) (use_key now) keys) ≡ false
unfolding any_row update_rows
all_used user hash now [] u h = cc
all_used user hash now (k ∷ keys) u h = elim (Bool-cases (usable_key user hash now k)) [
  | inl e ↦ ground (
    arith,
    eq_iff k.token_hash hash,
    usable-hash user hash now k,
    unused-use_key hash now k,
    no_unused hash keys,
    any_row-update_rows_none (unused_key hash) (usable_key user hash now) (use_key now)
        (unused-use_key hash now) keys,
  )
  | inr e ↦ ground (
    arith,
    eq_iff k.token_hash hash,
    no_usable user hash now keys,
    all_used user hash now keys u.1,
  )
]

any_row-append_kept :
    (hash : String) (keys : List AccessKeyRow) (k : AccessKeyRow)
    → any_row (key_hash hash) keys ≡ true
    → any_row (key_hash hash) (keys ++ k ∷ []) ≡ true
unfolding any_row
any_row-append_kept hash [] k h = cc
any_row-append_kept hash (j ∷ keys) k h = ground (arith, any_row-append_kept hash keys k)

module _ {F : Type 0} (engine : Engine) (to_lower : String → String) (hash : String) where
  abbrev Spent : Database F → Type 0
  Spent db = IsSpent hash db.access_keys

  -- A statement that leaves the access keys alone.
  untouched :
      {T : Type 0} (db : Database F) (o : Outcome (Database F × T))
      → ((t : Database F) (a : T) → o ≡ done (t, a) → t.access_keys ≡ db.access_keys)
      → Spent db
      → Spent (settle db o).0
  untouched db o same s = settled Spent db o s λ t a h. rw (same t a h) s

  added-Spent :
      (db : Database F) (user_id : EntityId) (other : String) (until : Time)
      → Spent db
      → Spent (settle db (insert_key engine to_lower user_id other until db)).0
  added-Spent db user_id other until s =
      settled Spent db (insert_key engine to_lower user_id other until db) s λ t a h.
        (let (id, free, _, end) = insert_key-done engine to_lower db user_id other until h in
          let row = new_key db.clock id other until in
          rw end (
            any_row-append_kept hash db.access_keys row s.0,
            any_row-append (unused_key hash) db.access_keys row s.1
                (ground (arith, eq_iff other hash, s.0, free)),
          ))

  taken-Spent :
      (db : Database F) (user_id : EntityId) (other : String) (now : Time)
      → Spent db
      → Spent (settle db (spend_key engine to_lower user_id other now db)).0
  taken-Spent db user_id other now s =
      settled Spent db (spend_key engine to_lower user_id other now db) s λ t a h.
        (let (id, end, _) = spend_key-done engine to_lower db user_id other now h in
          let usable = usable_key id other now in
          rw end (
            any_row-update_rows (key_hash hash) usable (use_key now) (λ k _. refl) db.access_keys
                ∙ s.0,
            any_row-update_rows_none (unused_key hash) usable (use_key now)
                (unused-use_key hash now) db.access_keys s.1,
          ))

  perform-Spent : (c : Call) (db : Database F) → Spent db → Spent (perform engine to_lower c db)
  unfolding perform create_user promote_to_bootstrap_admin disable_user update_user_password
      update_user_account create_session create_admin_access_key consume_admin_access_key
      revoke_sessions_by_user_id
  perform-Spent (create u) db s =
      untouched db (insert_user engine to_lower u db)
        (λ t a h. rw (insert_user-done engine to_lower db u h).3 refl) s
  perform-Spent (promote id name h) db s =
      let f = promoted db.clock (trim_space name) h in
      untouched db (change_user engine to_lower id f db)
        (λ t a e. rw (change_user-done engine to_lower db id f e).2 refl) s
  perform-Spent (disable id) db s =
      let f = disabled db.clock in
      untouched db (only_change engine to_lower id f db)
        (λ t a e. rw (only_change-done engine to_lower db id f e).2 refl) s
  perform-Spent (set_password id h must_change) db s =
      let f = with_password db.clock h must_change in
      untouched db (only_change engine to_lower id f db)
        (λ t a e. rw (only_change-done engine to_lower db id f e).2 refl) s
  perform-Spent (set_account id email name) db s =
      let address = to_lower (trim_space email) in
      untouched db (change_account engine to_lower id address (trim_space name) db)
        (λ t a e. rw (change_account-done engine to_lower db id address (trim_space name) e).2 refl)
        s
  perform-Spent (start_session id h until) db s =
      untouched db (insert_session engine to_lower id h until db)
        (λ t a e. rw (insert_session-done engine to_lower db id h until e).4 refl) s
  perform-Spent (revoke_sessions id) db s =
      untouched db (revoke_all engine to_lower id db)
        (λ t a e. rw (revoke_all-done engine to_lower db id e).2 refl) s
  perform-Spent (add_key id h until) db s = added-Spent db id h until s
  perform-Spent (take_key id h now) db s = taken-Spent db id h now s

  perform_all-Spent :
      (calls : List Call) (db : Database F)
      → Spent db
      → Spent (perform_all engine to_lower calls db)
  unfolding perform_all
  perform_all-Spent [] db s = s
  perform_all-Spent (c ∷ calls) db s =
      perform_all-Spent calls (perform engine to_lower c db) (perform-Spent c db s)

  consumed-Spent :
      (user_id : EntityId) (now : Time) {db spent : Database F}
      → IsKeyed db
      → consume_admin_access_key engine to_lower user_id hash now db ≡ (spent, ok true)
      → Spent spent
  unfolding consume_admin_access_key
  consumed-Spent user_id now {db = db} v h =
      let o = spend_key engine to_lower user_id hash now db in
      let (id, end, found) =
        spend_key-done engine to_lower db user_id hash now (settle-ok db o h) in
      let usable = usable_key id hash now in
      let present =
        any_row-update_rows (key_hash hash) usable (use_key now) (λ k _. refl) db.access_keys in
      rw end (
        present ∙ ground (arith, no_usable id hash now db.access_keys, found),
        all_used id hash now db.access_keys v.key_hashes (sym found),
      )

  Spent-refused :
      (user_id : EntityId) (now : Time) (db : Database F)
      → Spent db
      → (consume_admin_access_key engine to_lower user_id hash now db).1 ≢ ok true
  unfolding consume_admin_access_key
  Spent-refused user_id now db s h =
      let o = spend_key engine to_lower user_id hash now db in
      let (id, _, found) =
        spend_key-done engine to_lower db user_id hash now {t = (settle db o).0}
          (settle-ok db o (ap (λ r. ((settle db o).0, r)) h)) in
      let none_left =
        any_row_mono (usable_key id hash now) (unused_key hash) (usable-unused id hash now)
          db.access_keys s.1 in
      true≢false (found ∙ none_left)

  -- An administrator's access key that was accepted once is never accepted again, for anyone and at any
  -- time, whatever calls on users, sessions and access keys, new keys included, come in between.
  pub consume_admin_access_key-once :
      (user_id : EntityId) (now : Time) {db spent : Database F}
      → IsKeyed db
      → consume_admin_access_key engine to_lower user_id hash now db ≡ (spent, ok true)
      → (calls : List Call) (later_user : EntityId) (later : Time)
      → (consume_admin_access_key engine to_lower later_user hash later
          (perform_all engine to_lower calls spent)).1
        ≢ ok true
  consume_admin_access_key-once user_id now v h calls later_user later =
      Spent-refused later_user later _ (perform_all-Spent calls _ (consumed-Spent user_id now v h))
