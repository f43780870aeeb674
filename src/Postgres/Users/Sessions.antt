-- ===== src/Postgres/Users/Sessions.antt =====
-- Sessions as they are created, looked up and revoked.
use text.Mathlib.Text.{◌==◌}
use text.Mathlib.TextEquality.{eq_iff}
use text.Mathlib.TextPositions.{eq_refl}
use mathlib.Core.Path.{subst}
use our_ne_zt_core.Common.{
  String, Bool, true, false, ◌&&◌, List, [], ◌∷◌, ◌++◌, ◌≡◌, ◌≢◌, ◌<◌, lt→ltb, ◌∙◌, refl, sym, ap,
  arith, Option, some, none, keep, Option-cases, inl, inr,
}
use our_ne_zt_core.Domain.{Time, EntityId, User}
use our_ne_zt_core.Errors.{ok, ok_inj}
use our_ne_zt_core.Postgres.Sql.{
  any_row, update_rows, find_row, order_by, put_in_order, done, row_of, answer,
}
use our_ne_zt_core.Postgres.Sql.Unique.{any_row-update_rows_gone, any_row_mono}
use our_ne_zt_core.Postgres.Sql.Select.{find_row-holds, any_row-order_by, any_row-keep, keep_last}
use our_ne_zt_core.Postgres.Tables.{Engine, Database, SessionRow, cast}
use our_ne_zt_core.Postgres.UserRows.{
  has_id, live_session, open_session, revoke, session_hash, new_session, first_user, newer_session,
}
use our_ne_zt_core.Postgres.Users.{
  create_session, revoke_sessions_by_user_id, get_user_by_session_token_hash, session_user,
  insert_session, revoke_all,
}
use our_ne_zt_core.Postgres.Users.Effects.{
  settle-ok, insert_session-done, revoke_all-done, done_inj,
}

abbrev of_user : EntityId → SessionRow → Bool
of_user id s = s.user_id == id

first_user_other :
    (id : EntityId) (users : List User) (sessions : List SessionRow) {u : User}
    → any_row (of_user id) sessions ≡ false
    → first_user users sessions ≡ some u
    → u.id ≢ id
unfolding any_row first_user
first_user_other id users [] n h e = cc
first_user_other id users (s ∷ rest) {u = u} n h e =
    elim (Option-cases (find_row (has_id s.user_id) users)) [
      | inl none_found ↦ ground (arith, first_user_other id users rest {u = u}, none_found)
      | inr (v, found) ↦ ground (
        arith,
        found,
        find_row-holds (has_id s.user_id) users found,
        eq_iff v.id s.user_id,
        eq_iff s.user_id id,
      )
    ]

-- The one session with a hash that is created, among those that are live.
created_alone :
    (sessions : List SessionRow) (row : SessionRow) (later : Time)
    → any_row (session_hash row.token_hash) sessions ≡ false
    → live_session row.token_hash later row ≡ true
    → keep (live_session row.token_hash later) (sessions ++ row ∷ []) ≡ row ∷ []
created_alone sessions row later free live =
    let q = live_session row.token_hash later in
    keep_last q sessions row
      (any_row_mono q (session_hash row.token_hash) (λ s e. ground arith) sessions free) live

live_session-new :
    (created : Time) (id : EntityId) (hash : String) (until later : Time)
    → later < until
    → live_session hash later (new_session created id hash until) ≡ true
live_session-new created id hash until later h = ground (arith, eq_refl hash, lt→ltb later until h)

-- Users without an open session are not found by any token.
closed_out :
    (id : EntityId) (hash : String) (now : Time) (users : List User) (sessions : List SessionRow)
    {u : User}
    → any_row (open_session id) sessions ≡ false
    → first_user users (order_by newer_session (keep (live_session hash now) sessions)) ≡ some u
    → u.id ≢ id
closed_out id hash now users sessions n e =
    let live = live_session hash now in
    let none_open =
      any_row_mono (λ s. of_user id s && live s) (open_session id) (λ s k. ground arith) sessions
        n in
    let kept = any_row-keep (of_user id) live sessions none_open in
    first_user_other id users (order_by newer_session (keep live sessions))
      (any_row-order_by (of_user id) newer_session (keep live sessions) kept) e

first_user-alone :
    (users : List User) (s : SessionRow) {u : User}
    → find_row (has_id s.user_id) users ≡ some u
    → first_user users (order_by newer_session (s ∷ [])) ≡ some u
unfolding first_user order_by put_in_order
first_user-alone users s h = rw (first_user, h) refl

pub answer-row_of : (o : Option User) {u : User} → answer (row_of o) ≡ ok u → o ≡ some u
answer-row_of none h = cc
answer-row_of (some v) h = ap some (ok_inj h)

module _ {F : Type 0} (engine : Engine) (to_lower : String → String) where
  -- The token of a session that was created finds its user until the session expires.
  pub create_session-found :
      (user_id id : EntityId) (hash : String) (until later : Time) (db : Database F)
      {t : Database F} {u : User}
      → cast engine user_id ≡ done id
      → find_row (has_id id) db.users ≡ some u
      → create_session engine to_lower user_id hash until db ≡ (t, ok tt)
      → later < until
      → get_user_by_session_token_hash engine to_lower hash later t ≡ (t, ok u)
  unfolding create_session get_user_by_session_token_hash session_user
  create_session-found user_id id hash until later db {u = u} c found h lt =
      let o = insert_session engine to_lower user_id hash until db in
      let (id', c', free, _, end) =
        insert_session-done engine to_lower db user_id hash until (settle-ok db o h) in
      let row = new_session db.clock id' hash until in
      let same : id' ≡ id = done_inj _ _ (sym c ∙ c') in
      let alone =
        created_alone db.sessions row later free
          (live_session-new db.clock id' hash until later lt) in
      let row_found : find_row (has_id id') db.users ≡ some u = rw same found in
      rw (end, alone, first_user-alone db.users row row_found) refl

  -- Once a user's sessions are revoked, no token is known as a session of that user.
  pub revoke_sessions_by_user_id-none :
      (user_id id : EntityId) (db : Database F) {t : Database F}
      → cast engine user_id ≡ done id
      → revoke_sessions_by_user_id engine to_lower user_id db ≡ (t, ok tt)
      → (hash : String) (now : Time) (u : User)
      → (get_user_by_session_token_hash engine to_lower hash now t).1 ≡ ok u
      → u.id ≢ id
  unfolding revoke_sessions_by_user_id get_user_by_session_token_hash session_user
  revoke_sessions_by_user_id-none user_id id db {t = t} c h hash now u e =
      let o = revoke_all engine to_lower user_id db in
      let (id', c', end) = revoke_all-done engine to_lower db user_id (settle-ok db o h) in
      let same : id' ≡ id = done_inj _ _ (sym c ∙ c') in
      let end' =
        subst
          (λ x.
            t ≡ record db { sessions = update_rows (open_session x) (revoke db.clock) db.sessions })
          same end in
      let gone =
        any_row-update_rows_gone (open_session id) (revoke db.clock) (λ s. ground arith)
          db.sessions in
      closed_out id hash now t.users t.sessions (rw end' gone)
        (answer-row_of (session_user engine to_lower hash now t) e)
