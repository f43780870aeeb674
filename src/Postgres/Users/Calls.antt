-- ===== src/Postgres/Users/Calls.antt =====
-- The calls of users.go that write, and what each can do to the tables.
use our_ne_zt_core.Common.{String, Bool, List, [], ◌∷◌}
use our_ne_zt_core.Domain.{EntityId, Time, User}
use our_ne_zt_core.Postgres.Tables.{Engine, Database}
use our_ne_zt_core.Postgres.Users.{
  create_user, promote_to_bootstrap_admin, disable_user, update_user_password, update_user_account,
  create_session, create_admin_access_key, consume_admin_access_key, revoke_sessions_by_user_id,
}

pub data Call : Type 0 where
  create : User → Call
  promote : (id : EntityId) (name hash : String) → Call
  disable : EntityId → Call
  set_password : (id : EntityId) (hash : String) (must_change : Bool) → Call
  set_account : (id : EntityId) (email name : String) → Call
  start_session : (id : EntityId) (hash : String) (until : Time) → Call
  revoke_sessions : EntityId → Call
  add_key : (id : EntityId) (hash : String) (until : Time) → Call
  take_key : (id : EntityId) (hash : String) (now : Time) → Call

module _ {F : Type 0} (engine : Engine) (to_lower : String → String) where
  unfoldable pub perform : Call → Database F → Database F
  perform (create u) db = (create_user engine to_lower u db).0
  perform (promote id name hash) db = (promote_to_bootstrap_admin engine to_lower id name hash db).0
  perform (disable id) db = (disable_user engine to_lower id db).0
  perform (set_password id hash must_change) db =
      (update_user_password engine to_lower id hash must_change db).0
  perform (set_account id email name) db = (update_user_account engine to_lower id email name db).0
  perform (start_session id hash until) db = (create_session engine to_lower id hash until db).0
  perform (revoke_sessions id) db = (revoke_sessions_by_user_id engine to_lower id db).0
  perform (add_key id hash until) db = (create_admin_access_key engine to_lower id hash until db).0
  perform (take_key id hash now) db = (consume_admin_access_key engine to_lower id hash now db).0

  unfoldable pub perform_all : List Call → Database F → Database F
  perform_all [] db = db
  perform_all (c ∷ calls) db = perform_all calls (perform c db)
