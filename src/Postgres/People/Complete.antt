-- ===== src/Postgres/People/Complete.antt =====
-- On a database where all migrations have run, no statement for older ones takes effect.
use our_ne_zt_core.Common.{String, Bool, true, false, ◌||◌, [], ◌∷◌, ◌++◌, ◌≡◌}
use our_ne_zt_core.Domain.{EntityId, PersonProfile}
use our_ne_zt_core.Action.{Action}
use our_ne_zt_core.Postgres.Sql.{PgError, done, any_row}
use our_ne_zt_core.Postgres.Tables.{Engine, Database}
use our_ne_zt_core.Postgres.PersonRows.{
  stored, person_id, is_missing_income_history_relation_error, is_linked_user_compatibility_error,
  history_of,
}
use our_ne_zt_core.Postgres.PersonLinks.{linked_id, add_history, link_row}

module _ (to_lower : String → String) where
  abbrev retried : PgError → Bool
  retried e =
      is_missing_income_history_relation_error to_lower e
      || is_linked_user_compatibility_error to_lower e

module _ {F : Type 0} (engine : Engine) (to_lower : String → String) (p : PersonProfile)
    (db : Database F) where
  -- The tables and the row that an insertion leaves: the columns of the request, the link apart.
  abbrev Inserted : EntityId → Database F × PersonProfile → Type 0
  Inserted family x =
      (x.1 ≡ stored p x.1.id family "" db.clock db.clock)
      × (any_row (person_id x.1.id) db.people ≡ false)
      × (x.0.history ≡ db.history)
      × (x.0.people ≡ db.people ++ x.1 ∷ [])

module _ {F : Type 0} (engine : Engine) (to_lower : String → String) (p : PersonProfile)
    (db : Database F) (linked : EntityId) (has_link : db.has_linked_users ≡ true)
    (has_history : db.has_history ≡ true)
    (is_link : linked_id engine to_lower p ≡ done linked) where
  abbrev linked_row : PersonProfile → PersonProfile
  linked_row row = record row { linked_user_id = linked }

  abbrev completed : Database F → PersonProfile → Database F
  completed s row = add_history (linked_row row) (link_row (person_id row.id) linked s)

  -- What a call that creates a person leaves.
  abbrev pub Created : EntityId → Database F × PersonProfile → Type 0
  Created family x =
      (x.1 ≡ stored p x.1.id family linked db.clock db.clock)
      × (x.0.people ≡ db.people ++ x.1 ∷ [])
      × (x.0.history ≡ db.history ++ history_of x.1 ∷ [])
