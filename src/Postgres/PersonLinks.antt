-- ===== src/Postgres/PersonLinks.antt =====
-- What the statements of internal/repository/postgres/people.go for creating and for changing a person
-- share: the link to a user, the entry of the income history, and the errors of an older database.
use our_ne_zt_core.Common.{String, Bool, not, ◌||◌, [], ◌∷◌, ◌++◌, if◌then◌else◌}
use our_ne_zt_core.Common.Text.{is_empty}
use our_ne_zt_core.Domain.{EntityId, PersonProfile}
use our_ne_zt_core.Postgres.Sql.{
  PgError, server, Outcome, ◌>>◌, require, any_row, update_rows, unique_violation,
  foreign_key_violation,
}
use our_ne_zt_core.Postgres.Tables.{Engine, Database}
use our_ne_zt_core.Postgres.UserRows.{has_id}
use our_ne_zt_core.Postgres.Housing.{group_or_null}
use our_ne_zt_core.Postgres.PersonRows.{normalize_optional_uuid, links_other, history_of}

abbrev pub no_column : PgError
no_column =
    server "42703" "column \"linked_user_id\" of relation \"person_profiles\" does not exist"

abbrev pub no_history : PgError
no_history = server "42P01" "relation \"person_income_history\" does not exist"

abbrev pub merged : EntityId → EntityId → EntityId
merged linked before = if is_empty linked then before else linked

abbrev pub linked_id : Engine → (String → String) → PersonProfile → Outcome EntityId
linked_id engine to_lower p =
    group_or_null engine (normalize_optional_uuid to_lower p.linked_user_id)

-- The constraints on a link: one person of a family for a user, and a user that there is.
abbrev pub link_allowed : {F : Type 0} → EntityId → PersonProfile → Database F → Outcome (Unit {0})
link_allowed linked row db = do
  require (is_empty linked || not (any_row (links_other row.id row.family_id linked) db.people))
      unique_violation
  require (is_empty linked || any_row (has_id linked) db.users) foreign_key_violation

-- The link, set in the rows that the statement is about.
abbrev pub link_row : {F : Type 0} → (PersonProfile → Bool) → EntityId → Database F → Database F
link_row test linked db = record db {
  people = update_rows test (λ p. record p { linked_user_id = linked }) db.people;
}

abbrev pub add_history : {F : Type 0} → PersonProfile → Database F → Database F
add_history row db = record db { history = db.history ++ history_of row ∷ [] }
