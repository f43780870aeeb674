-- ===== src/Postgres/PersonUpdates.antt =====
-- internal/repository/postgres/people.go: changing and deleting a person, with the statements for a
-- database where the later migrations have not run.
use text.Mathlib.Text.{◌==◌}
use our_ne_zt_core.Common.{String, not, ◌||◌, keep, if◌then◌else◌}
use our_ne_zt_core.Common.Text.{is_empty, trim_space}
use our_ne_zt_core.Domain.{EntityId, PersonProfile}
use our_ne_zt_core.Errors.{Error}
use our_ne_zt_core.Action.{Action, throw}
use our_ne_zt_core.Postgres.Sql.{
  PgError, Outcome, done, failed, ◌>>=◌, ◌>>◌, run, require, row_of, find_row, update_rows,
}
use our_ne_zt_core.Postgres.Tables.{Engine, Database, cast}
use our_ne_zt_core.Postgres.HousingRows.{fits_integer, too_wide}
use our_ne_zt_core.Postgres.PersonRows.{
  is_missing_income_history_relation_error, is_linked_user_compatibility_error, check_person,
  stored, without_link, editable, retry,
}
use our_ne_zt_core.Postgres.PersonLinks.{
  no_column, no_history, merged, linked_id, link_allowed, link_row, add_history,
}

abbrev pub or_then {ℓ} : {T : Type ℓ} → Outcome T → (PgError → Outcome T) → Outcome T
or_then (done t) next = done t
or_then (failed e) next = next e

module _ {F : Type 0} (engine : Engine) (to_lower : String → String) where
  -- The row with the columns of the request, its link as it was.
  abbrev pub update_row :
      PersonProfile → EntityId → Database F → Outcome (Database F × PersonProfile)
  update_row p actor_id db = do
    require (fits_integer p.age) too_wide
    id ← cast engine p.id
    actor ← cast engine actor_id
    let test = editable id actor db.members
    before ← row_of (find_row test db.people)
    check_person p
    let f : PersonProfile → PersonProfile =
        λ q. stored p q.id q.family_id q.linked_user_id q.created_at db.clock
    done (record db { people = update_rows test f db.people }, f before)

  -- The statement without the column of links.
  abbrev pub update_unlinked :
      PersonProfile → EntityId → Database F → Outcome (Database F × PersonProfile)
  update_unlinked p actor_id db = do
    updated ← update_row p actor_id db
    done (updated.0, without_link updated.1)

  abbrev pub update_linked :
      PersonProfile → EntityId → Database F → Outcome (Database F × PersonProfile)
  update_linked p actor_id db = do
    require db.has_linked_users no_column
    updated ← update_row p actor_id db
    id ← cast engine p.id
    actor ← cast engine actor_id
    linked ← linked_id engine to_lower p
    link_allowed linked updated.1 db
    let link = merged linked updated.1.linked_user_id
    done (
      link_row (editable id actor db.members) link updated.0,
      record updated.1 { linked_user_id = link },
    )

  abbrev pub update_person :
      PersonProfile → EntityId → Database F → Outcome (Database F × PersonProfile)
  update_person p actor_id db = do
    require db.has_linked_users no_column
    require db.has_history no_history
    updated ← update_linked p actor_id db
    done (add_history updated.1 updated.0, updated.1)

  -- Which statement follows on one that has failed.
  abbrev pub after_failure :
      PersonProfile → EntityId → Database F → PgError → Outcome (Database F × PersonProfile)
  after_failure p actor_id db e =
      if is_linked_user_compatibility_error to_lower e
      then update_unlinked p actor_id db
      else if is_missing_income_history_relation_error to_lower e
      then retry (is_linked_user_compatibility_error to_lower) (update_linked p actor_id db)
          (update_unlinked p actor_id db)
      else failed e

  unfoldable pub update_person_profile :
      PersonProfile → EntityId → Action (Database F) PersonProfile
  update_person_profile p actor_id =
      if is_empty (trim_space p.id) || is_empty (trim_space p.name)
      then throw Error.invalid_argument
      else run (λ db. or_then (update_person p actor_id db) (after_failure p actor_id db))

  -- `DELETE FROM person_profiles`, and the history of the person.
  abbrev pub remove_person : EntityId → EntityId → Database F → Outcome (Database F × Unit {0})
  remove_person id actor_id db = do
    person ← cast engine id
    actor ← cast engine actor_id
    p ← row_of (find_row (editable person actor db.members) db.people)
    done (
      record db {
        people = keep (λ q. not (editable person actor db.members q)) db.people;
        history = keep (λ h. not (h.entry.person_id == p.id)) db.history;
      },
      tt,
    )

  unfoldable pub delete_person_profile : EntityId → EntityId → Action (Database F) (Unit {0})
  delete_person_profile id actor_id = run (remove_person id actor_id)
