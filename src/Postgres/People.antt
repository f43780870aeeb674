-- ===== src/Postgres/People.antt =====
-- internal/repository/postgres/people.go: people and their income history, with the statements for a
-- database where the later migrations have not run. A statement is read before its parameters: what a
-- missing table or column fails with comes first.
use text.Mathlib.Text.{◌==◌}
use our_ne_zt_core.Common.{
  suc, String, Bool, not, ◌&&◌, ◌||◌, Option, none, some, List, [], ◌∷◌, ◌++◌, map, keep,
  if◌then◌else◌, ltb,
}
use our_ne_zt_core.Common.Text.{is_empty, trim_space}
use our_ne_zt_core.Domain.{EntityId, PersonProfile, PersonIncomeHistoryEntry}
use our_ne_zt_core.Errors.{Error}
use our_ne_zt_core.Action.{Action, proceed, throw}
use our_ne_zt_core.Server.Repositories.{People}
use our_ne_zt_core.Postgres.Sql.{
  PgError, server, Outcome, done, failed, ◌>>=◌, ◌>>◌, run, ask, require, row_of, find_row, any_row,
  update_rows, order_by, unique_violation, foreign_key_violation,
}
use our_ne_zt_core.Postgres.Tables.{Engine, Database, HistoryRow, cast}
use our_ne_zt_core.Postgres.Access.{
  is_member, any_role, granted, has_family_access, assert_family_writer,
}
use our_ne_zt_core.Postgres.UserRows.{has_id}
use our_ne_zt_core.Postgres.FamilyRows.{is_family}
use our_ne_zt_core.Postgres.Housing.{group_or_null}
use our_ne_zt_core.Postgres.HousingRows.{fits_integer, too_wide}
use our_ne_zt_core.Postgres.PersonRows.{
  normalize_optional_uuid, is_missing_income_history_relation_error,
  is_linked_user_compatibility_error, check_person, stored, without_link, person_id, editable,
  links_other, history_of, retry,
}
use our_ne_zt_core.Postgres.PersonLinks.{
  no_column, no_history, merged, linked_id, link_allowed, link_row, add_history,
}
use our_ne_zt_core.Postgres.PersonUpdates.{update_person_profile, delete_person_profile}
pub mod Complete
pub mod Isolation

abbrev newer_person : PersonProfile → PersonProfile → Bool
newer_person p q = not (ltb p.created_at q.created_at)

-- `COALESCE(p.name, h.person_name)`.
abbrev current_name : Option PersonProfile → String → String
current_name none name = name
current_name (some p) name = p.name

abbrev pub current_entry : List PersonProfile → HistoryRow → PersonIncomeHistoryEntry
current_entry people h = record h.entry {
  person_name = current_name (find_row (person_id h.entry.person_id) people) h.entry.person_name;
}

abbrev earlier_entry : Engine → HistoryRow → HistoryRow → Bool
earlier_entry engine h k =
    ltb h.entry.recorded_at k.entry.recorded_at
    || (not (ltb k.entry.recorded_at h.entry.recorded_at)
        && engine.uuid_le h.entry.person_id k.entry.person_id)

module _ {F : Type 0} (engine : Engine) (to_lower : String → String) where
  -- The new row, without the user that it is linked to.
  unfoldable pub insert_row : PersonProfile → Database F → Outcome (Database F × PersonProfile)
  insert_row p db = do
    require (fits_integer p.age) too_wide
    family ← cast engine p.family_id
    let row = stored p (engine.new_id db.drawn) family "" db.clock db.clock
    check_person p
    require (not (any_row (person_id row.id) db.people)) unique_violation
    require (any_row (is_family family) db.families) foreign_key_violation
    done (record db { people = db.people ++ row ∷ []; drawn = suc db.drawn }, row)

  abbrev pub insert_person : PersonProfile → Database F → Outcome (Database F × PersonProfile)
  insert_person p db = do
    require db.has_linked_users no_column
    require db.has_history no_history
    inserted ← insert_row p db
    linked ← linked_id engine to_lower p
    link_allowed linked inserted.1 db
    let row : PersonProfile = record inserted.1 { linked_user_id = linked }
    done (add_history row (link_row (person_id row.id) linked inserted.0), row)

  unfoldable pub create_person_profile :
      PersonProfile → EntityId → Action (Database F) PersonProfile
  create_person_profile p actor_id =
      if is_empty (trim_space p.family_id) || is_empty (trim_space p.name)
      then throw Error.invalid_argument
      else λ s.
          proceed
            (λ _. run (λ db.
              retry
                (λ e.
                  is_missing_income_history_relation_error to_lower e
                  || is_linked_user_compatibility_error to_lower e)
                (insert_person p db) (insert_row p db)))
            (assert_family_writer engine actor_id p.family_id s)

  abbrev select_person : EntityId → EntityId → Database F → Outcome PersonProfile
  select_person id viewer_id db = do
    person ← cast engine id
    viewer ← cast engine viewer_id
    row_of (
        find_row (λ p. person_id person p && is_member any_role p.family_id viewer db.members)
          db.people)

  unfoldable pub get_person_profile : EntityId → EntityId → Action (Database F) PersonProfile
  get_person_profile id viewer_id = ask (λ db.
      retry (is_linked_user_compatibility_error to_lower)
        (require db.has_linked_users no_column >> select_person id viewer_id db)
        (select_person id viewer_id db >>= λ p. done (without_link p)))

  abbrev people_of : EntityId → Database F → Outcome (List PersonProfile)
  people_of family_id db = do
    family ← cast engine family_id
    done (order_by newer_person (keep (λ p. p.family_id == family) db.people))

  unfoldable pub list_person_profiles_by_family :
      EntityId → EntityId → Action (Database F) (List PersonProfile)
  list_person_profiles_by_family family_id viewer_id s =
      proceed
        (λ _. ask (λ db.
          retry (is_linked_user_compatibility_error to_lower)
            (require db.has_linked_users no_column >> people_of family_id db)
            (people_of family_id db >>= λ people. done (map without_link people))))
        (granted (has_family_access engine viewer_id family_id s))

  abbrev history_in : EntityId → Database F → Outcome (List PersonIncomeHistoryEntry)
  history_in family_id db = do
    require db.has_history no_history
    family ← cast engine family_id
    let rows = order_by (earlier_entry engine) (keep (λ h. h.family_id == family) db.history)
    done (map (current_entry db.people) rows)

  unfoldable pub list_person_income_history_by_family :
      EntityId → EntityId → Action (Database F) (List PersonIncomeHistoryEntry)
  list_person_income_history_by_family family_id viewer_id s =
      proceed (λ _. ask (history_in family_id))
        (granted (has_family_access engine viewer_id family_id s))

  abbrev pub person_repository : People (Database F)
  person_repository = record {
    create_person_profile = create_person_profile;
    get_person_profile = get_person_profile;
    list_person_profiles_by_family = list_person_profiles_by_family;
    list_person_income_history_by_family = list_person_income_history_by_family;
    update_person_profile = update_person_profile engine to_lower;
    delete_person_profile = delete_person_profile engine to_lower;
  }
