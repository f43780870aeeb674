-- ===== src/Postgres/HousingGroups.antt =====
-- internal/repository/postgres/housing.go and housing_notes.go: groups, the options in them, what the
-- dashboard shows, and notes.
use text.Mathlib.Text.{◌==◌}
use our_ne_zt_core.Common.{
  suc, String, Bool, true, not, ◌&&◌, ◌||◌, List, [], ◌∷◌, ◌++◌, map, keep, if◌then◌else◌, ltb,
}
use our_ne_zt_core.Common.Text.{is_empty, trim_space}
use our_ne_zt_core.Domain.{EntityId, HousingOption, HousingGroup}
use our_ne_zt_core.Checklist.{validate_housing_notes}
use our_ne_zt_core.Errors.{Error}
use our_ne_zt_core.Action.{Action, proceed, throw, lift}
use our_ne_zt_core.Postgres.Sql.{
  Outcome, done, ◌>>=◌, ◌>>◌, run, ask, require, row_of, find_row, any_row, update_rows, order_by,
  unique_violation, foreign_key_violation,
}
use our_ne_zt_core.Postgres.Tables.{Engine, Database, cast}
use our_ne_zt_core.Postgres.Access.{
  is_member, writes, granted, has_family_access, assert_family_writer,
}
use our_ne_zt_core.Postgres.FamilyRows.{is_family}
use our_ne_zt_core.Postgres.HousingRows.{
  has_group_id, same_name, new_group, scanned, with_group, with_visibility, with_notes, in_group,
  without_group,
}
use our_ne_zt_core.Postgres.Housing.{
  group_or_null, get_housing_group_family_id, known_group, change_option,
}
pub mod Effects
pub mod Isolation
pub mod Assignment

abbrev newer_group : HousingGroup → HousingGroup → Bool
newer_group g h = not (ltb g.created_at h.created_at)

module _ {F : Type 0} (engine : Engine) where
  abbrev pub insert_group : HousingGroup → Database F → Outcome (Database F × HousingGroup)
  insert_group group db = do
    family ← cast engine group.family_id
    let row = new_group (engine.new_id db.drawn) family group.name db.clock
    require (not (any_row (has_group_id row.id) db.groups)) unique_violation
    require (not (any_row (same_name engine family group.name) db.groups)) unique_violation
    require (any_row (is_family family) db.families) foreign_key_violation
    done (record db { groups = db.groups ++ row ∷ []; drawn = suc db.drawn }, row)

  unfoldable pub create_housing_group : HousingGroup → EntityId → Action (Database F) HousingGroup
  create_housing_group group actor_id =
      if is_empty (trim_space group.family_id) || is_empty (trim_space group.name)
      then throw Error.invalid_argument
      else λ s.
          proceed (λ _. run (insert_group group))
            (assert_family_writer engine actor_id group.family_id s)

  abbrev select_groups : EntityId → Database F → Outcome (List HousingGroup)
  select_groups family_id db = do
    family ← cast engine family_id
    done (order_by newer_group (keep (λ g. g.family_id == family) db.groups))

  unfoldable pub list_housing_groups : EntityId → EntityId → Action (Database F) (List HousingGroup)
  list_housing_groups family_id viewer_id s =
      proceed (λ _. ask (select_groups family_id))
        (granted (has_family_access engine viewer_id family_id s))

  abbrev pub change_group :
      HousingGroup → EntityId → Database F → Outcome (Database F × HousingGroup)
  change_group group actor_id db = do
    id ← cast engine group.id
    actor ← cast engine actor_id
    let p : HousingGroup → Bool =
        λ g. has_group_id id g && is_member writes g.family_id actor db.members
    let renamed : HousingGroup → HousingGroup =
        λ g. record g { name = group.name; updated_at = db.clock }
    g ← row_of (find_row p db.groups)
    let taken : HousingGroup → Bool =
        λ o. not (has_group_id id o) && same_name engine g.family_id group.name o
    require (not (any_row taken db.groups)) unique_violation
    done (record db { groups = update_rows p renamed db.groups }, renamed g)

  unfoldable pub update_housing_group : HousingGroup → EntityId → Action (Database F) HousingGroup
  update_housing_group group actor_id =
      if is_empty (trim_space group.id) || is_empty (trim_space group.name)
      then throw Error.invalid_argument
      else run (change_group group actor_id)

  -- Options of a group that is deleted are left without one.
  abbrev pub remove_group : EntityId → Database F → Outcome (Database F × Unit {0})
  remove_group group_id db = do
    id ← cast engine group_id
    _ ← row_of (find_row (has_group_id id) db.groups)
    done (
      record db {
        groups = keep (λ g. not (has_group_id id g)) db.groups;
        options = update_rows (in_group id) without_group db.options;
      },
      tt,
    )

  unfoldable pub delete_housing_group : EntityId → EntityId → Action (Database F) (Unit {0})
  delete_housing_group group_id actor_id s =
      proceed
        (λ family_id s.
          proceed (λ _. run (remove_group group_id))
            (assert_family_writer engine actor_id family_id s))
        (get_housing_group_family_id engine group_id s)

  abbrev pub assigned :
      EntityId
      → EntityId
      → EntityId
      → (HousingOption F → Bool)
      → Database F
      → Outcome (Database F × HousingOption F)
  assigned housing_id group_id actor_id test db = do
    group ← group_or_null engine group_id
    changed ← change_option engine housing_id actor_id test (with_group group db.clock) db
    require (known_group engine group db) foreign_key_violation
    done changed

  -- The statement for a group of a family: only an option of that family is assigned.
  abbrev pub assigned_within :
      EntityId
      → EntityId
      → EntityId
      → EntityId
      → Database F
      → Outcome (Database F × HousingOption F)
  assigned_within housing_id group_id actor_id group_family_id db = do
    family ← cast engine group_family_id
    assigned housing_id group_id actor_id (λ h. h.family_id == family) db

  unfoldable pub assign_housing_option_group :
      EntityId → EntityId → EntityId → Action (Database F) (HousingOption F)
  assign_housing_option_group housing_id group_id actor_id =
      if is_empty (trim_space group_id)
      then run (assigned housing_id (trim_space group_id) actor_id (λ h. true))
      else λ s.
          proceed
            (λ family_id. run (assigned_within housing_id (trim_space group_id) actor_id family_id))
            (get_housing_group_family_id engine (trim_space group_id) s)

  unfoldable pub update_housing_option_visibility :
      EntityId → Bool → EntityId → Action (Database F) (HousingOption F)
  update_housing_option_visibility housing_id visible actor_id = run (λ db.
      change_option engine housing_id actor_id (λ h. true) (with_visibility visible db.clock) db)

  -- The statement looks at the group of an option, not at its family.
  abbrev pub show_group :
      EntityId → Bool → Database F → Outcome (Database F × List (HousingOption F))
  show_group group_id visible db = do
    group ← cast engine group_id
    let f : HousingOption F → HousingOption F = with_visibility visible db.clock
    done (
      record db { options = update_rows (in_group group) f db.options },
      map (λ h. scanned (f h)) (keep (in_group group) db.options),
    )

  unfoldable pub bulk_update_housing_group_visibility :
      EntityId → Bool → EntityId → Action (Database F) (List (HousingOption F))
  bulk_update_housing_group_visibility group_id visible actor_id s =
      proceed
        (λ family_id s.
          proceed (λ _. run (show_group group_id visible))
            (assert_family_writer engine actor_id family_id s))
        (get_housing_group_family_id engine group_id s)

  abbrev pub note_option : EntityId → String → EntityId → Database F → Outcome (Database F × String)
  note_option housing_id notes actor_id db = do
    changed ← change_option engine housing_id actor_id (λ h. true) (with_notes notes db.clock) db
    done (changed.0, changed.1.notes)

  unfoldable pub update_housing_notes : EntityId → String → EntityId → Action (Database F) String
  update_housing_notes housing_id notes actor_id =
      if is_empty (trim_space housing_id) then throw Error.invalid_argument else λ s.
      proceed (λ _. run (note_option housing_id notes actor_id))
        (lift (validate_housing_notes notes) s)
