-- ===== src/Postgres/Housing.antt =====
-- internal/repository/postgres/housing.go and housing_notes.go: the calls that write options and groups,
-- and the list of groups. The casts of a statement's parameters come first.
use text.Mathlib.Text.{◌==◌}
use our_ne_zt_core.Common.{
  suc, String, Bool, true, not, ◌&&◌, ◌||◌, [], ◌∷◌, ◌++◌, keep, if◌then◌else◌,
}
use our_ne_zt_core.Common.Text.{is_empty, trim_space}
use our_ne_zt_core.Domain.{EntityId, HousingOption}
use our_ne_zt_core.Checklist.{validate_housing_notes}
use our_ne_zt_core.Errors.{Error, Result, ok, err}
use our_ne_zt_core.Action.{Action, proceed, give, throw, lift}
use our_ne_zt_core.Postgres.Sql.{
  Outcome, done, ◌>>=◌, ◌>>◌, run, ask, require, row_of, find_row, any_row, update_rows,
  unique_violation, foreign_key_violation,
}
use our_ne_zt_core.Postgres.Tables.{Engine, Database, cast}
use our_ne_zt_core.Postgres.Access.{assert_family_writer}
use our_ne_zt_core.Postgres.FamilyRows.{is_family}
use our_ne_zt_core.Postgres.HousingRows.{
  has_group_id, group_in, fits_columns, too_wide, check_row, rewritten, new_option, scanned,
  writable,
}

-- `NULLIF($1, '')::uuid`; NULL is the empty text.
abbrev pub group_or_null : Engine → String → Outcome EntityId
group_or_null engine text = if is_empty text then done "" else cast engine text

-- "No" is here the error "invalid argument".
abbrev pub valid_if : {S : Type 0} → S × Result Bool → S × Result (Unit {0})
valid_if (s, ok exists) = (s, if exists then ok tt else err Error.invalid_argument)
valid_if (s, err e) = (s, err e)

module _ {F : Type 0} (engine : Engine) where
  abbrev pub select_group : String → EntityId → Database F → Outcome Bool
  select_group group_id family_id db = do
    group ← cast engine group_id
    family ← cast engine family_id
    done (any_row (group_in group family) db.groups)

  unfoldable pub validate_housing_group_assignment :
      EntityId → EntityId → Action (Database F) (Unit {0})
  validate_housing_group_assignment family_id group_id =
      if is_empty (trim_space group_id) then give tt else λ s.
      valid_if (ask (select_group (trim_space group_id) family_id) s)

  abbrev pub select_group_family : EntityId → Database F → Outcome EntityId
  select_group_family group_id db = do
    group ← cast engine group_id
    found ← row_of (find_row (has_group_id group) db.groups)
    done found.family_id

  unfoldable pub get_housing_group_family_id : EntityId → Action (Database F) EntityId
  get_housing_group_family_id group_id =
      if is_empty (trim_space group_id)
      then throw Error.invalid_argument
      else ask (select_group_family group_id)

  -- A group of an option is NULL or there.
  abbrev pub known_group : EntityId → Database F → Bool
  known_group group db = is_empty group || any_row (has_group_id group) db.groups

  abbrev pub insert_option : HousingOption F → Database F → Outcome (Database F × HousingOption F)
  insert_option option db = do
    require (fits_columns option) too_wide
    family ← cast engine option.family_id
    group ← group_or_null engine option.group_id
    let row = new_option option (engine.new_id db.drawn) family group db.clock
    check_row option
    require (not (any_row (λ h. h.id == row.id) db.options)) unique_violation
    require (any_row (is_family family) db.families && known_group group db) foreign_key_violation
    done (record db { options = db.options ++ row ∷ []; drawn = suc db.drawn }, scanned row)

  unfoldable pub create_housing_option :
      HousingOption F → EntityId → Action (Database F) (HousingOption F)
  create_housing_option option actor_id s =
      proceed
        (λ _.
          if is_empty (trim_space option.family_id) || is_empty (trim_space option.name)
          then throw Error.invalid_argument
          else λ s.
              proceed
                (λ _ s.
                  proceed (λ _. run (insert_option option))
                    (validate_housing_group_assignment option.family_id option.group_id s))
                (assert_family_writer engine actor_id option.family_id s))
        (lift (validate_housing_notes option.notes) s)

  -- `UPDATE housing_options h ... FROM family_members fm WHERE h.id = $1::uuid AND ...`, where the
  -- actor writes in the option's family and the option passes a test.
  abbrev pub change_option :
      EntityId
      → EntityId
      → (HousingOption F → Bool)
      → (HousingOption F → HousingOption F)
      → Database F
      → Outcome (Database F × HousingOption F)
  change_option housing_id actor_id test f db = do
    id ← cast engine housing_id
    actor ← cast engine actor_id
    let p : HousingOption F → Bool = λ h. writable id actor db.members h && test h
    h ← row_of (find_row p db.options)
    done (record db { options = update_rows p f db.options }, scanned (f h))

  abbrev pub rewrite_option :
      HousingOption F → EntityId → Database F → Outcome (Database F × HousingOption F)
  rewrite_option option actor_id db = do
    require (fits_columns option) too_wide
    group ← group_or_null engine option.group_id
    changed ← change_option option.id actor_id (λ h. true) (rewritten option group db.clock) db
    check_row option
    require (known_group group db) foreign_key_violation
    done changed

  unfoldable pub update_housing_option :
      HousingOption F → EntityId → Action (Database F) (HousingOption F)
  update_housing_option option actor_id =
      if is_empty (trim_space option.id)
        || is_empty (trim_space option.name)
        || is_empty (trim_space option.family_id)
      then throw Error.invalid_argument
      else λ s.
          proceed (λ _. run (rewrite_option option actor_id))
            (validate_housing_group_assignment option.family_id option.group_id s)

  -- `DELETE FROM housing_options`, and the answers that refer to the option.
  abbrev pub remove_option : EntityId → EntityId → Database F → Outcome (Database F × Unit {0})
  remove_option housing_id actor_id db = do
    id ← cast engine housing_id
    actor ← cast engine actor_id
    h ← row_of (find_row (writable id actor db.members) db.options)
    done (
      record db {
        options = keep (λ o. not (writable id actor db.members o)) db.options;
        answers = keep (λ a. not (a.answer.housing_id == h.id)) db.answers;
      },
      tt,
    )

  unfoldable pub delete_housing_option : EntityId → EntityId → Action (Database F) (Unit {0})
  delete_housing_option housing_id actor_id = run (remove_option housing_id actor_id)
