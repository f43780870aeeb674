-- ===== src/Postgres/HousingGroups/Assignment.antt =====
-- Which groups an update can give to an option.
use our_ne_zt_core.Common.{
  Bool, ◌||◌, true, false, ◌&&◌, List, [], ◌∷◌, ◌≡◌, ◌≢◌, refl, arith, some,
}
use our_ne_zt_core.Common.Text.{is_empty, trim_space}
use our_ne_zt_core.Domain.{EntityId, HousingOption, HousingGroup}
use our_ne_zt_core.Errors.{ok}
use our_ne_zt_core.Postgres.Sql.{done, ◌>>◌, require, any_row, find_row}
use our_ne_zt_core.Postgres.Tables.{Engine, Database, cast}
use our_ne_zt_core.Postgres.Users.Effects.{>>=-done, require-done}
use our_ne_zt_core.Postgres.HousingRows.{
  fits_columns, too_wide, has_day, no_date, check_row, group_in, has_group_id, rewritten, scanned,
  writable,
}
use our_ne_zt_core.Postgres.Housing.{update_housing_option, validate_housing_group_assignment}

any_row-group_in :
    (group family : EntityId) (groups : List HousingGroup)
    → any_row (group_in group family) groups ≡ true
    → any_row (has_group_id group) groups ≡ true
unfolding any_row
any_row-group_in group family [] h = cc
any_row-group_in group family (g ∷ groups) h = ground (arith, any_row-group_in group family groups)

or_true : (b : Bool) → (b || true) ≡ true
or_true b = ground arith

-- A request to update an option, with names, ids and a group that are not blank.
pub record IsFilled {F : Type 0} (o : HousingOption F) : Type 0 where
  pub with_id : is_empty (trim_space o.id) ≡ false
  pub with_name : is_empty (trim_space o.name) ≡ false
  pub with_family : is_empty (trim_space o.family_id) ≡ false
  pub with_group : is_empty o.group_id ≡ false
  pub trimmed : trim_space o.group_id ≡ o.group_id

check_row-fits_columns :
    {F : Type 0} (o : HousingOption F) → check_row o ≡ done tt → fits_columns o ≡ true
unfolding check_row
check_row-fits_columns o h =
    let dated = require (has_day o.expected_key_collection_date) no_date in
    let (_, start, _) = >>=-done (require (fits_columns o) too_wide >> dated) _ h in
    let (_, fits, _) = >>=-done (require (fits_columns o) too_wide) _ start in require-done _ _ fits

-- The group of an update is looked for in the family that the request names, while the option is one of
-- the family that it belongs to: an update by an actor who writes in the option's family puts it into
-- any group of any other family, whether or not the actor is a member of that.
pub update_housing_option-foreign_group :
    {F : Type 0} (engine : Engine) (o h : HousingOption F) (actor_id : EntityId) (db : Database F)
    (id actor group family : EntityId)
    → IsFilled o
    → cast engine o.id ≡ done id
    → cast engine actor_id ≡ done actor
    → cast engine o.group_id ≡ done group
    → cast engine o.family_id ≡ done family
    → find_row (λ r. writable id actor db.members r && true) db.options ≡ some h
    → any_row (group_in group family) db.groups ≡ true
    → check_row o ≡ done tt
    → h.family_id ≢ family
    → let updated = scanned (rewritten o group db.clock h) in
      ((update_housing_option engine o actor_id db).1 ≡ ok updated)
      × (updated.group_id ≡ group)
      × (updated.family_id ≢ family)
unfolding update_housing_option validate_housing_group_assignment
update_housing_option-foreign_group engine o h actor_id db id actor group family filled ci ca cg cf
      found in_family fits other =
    (
      simp
          (
            filled.with_id,
            filled.with_name,
            filled.with_family,
            filled.trimmed,
            filled.with_group,
            ci,
            ca,
            cg,
            cf,
            found,
            in_family,
            any_row-group_in group family db.groups in_family,
            fits,
            check_row-fits_columns o fits,
            or_true (is_empty group),
          )
          refl,
      refl,
      other,
    )
