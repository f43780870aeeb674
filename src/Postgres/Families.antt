-- ===== src/Postgres/Families.antt =====
-- internal/repository/postgres/families.go: families, their members, and the codes to join them. A
-- family and a user have at most one row together, so that a join with the members repeats no family.
use text.Mathlib.Text.{◌==◌}
use our_ne_zt_core.Common.{
  suc, String, Bool, true, false, not, ◌&&◌, ◌||◌, Option, none, some, List, [], ◌∷◌, ◌++◌, ltb,
  keep, if◌then◌else◌,
}
use our_ne_zt_core.Common.Text.{is_empty, trim_space}
use our_ne_zt_core.Domain.{
  EntityId, Time, User, Family, FamilyType, FamilyRole, role_owner, role_member, family_single,
  family_couple, family_family, family_shared_household,
}
use our_ne_zt_core.Errors.{Error}
use our_ne_zt_core.Action.{Action, proceed, throw, lift}
use our_ne_zt_core.Server.Repositories.{Families, FamilyMember}
use our_ne_zt_core.Postgres.Sql.{
  Outcome, done, ◌>>=◌, ◌>>◌, run, ask, require, row_of, find_row, any_row, update_rows, order_by,
  check_violation, unique_violation, foreign_key_violation,
}
use our_ne_zt_core.Postgres.Tables.{Engine, Database, MemberRow, InviteRow, cast}
use our_ne_zt_core.Postgres.Access.{
  is_member, any_role, manages, select_member, has_family_access, granted,
}
use our_ne_zt_core.Postgres.UserRows.{has_id, is_set}
use our_ne_zt_core.Postgres.FamilyRows.{
  is_family, is_family_type, joins, not_past, has_code, open_invite, newer_invite, newer_family,
  earlier_member, first_family, named_members, new_family, new_member, new_invite, with_role,
  any_of_code,
}
pub mod Membership
pub mod Refinement
pub mod Codes

module _ {F : Type 0} where
  -- `INSERT INTO family_members`, where there is no row of the family and the user.
  abbrev pub add_member :
      EntityId → EntityId → FamilyRole → Database F → Outcome (Database F × Unit {0})
  add_member family user role db =
      let known = any_row (is_family family) db.families && any_row (has_id user) db.users in
      require known foreign_key_violation
      >> done (record db { members = db.members ++ new_member family user role db.clock ∷ [] }, tt)

  -- `ON CONFLICT (family_id, user_id) DO UPDATE SET role`, and `DO NOTHING`.
  abbrev pub set_member :
      EntityId → EntityId → FamilyRole → Database F → Outcome (Database F × Unit {0})
  set_member family user role db =
      if any_row (joins family user) db.members
      then done
          (record db { members = update_rows (joins family user) (with_role role) db.members }, tt)
      else add_member family user role db

  abbrev pub keep_member :
      EntityId → EntityId → FamilyRole → Database F → Outcome (Database F × Unit {0})
  keep_member family user role db =
      if any_row (joins family user) db.members
      then done (db, tt)
      else add_member family user role db

module _ {F : Type 0} (engine : Engine) where
  abbrev pub insert_family : Family → Database F → Outcome (Database F × Family)
  insert_family family db = do
    let row = new_family (engine.new_id db.drawn) db.clock family
    require (is_family_type family.family_type) check_violation
    require (not (any_row (is_family row.id) db.families)) unique_violation
    done (record db { families = db.families ++ row ∷ []; drawn = suc db.drawn }, row)

  -- The transaction of `CreateFamily`.
  abbrev pub found_family : Family → EntityId → Database F → Outcome (Database F × Family)
  found_family family owner_id db = do
    inserted ← insert_family family db
    id ← cast engine inserted.1.id
    owner ← cast engine owner_id
    joined ← set_member id owner role_owner inserted.0
    done (joined.0, inserted.1)

  unfoldable pub create_family : Family → EntityId → Action (Database F) Family
  create_family family owner_id =
      if is_empty (trim_space family.name)
        || is_empty (trim_space family.family_type)
        || is_empty (trim_space owner_id)
      then throw Error.invalid_argument
      else run (found_family family owner_id)

  abbrev select_family : EntityId → EntityId → Database F → Outcome Family
  select_family family_id viewer_id db = do
    family ← cast engine family_id
    viewer ← cast engine viewer_id
    if is_member any_role family viewer db.members
        then row_of (find_row (is_family family) db.families)
        else row_of none

  unfoldable pub get_family : EntityId → EntityId → Action (Database F) Family
  get_family family_id viewer_id = ask (select_family family_id viewer_id)

  abbrev select_families : EntityId → Database F → Outcome (List Family)
  select_families user_id db = do
    user ← cast engine user_id
    done (order_by newer_family (keep (λ f. is_member any_role f.id user db.members) db.families))

  unfoldable pub list_user_families : EntityId → Action (Database F) (List Family)
  list_user_families user_id = ask (select_families user_id)

  abbrev pub invited_family : String → Database F → Outcome Family
  invited_family code_hash db = row_of (any_of_code code_hash db.clock db.families db.invites)

  abbrev pub insert_joined : EntityId → EntityId → Database F → Outcome (Database F × Unit {0})
  insert_joined family_id user_id db = do
    family ← cast engine family_id
    user ← cast engine user_id
    keep_member family user role_member db

  -- The second statement of a join, for the family that the first has found.
  abbrev pub joined : EntityId → Family → Database F → Outcome (Database F × Family)
  joined user_id family db = do
    inserted ← insert_joined family.id user_id db
    done (inserted.0, family)

  unfoldable pub join_family_by_code : EntityId → String → Action (Database F) Family
  join_family_by_code user_id code_hash =
      if is_empty (trim_space user_id) || is_empty (trim_space code_hash)
      then throw Error.invalid_argument
      else λ s. proceed (λ family. run (joined user_id family)) (ask (invited_family code_hash) s)

  unfoldable pub assert_family_manager : EntityId → EntityId → Action (Database F) (Unit {0})
  assert_family_manager actor_id family_id s =
      granted (ask (select_member engine manages actor_id family_id) s)

  abbrev pub insert_invite :
      EntityId → EntityId → String → Option Time → Database F → Outcome (Database F × Unit {0})
  insert_invite actor_id family_id code_hash expires_at db = do
    family ← cast engine family_id
    actor ← cast engine actor_id
    require (not (any_row (has_code code_hash) db.invites)) unique_violation
    require (any_row (is_family family) db.families && any_row (has_id actor) db.users)
        foreign_key_violation
    let row = new_invite family code_hash expires_at actor db.clock
    done (record db { invites = db.invites ++ row ∷ [] }, tt)

  unfoldable pub generate_family_join_code :
      EntityId → EntityId → String → Option Time → Action (Database F) (Unit {0})
  generate_family_join_code actor_id family_id code_hash expires_at =
      if is_empty (trim_space code_hash) then throw Error.invalid_argument else λ s.
      proceed (λ _. run (insert_invite actor_id family_id code_hash expires_at))
        (assert_family_manager actor_id family_id s)

  abbrev select_members : EntityId → Database F → Outcome (List FamilyMember)
  select_members family_id db = do
    family ← cast engine family_id
    let rows = keep (λ m. m.family_id == family) db.members
    done (named_members db.users (order_by earlier_member rows))

  unfoldable pub list_family_members : EntityId → EntityId → Action (Database F) (List FamilyMember)
  list_family_members actor_id family_id s =
      proceed (λ _. ask (select_members family_id))
        (granted (has_family_access engine actor_id family_id s))

  abbrev pub family_repository : Families (Database F)
  family_repository = record {
    create_family = create_family;
    get_family = get_family;
    list_user_families = list_user_families;
    join_family_by_code = join_family_by_code;
    generate_family_join_code = generate_family_join_code;
    list_family_members = list_family_members;
  }
