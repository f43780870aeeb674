-- ===== src/Postgres/Access.antt =====
-- internal/repository/postgres/common.go: who may see and who may change a family's rows.
use text.Mathlib.Text.{◌==◌}
use our_ne_zt_core.Common.{Bool, true, ◌&&◌, ◌||◌, List, if◌then◌else◌}
use our_ne_zt_core.Common.Text.{is_empty, trim_space}
use our_ne_zt_core.Domain.{EntityId, FamilyRole, role_owner, role_admin, role_member}
use our_ne_zt_core.Errors.{Error, Result, ok, err}
use our_ne_zt_core.Action.{Action, throw}
use our_ne_zt_core.Postgres.Sql.{Outcome, done, ◌>>=◌, any_row, ask}
use our_ne_zt_core.Postgres.Tables.{Engine, Database, MemberRow, cast}

-- `role IN ('owner', 'admin', 'member')`, and `role IN ('owner', 'admin')`.
abbrev pub writes : FamilyRole → Bool
writes role = (role == role_owner) || (role == role_admin) || (role == role_member)

abbrev pub manages : FamilyRole → Bool
manages role = (role == role_owner) || (role == role_admin)

abbrev pub any_role : FamilyRole → Bool
any_role role = true

-- Whether a user has a row in a family, with a role that passes a test.
unfoldable pub is_member : (FamilyRole → Bool) → EntityId → EntityId → List MemberRow → Bool
is_member test family user =
    any_row (λ m. (m.family_id == family) && (m.user_id == user) && test m.role)

abbrev pub blank_ids : EntityId → EntityId → Bool
blank_ids user_id family_id = is_empty (trim_space user_id) || is_empty (trim_space family_id)

-- The end of a check: the answer "no" is the error "forbidden".
abbrev pub granted : {S : Type 0} → S × Result Bool → S × Result (Unit {0})
granted (s, ok allowed) = (s, if allowed then ok tt else err Error.forbidden)
granted (s, err e) = (s, err e)

module _ {F : Type 0} (engine : Engine) where
  -- `SELECT EXISTS(...)` of a member of the family, on the texts of the two ids.
  abbrev pub select_member : (FamilyRole → Bool) → EntityId → EntityId → Database F → Outcome Bool
  select_member test user_id family_id db = do
    family ← cast engine family_id
    user ← cast engine user_id
    done (is_member test family user db.members)

  unfoldable pub has_family_access : EntityId → EntityId → Action (Database F) Bool
  has_family_access user_id family_id =
      if blank_ids user_id family_id
      then throw Error.invalid_argument
      else ask (select_member any_role user_id family_id)

  unfoldable pub assert_family_writer : EntityId → EntityId → Action (Database F) (Unit {0})
  assert_family_writer user_id family_id =
      if blank_ids user_id family_id then throw Error.invalid_argument else λ s.
      granted (ask (select_member writes user_id family_id) s)
