-- ===== src/Postgres/FamilyRows.antt =====
-- The tests, orders and rows of families, members and invitations that
-- internal/repository/postgres/families.go reads and writes.
use text.Mathlib.Text.{◌==◌}
use our_ne_zt_core.Common.{
  String, Bool, true, not, ◌&&◌, ◌||◌, Option, none, some, List, [], ◌∷◌, ltb, keep,
}
use our_ne_zt_core.Domain.{
  EntityId, Time, User, Family, FamilyType, FamilyRole, family_single, family_couple, family_family,
  family_shared_household,
}
use our_ne_zt_core.Server.Repositories.{FamilyMember}
use our_ne_zt_core.Postgres.Sql.{find_row, order_by}
use our_ne_zt_core.Postgres.Tables.{MemberRow, InviteRow}
use our_ne_zt_core.Postgres.UserRows.{has_id, is_set}

abbrev pub is_family : EntityId → Family → Bool
is_family id f = f.id == id

abbrev pub is_family_type : FamilyType → Bool
is_family_type t =
    (t == family_single)
    || (t == family_couple)
    || (t == family_family)
    || (t == family_shared_household)

abbrev pub joins : EntityId → EntityId → MemberRow → Bool
joins family user m = (m.family_id == family) && (m.user_id == user)

abbrev pub not_past : Time → Option Time → Bool
not_past now none = true
not_past now (some t) = ltb now t

abbrev pub has_code : String → InviteRow → Bool
has_code code_hash i = i.code_hash == code_hash

abbrev pub open_invite : String → Time → InviteRow → Bool
open_invite code_hash now i =
    has_code code_hash i && not (is_set i.revoked_at) && not_past now i.expires_at

abbrev pub newer_invite : InviteRow → InviteRow → Bool
newer_invite i j = not (ltb i.created_at j.created_at)

abbrev pub newer_family : Family → Family → Bool
newer_family f g = not (ltb f.created_at g.created_at)

abbrev pub earlier_member : MemberRow → MemberRow → Bool
earlier_member m n = not (ltb n.joined_at m.joined_at)

-- The family of the first invitation that has one.
unfoldable pub first_family : List Family → List InviteRow → Option Family
first_family families [] = none
first_family families (i ∷ rest) =
    let later = first_family families rest in
    elim (find_row (is_family i.family_id) families) [ none ↦ later | some f ↦ some f ]

unfoldable pub named_members : List User → List MemberRow → List FamilyMember
named_members users [] = []
named_members users (m ∷ rest) =
    let later = named_members users rest in
    elim (find_row (has_id m.user_id) users) [
      | none ↦ later
      | some u ↦
          record {
            family_id = m.family_id;
            user_id = m.user_id;
            display_name = u.display_name;
            role = m.role;
          }
          ∷ later
    ]

abbrev pub new_family : EntityId → Time → Family → Family
new_family id now family = record family { id = id; created_at = now; updated_at = now }

abbrev pub new_member : EntityId → EntityId → FamilyRole → Time → MemberRow
new_member family user role now = record {
  family_id = family;
  user_id = user;
  role = role;
  joined_at = now;
}

abbrev pub new_invite : EntityId → String → Option Time → EntityId → Time → InviteRow
new_invite family code_hash expires_at actor now = record {
  family_id = family;
  code_hash = code_hash;
  expires_at = expires_at;
  revoked_at = none;
  created_by = actor;
  created_at = now;
}

abbrev pub with_role : FamilyRole → MemberRow → MemberRow
with_role role m = record m { role = role }

abbrev pub any_of_code : String → Time → List Family → List InviteRow → Option Family
any_of_code code_hash now families invites =
    first_family families (order_by newer_invite (keep (open_invite code_hash now) invites))
