-- ===== src/Postgres/Families/Membership.antt =====
-- Who is in which family with which role, as a function that the statements on members change.
use text.Mathlib.Text.{◌==◌}
use text.Mathlib.TextEquality.{eq_iff}
use mathlib.Core.Path.{fun_ext}
use our_ne_zt_core.Common.{
  Bool, true, false, ◌&&◌, Option, none, some, List, [], ◌∷◌, ◌++◌, ◌≡◌, ◌∙◌, refl, arith, ◌⊎◌, inl,
  inr, if◌then◌else◌,
}
use our_ne_zt_core.Domain.{EntityId, FamilyRole, Time}
use our_ne_zt_core.Postgres.Sql.{any_row, update_rows, done, require, foreign_key_violation}
use our_ne_zt_core.Postgres.Tables.{Database, MemberRow}
use our_ne_zt_core.Postgres.UserRows.{has_id}
use our_ne_zt_core.Postgres.FamilyRows.{joins, is_family, new_member, with_role}
use our_ne_zt_core.Postgres.Families.{add_member, set_member, keep_member}
use our_ne_zt_core.Postgres.Users.Effects.{>>=-done, done_state}

abbrev pub Membership : Type 0
Membership = EntityId → EntityId → Option FamilyRole

unfoldable pub role_of : List MemberRow → Membership
role_of [] family user = none
role_of (m ∷ rest) family user =
    let later = role_of rest family user in if joins family user m then some m.role else later

-- A role set, and a role given to those who have none.
abbrev pub assign : EntityId → EntityId → FamilyRole → Membership → Membership
assign f u role view family user =
    if (f == family) && (u == user) then some role else view family user

abbrev or_else : Option FamilyRole → FamilyRole → Option FamilyRole
or_else none role = some role
or_else (some r) role = some r

abbrev pub admit : EntityId → EntityId → FamilyRole → Membership → Membership
admit f u role view family user =
    if (f == family) && (u == user) then or_else (view family user) role else view family user

-- Why an appended row answers for its pair alone.
role_of-append :
    (rows : List MemberRow) (f u : EntityId) (role : FamilyRole) (now : Time)
    (family user : EntityId)
    → any_row (joins f u) rows ≡ false
    → role_of (rows ++ new_member f u role now ∷ []) family user
      ≡ assign f u role (role_of rows) family user
unfolding role_of any_row
role_of-append [] f u role now family user h = refl
role_of-append (m ∷ rows) f u role now family user h = ground (
  arith,
  role_of-append rows f u role now family user,
  eq_iff m.family_id f,
  eq_iff m.user_id u,
  eq_iff f family,
  eq_iff u user,
  eq_iff m.family_id family,
  eq_iff m.user_id user,
)

role_of-none :
    (rows : List MemberRow) (family user : EntityId)
    → any_row (joins family user) rows ≡ false
    → role_of rows family user ≡ none
unfolding role_of any_row
role_of-none [] family user h = refl
role_of-none (m ∷ rows) family user h = ground (arith, role_of-none rows family user)

role_of-some :
    (rows : List MemberRow) (family user : EntityId) (role : FamilyRole)
    → any_row (joins family user) rows ≡ true
    → or_else (role_of rows family user) role ≡ role_of rows family user
unfolding role_of any_row
role_of-some [] family user role h = cc
role_of-some (m ∷ rows) family user role h = ground (arith, role_of-some rows family user role)

role_of-update_same :
    (rows : List MemberRow) (f u : EntityId) (role : FamilyRole)
    → any_row (joins f u) rows ≡ true
    → role_of (update_rows (joins f u) (with_role role) rows) f u ≡ some role
unfolding role_of any_row update_rows
role_of-update_same [] f u role h = cc
role_of-update_same (m ∷ rows) f u role h = ground (arith, role_of-update_same rows f u role)

role_of-update_other :
    (rows : List MemberRow) (f u : EntityId) (role : FamilyRole) (family user : EntityId)
    → (f == family) && (u == user) ≡ false
    → role_of (update_rows (joins f u) (with_role role) rows) family user ≡ role_of rows family user
unfolding role_of update_rows
role_of-update_other [] f u role family user h = refl
role_of-update_other (m ∷ rows) f u role family user h = ground (
  arith,
  role_of-update_other rows f u role family user,
  eq_iff m.family_id f,
  eq_iff m.user_id u,
  eq_iff m.family_id family,
  eq_iff m.user_id user,
  eq_iff f family,
  eq_iff u user,
)

role_of-update :
    (rows : List MemberRow) (f u : EntityId) (role : FamilyRole) (family user : EntityId)
    → any_row (joins f u) rows ≡ true
    → role_of (update_rows (joins f u) (with_role role) rows) family user
      ≡ assign f u role (role_of rows) family user
role_of-update rows f u role family user h = ground (
  arith,
  role_of-update_same rows f u role h,
  role_of-update_other rows f u role family user,
  eq_iff f family,
  eq_iff u user,
)

-- Where there is no row, giving a role to those without one sets it; elsewhere it does nothing.
admit-assign :
    (rows : List MemberRow) (f u : EntityId) (role : FamilyRole) (family user : EntityId)
    → any_row (joins f u) rows ≡ false
    → assign f u role (role_of rows) family user ≡ admit f u role (role_of rows) family user
admit-assign rows f u role family user h =
    ground (arith, role_of-none rows f u h, eq_iff f family, eq_iff u user)

admit_member :
    (rows : List MemberRow) (f u : EntityId) (role : FamilyRole) (family user : EntityId)
    → any_row (joins f u) rows ≡ true
    → role_of rows family user ≡ admit f u role (role_of rows) family user
admit_member rows f u role family user h =
    ground (arith, role_of-some rows f u role h, eq_iff f family, eq_iff u user)

-- The branch that a test has taken.
pub branch_taken {ℓ} :
    {A : Type ℓ} (b : Bool) (x y : A) {z : A}
    → (if b then x else y) ≡ z
    → ((b ≡ true) × (x ≡ z)) ⊎ ((b ≡ false) × (y ≡ z))
branch_taken true x y h = inl (refl, h)
branch_taken false x y h = inr (refl, h)

module _ {F : Type 0} (f u : EntityId) (role : FamilyRole) (db : Database F) where
  abbrev added : Database F
  added = record db { members = db.members ++ new_member f u role db.clock ∷ [] }

  abbrev changed : Database F
  changed = record db { members = update_rows (joins f u) (with_role role) db.members }

  add_member-done :
      (t : Database F) {a : Unit {0}} → add_member f u role db ≡ done (t, a) → t ≡ added
  add_member-done t h =
      let known = any_row (is_family f) db.families && any_row (has_id u) db.users in
      let (_, _, end) = >>=-done (require known foreign_key_violation) (λ _. done (added, tt)) h in
      done_state _ _ _ _ end

  pub set_member-roles :
      (t : Database F) {a : Unit {0}}
      → set_member f u role db ≡ done (t, a)
      → role_of t.members ≡ assign f u role (role_of db.members)
  set_member-roles t h =
      elim (branch_taken (any_row (joins f u) db.members) (done (changed, tt)) _ h) [
        | inl (e, end) ↦ fun_ext λ family. fun_ext λ user.
            rw (done_state changed t tt _ end) (role_of-update db.members f u role family user e)
        | inr (e, end) ↦ fun_ext λ family. fun_ext λ user.
            rw (add_member-done t end) (role_of-append db.members f u role db.clock family user e)
      ]

  pub keep_member-roles :
      (t : Database F) {a : Unit {0}}
      → keep_member f u role db ≡ done (t, a)
      → role_of t.members ≡ admit f u role (role_of db.members)
  keep_member-roles t h = elim (branch_taken (any_row (joins f u) db.members) (done (db, tt)) _ h) [
    | inl (e, end) ↦ fun_ext λ family.
        fun_ext
          λ user. rw (done_state db t tt _ end) (admit_member db.members f u role family user e)
    | inr (e, end) ↦ fun_ext λ family. fun_ext λ user. rw (add_member-done t end) (
        role_of-append db.members f u role db.clock family user e
        ∙ admit-assign db.members f u role family user e)
  ]
