-- ===== src/Postgres/Families/Refinement.antt =====
-- The calls of families.go that write, as changes of who is in which family with which role.
use our_ne_zt_core.Common.{ℕ, suc, not, [], ◌∷◌, ◌++◌, String, ◌≡◌, ◌∙◌, refl, sym, ap}
use our_ne_zt_core.Domain.{EntityId, Family, role_owner, role_member}
use our_ne_zt_core.Errors.{Error, Result, ok, ok_inj}
use our_ne_zt_core.Action.{proceed, proceed-ok}
use our_ne_zt_core.Server.Auth.Calls.{unless-ok}
use our_ne_zt_core.Postgres.Sql.{
  Outcome, done, failed, ◌>>◌, run, ask, answer, require, any_row, check_violation,
  unique_violation,
}
use our_ne_zt_core.Postgres.Tables.{Engine, IsEngine, Database, cast}
use our_ne_zt_core.Postgres.Users.Effects.{>>=-done, done_state, done_value, done_inj, settle-ok}
use our_ne_zt_core.Postgres.FamilyRows.{new_family, is_family, is_family_type}
use our_ne_zt_core.Postgres.Families.{
  create_family, join_family_by_code, insert_family, set_member, found_family, invited_family,
  insert_joined, joined,
}
use our_ne_zt_core.Postgres.Families.Membership.{
  role_of, assign, admit, set_member-roles, keep_member-roles,
}

-- A query that succeeds leaves its state.
pub asked {ℓ} :
    {S : Type 0} {T : Type ℓ} (o : Outcome T) (s : S) {t : S} {a : T}
    → ◌≡◌ {A = S × Result T} (s, answer o) (t, ok a)
    → (s ≡ t) × (o ≡ done a)
asked (done b) s h = (ap (λ x. x.0) h, ap done (ok_inj (ap (λ x. x.1) h)))
asked (failed e) s h = cc

new_id-cast :
    (engine : Engine)
    → IsEngine engine
    → (n : ℕ) {id : EntityId} → id ≡ engine.new_id n
    → cast engine id ≡ done id
new_id-cast engine valid n e = rw (e, valid.generated n) refl

-- The memberships at the ends of the two calls, from those in between.
created_roles :
    {F : Type 0} (db db1 db2 t : Database F) (row created : Family) (id owner : EntityId)
    → db1.members ≡ db.members
    → id ≡ row.id
    → t ≡ db2
    → created ≡ row
    → role_of db2.members ≡ assign id owner role_owner (role_of db1.members)
    → role_of t.members ≡ assign created.id owner role_owner (role_of db.members)
created_roles db db1 db2 t row created id owner kept is_id ends is_row roles =
    rw (ends, is_row, ← is_id, ← kept) roles

joined_roles :
    {F : Type 0} (db db1 db2 t : Database F) (id user : EntityId)
    → db ≡ db1
    → t ≡ db2
    → role_of db2.members ≡ admit id user role_member (role_of db1.members)
    → role_of t.members ≡ admit id user role_member (role_of db.members)
joined_roles db db1 db2 t id user same ends roles = rw (ends, same) roles

module _ {F : Type 0} (engine : Engine) where
  insert_family-done :
      (family : Family) (db t : Database F) (a : Family)
      → insert_family engine family db ≡ done (t, a)
      → (t.members ≡ db.members) × (a.id ≡ engine.new_id db.drawn)
  insert_family-done family db t a h =
      let row = new_family (engine.new_id db.drawn) db.clock family in
      let taken = any_row (is_family row.id) db.families in
      let known = is_family_type family.family_type in
      let inserted = record db { families = db.families ++ row ∷ []; drawn = suc db.drawn } in
      let last : Unit {0} → Outcome (Database F × Family) = λ _. done (inserted, row) in
      let (_, _, k) =
        >>=-done (require known check_violation)
          (λ _. require (not taken) unique_violation >> last tt) h in
      let (_, _, end) = >>=-done (require (not taken) unique_violation) last k in
      (rw (done_state inserted t row a end) refl, rw (done_value inserted t row a end) refl)

  -- Creating a family makes its owner, and changes no other membership.
  pub create_family-refines :
      IsEngine engine
      → (family : Family) (owner_id : EntityId) (db t : Database F) (created : Family)
      → create_family engine family owner_id db ≡ (t, ok created)
      → (owner : EntityId) × (cast engine owner_id ≡ done owner)
        × (role_of t.members ≡ assign created.id owner role_owner (role_of db.members))
  unfolding create_family
  create_family-refines valid family owner_id db t created h =
      let (_, run_it) =
        unless-ok _ Error.invalid_argument (run (found_family engine family owner_id)) db h in
      let o = settle-ok db (found_family engine family owner_id db) run_it in
      let ((db1, row), e1, k1) = >>=-done (insert_family engine family db) _ o in
      let (id, e2, k2) = >>=-done (cast engine row.id) _ k1 in
      let (owner, e3, k3) = >>=-done (cast engine owner_id) _ k2 in
      let ((db2, u), e4, k4) = >>=-done (set_member id owner role_owner db1) _ k3 in
      let (kept, named) = insert_family-done family db db1 row e1 in
      let is_id : id ≡ row.id =
        done_inj row.id id (sym (new_id-cast engine valid db.drawn named) ∙ e2) in
      let ends = done_state db2 t row created k4 in
      let is_row = done_value db2 t row created k4 in
      (
        owner,
        e3,
        created_roles db db1 db2 t row created id owner kept is_id ends is_row
            (set_member-roles id owner role_owner db1 db2 e4),
      )

  -- Joining a family by a code makes the caller a member, unless the caller has a role there already,
  -- which then stays, and changes no other membership.
  pub join_family_by_code-refines :
      (user_id : EntityId) (code_hash : String) (db t : Database F) (family : Family)
      → join_family_by_code engine user_id code_hash db ≡ (t, ok family)
      → (id user : EntityId) × (cast engine family.id ≡ done id)
        × (cast engine user_id ≡ done user)
        × (role_of t.members ≡ admit id user role_member (role_of db.members))
  unfolding join_family_by_code
  join_family_by_code-refines user_id code_hash db t family h =
      let go = λ (family : Family). run (joined engine user_id family) in
      let (_, act) =
        unless-ok _ Error.invalid_argument
          (λ s. proceed go (ask (invited_family engine code_hash) s)) db h in
      let (db1, found, e1, k1) = proceed-ok go (ask (invited_family engine code_hash) db) act in
      let (same, is_found) = asked _ db e1 in
      let o = settle-ok db1 (joined engine user_id found db1) k1 in
      let ((db2, u), e2, k2) = >>=-done (insert_joined engine found.id user_id db1) _ o in
      let (id, e3, k3) = >>=-done (cast engine found.id) _ e2 in
      let (user, e4, k4) = >>=-done (cast engine user_id) _ k3 in
      let ends = done_state db2 t found family k2 in
      let is_family = done_value db2 t found family k2 in
      (
        id,
        user,
        ap (λ f. cast engine f.id) is_family ∙ e3,
        e4,
        joined_roles db db1 db2 t id user same ends
            (keep_member-roles id user role_member db1 db2 k4),
      )
