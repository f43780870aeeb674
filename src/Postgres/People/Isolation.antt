-- ===== src/Postgres/People/Isolation.antt =====
-- The people of a family, against actors who do not write in it.
use text.Mathlib.Text.{◌==◌}
use text.Mathlib.TextEquality.{eq_iff}
use our_ne_zt_core.Common.{
  String, Bool, true, false, not, ◌||◌, List, ◌≡◌, ◌∙◌, refl, sym, ap, arith, keep, if◌then◌else◌,
}
use our_ne_zt_core.Common.Text.{is_empty, trim_space}
use our_ne_zt_core.Domain.{EntityId, PersonProfile}
use our_ne_zt_core.Errors.{Error}
use our_ne_zt_core.Postgres.Sql.{
  PgError, Outcome, done, failed, run, require, row_of, find_row, update_rows,
}
use our_ne_zt_core.Postgres.Tables.{Engine, Database, cast}
use our_ne_zt_core.Postgres.Access.{is_member, writes}
use our_ne_zt_core.Postgres.Users.Effects.{>>=-done, done_inj, done_state, settled}
use our_ne_zt_core.Postgres.HousingGroups.Effects.{keep-update_rows, keep-keep, unless-kept}
use our_ne_zt_core.Postgres.HousingRows.{fits_integer, too_wide}
use our_ne_zt_core.Postgres.PersonRows.{
  editable, stored, check_person, retry, is_linked_user_compatibility_error,
  is_missing_income_history_relation_error,
}
use our_ne_zt_core.Postgres.PersonLinks.{
  merged, linked_id, link_allowed, link_row, no_column, no_history, add_history,
}
use our_ne_zt_core.Postgres.PersonUpdates.{
  update_row, update_unlinked, update_linked, update_person, after_failure, or_then,
  update_person_profile, remove_person, delete_person_profile,
}

-- The calls on one person, by an actor.
pub data Edit : Type 0 where
  update : PersonProfile → Edit
  remove : EntityId → Edit

module _ {F : Type 0} (engine : Engine) (to_lower : String → String) where
  unfoldable pub edit : Edit → EntityId → Database F → Database F
  edit (update p) actor_id db = (update_person_profile engine to_lower p actor_id db).0
  edit (remove id) actor_id db = (delete_person_profile engine to_lower id actor_id db).0

abbrev pub members_of : {F : Type 0} → EntityId → Database F → List PersonProfile
members_of family db = keep (λ p. p.family_id == family) db.people

-- What holds of the statement that succeeds, of two that are tried.
either-done :
    {T : Type 0} {x : T} (b : Bool) (m k : Outcome T)
    → (if b then m else k) ≡ done x
    → (P : Type 0) → (m ≡ done x → P)
    → (k ≡ done x → P)
    → P
either-done true m k h P p q = p h
either-done false m k h P p q = q h

failed-done :
    {T : Type 0} {P : Type 0} {x : T} (e : PgError) → ◌≡◌ {A = Outcome T} (failed e) (done x) → P
failed-done e h = cc

or_then-done :
    {T : Type 0} {x : T} (o : Outcome T) (next : PgError → Outcome T)
    → or_then o next ≡ done x
    → (P : Type 0) → (o ≡ done x → P)
    → ((e : PgError) → next e ≡ done x → P)
    → P
or_then-done (done t) next h P p q = p h
or_then-done (failed e) next h P p q = q e h

retry-done :
    {T : Type 0} {x : T} (test : PgError → Bool) (o other : Outcome T)
    → retry test o other ≡ done x
    → (P : Type 0) → (o ≡ done x → P)
    → (other ≡ done x → P)
    → P
retry-done test (done t) other h P p q = p h
retry-done test (failed e) other h P p q =
    either-done (test e) other (failed e) h P q (failed-done e)

not_editable :
    {F : Type 0} (family id actor : EntityId) (db : Database F)
    → is_member writes family actor db.members ≡ false
    → (p : PersonProfile) → editable id actor db.members p ≡ true
    → (p.family_id == family) ≡ false
not_editable family id actor db n p w = ground (arith, eq_iff p.family_id family)

module _ {F : Type 0} (engine : Engine) (to_lower : String → String)
    (family actor actor_id : EntityId) (db : Database F)
    (is_actor : cast engine actor_id ≡ done actor)
    (no_writer : is_member writes family actor db.members ≡ false) where
  abbrev Same : Database F → Type 0
  Same t = members_of family t ≡ members_of family db

  none_written :
      (who : EntityId)
      → cast engine actor_id ≡ done who
      → is_member writes family who db.members ≡ false
  none_written who c = rw (done_inj actor who (sym is_actor ∙ c)) no_writer

  edited-Same :
      (id who : EntityId) (f : PersonProfile → PersonProfile) (rows : List PersonProfile)
      → ((p : PersonProfile) → (f p).family_id ≡ p.family_id)
      → cast engine actor_id ≡ done who
      → keep (λ p. p.family_id == family) (update_rows (editable id who db.members) f rows)
        ≡ keep (λ p. p.family_id == family) rows
  edited-Same id who f rows kept c =
      keep-update_rows (λ p. p.family_id == family) (editable id who db.members) f
        (not_editable family id who db (none_written who c)) (λ p. ap (λ s. s == family) (kept p))
        rows

  moved-Same : (s t : Database F) → t ≡ s → Same s → Same t
  moved-Same s t e h = rw e h

  update_row-Same :
      (p : PersonProfile) (t : Database F) {a : PersonProfile}
      → update_row engine to_lower p actor_id db ≡ done (t, a)
      → Same t
  update_row-Same p t h =
      let (_, _, k0) = >>=-done (require (fits_integer p.age) too_wide) _ h in
      let (id, _, k1) = >>=-done (cast engine p.id) _ k0 in
      let (who, c, k2) = >>=-done (cast engine actor_id) _ k1 in
      let test = editable id who db.members in
      let (before, _, k3) = >>=-done (row_of (find_row test db.people)) _ k2 in
      let (_, _, k4) = >>=-done (check_person p) _ k3 in
      let f : PersonProfile → PersonProfile =
        λ q. stored p q.id q.family_id q.linked_user_id q.created_at db.clock in
      moved-Same (record db { people = update_rows test f db.people }) t (done_state _ _ _ _ k4)
        (edited-Same id who f db.people (λ q. refl) c)

  update_unlinked-Same :
      (p : PersonProfile) (t : Database F) {a : PersonProfile}
      → update_unlinked engine to_lower p actor_id db ≡ done (t, a)
      → Same t
  update_unlinked-Same p t h =
      let ((s, b), u, k) = >>=-done (update_row engine to_lower p actor_id db) _ h in
      moved-Same s t (done_state s t _ _ k) (update_row-Same p s u)

  update_linked-Same :
      (p : PersonProfile) (t : Database F) {a : PersonProfile}
      → update_linked engine to_lower p actor_id db ≡ done (t, a)
      → Same t
  update_linked-Same p t h =
      let (_, _, k0) = >>=-done (require db.has_linked_users no_column) _ h in
      let ((s, b), u, k1) = >>=-done (update_row engine to_lower p actor_id db) _ k0 in
      let (id, _, k2) = >>=-done (cast engine p.id) _ k1 in
      let (who, c, k3) = >>=-done (cast engine actor_id) _ k2 in
      let (linked, _, k4) = >>=-done (linked_id engine to_lower p) _ k3 in
      let (_, _, k5) = >>=-done (link_allowed linked b db) _ k4 in
      let link = merged linked b.linked_user_id in
      moved-Same (link_row (editable id who db.members) link s) t (done_state _ _ _ _ k5) (
        edited-Same id who (λ q. record q { linked_user_id = link }) s.people (λ q. refl) c
        ∙ update_row-Same p s u)

  update_person-Same :
      (p : PersonProfile) (t : Database F) {a : PersonProfile}
      → update_person engine to_lower p actor_id db ≡ done (t, a)
      → Same t
  update_person-Same p t h =
      let (_, _, k1) = >>=-done (require db.has_linked_users no_column) _ h in
      let (_, _, k2) = >>=-done (require db.has_history no_history) _ k1 in
      let ((s, b), u, k3) = >>=-done (update_linked engine to_lower p actor_id db) _ k2 in
      moved-Same (add_history b s) t (done_state _ _ _ _ k3) (update_linked-Same p s u)

  after_failure-Same :
      (p : PersonProfile) (e : PgError) (t : Database F) {a : PersonProfile}
      → after_failure engine to_lower p actor_id db e ≡ done (t, a)
      → Same t
  after_failure-Same p e t h =
      let unlinked = update_unlinked engine to_lower p actor_id db in
      let linked = update_linked engine to_lower p actor_id db in
      let next = retry (is_linked_user_compatibility_error to_lower) linked unlinked in
      let missing = is_missing_income_history_relation_error to_lower e in
      either-done (is_linked_user_compatibility_error to_lower e) unlinked
        (if missing then next else failed e) h (Same t) (update_unlinked-Same p t)
        λ k.
          either-done missing next (failed e) k (Same t)
            (λ r.
              retry-done (is_linked_user_compatibility_error to_lower) linked unlinked r (Same t)
                (update_linked-Same p t) (update_unlinked-Same p t))
            (failed-done e)

  remove_person-Same :
      (id : EntityId) (t : Database F) {a : Unit {0}}
      → remove_person engine to_lower id actor_id db ≡ done (t, a)
      → Same t
  remove_person-Same id t h =
      let (person, _, k1) = >>=-done (cast engine id) _ h in
      let (who, c, k2) = >>=-done (cast engine actor_id) _ k1 in
      let test = editable person who db.members in
      let (p, _, k3) = >>=-done (row_of (find_row test db.people)) _ k2 in
      let rest = keep (λ q. not (test q)) db.people in
      moved-Same (record db { people = rest; history = _ }) t (done_state _ _ _ _ k3)
        (keep-keep (λ q. q.family_id == family) test
          (not_editable family person who db (none_written who c)) db.people)

  -- A call that changes or deletes one person, by an actor who does not write in a family, leaves the
  -- family's people as they are, whether it succeeds or fails and whichever migrations have run.
  pub edit-isolated :
      (e : Edit) → members_of family (edit engine to_lower e actor_id db) ≡ members_of family db
  unfolding edit update_person_profile delete_person_profile
  edit-isolated (update p) =
      let statement : Database F → Outcome (Database F × PersonProfile) = λ db.
        or_then (update_person engine to_lower p actor_id db)
          (after_failure engine to_lower p actor_id db) in
      unless-kept Same (is_empty (trim_space p.id) || is_empty (trim_space p.name))
        Error.invalid_argument (run statement) db refl
        (settled Same db (statement db) refl λ t a h.
          or_then-done (update_person engine to_lower p actor_id db)
            (after_failure engine to_lower p actor_id db) h (Same t) (update_person-Same p t)
            (λ e. after_failure-Same p e t))
  edit-isolated (remove id) =
      settled Same db (remove_person engine to_lower id actor_id db) refl
        λ t a h. remove_person-Same id t h
