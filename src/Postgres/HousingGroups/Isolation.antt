-- ===== src/Postgres/HousingGroups/Isolation.antt =====
-- Whose options the writing calls of the housing repository can change.
use text.Mathlib.Text.{◌==◌}
use text.Mathlib.TextEquality.{eq_iff}
use our_ne_zt_core.Common.{
  String, Bool, true, false, not, ◌&&◌, ◌||◌, List, ◌≡◌, ◌∙◌, refl, sym, ap, arith, keep,
  if◌then◌else◌,
}
use our_ne_zt_core.Common.Text.{is_empty, trim_space}
use our_ne_zt_core.Domain.{EntityId, HousingOption}
use our_ne_zt_core.Errors.{Error}
use our_ne_zt_core.Action.{Action, proceed, throw, lift}
use our_ne_zt_core.Checklist.{validate_housing_notes}
use our_ne_zt_core.Postgres.Sql.{
  Outcome, done, update_rows, find_row, row_of, run, require, foreign_key_violation,
}
use our_ne_zt_core.Postgres.Tables.{Engine, Database, cast}
use our_ne_zt_core.Postgres.Access.{is_member, writes}
use our_ne_zt_core.Postgres.Users.Effects.{settled, >>=-done, done_state, done_inj}
use our_ne_zt_core.Postgres.HousingRows.{
  fits_columns, too_wide, check_row, writable, rewritten, with_group, with_visibility, with_notes,
}
use our_ne_zt_core.Postgres.Housing.{
  known_group, group_or_null, change_option, rewrite_option, update_housing_option, remove_option,
  delete_housing_option, validate_housing_group_assignment, get_housing_group_family_id,
}
use our_ne_zt_core.Postgres.HousingGroups.{
  assigned, assigned_within, assign_housing_option_group, update_housing_option_visibility,
  note_option, update_housing_notes,
}
use our_ne_zt_core.Postgres.HousingGroups.Effects.{
  keep-update_rows, keep-keep, proceed-kept, unless-kept, either-kept, validate-state,
  group_family-state, change_option-done,
}

-- The calls on one option, by an actor.
pub data Write (F : Type 0) : Type 0 where
  rewrite : HousingOption F → Write F
  remove : EntityId → Write F
  assign : (housing_id group_id : EntityId) → Write F
  show : EntityId → Bool → Write F
  note : EntityId → String → Write F

module _ {F : Type 0} (engine : Engine) where
  unfoldable pub write : Write F → EntityId → Database F → Database F
  write (rewrite o) actor_id db = (update_housing_option engine o actor_id db).0
  write (remove id) actor_id db = (delete_housing_option engine id actor_id db).0
  write (assign id group) actor_id db = (assign_housing_option_group engine id group actor_id db).0
  write (show id visible) actor_id db =
      (update_housing_option_visibility engine id visible actor_id db).0
  write (note id notes) actor_id db = (update_housing_notes engine id notes actor_id db).0

abbrev pub options_of : {F : Type 0} → EntityId → Database F → List (HousingOption F)
options_of family db = keep (λ h. h.family_id == family) db.options

not_writable :
    {F : Type 0} (family id actor : EntityId) (db : Database F)
    → is_member writes family actor db.members ≡ false
    → (h : HousingOption F) → writable id actor db.members h ≡ true
    → (h.family_id == family) ≡ false
not_writable family id actor db n h w = ground (arith, eq_iff h.family_id family)

module _ {F : Type 0} (engine : Engine) (family actor actor_id : EntityId) (db : Database F)
    (is_actor : cast engine actor_id ≡ done actor)
    (no_writer : is_member writes family actor db.members ≡ false) where
  abbrev Same : Database F → Type 0
  Same t = options_of family t ≡ options_of family db

  updated-Same :
      (id who : EntityId) (test : HousingOption F → Bool) (f : HousingOption F → HousingOption F)
      (t : Database F)
      → ((h : HousingOption F) → (f h).family_id ≡ h.family_id)
      → who ≡ actor
      → t ≡ record db {
        options = update_rows (λ h. writable id who db.members h && test h) f db.options;
      }
      → Same t
  updated-Same id who test f t kept is_who end =
      let p : HousingOption F → Bool = λ h. writable id who db.members h && test h in
      let none_written : is_member writes family who db.members ≡ false = rw is_who no_writer in
      rw end (
        keep-update_rows (λ h. h.family_id == family) p f
          (λ h w. not_writable family id who db none_written h (ground (arith, w)))
          (λ h. ap (λ s. s == family) (kept h)) db.options)

  change_option-Same :
      (housing_id : EntityId) (test : HousingOption F → Bool)
      (f : HousingOption F → HousingOption F) (t : Database F) {a : HousingOption F}
      → ((h : HousingOption F) → (f h).family_id ≡ h.family_id)
      → change_option engine housing_id actor_id test f db ≡ done (t, a)
      → Same t
  change_option-Same housing_id test f t kept h =
      let (id, who, c, end) = change_option-done engine db housing_id actor_id test f t h in
      updated-Same id who test f t kept (done_inj actor who (sym is_actor ∙ c)) end

  moved-Same : (s t : Database F) → t ≡ s → Same s → Same t
  moved-Same s t e h = rw e h

  noted-Same :
      (housing_id notes : String) (t : Database F) {a : String}
      → note_option engine housing_id notes actor_id db ≡ done (t, a)
      → Same t
  noted-Same housing_id notes t {a = a} h =
      let f = with_notes notes db.clock in
      let ((s, b), changed, k) =
        >>=-done (change_option engine housing_id actor_id (λ h. true) f db) _ h in
      moved-Same s t (done_state s t b.notes a k)
        (change_option-Same housing_id (λ h. true) f s (λ h. refl) changed)

  rewrite-Same :
      (o : HousingOption F) (t : Database F) {a : HousingOption F}
      → rewrite_option engine o actor_id db ≡ done (t, a)
      → Same t
  rewrite-Same o t {a = a} h =
      let (_, _, k0) = >>=-done (require (fits_columns o) too_wide) _ h in
      let (group, _, k1) = >>=-done (group_or_null engine o.group_id) _ k0 in
      let f = rewritten o group db.clock in
      let ((s, b), changed, k2) =
        >>=-done (change_option engine o.id actor_id (λ h. true) f db) _ k1 in
      let (_, _, k3) = >>=-done (check_row o) _ k2 in
      let (_, _, k4) =
        >>=-done (require (known_group engine group db) foreign_key_violation) _ k3 in
      moved-Same s t (done_state s t b a k4)
        (change_option-Same o.id (λ h. true) f s (λ h. refl) changed)

  assigned-Same :
      (housing_id group_id : EntityId) (test : HousingOption F → Bool) (t : Database F)
      {a : HousingOption F}
      → assigned engine housing_id group_id actor_id test db ≡ done (t, a)
      → Same t
  assigned-Same housing_id group_id test t {a = a} h =
      let (group, _, k1) = >>=-done (group_or_null engine group_id) _ h in
      let f = with_group group db.clock in
      let ((s, b), changed, k2) =
        >>=-done (change_option engine housing_id actor_id test f db) _ k1 in
      let (_, _, k3) =
        >>=-done (require (known_group engine group db) foreign_key_violation) _ k2 in
      moved-Same s t (done_state s t b a k3)
        (change_option-Same housing_id test f s (λ h. refl) changed)

  removed-Same :
      (housing_id : EntityId) (t : Database F) {a : Unit {0}}
      → remove_option engine housing_id actor_id db ≡ done (t, a)
      → Same t
  removed-Same housing_id t h =
      let (id, _, k1) = >>=-done (cast engine housing_id) _ h in
      let (who, c, k2) = >>=-done (cast engine actor_id) _ k1 in
      let (h', _, k3) = >>=-done (row_of (find_row (writable id who db.members) db.options)) _ k2 in
      let rest = keep (λ o. not (writable id who db.members o)) db.options in
      let none_written : is_member writes family who db.members ≡ false =
        rw (done_inj actor who (sym is_actor ∙ c)) no_writer in
      let kept : keep (λ o. o.family_id == family) rest ≡ options_of family db =
        keep-keep (λ o. o.family_id == family) (writable id who db.members)
          (not_writable family id who db none_written) db.options in
      moved-Same (record db { options = rest; answers = _ }) t (done_state _ _ _ _ k3) kept

  assign_within-Same :
      (id group : EntityId)
      → Same
          (proceed
            (λ family_id. run (assigned_within engine id group actor_id family_id))
            (get_housing_group_family_id engine group db)).0
  assign_within-Same id group =
      proceed-kept Same (λ family_id. run (assigned_within engine id group actor_id family_id)) db
        (get_housing_group_family_id engine group db) (group_family-state engine db group) refl
        λ family_id.
          settled Same db (assigned_within engine id group actor_id family_id db) refl λ t a h.
            (let (named, _, k) = >>=-done (cast engine family_id) _ h in
              assigned-Same id group (λ h. h.family_id == named) t k)

  -- A call of a statement that follows a check which changes nothing.
  checked-Same :
      {A B : Type 0} (check : Action (Database F) A) (blank : Bool)
      (statement : Database F → Outcome (Database F × B))
      → (check db).0 ≡ db
      → ((t : Database F) (a : B) → statement db ≡ done (t, a) → Same t)
      → Same
          ((if blank
              then throw Error.invalid_argument
              else (λ s. proceed (λ _. run statement) (check s)))
            db).0
  checked-Same check blank statement same h =
      unless-kept Same blank Error.invalid_argument (λ s. proceed (λ _. run statement) (check s)) db
        refl
        (proceed-kept Same (λ _. run statement) db (check db) same refl
          (λ _. settled Same db (statement db) refl h))

  -- A call on one option, by an actor who does not write in a family, leaves the family's options as
  -- they are, whether it succeeds or fails.
  pub write-isolated :
      (w : Write F) → options_of family (write engine w actor_id db) ≡ options_of family db
  unfolding write update_housing_option delete_housing_option assign_housing_option_group
      update_housing_option_visibility update_housing_notes
  write-isolated (rewrite o) =
      checked-Same (validate_housing_group_assignment engine o.family_id o.group_id)
        (is_empty (trim_space o.id)
          || is_empty (trim_space o.name)
          || is_empty (trim_space o.family_id))
        (rewrite_option engine o actor_id) (validate-state engine db o.family_id o.group_id)
        (λ t a h. rewrite-Same o t h)
  write-isolated (remove id) =
      settled Same db (remove_option engine id actor_id db) refl λ t a h. removed-Same id t h
  write-isolated (assign id group) =
      either-kept Same (is_empty (trim_space group))
        (run (assigned engine id (trim_space group) actor_id (λ h. true)))
        (λ s.
          proceed
            (λ family_id. run (assigned_within engine id (trim_space group) actor_id family_id))
            (get_housing_group_family_id engine (trim_space group) s))
        db
        (settled Same db (assigned engine id (trim_space group) actor_id (λ h. true) db) refl
          λ t a h. assigned-Same id (trim_space group) (λ h. true) t h)
        (assign_within-Same id (trim_space group))
  write-isolated (show id visible) =
      let f = with_visibility visible db.clock in
      settled Same db (change_option engine id actor_id (λ h. true) f db) refl
        λ t a h. change_option-Same id (λ h. true) f t (λ h. refl) h
  write-isolated (note id notes) =
      checked-Same (lift (validate_housing_notes notes)) (is_empty (trim_space id))
        (note_option engine id notes actor_id) refl (λ t a h. noted-Same id notes t h)
