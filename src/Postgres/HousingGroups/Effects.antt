-- ===== src/Postgres/HousingGroups/Effects.antt =====
-- What single statements, and the checks in front of them, leave.
use our_ne_zt_core.Common.{
  Bool, true, false, not, ◌&&◌, List, [], ◌∷◌, ◌≡◌, refl, arith, keep, if◌then◌else◌, Bool-cases,
  inl, inr,
}
use our_ne_zt_core.Common.Text.{is_empty, trim_space}
use our_ne_zt_core.Domain.{EntityId, HousingOption}
use our_ne_zt_core.Errors.{Error, Result, ok, err}
use our_ne_zt_core.Action.{Action, proceed, throw}
use our_ne_zt_core.Postgres.Sql.{done, update_rows, find_row, row_of, ask}
use our_ne_zt_core.Postgres.Tables.{Engine, Database, cast}
use our_ne_zt_core.Postgres.Users.Effects.{>>=-done, done_state}
use our_ne_zt_core.Postgres.HousingRows.{writable}
use our_ne_zt_core.Postgres.Housing.{
  valid_if, select_group, change_option, validate_housing_group_assignment,
  get_housing_group_family_id,
}

module _ {ℓ} {A : Type ℓ} where
  pub keep-update_rows :
      (q p : A → Bool) (f : A → A)
      → ((a : A) → p a ≡ true → q a ≡ false)
      → ((a : A) → q (f a) ≡ q a)
      → (rows : List A) → keep q (update_rows p f rows) ≡ keep q rows
  unfolding update_rows
  keep-update_rows q p f off same [] = refl
  keep-update_rows q p f off same (a ∷ rows) =
      ground (arith, off a, same a, keep-update_rows q p f off same rows)

  pub keep-keep :
      (q p : A → Bool)
      → ((a : A) → p a ≡ true → q a ≡ false)
      → (rows : List A) → keep q (keep (λ a. not (p a)) rows) ≡ keep q rows
  keep-keep q p off [] = refl
  keep-keep q p off (a ∷ rows) = ground (arith, off a, keep-keep q p off rows)

-- What holds after a chain of calls of which the first leaves the state alone.
pub proceed-kept {ℓ} :
    {S A B : Type 0} (P : S → Type ℓ) (f : A → Action S B) (db : S) (x : S × Result A)
    → x.0 ≡ db
    → P db
    → ((a : A) → P (f a db).0)
    → P (proceed f x).0
proceed-kept P f db (s, ok a) e p h = rw e (h a)
proceed-kept P f db (s, err e') e p h = rw e p

pub unless-kept {ℓ} :
    {S B : Type 0} (P : S → Type ℓ) (b : Bool) (e : Error) (m : Action S B) (db : S)
    → P db
    → P (m db).0
    → P ((if b then throw e else m) db).0
unless-kept P true e m db p h = p
unless-kept P false e m db p h = h

pub either-kept {ℓ} :
    {S B : Type 0} (P : S → Type ℓ) (b : Bool) (m k : Action S B) (db : S)
    → P (m db).0
    → P (k db).0
    → P ((if b then m else k) db).0
either-kept P true m k db p q = p
either-kept P false m k db p q = q

pub valid_if-state : {S : Type 0} (x : S × Result Bool) → (valid_if x).0 ≡ x.0
valid_if-state (s, ok b) = refl
valid_if-state (s, err e) = refl

module _ {F : Type 0} (engine : Engine) (db : Database F) where
  pub validate-state :
      (family_id group_id : EntityId)
      → (validate_housing_group_assignment engine family_id group_id db).0 ≡ db
  unfolding validate_housing_group_assignment
  validate-state family_id group_id = elim (Bool-cases (is_empty (trim_space group_id))) [
    | inl e ↦ simp e refl
    | inr e ↦ simp e (valid_if-state (ask (select_group engine (trim_space group_id) family_id) db))
  ]

  pub group_family-state :
      (group_id : EntityId) → (get_housing_group_family_id engine group_id db).0 ≡ db
  unfolding get_housing_group_family_id
  group_family-state group_id = elim (Bool-cases (is_empty (trim_space group_id))) [
    | inl e ↦ simp e refl
    | inr e ↦ simp e refl
  ]

  -- An update of one option that succeeds, and its state.
  pub change_option-done :
      (housing_id actor_id : EntityId) (test : HousingOption F → Bool)
      (f : HousingOption F → HousingOption F) (t : Database F) {a : HousingOption F}
      → change_option engine housing_id actor_id test f db ≡ done (t, a)
      → (id actor : EntityId) × (cast engine actor_id ≡ done actor)
        × (t ≡ record db {
          options = update_rows (λ h. writable id actor db.members h && test h) f db.options;
        })
  change_option-done housing_id actor_id test f t h =
      let (id, e1, k1) = >>=-done (cast engine housing_id) _ h in
      let (actor, e2, k2) = >>=-done (cast engine actor_id) _ k1 in
      let p : HousingOption F → Bool = λ h. writable id actor db.members h && test h in
      let (h', e3, k3) = >>=-done (row_of (find_row p db.options)) _ k2 in
      (id, actor, e2, done_state _ _ _ _ k3)
