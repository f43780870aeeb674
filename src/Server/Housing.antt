-- ===== src/Server/Housing.antt =====
-- internal/server/housing.go and housing_notes.go: the handlers for housing options and groups.
use text.Mathlib.Text.{◌==◌}
use our_ne_zt_core.Common.{
  ℕ, String, Bool, true, false, not, ◌||◌, Option, none, some, List, map, if◌then◌else◌,
}
use our_ne_zt_core.Common.Text.{is_empty, trim_space}
use our_ne_zt_core.Common.Int64.{Int64, lt, le}
use our_ne_zt_core.Common.Float64.{Float64}
use our_ne_zt_core.Domain.{
  EntityId, HousingOption, HousingGroup, PersonProfile, loan_hdb, loan_cash, HousingType,
}
use our_ne_zt_core.Errors.{Error, Result, ok, err}
use our_ne_zt_core.Action.{Action, ◌>>=◌, ◌>>◌, give, throw, lift}
use our_ne_zt_core.Calculation.Grant.{
  is_non_hdb_housing_type, max_loan_tenure_months_for_housing_type, is_deferred_housing_option,
  estimate_housing_grant_amount, HousingGrantEstimate,
}
use our_ne_zt_core.Calculation.Housing.{
  HouseholdAssets, HousingAffordability, calculate_housing_affordability,
}
use our_ne_zt_core.Checklist.{validate_housing_notes}
use our_ne_zt_core.Server.Errors.{handle}
use our_ne_zt_core.Server.Messages.{HousingMessage, HousingGroupMessage, ByIdRequest}
use our_ne_zt_core.Server.Mapping.{
  Dates, require_id, housing_group_from_proto, housing_group_to_proto,
}
use our_ne_zt_core.Server.Mapping.Housing.{housing_from_proto, housing_to_proto}
use our_ne_zt_core.Server.Access.{
  Authenticator, authenticate_user_id, optional_authenticated_actor_id,
}
use our_ne_zt_core.Server.Requests.{with_request}
use our_ne_zt_core.Server.Repositories.{People, Housing}
pub mod Rules

-- The first error of the two checks.
abbrev pub both : Result (Unit {0}) → Result (Unit {0}) → Result (Unit {0})
both (ok u) r = r
both (err e) r = err e

module _ {F : Type 0} where
  unfoldable pub validate_housing_condo_combination : HousingOption F → Result (Unit {0})
  validate_housing_condo_combination o =
      if not (is_non_hdb_housing_type o.housing_type)
      then ok tt
      else if o.loan_type == loan_hdb
      then err Error.invalid_argument
      else if lt 0 o.grant_amount_cents
      then err Error.invalid_argument
      else ok tt

  unfoldable pub validate_housing_loan_tenure : HousingOption F → Result (Unit {0})
  validate_housing_loan_tenure o =
      if o.loan_type == loan_cash || le o.loan_tenure_months 0
      then ok tt
      else if lt (max_loan_tenure_months_for_housing_type o.housing_type) o.loan_tenure_months
      then err Error.invalid_argument
      else ok tt

  unfoldable pub validate_housing_option : HousingOption F → Result (Unit {0})
  validate_housing_option o =
      both (validate_housing_condo_combination o) (validate_housing_loan_tenure o)

abbrev pub with_grant : {F : Type 0} → HousingOption F → List PersonProfile → HousingOption F
with_grant o people = record o {
  grant_amount_cents = (estimate_housing_grant_amount o.housing_type people).grant_amount_cents;
}

module _ {S F : Type 0} where
  -- `applyGrantEstimate`; without a repository of people the option stays as it is.
  unfoldable pub apply_grant_estimate :
      Option (People S) → HousingOption F → EntityId → Action S (HousingOption F)
  apply_grant_estimate none o viewer = give o
  apply_grant_estimate (some people) o viewer =
      if is_empty o.family_id
      then give o
      else if is_non_hdb_housing_type o.housing_type
      then give (record o { grant_amount_cents = 0 })
      else if is_deferred_housing_option o
      then give (record o { grant_amount_cents = 0 })
      else (do
        profiles ← people.list_person_profiles_by_family o.family_id viewer
        give (with_grant o profiles))

-- The fields that an update leaves as they are stored when the message has no say in them.
module _ {F : Type 0} where
  abbrev kept_group : Option String → HousingOption F → HousingOption F → HousingOption F
  kept_group none existing o = record o { group_id = existing.group_id }
  kept_group (some g) existing o = o

  abbrev kept_visibility : Option Bool → HousingOption F → HousingOption F → HousingOption F
  kept_visibility none existing o = record o {
    visible_on_dashboard = existing.visible_on_dashboard;
  }
  kept_visibility (some v) existing o = o

  unfoldable pub keep_stored :
      HousingMessage F → HousingOption F → HousingOption F → HousingOption F
  keep_stored m existing o =
      kept_visibility m.visible_on_dashboard existing (kept_group m.housing_group_id existing o)

  abbrev says_all : HousingMessage F → Bool
  says_all m = elim m.housing_group_id [
    | none ↦ false
    | some g ↦ elim m.visible_on_dashboard [ none ↦ false | some v ↦ true ]
  ]

module _ {S F : Type 0} (housing : Housing S F) (people : Option (People S))
    (auth : Option (Authenticator S)) (dates : Dates) where
  unfoldable pub create_housing_option : Option (HousingMessage F) → Action S (HousingMessage F)
  create_housing_option req = handle (do
    lift (validate_housing_notes (elim req [ none ↦ "" | some m ↦ m.notes ]))
    option ← lift (housing_from_proto dates req)
    lift (validate_housing_option option)
    actor ← optional_authenticated_actor_id auth
    estimated ← apply_grant_estimate people option actor
    created ← housing.create_housing_option estimated actor
    give (housing_to_proto dates created))

  unfoldable pub get_housing_option : Option ByIdRequest → Action S (HousingMessage F)
  get_housing_option req = with_request auth req λ target viewer. do
    option ← housing.get_housing_option target viewer
    give (housing_to_proto dates option)

  unfoldable pub list_housing_options : Option ByIdRequest → Action S (List (HousingMessage F))
  list_housing_options req = with_request auth req λ family viewer. do
    options ← housing.list_housing_options family viewer
    give (map (housing_to_proto dates) options)

  unfoldable pub stored_or_said :
      HousingMessage F → HousingOption F → EntityId → Action S (HousingOption F)
  stored_or_said m option actor = if says_all m then give option else (do
    existing ← housing.get_housing_option option.id actor
    give (keep_stored m existing option))

  unfoldable pub update_housing_option : Option (HousingMessage F) → Action S (HousingMessage F)
  update_housing_option none = handle (throw Error.invalid_argument)
  update_housing_option (some m) = handle (do
    option ← lift (housing_from_proto dates (some m))
    lift (if is_empty option.id then err Error.invalid_argument else validate_housing_option option)
    actor ← optional_authenticated_actor_id auth
    kept ← stored_or_said m option actor
    estimated ← apply_grant_estimate people kept actor
    updated ← housing.update_housing_option estimated actor
    give (housing_to_proto dates updated))

  unfoldable pub delete_housing_option : Option ByIdRequest → Action S (Unit {0})
  delete_housing_option req =
      with_request auth req λ target actor. housing.delete_housing_option target actor

  unfoldable pub create_housing_group : Option HousingGroupMessage → Action S HousingGroupMessage
  create_housing_group req = handle (do
    group ← lift (housing_group_from_proto req)
    lift (
        if is_empty (trim_space group.family_id) || is_empty (trim_space group.name)
        then err Error.invalid_argument
        else ok (tt {0}))
    actor ← optional_authenticated_actor_id auth
    created ← housing.create_housing_group group actor
    give (housing_group_to_proto created))

  unfoldable pub list_housing_groups : Option ByIdRequest → Action S (List HousingGroupMessage)
  list_housing_groups req = with_request auth req λ family viewer. do
    groups ← housing.list_housing_groups family viewer
    give (map housing_group_to_proto groups)

  unfoldable pub update_housing_group : Option HousingGroupMessage → Action S HousingGroupMessage
  update_housing_group req = handle (do
    group ← lift (housing_group_from_proto req)
    lift (
        if is_empty (trim_space group.id) || is_empty (trim_space group.name)
        then err Error.invalid_argument
        else ok (tt {0}))
    actor ← optional_authenticated_actor_id auth
    updated ← housing.update_housing_group group actor
    give (housing_group_to_proto updated))

  unfoldable pub delete_housing_group : Option ByIdRequest → Action S (Unit {0})
  delete_housing_group req =
      with_request auth req λ target actor. housing.delete_housing_group target actor

  -- `notes` of the request, on the option that it names.
  unfoldable pub update_housing_notes : String → String → Action S String
  update_housing_notes housing_id notes = handle (do
    actor ← authenticate_user_id auth
    target ← lift (require_id housing_id)
    lift (validate_housing_notes notes)
    housing.update_housing_notes target notes actor)

  -- An empty group takes the option out of its group.
  unfoldable pub assign_housing_option_group :
      Option ByIdRequest → String → Action S (HousingMessage F)
  assign_housing_option_group req group_id = with_request auth req λ target actor. do
    updated ← housing.assign_housing_option_group target (trim_space group_id) actor
    give (housing_to_proto dates updated)

  unfoldable pub update_housing_option_visibility :
      Option ByIdRequest → Bool → Action S (HousingMessage F)
  update_housing_option_visibility req shown = with_request auth req λ target actor. do
    updated ← housing.update_housing_option_visibility target shown actor
    give (housing_to_proto dates updated)

  unfoldable pub bulk_update_housing_group_visibility :
      Option ByIdRequest → Bool → Action S (List (HousingMessage F))
  bulk_update_housing_group_visibility req shown = with_request auth req λ group actor. do
    options ← housing.bulk_update_housing_group_visibility group shown actor
    give (map (housing_to_proto dates) options)

module _ {S : Type 0} (people : People S) (auth : Option (Authenticator S)) where
  unfoldable pub estimate_housing_grant :
      Option ByIdRequest → HousingType → Action S HousingGrantEstimate
  estimate_housing_grant req housing_type = with_request auth req λ family viewer. do
    profiles ← people.list_person_profiles_by_family family viewer
    give (estimate_housing_grant_amount housing_type profiles)

-- The handler `CalculateHousingAffordability`, which reads no database; a missing request has no option.
unfoldable pub calculate_affordability :
    {S F : Type 0}
    → Float64 F
    → Dates
    → Option (HousingMessage F)
    → HouseholdAssets
    → Action S HousingAffordability
calculate_affordability f dates req assets = handle (do
  option ← lift (housing_from_proto dates req)
  lift (validate_housing_option option)
  give (calculate_housing_affordability f option assets))
