-- ===== src/Server/Repositories.antt =====
-- internal/repository/interfaces.go: what the handlers ask of the database, over a state `S`.
use our_ne_zt_core.Common.{String, Bool, Option, List}
use our_ne_zt_core.Domain.{
  EntityId, Time, User, Family, FamilyRole, PersonProfile, PersonIncomeHistoryEntry, HousingOption,
  HousingGroup,
}
use our_ne_zt_core.Action.{Action}

-- `AuthSessionStore` of internal/server/auth.go.
pub record AuthSessionStore (S : Type 0) : Type 0 where
  pub create_session : EntityId → String → Time → Action S (Unit {0})
  pub get_user_by_session_token_hash : String → Time → Action S User
  pub revoke_sessions_by_user_id : EntityId → Action S (Unit {0})

pub record FamilyMember : Type 0 where
  pub family_id : EntityId
  pub user_id : EntityId
  pub display_name : String
  pub role : FamilyRole

pub record Families (S : Type 0) : Type 0 where
  pub create_family : Family → EntityId → Action S Family
  pub get_family : EntityId → EntityId → Action S Family
  pub list_user_families : EntityId → Action S (List Family)
  pub join_family_by_code : EntityId → String → Action S Family
  pub generate_family_join_code : EntityId → EntityId → String → Option Time → Action S (Unit {0})
  pub list_family_members : EntityId → EntityId → Action S (List FamilyMember)

pub record People (S : Type 0) : Type 0 where
  pub create_person_profile : PersonProfile → EntityId → Action S PersonProfile
  pub get_person_profile : EntityId → EntityId → Action S PersonProfile
  pub list_person_profiles_by_family : EntityId → EntityId → Action S (List PersonProfile)
  pub list_person_income_history_by_family :
      EntityId → EntityId → Action S (List PersonIncomeHistoryEntry)
  pub update_person_profile : PersonProfile → EntityId → Action S PersonProfile
  pub delete_person_profile : EntityId → EntityId → Action S (Unit {0})

pub record Housing (S F : Type 0) : Type 0 where
  pub update_housing_notes : EntityId → String → EntityId → Action S String
  pub create_housing_option : HousingOption F → EntityId → Action S (HousingOption F)
  pub get_housing_option : EntityId → EntityId → Action S (HousingOption F)
  pub list_housing_options : EntityId → EntityId → Action S (List (HousingOption F))
  pub update_housing_option : HousingOption F → EntityId → Action S (HousingOption F)
  pub delete_housing_option : EntityId → EntityId → Action S (Unit {0})
  pub create_housing_group : HousingGroup → EntityId → Action S HousingGroup
  pub list_housing_groups : EntityId → EntityId → Action S (List HousingGroup)
  pub update_housing_group : HousingGroup → EntityId → Action S HousingGroup
  pub delete_housing_group : EntityId → EntityId → Action S (Unit {0})
  pub assign_housing_option_group : EntityId → EntityId → EntityId → Action S (HousingOption F)
  pub update_housing_option_visibility : EntityId → Bool → EntityId → Action S (HousingOption F)
  pub bulk_update_housing_group_visibility :
      EntityId → Bool → EntityId → Action S (List (HousingOption F))
