-- ===== src/Service/Dashboard.antt =====
-- internal/service/dashboard.go
pub mod Rows
use our_ne_zt_core.Common.{Bool, true, false, if◌then◌else◌, List, [], ◌∷◌}
use our_ne_zt_core.Common.Int64.{Int64, add}
use our_ne_zt_core.Common.Float64.{Float64}
use our_ne_zt_core.Domain.{EntityId, PersonProfile, HousingOption}
use our_ne_zt_core.Calculation.Income.{HouseholdIncomeSummary, calculate_household_income_summary}
use our_ne_zt_core.Calculation.Housing.{
  HousingAffordability, HouseholdAssets, calculate_housing_affordability,
}

pub record HouseholdDashboard : Type 0 where
  pub family_id : EntityId
  pub income : HouseholdIncomeSummary
  pub cash_savings_cents : Int64
  pub housing_affordability : List HousingAffordability

-- The loop that adds the cash savings up.
unfoldable pub cash_from : Int64 → List PersonProfile → Int64
cash_from cash [] = cash
cash_from cash (p ∷ people) = cash_from (add cash p.cash_savings_cents) people

unfoldable pub household_assets : List PersonProfile → HouseholdAssets
household_assets people =
    let income = calculate_household_income_summary people in
    record {
      cash_savings_cents = cash_from 0 people;
      cpf_oa_cents = income.current_cpf_oa_cents;
      take_home_cents = income.take_home_income_cents;
      monthly_expenses_cents = income.monthly_expenses_cents;
    }

-- The loop over the housing options, which leaves out those that are not visible.
unfoldable pub affordability_rows :
    {F : Type 0} → Float64 F → HouseholdAssets → List (HousingOption F) → List HousingAffordability
affordability_rows f assets [] = []
affordability_rows f assets (option ∷ options) =
    let rest = affordability_rows f assets options in
    if option.visible_on_dashboard
    then calculate_housing_affordability f option assets ∷ rest
    else rest

unfoldable pub build_household_dashboard :
    {F : Type 0}
    → Float64 F
    → EntityId
    → List PersonProfile
    → List (HousingOption F)
    → HouseholdDashboard
build_household_dashboard f family_id people options = record {
  family_id = family_id;
  income = calculate_household_income_summary people;
  cash_savings_cents = cash_from 0 people;
  housing_affordability = affordability_rows f (household_assets people) options;
}
