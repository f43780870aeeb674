-- ===== src/Service/Dashboard/Rows.antt =====
-- The rows of a dashboard against the options and the people that it is built from.
use our_ne_zt_core.Common.{
  ℕ, ◌+◌, ◌%◌, ◌≤◌, ◌<◌, ◌≡◌, refl, arith, List, [], ◌∷◌, All, keep, Bool-cases, inl, inr,
}
use our_ne_zt_core.Common.Int64.{Int64, add, modulus, sign_bit}
use our_ne_zt_core.Common.Float64.{Float64}
use our_ne_zt_core.Domain.{EntityId, PersonProfile, HousingOption}
use our_ne_zt_core.Calculation.Income.Exact.{
  total, total_take_home, total_expenses, total_oa, SumsFrom,
  calculate_household_income_summary_exact,
}
use our_ne_zt_core.Calculation.Income.{empty_summary, calculate_income_breakdown}
use our_ne_zt_core.Calculation.Housing.{
  HousingAffordability, HouseholdAssets, calculate_housing_affordability,
}
use our_ne_zt_core.Calculation.Housing.Totals.{
  IsOption, IsAssets, AddsUp, amount_limit, calculate_housing_affordability-AddsUp,
}
use our_ne_zt_core.Service.Dashboard.{
  cash_from, household_assets, affordability_rows, build_household_dashboard,
}

-- One row for each option, in order, with the option's id and amounts that add up.
abbrev pub RowsFor :
    {F : Type 0}
    → Float64 F
    → HouseholdAssets
    → List (HousingOption F)
    → List HousingAffordability
    → Type 0
RowsFor f a [] [] = Unit {0}
RowsFor f a [] (r ∷ rs) = ⊥
RowsFor f a (o ∷ os) [] = ⊥
RowsFor f a (o ∷ os) (r ∷ rs) = (r.housing_option_id ≡ o.id) × AddsUp f o a r × RowsFor f a os rs

calculate_housing_affordability-id :
    {F : Type 0} (f : Float64 F) (o : HousingOption F) (a : HouseholdAssets)
    → (calculate_housing_affordability f o a).housing_option_id ≡ o.id
unfolding calculate_housing_affordability
calculate_housing_affordability-id f o a = refl

affordability_rows-RowsFor :
    {F : Type 0} (f : Float64 F) (a : HouseholdAssets) (options : List (HousingOption F))
    → All IsOption options
    → IsAssets a
    → RowsFor f a (keep (λ o. o.visible_on_dashboard) options) (affordability_rows f a options)
unfolding affordability_rows
affordability_rows-RowsFor f a [] h k = tt
affordability_rows-RowsFor f a (o ∷ options) (h, hs) k =
    let rest = affordability_rows-RowsFor f a options hs k in
    elim (Bool-cases o.visible_on_dashboard) [
      | inl shown ↦ simp shown (
        calculate_housing_affordability-id f o a,
        calculate_housing_affordability-AddsUp o a h k f,
        rest,
      )
      | inr hidden ↦ simp hidden rest
    ]

cash_from-total :
    (cash : Int64) (people : List PersonProfile)
    → cash < modulus
    → cash_from cash people ≡ (cash + total (λ p. p.cash_savings_cents) people) % modulus
unfolding cash_from add
cash_from-total cash [] h = omega arith
cash_from-total cash (p ∷ people) h =
    omega (arith, cash_from-total ((cash + p.cash_savings_cents) % modulus) people (omega arith))

abbrev pub total_cash : List PersonProfile → ℕ
total_cash = total (λ p. p.cash_savings_cents)

-- What a sum in `int64` is, where the exact sum fits.
exact :
    (g : PersonProfile → ℕ) (people : List PersonProfile) (sum : Int64)
    → total g people < sign_bit
    → sum ≡ (0 + total g people) % modulus
    → sum ≡ total g people
exact g people sum h e = omega arith

-- For sensible options and a household whose savings, ordinary accounts, expenses and take-home pay are
-- sensible, the dashboard is that of the family and shows the summary with the exact sums, modulo
-- 2 ^ 64, of all amounts and the exact sum of the savings. It has exactly one row for each visible
-- option, in the order of the options, each with the option's id and with amounts that add up against
-- the exact sums of the household's savings, ordinary accounts, take-home pay and expenses.
pub build_household_dashboard-RowsFor :
    {F : Type 0} (f : Float64 F) (family_id : EntityId) (people : List PersonProfile)
    (options : List (HousingOption F))
    → All IsOption options
    → total_take_home people < sign_bit
    → total_expenses people < sign_bit
    → total_oa people ≤ amount_limit
    → total_cash people ≤ amount_limit
    → let d = build_household_dashboard f family_id people options in
      let a = household_assets people in
      (d.family_id ≡ family_id)
      × SumsFrom empty_summary d.income people
      × (d.cash_savings_cents ≡ total_cash people)
      × (a.cash_savings_cents ≡ total_cash people)
      × (a.cpf_oa_cents ≡ total_oa people)
      × (a.take_home_cents ≡ total_take_home people)
      × (a.monthly_expenses_cents ≡ total_expenses people)
      × RowsFor f a (keep (λ o. o.visible_on_dashboard) options) d.housing_affordability
unfolding build_household_dashboard household_assets
build_household_dashboard-RowsFor f family_id people options h t e o c =
    let sums = calculate_household_income_summary_exact people in
    let oa = exact (λ p. p.cpf_oa_cents) people _ (omega arith) sums.oa in
    let home =
      exact (λ p. (calculate_income_breakdown p).take_home_income_cents) people _ t
        sums.take_home in
    let spent = exact (λ p. p.monthly_expenses_cents) people _ e sums.expenses in
    let cash : cash_from 0 people ≡ total_cash people =
      omega (arith, cash_from-total 0 people (omega arith)) in
    (
      refl,
      sums,
      cash,
      cash,
      oa,
      home,
      spent,
      affordability_rows-RowsFor f (household_assets people) options h (record {
        cash = omega arith;
        oa = omega arith;
        take_home = omega arith;
        expenses = omega arith;
      }),
    )
