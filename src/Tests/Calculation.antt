-- ===== src/Tests/Calculation.antt =====
-- Package calculation: some of the cases of its tests, and instances of the theorems.
use mathlib.Core.List.Perm
use our_ne_zt_core.Common.{◌+◌, ◌*◌, ◌^◌, ◌≤◌, ◌<◌, ◌≡◌, ◌↔◌, refl, true, [], ◌∷◌, All, arith, keep}
use our_ne_zt_core.Common.Int64.{add, sub, mul, quot, rem, lt, le}
use our_ne_zt_core.Domain.{full_time, student}
use our_ne_zt_core.Calculation.Cents.{
  cents_by_bps, floor_to_dollar, round_to_nearest_dollar, min_int64, max_int64,
}
use our_ne_zt_core.Calculation.Cpf.{
  calculate_cpf_contribution, contribution, cpf_rate_for_age, cpf_shares, estimate_cpf_allocation,
  normal_employee_cpf_applies, no_contribution,
}
use our_ne_zt_core.Calculation.Cpf.Balance.{
  IsBalanced, calculate_cpf_contribution-IsBalanced, calculate_cpf_contribution_mono,
}
use our_ne_zt_core.Calculation.Income.{
  calculate_income_breakdown, calculate_household_income_summary, current_income_for, empty_summary,
}
use our_ne_zt_core.Calculation.Income.Sums.{
  IsProfile, calculate_income_breakdown_parts, calculate_household_income_summary_parts,
  calculate_household_income_summary_congr,
}
use our_ne_zt_core.Calculation.Income.Exact.{
  calculate_household_income_summary_exact, SumsFrom, total_expenses, total_take_home, total_oa,
}
use our_ne_zt_core.Calculation.Grant.{
  is_deferred_housing_option, is_non_hdb_housing_type, has_valid_key_date,
  max_loan_tenure_months_for_housing_type,
}
use our_ne_zt_core.Calculation.Housing.{calculate_housing_affordability, affordability_rating}
use our_ne_zt_core.Calculation.Housing.Totals.{AddsUp, calculate_housing_affordability-AddsUp}
use our_ne_zt_core.Calculation.Housing.Ratings.{
  rank, surplus, affordability_rating_mono, affordability_rating_meaning,
}
use our_ne_zt_core.Service.Dashboard.{build_household_dashboard, household_assets}
use our_ne_zt_core.Service.Dashboard.Rows.{RowsFor, total_cash, build_household_dashboard-RowsFor}
use our_ne_zt_core.Tests.Samples.{whole, alice, ben, couple, flat, hidden_flat, savings}

-- cpf_test.go: the contribution at the wage ceiling, and none for a student.
ceiling :
    let c = calculate_cpf_contribution 30 900000 full_time in
    (c.cpf_applicable_wage_cents ≡ 800000)
    × (c.employee_cents ≡ 160000)
    × (c.employer_cents ≡ 136000)
    × (c.total_cents ≡ 296000)
unfolding calculate_cpf_contribution contribution cpf_rate_for_age cpf_shares
    estimate_cpf_allocation normal_employee_cpf_applies cents_by_bps floor_to_dollar
    round_to_nearest_dollar min_int64 max_int64 add sub mul quot rem lt le
ceiling = (refl, refl, refl, refl)

student_none : calculate_cpf_contribution 24 300000 student ≡ no_contribution
unfolding calculate_cpf_contribution normal_employee_cpf_applies
student_none = refl

calculate_cpf_contribution-IsBalanced_example :
    IsBalanced 600000 (calculate_cpf_contribution 30 600000 full_time)
calculate_cpf_contribution-IsBalanced_example =
    calculate_cpf_contribution-IsBalanced 30 600000 full_time (omega arith)

calculate_cpf_contribution_mono_example :
    let c = calculate_cpf_contribution 30 70000 full_time in
    let d = calculate_cpf_contribution 30 600000 full_time in
    (c.employee_cents ≤ d.employee_cents) × (c.total_cents ≤ d.total_cents)
calculate_cpf_contribution_mono_example =
    calculate_cpf_contribution_mono 30 70000 600000 full_time (omega arith) (omega arith)

alice-IsProfile : IsProfile alice
alice-IsProfile = record { gross = omega arith; expenses = omega arith }

couple-IsProfile : All IsProfile couple
couple-IsProfile = (alice-IsProfile, (record { gross = omega arith; expenses = omega arith }, tt))

calculate_income_breakdown_parts_example :
    let b = calculate_income_breakdown alice in
    (b.take_home_income_cents + b.employee_cpf_cents ≡ b.current_gross_income_cents)
    × (5 * b.employee_cpf_cents ≤ b.current_gross_income_cents)
    × (add b.monthly_surplus_cents b.monthly_expenses_cents ≡ b.take_home_income_cents)
calculate_income_breakdown_parts_example = calculate_income_breakdown_parts alice alice-IsProfile

calculate_household_income_summary_parts_example :
    let s = calculate_household_income_summary couple in
    (add s.take_home_income_cents s.employee_cpf_cents ≡ s.current_gross_income_cents)
    × (add s.monthly_surplus_cents s.monthly_expenses_cents ≡ s.take_home_income_cents)
calculate_household_income_summary_parts_example =
    calculate_household_income_summary_parts couple couple-IsProfile

couple_fits : (total_take_home couple ≡ 560000) × (total_oa couple ≡ 3000000)
unfolding calculate_income_breakdown current_income_for calculate_cpf_contribution contribution
    cpf_rate_for_age cpf_shares estimate_cpf_allocation normal_employee_cpf_applies cents_by_bps
    floor_to_dollar round_to_nearest_dollar min_int64 max_int64 add sub mul quot rem lt le
couple_fits = (refl, refl)

calculate_household_income_summary_exact_example :
    SumsFrom empty_summary (calculate_household_income_summary couple) couple
calculate_household_income_summary_exact_example = calculate_household_income_summary_exact couple

calculate_household_income_summary_congr_example :
    calculate_household_income_summary (alice ∷ ben ∷ [])
    ≡ calculate_household_income_summary (ben ∷ alice ∷ [])
calculate_household_income_summary_congr_example =
    calculate_household_income_summary_congr (alice ∷ ben ∷ []) (ben ∷ alice ∷ [])
      (Perm.swap ben alice [])

flat_deferred : is_deferred_housing_option flat ≡ true
unfolding is_deferred_housing_option is_non_hdb_housing_type has_valid_key_date
    max_loan_tenure_months_for_housing_type
flat_deferred = refl

calculate_housing_affordability-AddsUp_example :
    AddsUp whole flat savings (calculate_housing_affordability whole flat savings)
calculate_housing_affordability-AddsUp_example =
    calculate_housing_affordability-AddsUp flat savings (omega arith) (omega arith) whole

affordability_rating_mono_example :
    rank (affordability_rating 103000 560000 (surplus 560000 280000 103000))
    ≤ rank (affordability_rating 203000 560000 (surplus 560000 280000 203000))
affordability_rating_mono_example =
    affordability_rating_mono 103000 203000 560000 280000 (omega arith) (omega arith) (omega arith)
      (omega arith)

affordability_rating_meaning_example :
    let r = affordability_rating 103000 560000 (surplus 560000 280000 103000) in
    ((rank r ≡ 0) ↔ ((0 < 560000) × (280000 + 103000 ≤ 560000) × (103000 * 10000 < 2501 * 560000)))
    × ((rank r < 4)
        ↔ ((0 < 560000) × (280000 + 103000 ≤ 560000) × (103000 * 10000 < 5501 * 560000)))
affordability_rating_meaning_example =
    affordability_rating_meaning 103000 560000 280000 (omega arith) (omega arith) (omega arith)

total_cash_lem : total_cash couple ≤ 10 ^ 13
total_cash_lem = omega arith

build_household_dashboard-RowsFor_example :
    let d = build_household_dashboard whole "f1" couple (flat ∷ hidden_flat ∷ []) in
    let a = household_assets couple in
    (d.family_id ≡ "f1")
    × SumsFrom empty_summary d.income couple
    × (d.cash_savings_cents ≡ total_cash couple)
    × (a.cash_savings_cents ≡ total_cash couple)
    × (a.cpf_oa_cents ≡ total_oa couple)
    × (a.take_home_cents ≡ total_take_home couple)
    × (a.monthly_expenses_cents ≡ total_expenses couple)
    × RowsFor whole a
        (keep (λ o. o.visible_on_dashboard) (flat ∷ hidden_flat ∷ []))
        d.housing_affordability
build_household_dashboard-RowsFor_example =
    build_household_dashboard-RowsFor whole "f1" couple (flat ∷ hidden_flat ∷ []) (omega arith)
      (omega (arith, couple_fits)) (omega arith) (omega (arith, couple_fits)) total_cash_lem
