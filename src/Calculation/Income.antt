-- ===== src/Calculation/Income.antt =====
-- internal/calculation/income.go
pub mod Sums
pub mod Exact
use text.Mathlib.Text.{◌==◌}
use our_ne_zt_core.Common.{String, Bool, true, false, ◌||◌, if◌then◌else◌, List, [], ◌∷◌}
use our_ne_zt_core.Common.Int64.{Int64, add, sub, lt}
use our_ne_zt_core.Domain.{
  EntityId, EmploymentStatus, PersonProfile, part_time, self_employed, student, full_time_nsf,
  unemployed, future_employee,
}
use our_ne_zt_core.Calculation.Cents.{max_int64}
use our_ne_zt_core.Calculation.Cpf.{CpfContribution, calculate_cpf_contribution}

pub record IncomeBreakdown : Type 0 where
  pub person_id : EntityId
  pub current_gross_income_cents : Int64
  pub projected_gross_income_cents : Int64
  pub employee_cpf_cents : Int64
  pub employer_cpf_cents : Int64
  pub take_home_income_cents : Int64
  pub monthly_expenses_cents : Int64
  pub monthly_surplus_cents : Int64
  pub cpf_contribution : CpfContribution
  pub cpf_planning_note : String

pub record HouseholdIncomeSummary : Type 0 where
  pub current_gross_income_cents : Int64
  pub projected_gross_income_cents : Int64
  pub take_home_income_cents : Int64
  pub employee_cpf_cents : Int64
  pub employer_cpf_cents : Int64
  pub monthly_expenses_cents : Int64
  pub monthly_surplus_cents : Int64
  pub current_cpf_oa_cents : Int64
  pub current_cpf_sa_cents : Int64
  pub current_cpf_ma_cents : Int64
  pub may_need_deferred_assessment : Bool

unfoldable pub current_income_for : PersonProfile → Int64
current_income_for person = max_int64 person.gross_monthly_income_cents 0

unfoldable pub projected_income_for : PersonProfile → Int64
projected_income_for person =
    if lt 0 person.expected_future_income_cents
    then person.expected_future_income_cents
    else current_income_for person

unfoldable pub may_need_deferred_assessment : EmploymentStatus → Bool
may_need_deferred_assessment status =
    (status == student) || (status == full_time_nsf) || (status == future_employee)

unfoldable pub cpf_planning_note : EmploymentStatus → String
cpf_planning_note status =
    if status == self_employed
    then "Self-employed CPF handling differs; treat this as a placeholder until MediSave rules are modelled."
    else if (status == part_time)
        || (status == student)
        || (status == full_time_nsf)
        || (status == unemployed)
        || (status == future_employee)
    then "Normal employee CPF is not applied to this profile by default."
    else "CPF is estimated for ordinary wages using the configured planning rates."

unfoldable pub calculate_income_breakdown : PersonProfile → IncomeBreakdown
calculate_income_breakdown person =
    let current_income = current_income_for person in
    let cpf = calculate_cpf_contribution person.age current_income person.employment_status in
    let take_home = sub current_income cpf.employee_cents in
    record {
      person_id = person.id;
      current_gross_income_cents = current_income;
      projected_gross_income_cents = projected_income_for person;
      employee_cpf_cents = cpf.employee_cents;
      employer_cpf_cents = cpf.employer_cents;
      take_home_income_cents = take_home;
      monthly_expenses_cents = person.monthly_expenses_cents;
      monthly_surplus_cents = sub take_home person.monthly_expenses_cents;
      cpf_contribution = cpf;
      cpf_planning_note = cpf_planning_note person.employment_status;
    }

-- The zero value that `var summary HouseholdIncomeSummary` declares.
abbrev pub empty_summary : HouseholdIncomeSummary
empty_summary = record {
  current_gross_income_cents = 0;
  projected_gross_income_cents = 0;
  take_home_income_cents = 0;
  employee_cpf_cents = 0;
  employer_cpf_cents = 0;
  monthly_expenses_cents = 0;
  monthly_surplus_cents = 0;
  current_cpf_oa_cents = 0;
  current_cpf_sa_cents = 0;
  current_cpf_ma_cents = 0;
  may_need_deferred_assessment = false;
}

-- The body of the loop of `CalculateHouseholdIncomeSummary`.
unfoldable pub add_person : HouseholdIncomeSummary → PersonProfile → HouseholdIncomeSummary
add_person s person =
    let b = calculate_income_breakdown person in
    record {
      current_gross_income_cents = add s.current_gross_income_cents b.current_gross_income_cents;
      projected_gross_income_cents =
          add s.projected_gross_income_cents b.projected_gross_income_cents;
      take_home_income_cents = add s.take_home_income_cents b.take_home_income_cents;
      employee_cpf_cents = add s.employee_cpf_cents b.employee_cpf_cents;
      employer_cpf_cents = add s.employer_cpf_cents b.employer_cpf_cents;
      monthly_expenses_cents = add s.monthly_expenses_cents b.monthly_expenses_cents;
      monthly_surplus_cents = add s.monthly_surplus_cents b.monthly_surplus_cents;
      current_cpf_oa_cents = add s.current_cpf_oa_cents person.cpf_oa_cents;
      current_cpf_sa_cents = add s.current_cpf_sa_cents person.cpf_sa_cents;
      current_cpf_ma_cents = add s.current_cpf_ma_cents person.cpf_ma_cents;
      may_need_deferred_assessment =
          if may_need_deferred_assessment person.employment_status
          then true
          else s.may_need_deferred_assessment;
    }

unfoldable pub summarize_from : HouseholdIncomeSummary → List PersonProfile → HouseholdIncomeSummary
summarize_from s [] = s
summarize_from s (person ∷ people) = summarize_from (add_person s person) people

unfoldable pub calculate_household_income_summary : List PersonProfile → HouseholdIncomeSummary
unfolding summarize_from
calculate_household_income_summary people = summarize_from empty_summary people
