-- ===== src/Calculation/Cpf.antt =====
-- internal/calculation/cpf.go
pub mod Amounts
pub mod Balance
use text.Mathlib.Text.{◌==◌}
use our_ne_zt_core.Common.{ℕ, ◌+◌, Bool, ◌||◌, not, if◌then◌else◌}
use our_ne_zt_core.Common.Int64.{Int64, add, sub, le}
use our_ne_zt_core.Domain.{EmploymentStatus, full_time}
use our_ne_zt_core.Calculation.Cents.{
  cents_by_bps, floor_to_dollar, round_to_nearest_dollar, min_int64, max_int64,
}

abbrev pub cpf_ordinary_wage_ceiling_cents_2026 : Int64
cpf_ordinary_wage_ceiling_cents_2026 = 800000

pub record CpfContribution : Type 0 where
  pub cpf_applicable_wage_cents : Int64
  pub employee_cents : Int64
  pub employer_cents : Int64
  pub total_cents : Int64
  pub ordinary_account_cents : Int64
  pub special_account_cents : Int64
  pub medisave_account_cents : Int64

abbrev pub no_contribution : CpfContribution
no_contribution = record {
  cpf_applicable_wage_cents = 0;
  employee_cents = 0;
  employer_cents = 0;
  total_cents = 0;
  ordinary_account_cents = 0;
  special_account_cents = 0;
  medisave_account_cents = 0;
}

pub record CpfRate : Type 0 where
  pub employer_bps : Int64
  pub employee_bps : Int64

unfoldable pub normal_employee_cpf_applies : EmploymentStatus → Bool
normal_employee_cpf_applies status = status == full_time

unfoldable pub cpf_rate_for_age : Int64 → CpfRate
cpf_rate_for_age age =
    if le age 55
    then record { employer_bps = 1700; employee_bps = 2000 }
    else if le age 60
    then record { employer_bps = 1600; employee_bps = 1800 }
    else if le age 65
    then record { employer_bps = 1250; employee_bps = 1250 }
    else if le age 70
    then record { employer_bps = 900; employee_bps = 750 }
    else record { employer_bps = 750; employee_bps = 500 }

-- The split of a total over the ordinary, the special and the medisave account.
pub record CpfAllocation : Type 0 where
  pub oa : Int64
  pub sa : Int64
  pub ma : Int64

unfoldable pub allocate : Int64 → Int64 → Int64 → CpfAllocation
allocate total oa_bps sa_bps = record {
  oa = cents_by_bps total oa_bps;
  sa = cents_by_bps total sa_bps;
  ma = sub (sub total (cents_by_bps total oa_bps)) (cents_by_bps total sa_bps);
}

unfoldable pub estimate_cpf_allocation : Int64 → Int64 → CpfAllocation
unfolding allocate
estimate_cpf_allocation age total =
    if le age 35
    then allocate total 6216 1621
    else if le age 45
    then allocate total 5677 1892
    else if le age 50
    then allocate total 5136 2162
    else allocate total 4054 3108

-- The employee's part and the total of a wage, before they are rounded to dollars.
pub record CpfShares : Type 0 where
  pub employee : Int64
  pub total : Int64

unfoldable pub cpf_shares : CpfRate → Int64 → CpfShares
cpf_shares rate wage =
    if le wage 50000
    then record { employee = 0; total = cents_by_bps wage rate.employer_bps }
    else if le wage 75000
    then (let employee = cents_by_bps (sub wage 50000) 1500 in
        record { employee = employee; total = add (cents_by_bps wage rate.employer_bps) employee })
    else record {
      employee = cents_by_bps wage rate.employee_bps;
      total = cents_by_bps wage (add rate.employee_bps rate.employer_bps);
    }

unfoldable pub contribution : Int64 → Int64 → CpfShares → CpfContribution
contribution age wage shares =
    let employee = floor_to_dollar shares.employee in
    let total = round_to_nearest_dollar shares.total in
    let allocation = estimate_cpf_allocation age total in
    record {
      cpf_applicable_wage_cents = wage;
      employee_cents = employee;
      employer_cents = max_int64 (sub total employee) 0;
      total_cents = total;
      ordinary_account_cents = allocation.oa;
      special_account_cents = allocation.sa;
      medisave_account_cents = allocation.ma;
    }

unfoldable pub calculate_cpf_contribution : Int64 → Int64 → EmploymentStatus → CpfContribution
calculate_cpf_contribution age monthly_wage status =
    if not (normal_employee_cpf_applies status) || le monthly_wage 5000
    then no_contribution
    else (let wage = min_int64 monthly_wage cpf_ordinary_wage_ceiling_cents_2026 in
        contribution age wage (cpf_shares (cpf_rate_for_age age) wage))
