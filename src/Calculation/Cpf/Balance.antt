-- ===== src/Calculation/Cpf/Balance.antt =====
-- The contribution as a whole: its parts add up, are whole dollars, and grow with the wage.
use native.Mathlib.Nat.{mul-le-mul}
use our_ne_zt_core.Common.{
  ℕ, ◌+◌, ◌-◌, ◌*◌, ◌/◌, ◌%◌, ◌≤◌, ◌<◌, ◌≡◌, false, arith, not, ◌||◌, Bool-cases, inl, inr, refl,
}
use our_ne_zt_core.Common.Int64.{Int64, IsNat, modulus, le, lt, le_nat, sub_nat}
use our_ne_zt_core.Domain.{EmploymentStatus}
use our_ne_zt_core.Calculation.Cents.{
  cents_by_bps_nat, min_int64, floor_to_dollar_nat, round_to_nearest_dollar_nat, max_int64_nat,
}
use our_ne_zt_core.Calculation.Cpf.{
  CpfContribution, cpf_rate_for_age, cpf_shares, calculate_cpf_contribution, contribution,
  estimate_cpf_allocation, allocate, normal_employee_cpf_applies,
}
use our_ne_zt_core.Calculation.Cpf.Amounts.{
  IsWage, cpf_rate_for_age-IsRate, min_int64-IsWage, employee_share, total_share, cpf_shares_nat,
  shares_bounds, shares_mono,
}

allocate_nat :
    (total oa sa : ℕ)
    → total ≤ 300000
    → oa + sa ≤ 10000
    → let a = allocate total oa sa in
      (a.oa + a.sa + a.ma ≡ total) × (a.oa ≡ total * oa / 10000) × (a.sa ≡ total * sa / 10000)
unfolding allocate
allocate_nat total oa sa h k =
    let first : total * oa ≤ total * 10000 = mul-le-mul (omega arith) (omega arith) in
    let second : total * sa ≤ total * 10000 = mul-le-mul (omega arith) (omega arith) in
    let both : total * (oa + sa) ≤ total * 10000 = mul-le-mul (omega arith) k in
    ground (
      arith,
      cents_by_bps_nat total oa (omega arith),
      cents_by_bps_nat total sa (omega arith),
      sub_nat total (total * oa / 10000) (omega arith) (omega arith),
      sub_nat (total - total * oa / 10000) (total * sa / 10000) (omega arith) (omega arith),
    )

pub estimate_cpf_allocation_sum :
    (age : Int64) (total : ℕ)
    → total ≤ 300000
    → let a = estimate_cpf_allocation age total in a.oa + a.sa + a.ma ≡ total
unfolding estimate_cpf_allocation
estimate_cpf_allocation_sum age total h = ground (
  arith,
  allocate_nat total 6216 1621 h (omega arith),
  allocate_nat total 5677 1892 h (omega arith),
  allocate_nat total 5136 2162 h (omega arith),
  allocate_nat total 4054 3108 h (omega arith),
)

-- What a contribution with parts keeps, whatever the age.
pub record IsBalanced (wage : ℕ) (c : CpfContribution) : Type 0 where
  pub shared : c.employee_cents + c.employer_cents ≡ c.total_cents
  pub allocated :
      c.ordinary_account_cents + c.special_account_cents + c.medisave_account_cents ≡ c.total_cents
  pub whole_dollars : (c.employee_cents % 100 ≡ 0) × (c.total_cents % 100 ≡ 0)
  pub employee_le : 5 * c.employee_cents ≤ c.cpf_applicable_wage_cents
  pub total_le : 100 * c.total_cents ≤ 37 * c.cpf_applicable_wage_cents + 5000
  pub within : (c.cpf_applicable_wage_cents ≤ 800000) × (c.cpf_applicable_wage_cents ≤ wage)

contribution_nat :
    (age : Int64) (w : ℕ)
    → IsWage w
    → let r = cpf_rate_for_age age in
      let c = contribution age w (cpf_shares r w) in
      (c.cpf_applicable_wage_cents ≡ w)
      × (c.employee_cents ≡ employee_share r w / 100 * 100)
      × (c.total_cents ≡ (total_share r w + 50) / 100 * 100)
      × (c.employee_cents + c.employer_cents ≡ c.total_cents)
      × (c.ordinary_account_cents + c.special_account_cents + c.medisave_account_cents
          ≡ c.total_cents)
unfolding contribution
contribution_nat age w k =
    let r = cpf_rate_for_age age in
    let h = cpf_rate_for_age-IsRate age in
    let (small, fifth, third) = shares_bounds r w h k in
    let (e, t) = cpf_shares_nat r w h k in
    let below = k.within in
    let employee : ℕ = employee_share r w / 100 * 100 in
    let total : ℕ = (total_share r w + 50) / 100 * 100 in
    rw
      (
        e,
        t,
        floor_to_dollar_nat (employee_share r w) (omega arith),
        round_to_nearest_dollar_nat (total_share r w) (omega arith),
        sub_nat total employee (omega arith) (omega arith),
        max_int64_nat (total - employee) 0 (omega arith) (omega arith),
      )
      (refl, refl, refl, ground arith, estimate_cpf_allocation_sum age total (omega arith))

-- On every age, wage and status: the employee's and the employer's part make the total, the three
-- accounts make the total, the employee's part and the total are whole dollars, the employee pays at
-- most a fifth of the applicable wage and the total is at most thirty-seven hundredths of it, up to
-- the rounding to a dollar, and the applicable wage is at most the ceiling.
pub calculate_cpf_contribution-IsBalanced :
    (age wage : Int64) (status : EmploymentStatus)
    → wage < modulus
    → IsBalanced wage (calculate_cpf_contribution age wage status)
unfolding calculate_cpf_contribution
calculate_cpf_contribution-IsBalanced age wage status h =
    let w = min_int64 wage 800000 in
    elim (Bool-cases (not (normal_employee_cpf_applies status) || le wage 5000)) [
      | inl out ↦ rw out (omega arith)
      | inr some_wage ↦ rw some_wage (
          let (isw, under, nat) = min_int64-IsWage wage h (ground arith) in
          let parts = contribution_nat age w isw in
          let bounds = shares_bounds (cpf_rate_for_age age) w (cpf_rate_for_age-IsRate age) isw in
          ground arith)
    ]

min_int64_mono : (v w : ℕ) → v ≤ w → IsNat w → min_int64 v 800000 ≤ min_int64 w 800000
unfolding min_int64 lt
min_int64_mono v w h k = ground arith

-- A higher wage, both not negative, never has a lower employee's part or a lower total, at one age
-- and status.
pub calculate_cpf_contribution_mono :
    (age : Int64) (v w : ℕ) (status : EmploymentStatus)
    → v ≤ w
    → IsNat w
    → let c = calculate_cpf_contribution age v status in
      let d = calculate_cpf_contribution age w status in
      (c.employee_cents ≤ d.employee_cents) × (c.total_cents ≤ d.total_cents)
unfolding calculate_cpf_contribution
calculate_cpf_contribution_mono age v w status h k =
    elim (Bool-cases (not (normal_employee_cpf_applies status) || le v 5000)) [
      | inl out ↦ rw out (omega arith)
      | inr some_wage ↦
          let (isv, _, _) = min_int64-IsWage v (omega arith) (ground arith) in
          let above : le w 5000 ≡ false =
            ground
              (arith, le_nat v 5000 (omega arith) (omega arith), le_nat w 5000 k (omega arith)) in
          let (isw, _, _) = min_int64-IsWage w (omega arith) above in
          let rate = cpf_rate_for_age-IsRate age in
          ground (
            arith,
            contribution_nat age (min_int64 v 800000) isv,
            contribution_nat age (min_int64 w 800000) isw,
            shares_mono (cpf_rate_for_age age) (min_int64 v 800000) (min_int64 w 800000) rate isw
                (min_int64_mono v w h k),
          )
    ]
