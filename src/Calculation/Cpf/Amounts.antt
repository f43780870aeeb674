-- ===== src/Calculation/Cpf/Amounts.antt =====
-- What `cpf_shares` computes, in plain numbers: on wages up to the ceiling no step of it wraps around.
use native.Mathlib.Nat.{mul-le-mul}
use our_ne_zt_core.Common.{ℕ, ◌+◌, ◌-◌, ◌*◌, ◌/◌, ◌≤◌, ◌<◌, ◌≡◌, false, arith, if◌then◌else◌, leb}
use our_ne_zt_core.Common.Int64.{Int64, IsNat, modulus, le, lt, le_nat, add_nat, sub_nat}
use our_ne_zt_core.Calculation.Cents.{cents_by_bps_nat, min_int64}
use our_ne_zt_core.Calculation.Cpf.{CpfRate, cpf_rate_for_age, cpf_shares}

-- A wage that a contribution is computed from.
pub record IsWage (w : ℕ) : Type 0 where
  pub above : 5000 < w
  pub within : w ≤ 800000

pub record IsRate (r : CpfRate) : Type 0 where
  pub employee_le : r.employee_bps ≤ 2000
  pub employee_ge : 500 ≤ r.employee_bps
  pub employer_le : r.employer_bps ≤ 1700
  pub employer_ge : 750 ≤ r.employer_bps

pub cpf_rate_for_age-IsRate : (age : Int64) → IsRate (cpf_rate_for_age age)
unfolding cpf_rate_for_age
cpf_rate_for_age-IsRate age = ground arith

pub min_int64-IsWage :
    (wage : Int64)
    → wage < modulus
    → le wage 5000 ≡ false
    → IsWage (min_int64 wage 800000) × (min_int64 wage 800000 ≤ wage) × IsNat wage
unfolding min_int64 le lt
min_int64-IsWage wage h k = ground arith

share-le : {w b top : ℕ} → w ≤ 800000 → b ≤ top → w * b ≤ 800000 * top
share-le h k = mul-le-mul h k

-- The shares of a wage as formulas on numbers.
abbrev pub employee_share : CpfRate → ℕ → ℕ
employee_share r w =
    if leb w 50000
    then 0
    else if leb w 75000
    then (w - 50000) * 1500 / 10000
    else w * r.employee_bps / 10000

abbrev pub total_share : CpfRate → ℕ → ℕ
total_share r w =
    if leb w 50000
    then w * r.employer_bps / 10000
    else if leb w 75000
    then w * r.employer_bps / 10000 + (w - 50000) * 1500 / 10000
    else w * (r.employee_bps + r.employer_bps) / 10000

pub cpf_shares_nat :
    (r : CpfRate) (w : ℕ)
    → IsRate r
    → IsWage w
    → ((cpf_shares r w).employee ≡ employee_share r w) × ((cpf_shares r w).total ≡ total_share r w)
unfolding cpf_shares
cpf_shares_nat r w h k =
    let employer : w * r.employer_bps ≤ 800000 * 1700 = share-le k.within h.employer_le in
    let employee : w * r.employee_bps ≤ 800000 * 2000 = share-le k.within h.employee_le in
    let both : w * (r.employee_bps + r.employer_bps) ≤ 800000 * 3700 = omega arith in
    ground (
      arith,
      le_nat w 50000 (omega arith) (omega arith),
      le_nat w 75000 (omega arith) (omega arith),
      sub_nat w 50000,
      add_nat r.employee_bps r.employer_bps (omega arith),
      cents_by_bps_nat w r.employer_bps (omega arith),
      cents_by_bps_nat w r.employee_bps (omega arith),
      cents_by_bps_nat w (r.employee_bps + r.employer_bps) (omega arith),
      cents_by_bps_nat (w - 50000) 1500 (omega arith),
      add_nat (w * r.employer_bps / 10000) ((w - 50000) * 1500 / 10000) (omega arith),
    )

-- The employee pays at most a fifth of the wage and never more than the total, which stays below
-- thirty-seven hundredths of the wage.
pub shares_bounds :
    (r : CpfRate) (w : ℕ)
    → IsRate r
    → IsWage w
    → (employee_share r w ≤ total_share r w)
      × (5 * employee_share r w ≤ w)
      × (100 * total_share r w ≤ 37 * w)
shares_bounds r w h k =
    let employer : w * r.employer_bps ≤ w * 1700 = mul-le-mul (omega arith) h.employer_le in
    let employee : w * r.employee_bps ≤ w * 2000 = mul-le-mul (omega arith) h.employee_le in
    ground arith

-- The shares never fall as the wage rises, across the three bands too.
pub shares_mono :
    (r : CpfRate) (v w : ℕ)
    → IsRate r
    → IsWage w
    → v ≤ w
    → (employee_share r v ≤ employee_share r w) × (total_share r v ≤ total_share r w)
shares_mono r v w h k p =
    let employer : v * r.employer_bps ≤ w * r.employer_bps = mul-le-mul p (omega arith) in
    let employee : v * r.employee_bps ≤ w * r.employee_bps = mul-le-mul p (omega arith) in
    let least : w * 500 ≤ w * r.employee_bps = mul-le-mul (omega arith) h.employee_ge in
    ground arith
