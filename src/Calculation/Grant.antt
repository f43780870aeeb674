-- ===== src/Calculation/Grant.antt =====
-- internal/calculation/housing_grant.go
pub mod Brackets
use text.Mathlib.Text.{◌==◌}
use our_ne_zt_core.Common.{
  ℕ, ◌*◌, Bool, true, false, not, ◌&&◌, ◌||◌, if◌then◌else◌, Option, none, some, List, [], ◌∷◌,
  length, ltb, leb,
}
use our_ne_zt_core.Common.{◌==◌ as nat_eq}
use our_ne_zt_core.Common.Int64.{Int64, mul, le}
use our_ne_zt_core.Domain.{
  Time, is_zero, PersonProfile, HousingType, bto, resale_hdb, executive_condo, private_condo,
  landed, other_type, loan_cash, loan_bank, loan_hdb, HousingOption,
}
use our_ne_zt_core.Calculation.Cents.{max_int64}
use our_ne_zt_core.Calculation.Income.{calculate_household_income_summary}

abbrev pub hdb_max_loan_tenure_years : Int64
hdb_max_loan_tenure_years = 30

abbrev pub non_hdb_max_loan_tenure_years : Int64
non_hdb_max_loan_tenure_years = 35

abbrev pub months_per_year : Int64
months_per_year = 12

pub record HousingGrantEstimate : Type 0 where
  pub grant_amount_cents : Int64
  pub household_gross_monthly_income_cents : Int64
  pub eligible : Bool

unfoldable pub is_non_hdb_housing_type : HousingType → Bool
is_non_hdb_housing_type t =
    (t == executive_condo) || (t == private_condo) || (t == landed) || (t == other_type)

unfoldable pub max_loan_tenure_years_for_housing_type : HousingType → Int64
max_loan_tenure_years_for_housing_type t =
    if (t == bto) || (t == resale_hdb)
    then hdb_max_loan_tenure_years
    else non_hdb_max_loan_tenure_years

unfoldable pub max_loan_tenure_months_for_housing_type : HousingType → Int64
unfolding max_loan_tenure_years_for_housing_type
max_loan_tenure_months_for_housing_type t =
    mul (max_loan_tenure_years_for_housing_type t) months_per_year

unfoldable pub is_housing_grant_eligible_type : HousingType → Bool
is_housing_grant_eligible_type t = (t == bto) || (t == resale_hdb)

pub record Bracket : Type 0 where
  pub max_income_cents : Int64
  pub grant_cents : Int64

abbrev bracket : Int64 → Int64 → Bracket
bracket top grant = record { max_income_cents = top; grant_cents = grant }

abbrev pub brackets : List Bracket
brackets =
    bracket 150000 12000000
    ∷ bracket 200000 11000000
    ∷ bracket 250000 10500000
    ∷ bracket 300000 9500000
    ∷ bracket 350000 9000000
    ∷ bracket 400000 8000000
    ∷ bracket 450000 7000000
    ∷ bracket 500000 6500000
    ∷ bracket 550000 5500000
    ∷ bracket 600000 5000000
    ∷ bracket 650000 4000000
    ∷ bracket 700000 3000000
    ∷ bracket 750000 2500000
    ∷ bracket 800000 2000000
    ∷ bracket 850000 1000000
    ∷ bracket 900000 500000
    ∷ []

-- The loop over the brackets; an income above the last one leaves the grant at 0.
unfoldable pub grant_for : List Bracket → Int64 → Int64
grant_for [] income = 0
grant_for (b ∷ bs) income =
    let rest = grant_for bs income in if le income b.max_income_cents then b.grant_cents else rest

unfoldable pub estimate_from_gross_monthly_income : HousingType → Int64 → HousingGrantEstimate
estimate_from_gross_monthly_income t gross =
    let income = max_int64 gross 0 in
    let eligible = is_housing_grant_eligible_type t in
    record {
      grant_amount_cents = if not eligible then 0 else grant_for brackets income;
      household_gross_monthly_income_cents = income;
      eligible = eligible;
    }

unfoldable pub estimate_housing_grant_amount :
    HousingType → List PersonProfile → HousingGrantEstimate
estimate_housing_grant_amount t [] = record {
  grant_amount_cents = 0;
  household_gross_monthly_income_cents = 0;
  eligible = is_housing_grant_eligible_type t;
}
estimate_housing_grant_amount t (p ∷ people) =
    estimate_from_gross_monthly_income t
      (calculate_household_income_summary (p ∷ people)).current_gross_income_cents

unfoldable pub has_valid_key_date : Option Time → Bool
has_valid_key_date none = false
has_valid_key_date (some t) = not (is_zero t)

unfoldable pub is_deferred_housing_option : {F : Type 0} → HousingOption F → Bool
is_deferred_housing_option o =
    if o.loan_type == loan_cash
    then false
    else if is_non_hdb_housing_type o.housing_type
    then false
    else if not (o.housing_type == bto)
    then false
    else (let valid_key_date = has_valid_key_date o.expected_key_collection_date in
        let by_legacy_shape =
          nat_eq o.loan_amount_cents 0 && nat_eq o.downpayment_percent_bps 2500 in
        let by_key_date =
          valid_key_date
          && nat_eq o.loan_amount_cents 0
          && nat_eq o.grant_amount_cents 0
          && ((o.loan_type == "") || (o.loan_type == loan_bank) || (o.loan_type == loan_hdb)) in
        let by_defaulted_loan =
          valid_key_date
          && (o.loan_type == loan_bank)
          && nat_eq o.loan_amount_cents 0
          && (nat_eq o.loan_tenure_months 300
              || nat_eq o.loan_tenure_months
                  (max_loan_tenure_months_for_housing_type o.housing_type)) in
        let by_overrides = valid_key_date && ltb 0 (length o.dia_income_overrides) in
        by_legacy_shape || by_key_date || by_defaulted_loan || by_overrides)
