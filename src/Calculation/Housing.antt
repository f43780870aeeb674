-- ===== src/Calculation/Housing.antt =====
-- internal/calculation/housing.go
pub mod Totals
pub mod Ratings
use text.Mathlib.Text.{◌==◌}
use our_ne_zt_core.Common.{Bool, ◌||◌, if◌then◌else◌}
use our_ne_zt_core.Common.Int64.{Int64, add, sub, mul, quot, le, lt}
use our_ne_zt_core.Common.Float64.{Float64}
use our_ne_zt_core.Domain.{
  EntityId, HousingOption, AffordabilityRating, comfortable, manageable, tight, risky,
  not_recommended, loan_cash,
}
use our_ne_zt_core.Calculation.Cents.{cents_by_bps, min_int64, max_int64}
use our_ne_zt_core.Calculation.Grant.{is_deferred_housing_option}

pub record HousingAffordability : Type 0 where
  pub housing_option_id : EntityId
  pub net_purchase_price_cents : Int64
  pub required_downpayment_cents : Int64
  pub initial_downpayment_cents : Int64
  pub final_downpayment_cents : Int64
  pub upfront_cost_cents : Int64
  pub estimated_loan_amount_cents : Int64
  pub monthly_mortgage_cents : Int64
  pub cpf_used_cents : Int64
  pub cash_top_up_required_cents : Int64
  pub remaining_cash_cents : Int64
  pub remaining_cpf_oa_cents : Int64
  pub monthly_housing_cost_cents : Int64
  pub monthly_surplus_after_housing_cents : Int64
  pub rating : AffordabilityRating

pub record HouseholdAssets : Type 0 where
  pub cash_savings_cents : Int64
  pub cpf_oa_cents : Int64
  pub take_home_cents : Int64
  pub monthly_expenses_cents : Int64

unfoldable pub initial_downpayment_cents : {F : Type 0} → HousingOption F → Int64 → Int64
initial_downpayment_cents option required =
    if le required 0
    then 0
    else if option.loan_type == loan_cash
    then required
    else (let initial_bps : Int64 = if is_deferred_housing_option option then 250 else 500 in
        let initial = cents_by_bps (max_int64 option.purchase_price_cents 0) initial_bps in
        if le initial 0 then required else min_int64 initial required)

-- The annuity formula, in the order of the source's floating-point operations.
unfoldable pub annuity : {F : Type 0} → Float64 F → Int64 → Int64 → Int64 → Int64
annuity f principal_cents annual_rate_bps months =
    let monthly_rate =
      f.div (f.div (f.of_int64 annual_rate_bps) (f.of_int64 10000)) (f.of_int64 12) in
    let principal = f.of_int64 principal_cents in
    let growth = f.pow (f.add f.one monthly_rate) (f.of_int64 months) in
    f.round_int64 (f.div (f.mul principal (f.mul monthly_rate growth)) (f.sub growth f.one))

unfoldable pub monthly_payment : {F : Type 0} → Float64 F → Int64 → Int64 → Int64 → Int64
monthly_payment f principal_cents annual_rate_bps months =
    if le principal_cents 0 || le months 0
    then 0
    else if le annual_rate_bps 0
    then quot principal_cents months
    else annuity f principal_cents annual_rate_bps months

unfoldable pub affordability_rating : Int64 → Int64 → Int64 → AffordabilityRating
affordability_rating housing_cost take_home surplus =
    if le take_home 0 || lt surplus 0
    then not_recommended
    else (let ratio_bps = quot (mul housing_cost 10000) take_home in
        if le ratio_bps 2500
        then comfortable
        else if le ratio_bps 3500
        then manageable
        else if le ratio_bps 4500
        then tight
        else if le ratio_bps 5500
        then risky
        else not_recommended)

unfoldable pub calculate_housing_affordability :
    {F : Type 0} → Float64 F → HousingOption F → HouseholdAssets → HousingAffordability
calculate_housing_affordability f option assets =
    let net_price = max_int64 (sub option.purchase_price_cents option.grant_amount_cents) 0 in
    let downpayment = cents_by_bps net_price option.downpayment_percent_bps in
    let initial = initial_downpayment_cents option downpayment in
    let upfront = add (add downpayment option.legal_fees_cents) option.buyer_stamp_duty_cents in
    let loan =
      if le option.loan_amount_cents 0
      then max_int64 (sub net_price downpayment) 0
      else option.loan_amount_cents in
    let mortgage = monthly_payment f loan option.interest_rate_bps option.loan_tenure_months in
    let cpf_used = min_int64 assets.cpf_oa_cents downpayment in
    let cash_top_up = max_int64 (sub upfront cpf_used) 0 in
    let housing_cost = add mortgage option.monthly_maintenance_cents in
    let surplus = sub (sub assets.take_home_cents assets.monthly_expenses_cents) housing_cost in
    record {
      housing_option_id = option.id;
      net_purchase_price_cents = net_price;
      required_downpayment_cents = downpayment;
      initial_downpayment_cents = initial;
      final_downpayment_cents = max_int64 (sub downpayment initial) 0;
      upfront_cost_cents = upfront;
      estimated_loan_amount_cents = loan;
      monthly_mortgage_cents = mortgage;
      cpf_used_cents = cpf_used;
      cash_top_up_required_cents = cash_top_up;
      remaining_cash_cents = sub assets.cash_savings_cents cash_top_up;
      remaining_cpf_oa_cents = sub assets.cpf_oa_cents cpf_used;
      monthly_housing_cost_cents = housing_cost;
      monthly_surplus_after_housing_cents = surplus;
      rating = affordability_rating housing_cost assets.take_home_cents surplus;
    }
