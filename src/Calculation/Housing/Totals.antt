-- ===== src/Calculation/Housing/Totals.antt =====
-- How the amounts of an affordability result fit together.
use native.Mathlib.Nat.{mul-le-mul}
use our_ne_zt_core.Common.{
  ℕ, ◌+◌, ◌-◌, ◌*◌, ◌/◌, ◌^◌, ◌≤◌, ◌<◌, ◌≡◌, refl, arith, if◌then◌else◌, ◌==◌,
}
use our_ne_zt_core.Common.Int64.{
  IsNat, sign_bit, modulus, add, sub, le_nat, add_nat, sub_nat, quot_nat, sub_add, add-lt,
}
use our_ne_zt_core.Common.Float64.{Float64}
use our_ne_zt_core.Domain.{HousingOption}
use our_ne_zt_core.Calculation.Cents.{
  cents_by_bps, cents_by_bps_nat, min_int64, min_int64_nat, max_int64, max_int64_nat, max_sub_nat,
  min_int64_bounds,
}
use our_ne_zt_core.Calculation.Housing.{
  HousingAffordability, HouseholdAssets, initial_downpayment_cents, monthly_payment,
  affordability_rating, calculate_housing_affordability,
}

-- The amounts that a sensible request holds: none is negative, none above ten trillion cents, and the
-- percentage is at most a hundred.
abbrev pub amount_limit : ℕ
amount_limit = 10 ^ 13

pub record IsOption {F : Type 0} (o : HousingOption F) : Type 0 where
  pub price : o.purchase_price_cents ≤ amount_limit
  pub grant : o.grant_amount_cents ≤ amount_limit
  pub percent : o.downpayment_percent_bps ≤ 10000
  pub loan : o.loan_amount_cents ≤ amount_limit
  pub legal : o.legal_fees_cents ≤ amount_limit
  pub duty : o.buyer_stamp_duty_cents ≤ amount_limit

pub record IsAssets (a : HouseholdAssets) : Type 0 where
  pub cash : a.cash_savings_cents ≤ amount_limit
  pub oa : a.cpf_oa_cents ≤ amount_limit
  pub take_home : a.take_home_cents < modulus
  pub expenses : a.monthly_expenses_cents < modulus

-- The first payment is never above the downpayment, and is above zero whenever the downpayment is.
pub initial_downpayment_bounds :
    {F : Type 0} (o : HousingOption F) (required : ℕ)
    → o.purchase_price_cents ≤ amount_limit
    → required ≤ amount_limit
    → (initial_downpayment_cents o required ≤ required)
      × (0 < required → 0 < initial_downpayment_cents o required)
unfolding initial_downpayment_cents
initial_downpayment_bounds o required h k =
    let price = o.purchase_price_cents in
    ground (
      arith,
      le_nat required 0 (omega arith) (omega arith),
      max_int64_nat price 0 (omega arith) (omega arith),
      cents_by_bps_nat price 250 (omega arith),
      cents_by_bps_nat price 500 (omega arith),
      le_nat (price * 250 / 10000) 0 (omega arith) (omega arith),
      le_nat (price * 500 / 10000) 0 (omega arith) (omega arith),
      min_int64_nat (price * 250 / 10000) required (omega arith) (omega arith),
      min_int64_nat (price * 500 / 10000) required (omega arith) (omega arith),
    )

-- Without interest the monthly payments of the whole tenure never exceed the principal, and fall
-- short of it by less than one payment for each month.
pub monthly_payment_no_interest :
    {F : Type 0} (f : Float64 F) (principal months : ℕ)
    → 0 < months
    → IsNat principal
    → IsNat months
    → (monthly_payment f principal 0 months * months ≤ principal)
      × (principal < (monthly_payment f principal 0 months + 1) * months)
unfolding monthly_payment
monthly_payment_no_interest f principal months h k l = grind (
  arith,
  le_nat principal 0 k (omega arith),
  le_nat months 0 l (omega arith),
  le_nat 0 0 (omega arith) (omega arith),
  quot_nat principal months k l,
)

-- What the parts of a result add up to. The mortgage is rounded from floating point, so that the cost
-- of each month and what is left after it are sums of `int64`; no other amount wraps around.
pub record AddsUp {F : Type 0} (f : Float64 F) (o : HousingOption F) (a : HouseholdAssets)
    (r : HousingAffordability) : Type 0 where
  pub net_price : r.net_purchase_price_cents ≡ o.purchase_price_cents - o.grant_amount_cents
  pub two_payments :
      r.initial_downpayment_cents + r.final_downpayment_cents ≡ r.required_downpayment_cents
  pub downpayment_le : r.required_downpayment_cents ≤ r.net_purchase_price_cents
  pub upfront :
      r.upfront_cost_cents
      ≡ r.required_downpayment_cents + o.legal_fees_cents + o.buyer_stamp_duty_cents
  pub covered : r.cpf_used_cents + r.cash_top_up_required_cents ≡ r.upfront_cost_cents
  pub account : r.cpf_used_cents + r.remaining_cpf_oa_cents ≡ a.cpf_oa_cents
  pub cash : add r.remaining_cash_cents r.cash_top_up_required_cents ≡ a.cash_savings_cents
  pub financed : r.estimated_loan_amount_cents ≡ (
      if o.loan_amount_cents == 0
      then r.net_purchase_price_cents - r.required_downpayment_cents
      else o.loan_amount_cents)
  pub mortgage :
      r.monthly_mortgage_cents
      ≡ monthly_payment f r.estimated_loan_amount_cents o.interest_rate_bps o.loan_tenure_months
  pub monthly_cost :
      r.monthly_housing_cost_cents ≡ add r.monthly_mortgage_cents o.monthly_maintenance_cents
  pub left_over :
      add
        (add r.monthly_surplus_after_housing_cents r.monthly_housing_cost_cents)
        a.monthly_expenses_cents
      ≡ a.take_home_cents
  pub rated :
      r.rating
      ≡ affordability_rating r.monthly_housing_cost_cents a.take_home_cents
          r.monthly_surplus_after_housing_cents

-- Giving back in the other order than taking away.
sub_sub_add :
    (a b c : ℕ) → a < modulus → b < modulus → c < modulus → add (add (sub (sub a b) c) c) b ≡ a
unfolding add sub
sub_sub_add a b c h k l = omega arith

module _ {F : Type 0} (o : HousingOption F) (a : HouseholdAssets) (h : IsOption o)
    (k : IsAssets a) where
  abbrev net : ℕ
  net = o.purchase_price_cents - o.grant_amount_cents

  abbrev down : ℕ
  down = net * o.downpayment_percent_bps / 10000

  down-le-net : down ≤ net
  down-le-net =
      let part : net * o.downpayment_percent_bps ≤ net * 10000 =
        mul-le-mul (omega arith) h.percent in
      omega arith

  net_lem : max_int64 (sub o.purchase_price_cents o.grant_amount_cents) 0 ≡ net
  net_lem = max_sub_nat _ _ (omega (arith, h.price)) (omega (arith, h.grant))

  down_lem : cents_by_bps net o.downpayment_percent_bps ≡ down
  down_lem =
      let part : net * o.downpayment_percent_bps ≤ amount_limit * 10000 =
        mul-le-mul {n₂ = amount_limit} (omega (arith, h.price)) h.percent in
      cents_by_bps_nat net o.downpayment_percent_bps (omega arith)

  abbrev upfront : ℕ
  upfront = down + o.legal_fees_cents + o.buyer_stamp_duty_cents

  upfront_lem : add (add down o.legal_fees_cents) o.buyer_stamp_duty_cents ≡ upfront
  upfront_lem =
      let small : down ≤ amount_limit = omega (arith, down-le-net, h.price) in
      rw (add_nat down o.legal_fees_cents (omega (arith, h.legal))) (
        add_nat (down + o.legal_fees_cents) o.buyer_stamp_duty_cents
          (omega (arith, h.legal, h.duty)))

  -- On a sensible option and sensible savings the amounts of the result add up: the two payments make
  -- the downpayment, the account and the cash make the upfront cost, what the account keeps and what
  -- it pays make its balance, and the loan is the requested one or else the rest of the net price. The
  -- mortgage is the payment on that loan, at the rate and for the tenure of the option; mortgage and
  -- maintenance make the cost of a month; surplus, cost and expenses make the take-home pay, in
  -- `int64`; and the rating is that of the cost, the take-home pay and the surplus.
  pub calculate_housing_affordability-AddsUp :
      (f : Float64 F) → AddsUp f o a (calculate_housing_affordability f o a)
  unfolding calculate_housing_affordability
  calculate_housing_affordability-AddsUp f =
      let limit : amount_limit < sign_bit = omega arith in
      let small : down ≤ amount_limit = omega (arith, down-le-net, h.price) in
      let start = initial_downpayment_cents o down in
      let (start_le, _) = initial_downpayment_bounds o down h.price small in
      let used = min_int64 a.cpf_oa_cents down in
      let (used_le, used-le-down) =
        min_int64_bounds a.cpf_oa_cents down (omega (arith, k.oa)) (omega arith) in
      let top = upfront in
      let short : upfront < sign_bit = omega (arith, h.legal, h.duty) in
      let cash : max_int64 (sub upfront used) 0 ≡ upfront - used =
        max_sub_nat upfront used short (omega arith) in
      rw (net_lem, down_lem, upfront_lem, cash)
        (record {
          net_price = refl;
          two_payments = omega (arith, max_sub_nat down start (omega arith) (omega arith));
          downpayment_le = down-le-net;
          upfront = refl;
          covered = omega arith;
          account = omega (arith, sub_nat a.cpf_oa_cents used used_le (omega (arith, k.oa)));
          cash =
              sub_add a.cash_savings_cents (upfront - used) (omega (arith, k.cash)) (omega arith);
          financed = ground (
            arith,
            max_sub_nat net down (omega (arith, h.price)) (omega arith),
            le_nat o.loan_amount_cents 0 (omega (arith, h.loan)) (omega arith),
          );
          mortgage = refl;
          monthly_cost = refl;
          left_over =
              sub_sub_add a.take_home_cents a.monthly_expenses_cents _ k.take_home k.expenses
                (add-lt _ _);
          rated = refl;
        })
