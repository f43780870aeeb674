-- ===== src/Tests/Samples.antt =====
-- Concrete people, options and limiters.
use our_ne_zt_core.Common.{
  ℕ, ◌+◌, ◌-◌, ◌*◌, ◌/◌, ◌^◌, true, false, some, none, List, [], ◌∷◌, ltb, leb,
}
use our_ne_zt_core.Common.Float64.{Float64}
use our_ne_zt_core.Domain.{
  PersonProfile, HousingOption, full_time, full_time_nsf, bto, loan_bank, zero_time,
}
use our_ne_zt_core.Calculation.Housing.{HouseholdAssets}

-- Whole numbers in place of `float64`.
abbrev pub whole : Float64 ℕ
whole = record {
  zero_value = 0;
  one = 1;
  of_int64 = λ n. n;
  add = λ a b. a + b;
  sub = λ a b. a - b;
  mul = λ a b. a * b;
  div = λ a b. a / b;
  lt = ltb;
  le = leb;
  pow = λ a b. a ^ b;
  round_int64 = λ a. a;
  is_nan = λ a. false;
  is_inf = λ a. false;
}

abbrev pub alice : PersonProfile
alice = record {
  id = "p1";
  family_id = "f1";
  linked_user_id = "";
  name = "Alice";
  age = 30;
  relationship_label = "self";
  employment_status = full_time;
  gross_monthly_income_cents = 600000;
  expected_future_income_cents = 0;
  expected_income_start_date = none;
  graduation_date = none;
  ord_date = none;
  cash_savings_cents = 5000000;
  cpf_oa_cents = 3000000;
  cpf_sa_cents = 1000000;
  cpf_ma_cents = 1200000;
  monthly_expenses_cents = 180000;
  created_at = zero_time;
  updated_at = zero_time;
}

abbrev pub ben : PersonProfile
ben = record alice {
  id = "p2";
  name = "Ben";
  age = 21;
  relationship_label = "fiance";
  employment_status = full_time_nsf;
  gross_monthly_income_cents = 80000;
  ord_date = some 1;
  cash_savings_cents = 200000;
  cpf_oa_cents = 0;
  monthly_expenses_cents = 100000;
}

abbrev pub couple : List PersonProfile
couple = alice ∷ ben ∷ []

abbrev pub flat : HousingOption ℕ
flat = record {
  notes = "";
  evaluation = none;
  id = "h1";
  family_id = "f1";
  group_id = "";
  name = "Tengah";
  housing_type = bto;
  location = "Tengah";
  unit_type = "4-room";
  purchase_price_cents = 40000000;
  grant_amount_cents = 2000000;
  loan_type = loan_bank;
  loan_amount_cents = 0;
  interest_rate_bps = 0;
  loan_tenure_months = 300;
  downpayment_percent_bps = 2500;
  renovation_budget_cents = 0;
  furniture_budget_cents = 0;
  legal_fees_cents = 300000;
  buyer_stamp_duty_cents = 600000;
  monthly_maintenance_cents = 8000;
  visible_on_dashboard = true;
  expected_key_collection_date = none;
  dia_income_overrides = [];
  created_at = zero_time;
  updated_at = zero_time;
}

abbrev pub hidden_flat : HousingOption ℕ
hidden_flat = record flat { id = "h2"; visible_on_dashboard = false }

abbrev pub savings : HouseholdAssets
savings = record {
  cash_savings_cents = 5200000;
  cpf_oa_cents = 3000000;
  take_home_cents = 560000;
  monthly_expenses_cents = 280000;
}
