-- ===== src/Server/Mapping/Housing.antt =====
-- internal/server/mapping.go: the message of a housing option.
use our_ne_zt_core.Common.{String, Bool, true, Option, none, some, if◌then◌else◌}
use our_ne_zt_core.Common.Text.{is_empty, trim_space}
use our_ne_zt_core.Common.Int32.{to_int, to_int32}
use our_ne_zt_core.Domain.{HousingOption, EntityId, zero_time}
use our_ne_zt_core.Errors.{Error, Result, ok, err, ◌>>=◌}
use our_ne_zt_core.Server.Messages.{HousingMessage}
use our_ne_zt_core.Server.Mapping.{
  Dates, parse_optional_date, format_date, overrides_from_proto, overrides_to_proto,
}

abbrev pub or_empty : Option String → String
or_empty none = ""
or_empty (some s) = s

-- Visible unless the message says it is not.
abbrev pub visible : Option Bool → Bool
visible none = true
visible (some v) = v

unfoldable pub group_to_proto : EntityId → Option String
group_to_proto id = if is_empty (trim_space id) then none else some id

module _ (dates : Dates) {F : Type 0} where
  unfoldable pub housing_from_proto : Option (HousingMessage F) → Result (HousingOption F)
  housing_from_proto none = err Error.invalid_argument
  housing_from_proto (some m) = do
    key_date ← parse_optional_date dates m.expected_key_collection_date
    ok (record {
      notes = m.notes;
      evaluation = none;
      id = trim_space m.id;
      family_id = trim_space m.family_id;
      group_id = trim_space (or_empty m.housing_group_id);
      name = trim_space m.name;
      housing_type = trim_space m.housing_type;
      location = trim_space m.location;
      unit_type = trim_space m.unit_type;
      purchase_price_cents = m.purchase_price_cents;
      grant_amount_cents = m.grant_amount_cents;
      loan_type = trim_space m.loan_type;
      loan_amount_cents = m.loan_amount_cents;
      interest_rate_bps = m.interest_rate_bps;
      loan_tenure_months = to_int m.loan_tenure_months;
      downpayment_percent_bps = m.downpayment_percent_bps;
      renovation_budget_cents = m.renovation_budget_cents;
      furniture_budget_cents = m.furniture_budget_cents;
      legal_fees_cents = m.legal_fees_cents;
      buyer_stamp_duty_cents = m.buyer_stamp_duty_cents;
      monthly_maintenance_cents = m.monthly_maintenance_cents;
      visible_on_dashboard = visible m.visible_on_dashboard;
      expected_key_collection_date = key_date;
      dia_income_overrides = overrides_from_proto m.dia_income_overrides;
      created_at = zero_time;
      updated_at = zero_time;
    })

  unfoldable pub housing_to_proto : HousingOption F → HousingMessage F
  housing_to_proto o = record {
    notes = o.notes;
    evaluation = o.evaluation;
    id = o.id;
    family_id = o.family_id;
    housing_group_id = group_to_proto o.group_id;
    name = o.name;
    housing_type = o.housing_type;
    location = o.location;
    unit_type = o.unit_type;
    purchase_price_cents = o.purchase_price_cents;
    grant_amount_cents = o.grant_amount_cents;
    loan_type = o.loan_type;
    loan_amount_cents = o.loan_amount_cents;
    interest_rate_bps = o.interest_rate_bps;
    loan_tenure_months = to_int32 o.loan_tenure_months;
    downpayment_percent_bps = o.downpayment_percent_bps;
    renovation_budget_cents = o.renovation_budget_cents;
    furniture_budget_cents = o.furniture_budget_cents;
    legal_fees_cents = o.legal_fees_cents;
    buyer_stamp_duty_cents = o.buyer_stamp_duty_cents;
    monthly_maintenance_cents = o.monthly_maintenance_cents;
    expected_key_collection_date = format_date dates o.expected_key_collection_date;
    dia_income_overrides = overrides_to_proto o.dia_income_overrides;
    visible_on_dashboard = some o.visible_on_dashboard;
  }
