-- ===== src/Server/Mapping.antt =====
-- internal/server/mapping.go: messages to records and back. `strings.TrimSpace` is `trim_space`.
use our_ne_zt_core.Common.{
  String, Bool, true, false, Option, none, some, List, [], ◌∷◌, map, if◌then◌else◌, ◌||◌,
}
use our_ne_zt_core.Common.Text.{is_empty, trim_space}
use our_ne_zt_core.Common.Int32.{to_int, to_int32}
use our_ne_zt_core.Domain.{
  EntityId, Time, User, Family, PersonProfile, PersonIncomeHistoryEntry, HousingOption,
  HousingGroup, HousingDiaIncomeOverride, zero_time,
}
use our_ne_zt_core.Errors.{Error, Result, ok, err, ◌>>=◌}
use our_ne_zt_core.Server.Messages.{
  UserMessage, FamilyMessage, PersonMessage, IncomeHistoryMessage, DiaIncomeOverrideMessage,
  HousingMessage, HousingGroupMessage,
}
pub mod Housing
pub mod RoundTrip
pub mod HousingRoundTrip

-- Package `time`: `Parse` and `Format` with the layout "2006-01-02", and `Format` with RFC 3339 in UTC.
pub record Dates : Type 0 where
  pub parse : String → Option Time
  pub format : Time → String
  pub format_rfc3339 : Time → String

-- `requireID`.
unfoldable pub require_id : String → Result EntityId
require_id value =
    let trimmed = trim_space value in
    if is_empty trimmed then err Error.invalid_argument else ok trimmed

abbrev parsed_date : Option Time → Result (Option Time)
parsed_date none = err Error.invalid_argument
parsed_date (some t) = ok (some t)

abbrev pub is_some {ℓ} : {A : Type ℓ} → Option A → Bool
is_some none = false
is_some (some a) = true

unfoldable pub user_to_proto : User → UserMessage
user_to_proto u = record {
  id = u.id;
  email = u.email;
  display_name = u.display_name;
  role = u.role;
  disabled = is_some u.disabled_at;
  must_change_password = u.must_change_password;
}

unfoldable pub family_to_proto : Family → FamilyMessage
family_to_proto f = record { id = f.id; name = f.name; family_type = f.family_type }

unfoldable pub housing_group_from_proto : Option HousingGroupMessage → Result HousingGroup
housing_group_from_proto none = err Error.invalid_argument
housing_group_from_proto (some m) = ok (record {
  id = trim_space m.id;
  family_id = trim_space m.family_id;
  name = trim_space m.name;
  created_at = zero_time;
  updated_at = zero_time;
})

unfoldable pub housing_group_to_proto : HousingGroup → HousingGroupMessage
housing_group_to_proto g = record { id = g.id; family_id = g.family_id; name = g.name }

-- The overrides of a message that name a person, in order.
unfoldable pub overrides_from_proto :
    List (Option DiaIncomeOverrideMessage) → List HousingDiaIncomeOverride
overrides_from_proto [] = []
overrides_from_proto (none ∷ ms) = overrides_from_proto ms
overrides_from_proto (some m ∷ ms) =
    let rest = overrides_from_proto ms in
    if is_empty (trim_space m.person_id)
    then rest
    else record {
      person_id = trim_space m.person_id;
      projected_income_cents = m.projected_income_cents;
    }
      ∷ rest

unfoldable pub overrides_to_proto :
    List HousingDiaIncomeOverride → List (Option DiaIncomeOverrideMessage)
overrides_to_proto [] = []
overrides_to_proto (o ∷ os) =
    let rest = overrides_to_proto os in
    if is_empty (trim_space o.person_id)
    then rest
    else some
        (record { person_id = o.person_id; projected_income_cents = o.projected_income_cents })
      ∷ rest

module _ (dates : Dates) where
  -- `parseOptionalDate`.
  unfoldable pub parse_optional_date : String → Result (Option Time)
  parse_optional_date value =
      let trimmed = trim_space value in
      if is_empty trimmed then ok none else parsed_date (dates.parse trimmed)

  -- `formatDate`.
  unfoldable pub format_date : Option Time → String
  format_date none = ""
  format_date (some t) = dates.format t

  -- `personFromProto`; a field that the message has no say in holds Go's zero value.
  unfoldable pub person_from_proto : Option PersonMessage → Result PersonProfile
  person_from_proto none = err Error.invalid_argument
  person_from_proto (some m) = do
    start ← parse_optional_date m.expected_income_start_date
    graduation ← parse_optional_date m.graduation_date
    ord ← parse_optional_date m.ord_date
    ok (record {
      id = trim_space m.id;
      family_id = trim_space m.family_id;
      linked_user_id = trim_space m.linked_user_id;
      name = trim_space m.name;
      age = to_int m.age;
      relationship_label = trim_space m.relationship_label;
      employment_status = trim_space m.employment_status;
      gross_monthly_income_cents = m.gross_monthly_income_cents;
      expected_future_income_cents = m.expected_future_income_cents;
      expected_income_start_date = start;
      graduation_date = graduation;
      ord_date = ord;
      cash_savings_cents = m.cash_savings_cents;
      cpf_oa_cents = m.cpf_oa_cents;
      cpf_sa_cents = m.cpf_sa_cents;
      cpf_ma_cents = m.cpf_ma_cents;
      monthly_expenses_cents = m.monthly_expenses_cents;
      created_at = zero_time;
      updated_at = zero_time;
    })

  unfoldable pub person_to_proto : PersonProfile → PersonMessage
  person_to_proto p = record {
    id = p.id;
    family_id = p.family_id;
    linked_user_id = p.linked_user_id;
    name = p.name;
    age = to_int32 p.age;
    relationship_label = p.relationship_label;
    employment_status = p.employment_status;
    gross_monthly_income_cents = p.gross_monthly_income_cents;
    expected_future_income_cents = p.expected_future_income_cents;
    expected_income_start_date = format_date p.expected_income_start_date;
    graduation_date = format_date p.graduation_date;
    ord_date = format_date p.ord_date;
    cash_savings_cents = p.cash_savings_cents;
    cpf_oa_cents = p.cpf_oa_cents;
    cpf_sa_cents = p.cpf_sa_cents;
    cpf_ma_cents = p.cpf_ma_cents;
    monthly_expenses_cents = p.monthly_expenses_cents;
  }

  unfoldable pub income_history_entry_to_proto : PersonIncomeHistoryEntry → IncomeHistoryMessage
  income_history_entry_to_proto e = record {
    person_id = e.person_id;
    person_name = e.person_name;
    gross_monthly_income_cents = e.gross_monthly_income_cents;
    expected_future_income_cents = e.expected_future_income_cents;
    recorded_at = dates.format_rfc3339 e.recorded_at;
  }
