-- ===== src/Postgres/PersonRows.antt =====
-- The rows of people and of their income history, and the tests of
-- internal/repository/postgres/people.go on ids and errors. `to_lower` is `strings.ToLower`.
use Prim.Native.Char.{code}
use text.Mathlib.Text.{◌==◌}
use our_ne_zt_core.Common.{
  ℕ, suc, List, String, Bool, true, false, not, ◌&&◌, ◌||◌, leb, if◌then◌else◌,
}
use our_ne_zt_core.Common.Text.{is_empty, trim_space, has_prefix}
use our_ne_zt_core.Common.Int64.{is_neg}
use our_ne_zt_core.Domain.{
  EntityId, Time, PersonProfile, EmploymentStatus, full_time, part_time, self_employed, student,
  full_time_nsf, unemployed, future_employee,
}
use our_ne_zt_core.Postgres.Sql.{
  PgError, no_rows, server, driver, Outcome, done, failed, ◌>>◌, require, check_violation,
}
use our_ne_zt_core.Postgres.Tables.{HistoryRow, MemberRow}
use our_ne_zt_core.Postgres.Access.{is_member, writes}
use our_ne_zt_core.Postgres.HousingRows.{day_of, has_day, fits_integer, too_wide, no_date}

-- `strings.Contains`.
unfoldable pub contains : String → String → Bool
contains String.[] part = is_empty part
contains (String.◌∷◌ c s) part =
    let rest = contains s part in has_prefix part (String.◌∷◌ c s) || rest

abbrev pub is_hex_rune : ℕ → Bool
is_hex_rune c = (leb 48 c && leb c 57) || (leb 97 c && leb c 102) || (leb 65 c && leb c 70)

abbrev is_number : ℕ → ℕ → Bool
is_number a b = leb a b && leb b a

abbrev pub is_hyphen_place : ℕ → Bool
is_hyphen_place i = is_number i 8 || is_number i 13 || is_number i 18 || is_number i 23

-- A text that passes consists of ASCII characters, one byte each, so that its bytes are its characters.
unfoldable pub canonical_from : ℕ → String → Bool
canonical_from i String.[] = is_number i 36
canonical_from i (String.◌∷◌ c s) =
    let rest = canonical_from (suc i) s in
    (if is_hyphen_place i then is_number (code c) 45 else is_hex_rune (code c)) && rest

unfoldable pub is_canonical_uuid : String → Bool
is_canonical_uuid value = canonical_from 0 value

unfoldable pub normalize_optional_uuid : (String → String) → String → String
normalize_optional_uuid to_lower value =
    if is_empty (trim_space value)
    then ""
    else if is_canonical_uuid (trim_space value)
    then to_lower (trim_space value)
    else ""

abbrev pub message_of : PgError → String
message_of no_rows = "no rows in result set"
message_of (server code message) = message
message_of (driver message) = message

abbrev missing_text : String → Bool
missing_text lower = contains lower "person_income_history" && contains lower "does not exist"

unfoldable pub is_missing_income_history_relation_error : (String → String) → PgError → Bool
is_missing_income_history_relation_error to_lower (server code message) =
    (code == "42P01") && contains (to_lower message) "person_income_history"
is_missing_income_history_relation_error to_lower no_rows =
    missing_text (to_lower (message_of no_rows))
is_missing_income_history_relation_error to_lower (driver message) = missing_text (to_lower message)

abbrev linked_code : String → Bool
linked_code code = (code == "42703") || (code == "42804") || (code == "42883") || (code == "22P02")

abbrev linked_text : String → Bool
linked_text lower =
    contains lower "linked_user_id"
    && (contains lower "does not exist"
        || contains lower "datatype mismatch"
        || contains lower "operator does not exist"
        || contains lower "cannot be matched"
        || contains lower "invalid input syntax for type uuid")

unfoldable pub is_linked_user_compatibility_error : (String → String) → PgError → Bool
is_linked_user_compatibility_error to_lower (server code message) =
    if (code == "22P02") && contains (to_lower message) "invalid input syntax for type uuid"
    then true
    else if not (contains (to_lower message) "linked_user_id")
    then false
    else linked_code code
is_linked_user_compatibility_error to_lower no_rows = linked_text (to_lower (message_of no_rows))
is_linked_user_compatibility_error to_lower (driver message) = linked_text (to_lower message)

abbrev pub is_status : EmploymentStatus → Bool
is_status s =
    (s == full_time)
    || (s == part_time)
    || (s == self_employed)
    || (s == student)
    || (s == full_time_nsf)
    || (s == unemployed)
    || (s == future_employee)
    || (s == "other")

abbrev pub no_negative_amount : PersonProfile → Bool
no_negative_amount p =
    not (is_neg p.gross_monthly_income_cents)
    && not (is_neg p.expected_future_income_cents)
    && not (is_neg p.cash_savings_cents)
    && not (is_neg p.cpf_oa_cents)
    && not (is_neg p.cpf_sa_cents)
    && not (is_neg p.cpf_ma_cents)
    && not (is_neg p.monthly_expenses_cents)

abbrev pub has_days : PersonProfile → Bool
has_days p = has_day p.expected_income_start_date && has_day p.graduation_date && has_day p.ord_date

unfoldable pub check_person : PersonProfile → Outcome (Unit {0})
check_person p =
    require (fits_integer p.age) too_wide
    >> require (has_days p) no_date
    >> require (leb p.age 120 && is_status p.employment_status && no_negative_amount p)
        check_violation

-- The columns of a request, on the row of a person.
abbrev pub stored : PersonProfile → EntityId → EntityId → EntityId → Time → Time → PersonProfile
stored p id family linked created updated = record p {
  id = id;
  family_id = family;
  linked_user_id = linked;
  expected_income_start_date = day_of p.expected_income_start_date;
  graduation_date = day_of p.graduation_date;
  ord_date = day_of p.ord_date;
  created_at = created;
  updated_at = updated;
}

abbrev pub without_link : PersonProfile → PersonProfile
without_link p = record p { linked_user_id = "" }

abbrev pub person_id : EntityId → PersonProfile → Bool
person_id id p = p.id == id

-- The person with an id, where a user writes in the family.
abbrev pub editable : EntityId → EntityId → List MemberRow → PersonProfile → Bool
editable id user members p = (p.id == id) && is_member writes p.family_id user members

-- Another person of a family who is linked to a user.
abbrev pub links_other : EntityId → EntityId → EntityId → PersonProfile → Bool
links_other id family linked p =
    not (p.id == id) && (p.family_id == family) && (p.linked_user_id == linked)

abbrev pub history_of : PersonProfile → HistoryRow
history_of p = record {
  family_id = p.family_id;
  entry = record {
    person_id = p.id;
    person_name = p.name;
    gross_monthly_income_cents = p.gross_monthly_income_cents;
    expected_future_income_cents = p.expected_future_income_cents;
    recorded_at = p.updated_at;
  };
}

-- The statement that is tried when another one has failed in a certain way.
abbrev pub retry {ℓ} : {T : Type ℓ} → (PgError → Bool) → Outcome T → Outcome T → Outcome T
retry test (done t) other = done t
retry test (failed e) other = if test e then other else failed e
