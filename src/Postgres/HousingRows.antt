-- ===== src/Postgres/HousingRows.antt =====
-- The rows of housing options and groups, with the constraints of db/migrations, and what
-- internal/repository/postgres/housing.go writes into them. JSON keeps the overrides that it holds.
use text.Mathlib.Text.{◌==◌}
use our_ne_zt_core.Common.{
  ◌-◌, ◌*◌, ◌/◌, ◌^◌, String, Bool, true, not, ◌&&◌, ◌||◌, Option, none, some, List, [], ◌∷◌, ltb,
  leb, if◌then◌else◌,
}
use our_ne_zt_core.Common.Text.{is_empty, trim_space, rune_count}
use our_ne_zt_core.Common.Int64.{Int64, is_neg}
use our_ne_zt_core.Domain.{
  EntityId, Time, HousingOption, HousingGroup, HousingDiaIncomeOverride, HousingType, LoanType, bto,
  resale_hdb, executive_condo, private_condo, landed, other_type, loan_hdb, loan_bank, loan_cash,
  zero_time,
}
use our_ne_zt_core.Postgres.Sql.{PgError, server, driver, Outcome, ◌>>◌, require, check_violation}
use our_ne_zt_core.Postgres.Tables.{Engine, MemberRow}
use our_ne_zt_core.Postgres.Access.{is_member, writes}

-- The overrides that have a person, with negative incomes as none.
unfoldable pub clean_overrides : List HousingDiaIncomeOverride → List HousingDiaIncomeOverride
clean_overrides [] = []
clean_overrides (o ∷ rest) =
    let later = clean_overrides rest in
    let person = trim_space o.person_id in
    if is_empty person
    then later
    else record {
      person_id = person;
      projected_income_cents =
          if is_neg o.projected_income_cents then 0 else o.projected_income_cents;
    }
      ∷ later

-- A date column keeps the day of a time, from the year 1 on.
abbrev pub day_of : Option Time → Option Time
day_of none = none
day_of (some t) = some (t / 86_400_000_000_000 * 86_400_000_000_000)

abbrev pub has_day : Option Time → Bool
has_day none = true
has_day (some t) = leb zero_time t

-- An `INTEGER` column takes numbers of 32 bits; the driver refuses others.
abbrev pub fits_integer : Int64 → Bool
fits_integer n = ltb n (2 ^ 31) || leb (2 ^ 64 - 2 ^ 31) n

abbrev pub too_wide : PgError
too_wide = driver "value is out of range for int4"

abbrev pub no_date : PgError
no_date = server "22008" "date/time field value out of range"

abbrev pub is_housing_type : HousingType → Bool
is_housing_type t =
    (t == bto)
    || (t == resale_hdb)
    || (t == executive_condo)
    || (t == private_condo)
    || (t == landed)
    || (t == other_type)

abbrev pub is_loan_type : LoanType → Bool
is_loan_type t = (t == loan_hdb) || (t == loan_bank) || (t == loan_cash)

abbrev pub has_group_id : EntityId → HousingGroup → Bool
has_group_id id g = g.id == id

abbrev pub group_in : EntityId → EntityId → HousingGroup → Bool
group_in id family g = (g.id == id) && (g.family_id == family)

-- `lower(name)` is unique within a family.
abbrev pub same_name : Engine → EntityId → String → HousingGroup → Bool
same_name engine family name g =
    (g.family_id == family) && (engine.lower g.name == engine.lower name)

abbrev pub new_group : EntityId → EntityId → String → Time → HousingGroup
new_group id family name now = record {
  id = id;
  family_id = family;
  name = name;
  created_at = now;
  updated_at = now;
}

module _ {F : Type 0} where
  abbrev pub no_negative : HousingOption F → Bool
  no_negative o =
      not (is_neg o.purchase_price_cents)
      && not (is_neg o.grant_amount_cents)
      && not (is_neg o.loan_amount_cents)
      && not (is_neg o.interest_rate_bps)
      && not (is_neg o.loan_tenure_months)
      && not (is_neg o.downpayment_percent_bps)
      && not (is_neg o.renovation_budget_cents)
      && not (is_neg o.furniture_budget_cents)
      && not (is_neg o.legal_fees_cents)
      && not (is_neg o.buyer_stamp_duty_cents)
      && not (is_neg o.monthly_maintenance_cents)

  abbrev pub fits_columns : HousingOption F → Bool
  fits_columns o =
      fits_integer o.interest_rate_bps
      && fits_integer o.loan_tenure_months
      && fits_integer o.downpayment_percent_bps

  abbrev keeps_checks : HousingOption F → Bool
  keeps_checks o =
      is_housing_type o.housing_type
      && is_loan_type o.loan_type
      && no_negative o
      && leb (rune_count o.notes) 10000

  unfoldable pub check_row : HousingOption F → Outcome (Unit {0})
  check_row o =
      require (fits_columns o) too_wide
      >> require (has_day o.expected_key_collection_date) no_date
      >> require (keeps_checks o) check_violation

  -- The columns that an update sets, from a request and the id of its group.
  abbrev pub rewritten : HousingOption F → EntityId → Time → HousingOption F → HousingOption F
  rewritten o group now h = record o {
    id = h.id;
    family_id = h.family_id;
    group_id = group;
    notes = h.notes;
    evaluation = none;
    expected_key_collection_date = day_of o.expected_key_collection_date;
    dia_income_overrides = clean_overrides o.dia_income_overrides;
    created_at = h.created_at;
    updated_at = now;
  }

  abbrev pub new_option : HousingOption F → EntityId → EntityId → EntityId → Time → HousingOption F
  new_option o id family group now = record o {
    id = id;
    family_id = family;
    group_id = group;
    evaluation = none;
    expected_key_collection_date = day_of o.expected_key_collection_date;
    dia_income_overrides = clean_overrides o.dia_income_overrides;
    created_at = now;
    updated_at = now;
  }

  -- `scanHousingRow`: the overrides are cleaned once more.
  abbrev pub scanned : HousingOption F → HousingOption F
  scanned h = record h { dia_income_overrides = clean_overrides h.dia_income_overrides }

  -- The option with an id, where a user writes in its family.
  abbrev pub writable : EntityId → EntityId → List MemberRow → HousingOption F → Bool
  writable id user members h = (h.id == id) && is_member writes h.family_id user members

  abbrev pub with_group : EntityId → Time → HousingOption F → HousingOption F
  with_group group now h = record h { group_id = group; updated_at = now }

  abbrev pub with_visibility : Bool → Time → HousingOption F → HousingOption F
  with_visibility visible now h = record h { visible_on_dashboard = visible; updated_at = now }

  abbrev pub with_notes : String → Time → HousingOption F → HousingOption F
  with_notes notes now h = record h { notes = notes; updated_at = now }

  abbrev pub in_group : EntityId → HousingOption F → Bool
  in_group group h = h.group_id == group

  abbrev pub without_group : HousingOption F → HousingOption F
  without_group h = record h { group_id = "" }
