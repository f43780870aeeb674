-- ===== src/Tests/Housing.antt =====
-- Housing options: runs of the handlers' rules, and instances of the theorems.
use our_ne_zt_core.Common.{ℕ, ◌≤◌, ◌≡◌, ◌≢◌, ◌↔◌, ◌⊎◌, refl, true, some, arith}
use our_ne_zt_core.Common.Int64.{lt, le, mul}
use our_ne_zt_core.Domain.{HousingOption, resale_hdb, private_condo, loan_hdb, loan_cash}
use our_ne_zt_core.Errors.{Error, ok, err}
use our_ne_zt_core.Calculation.Grant.{
  is_non_hdb_housing_type, is_deferred_housing_option, max_loan_tenure_months_for_housing_type,
  max_loan_tenure_years_for_housing_type,
}
use our_ne_zt_core.Server.Housing.{
  validate_housing_option, validate_housing_condo_combination, validate_housing_loan_tenure,
  apply_grant_estimate, with_grant,
}
use our_ne_zt_core.Server.Housing.Rules.{
  validate_housing_option_iff, apply_grant_estimate-grants, NoGrant, Estimated, most_months,
}
use our_ne_zt_core.Tests.Samples.{flat, couple}
use our_ne_zt_core.Tests.Server.{store_by, store_all}

abbrev resale : HousingOption ℕ
resale = record flat { housing_type = resale_hdb }

resale_accepted : validate_housing_option resale ≡ ok tt
unfolding validate_housing_option validate_housing_condo_combination validate_housing_loan_tenure
    max_loan_tenure_months_for_housing_type max_loan_tenure_years_for_housing_type mul lt le
    is_non_hdb_housing_type
resale_accepted = refl

-- A condominium with a grant is refused.
condo_refused :
    validate_housing_option (record flat { housing_type = private_condo })
    ≡ err Error.invalid_argument
unfolding validate_housing_option validate_housing_condo_combination validate_housing_loan_tenure
    max_loan_tenure_months_for_housing_type max_loan_tenure_years_for_housing_type mul lt le
    is_non_hdb_housing_type
condo_refused = refl

validate_housing_option_iff_example : (validate_housing_option resale ≡ ok tt) ↔ (
    (is_non_hdb_housing_type resale_hdb ≡ true
      → (resale.loan_type ≢ loan_hdb) × (resale.grant_amount_cents ≡ 0))
    × ((resale.loan_type ≡ loan_cash) ⊎ (300 ≤ most_months resale)))
validate_housing_option_iff_example = validate_housing_option_iff resale (omega arith) (omega arith)

estimated_lem :
    apply_grant_estimate (some (store_by store_all)) resale "u1" couple
    ≡ (couple, ok (with_grant resale couple))
unfolding apply_grant_estimate is_non_hdb_housing_type is_deferred_housing_option
estimated_lem = refl

apply_grant_estimate-grants_example :
    let people = store_by store_all in
    let q = with_grant resale couple in
    (q ≡ record resale { grant_amount_cents = q.grant_amount_cents })
    × (NoGrant people resale "u1" q ⊎ Estimated people resale "u1" couple couple q)
apply_grant_estimate-grants_example =
    apply_grant_estimate-grants (store_by store_all) resale "u1" couple couple
      (with_grant resale couple) refl estimated_lem
