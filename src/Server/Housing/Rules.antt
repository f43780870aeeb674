-- ===== src/Server/Housing/Rules.antt =====
-- Which housing options the handlers of internal/server/housing.go accept and store.
use mathlib.Core.Bool.{true≢false}
use mathlib.Core.Path.{subst}
use text.Mathlib.Text.{◌==◌}
use text.Mathlib.TextEquality.{eq_iff}
use our_ne_zt_core.Common.{
  ℕ, ◌≤◌, true, false, some, ◌≡◌, ◌≢◌, ◌↔◌, ◌⊎◌, refl, ap, sym, ◌∙◌, List, [], ◌∷◌, inl, inr,
  Bool-cases, if◌then◌else◌, ◌||◌, arith,
}
use our_ne_zt_core.Common.Text.{is_empty}
use our_ne_zt_core.Common.Int64.{mul, IsNat, lt_nat, le_nat}
use our_ne_zt_core.Domain.{
  EntityId, PersonProfile, HousingType, HousingOption, bto, resale_hdb, loan_hdb, loan_cash,
}
use our_ne_zt_core.Errors.{Result, ok, err}
use our_ne_zt_core.Action.{proceed}
use our_ne_zt_core.Calculation.Grant.{
  is_non_hdb_housing_type, is_housing_grant_eligible_type, estimate_housing_grant_amount,
  estimate_from_gross_monthly_income, max_loan_tenure_months_for_housing_type,
  max_loan_tenure_years_for_housing_type, is_deferred_housing_option,
}
use our_ne_zt_core.Server.Repositories.{People}
use our_ne_zt_core.Server.Housing.{
  validate_housing_option, validate_housing_condo_combination, validate_housing_loan_tenure, both,
  apply_grant_estimate, with_grant,
}

both-ok : (r q : Result (Unit {0})) → both r q ≡ ok tt → (r ≡ ok tt) × (q ≡ ok tt)
both-ok (ok u) q h = (refl, h)
both-ok (err e) q h = cc

module _ {F : Type 0} where
  -- The tenure in months that a type of housing allows.
  abbrev pub most_months : HousingOption F → ℕ
  most_months o = if (o.housing_type == bto) || (o.housing_type == resale_hdb) then 360 else 420

  most_months_lem :
      (o : HousingOption F) → max_loan_tenure_months_for_housing_type o.housing_type ≡ most_months o
  unfolding max_loan_tenure_months_for_housing_type max_loan_tenure_years_for_housing_type mul
  most_months_lem o = ground arith

  validate_housing_condo_combination_iff :
      (o : HousingOption F)
      → IsNat o.grant_amount_cents
      → (validate_housing_condo_combination o ≡ ok tt) ↔ (
          is_non_hdb_housing_type o.housing_type ≡ true
          → (o.loan_type ≢ loan_hdb) × (o.grant_amount_cents ≡ 0))
  unfolding validate_housing_condo_combination
  validate_housing_condo_combination_iff o h =
      ground (arith, eq_iff o.loan_type loan_hdb, lt_nat 0 o.grant_amount_cents (omega arith) h)

  validate_housing_loan_tenure_iff :
      (o : HousingOption F)
      → IsNat o.loan_tenure_months
      → (validate_housing_loan_tenure o ≡ ok tt)
        ↔ ((o.loan_type ≡ loan_cash) ⊎ (o.loan_tenure_months ≤ most_months o))
  unfolding validate_housing_loan_tenure
  validate_housing_loan_tenure_iff o h = ground (
    arith,
    eq_iff o.loan_type loan_cash,
    most_months_lem o,
    le_nat o.loan_tenure_months 0 h (omega arith),
    lt_nat (most_months o) o.loan_tenure_months (ground arith) h,
  )

  -- Exactly the options are accepted that, outside public housing, have no public loan and no grant,
  -- and that are paid in cash or within 30 years for a public flat and 35 years for any other. The
  -- grant and the tenure are not negative.
  pub validate_housing_option_iff :
      (o : HousingOption F)
      → IsNat o.grant_amount_cents
      → IsNat o.loan_tenure_months
      → (validate_housing_option o ≡ ok tt) ↔ (
          (is_non_hdb_housing_type o.housing_type ≡ true
            → (o.loan_type ≢ loan_hdb) × (o.grant_amount_cents ≡ 0))
          × ((o.loan_type ≡ loan_cash) ⊎ (o.loan_tenure_months ≤ most_months o)))
  unfolding validate_housing_option
  validate_housing_option_iff o h k =
      let condo = validate_housing_condo_combination_iff o h in
      let tenure = validate_housing_loan_tenure_iff o k in
      (
        λ v. (condo.0 (both-ok _ _ v).0, tenure.0 (both-ok _ _ v).1),
        λ p. simp (condo.1 p.0) (tenure.1 p.1),
      )

-- The types of the public scheme, which a grant is for.
abbrev pub IsPublic : HousingType → Type 0
IsPublic t = (t ≡ bto) ⊎ (t ≡ resale_hdb)

eligible-IsPublic : (t : HousingType) → is_housing_grant_eligible_type t ≡ true → IsPublic t
unfolding is_housing_grant_eligible_type
eligible-IsPublic t h = ground (arith, h, eq_iff t bto, eq_iff t resale_hdb)

not_eligible-not_public :
    (t : HousingType) → is_housing_grant_eligible_type t ≡ false → ¬ IsPublic t
unfolding is_housing_grant_eligible_type
not_eligible-not_public t h p = ground (arith, h, p, eq_iff t bto, eq_iff t resale_hdb)

non_hdb-not_public : (t : HousingType) → is_non_hdb_housing_type t ≡ true → ¬ IsPublic t
unfolding is_non_hdb_housing_type
non_hdb-not_public t h (inl e) = true≢false (sym h ∙ ap is_non_hdb_housing_type e)
non_hdb-not_public t h (inr e) = true≢false (sym h ∙ ap is_non_hdb_housing_type e)

estimate-not_eligible :
    (t : HousingType) (people : List PersonProfile)
    → is_housing_grant_eligible_type t ≡ false
    → (estimate_housing_grant_amount t people).grant_amount_cents ≡ 0
unfolding estimate_housing_grant_amount estimate_from_gross_monthly_income
estimate-not_eligible t [] h = refl
estimate-not_eligible t (p ∷ people) h = rw h refl

module _ {S F : Type 0} (people : People S) (o : HousingOption F) (viewer : EntityId) where
  -- No grant, for a type outside the public scheme or a deferred assessment.
  abbrev pub NoGrant : HousingOption F → Type 0
  NoGrant q =
      (q.grant_amount_cents ≡ 0)
      × ((¬ IsPublic o.housing_type) ⊎ (is_deferred_housing_option o ≡ true))

  -- The estimate, for the people that the repository lists for the family of the option.
  abbrev pub Estimated : (s t : S) → HousingOption F → Type 0
  Estimated s t q =
      IsPublic o.housing_type
      × (is_deferred_housing_option o ≡ false)
      × (profiles : List PersonProfile) × (people.list_person_profiles_by_family o.family_id viewer
            s
          ≡ (t, ok profiles))
      × (q.grant_amount_cents
          ≡ (estimate_housing_grant_amount o.housing_type profiles).grant_amount_cents)

  abbrev Granted : (s : S) → S × Result (HousingOption F) → Type 0
  Granted s (t, ok q) =
      (q ≡ record o { grant_amount_cents = q.grant_amount_cents }) × (NoGrant q ⊎ Estimated s t q)
  Granted s (t, err e) = Unit {0}

  listed-Granted :
      (s : S) (x : S × Result (List PersonProfile))
      → people.list_person_profiles_by_family o.family_id viewer s ≡ x
      → is_deferred_housing_option o ≡ false
      → Granted s (proceed (λ profiles u. (u, ok (with_grant o profiles))) x)
  listed-Granted s (t, ok profiles) h c =
      elim (Bool-cases (is_housing_grant_eligible_type o.housing_type)) [
        | inl e ↦ (refl, inr (eligible-IsPublic o.housing_type e, c, profiles, h, refl))
        | inr e ↦ (
          refl,
          inl (
            estimate-not_eligible o.housing_type profiles e,
            inl (not_eligible-not_public o.housing_type e),
          ),
        )
      ]
  listed-Granted s (t, err e) h c = tt

  apply_grant_estimate-Granted :
      (s : S)
      → is_empty o.family_id ≡ false
      → Granted s (apply_grant_estimate (some people) o viewer s)
  unfolding apply_grant_estimate
  apply_grant_estimate-Granted s a = elim (Bool-cases (is_non_hdb_housing_type o.housing_type)) [
    | inl b ↦ simp (a, b) (refl, inl (refl, inl (non_hdb-not_public o.housing_type b)))
    | inr b ↦ elim (Bool-cases (is_deferred_housing_option o)) [
      | inl c ↦ simp (a, b, c) (refl, inl (refl, inr refl))
      | inr c ↦
          simp (a, b, c)
            (listed-Granted s (people.list_person_profiles_by_family o.family_id viewer s) refl c)
    ]
  ]

  -- For an option of a family the handler changes the grant and nothing else. There is no grant for a
  -- type of housing outside the public scheme or for a deferred assessment; in any other case the grant
  -- is the estimate for the people that the repository lists for the family.
  pub apply_grant_estimate-grants :
      (s t : S) (q : HousingOption F)
      → is_empty o.family_id ≡ false
      → apply_grant_estimate (some people) o viewer s ≡ (t, ok q)
      → (q ≡ record o { grant_amount_cents = q.grant_amount_cents }) × (NoGrant q ⊎ Estimated s t q)
  apply_grant_estimate-grants s t q a h = subst (Granted s) h (apply_grant_estimate-Granted s a)
