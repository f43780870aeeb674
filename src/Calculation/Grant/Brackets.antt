-- ===== src/Calculation/Grant/Brackets.antt =====
-- The grant table: eligibility, range, and monotonicity.
use text.Mathlib.TextEquality.{eq_iff}
use our_ne_zt_core.Common.{
  ℕ, ◌≤◌, ◌<◌, ◌≡◌, true, false, arith, List, [], ◌∷◌, ◌↔◌, Bool-cases, inl, inr, ◌≢◌, leb,
}
use our_ne_zt_core.Common.Int64.{IsNat, sign_bit, le_nat}
use our_ne_zt_core.Domain.{HousingType, HousingOption, bto, loan_cash}
use our_ne_zt_core.Calculation.Cents.{max_int64_nat}
use our_ne_zt_core.Calculation.Grant.{
  Bracket, brackets, grant_for, estimate_from_gross_monthly_income, is_housing_grant_eligible_type,
  is_non_hdb_housing_type, is_deferred_housing_option,
}

-- A table whose incomes rise strictly from `floor` and whose grants fall strictly from `top`.
abbrev pub IsTable : ℕ → ℕ → List Bracket → Type 0
IsTable floor top [] = Unit {0}
IsTable floor top (b ∷ bs) =
    (floor < b.max_income_cents)
    × (b.max_income_cents < sign_bit)
    × (b.grant_cents < top)
    × (0 < b.grant_cents)
    × IsTable b.max_income_cents b.grant_cents bs

brackets-IsTable : IsTable 0 12000001 brackets
brackets-IsTable = omega arith

grant_for-le :
    (floor top : ℕ) (bs : List Bracket) (income : ℕ)
    → IsTable floor top bs
    → grant_for bs income ≤ top
unfolding grant_for
grant_for-le floor top [] income v = omega arith
grant_for-le floor top (b ∷ bs) income (_, _, below, _, rest) =
    ground (arith, grant_for-le b.max_income_cents b.grant_cents bs income rest)

grant_for-antitone :
    (floor top : ℕ) (bs : List Bracket) (v w : ℕ)
    → IsTable floor top bs
    → v ≤ w
    → IsNat w
    → grant_for bs w ≤ grant_for bs v
unfolding grant_for
grant_for-antitone floor top [] v w t h k = omega arith
grant_for-antitone floor top (b ∷ bs) v w (_, small, _, _, rest) h k = ground (
  arith,
  le_nat v b.max_income_cents (omega arith) small,
  le_nat w b.max_income_cents k small,
  grant_for-le b.max_income_cents b.grant_cents bs w rest,
  grant_for-antitone b.max_income_cents b.grant_cents bs v w rest h k,
)

-- A household with the higher income never gets the higher grant, for every type of housing.
estimate_antitone :
    (t : HousingType) (v w : ℕ)
    → v ≤ w
    → IsNat w
    → (estimate_from_gross_monthly_income t w).grant_amount_cents
      ≤ (estimate_from_gross_monthly_income t v).grant_amount_cents
unfolding estimate_from_gross_monthly_income
estimate_antitone t v w h k = ground (
  arith,
  max_int64_nat v 0 (omega arith) (omega arith),
  max_int64_nat w 0 k (omega arith),
  grant_for-antitone 0 12000001 brackets v w brackets-IsTable h k,
)

-- The income that the last bracket of a table ends at.
abbrev last_income : ℕ → List Bracket → ℕ
last_income floor [] = floor
last_income floor (b ∷ bs) = last_income b.max_income_cents bs

floor-le-last :
    (floor top : ℕ) (bs : List Bracket) → IsTable floor top bs → floor ≤ last_income floor bs
floor-le-last floor top [] t = omega arith
floor-le-last floor top (b ∷ bs) (up, _, _, _, rest) =
    omega (arith, floor-le-last b.max_income_cents b.grant_cents bs rest)

grant_for-pos :
    (floor top : ℕ) (bs : List Bracket) (v : ℕ)
    → IsTable floor top bs
    → IsNat v
    → floor < v
    → (0 < grant_for bs v) ↔ (v ≤ last_income floor bs)
unfolding grant_for
grant_for-pos floor top [] v t h k = (λ p. absurd (omega arith), λ p. absurd (omega arith))
grant_for-pos floor top (b ∷ bs) v (up, small, _, some_grant, rest) h k =
    let last = floor-le-last b.max_income_cents b.grant_cents bs rest in
    let test = le_nat v b.max_income_cents h small in
    elim (Bool-cases (leb v b.max_income_cents)) [
      | inl hit ↦ rw (test, hit) (λ p. ground arith, λ p. some_grant)
      | inr past ↦
          rw (test, past)
            (grant_for-pos b.max_income_cents b.grant_cents bs v rest h (ground arith))
    ]

-- A household with an income above zero gets a grant exactly when the type of housing is eligible
-- and the income is at most 9000 dollars a month, the end of the last bracket.
estimate_positive_iff :
    (t : HousingType) (v : ℕ)
    → 0 < v
    → IsNat v
    → (0 < (estimate_from_gross_monthly_income t v).grant_amount_cents)
      ↔ ((is_housing_grant_eligible_type t ≡ true) × (v ≤ 900000))
unfolding estimate_from_gross_monthly_income
estimate_positive_iff t v h k =
    let income = max_int64_nat v 0 k (omega arith) in
    let iff = grant_for-pos 0 12000001 brackets v brackets-IsTable k h in
    elim (Bool-cases (is_housing_grant_eligible_type t)) [
      | inl e ↦ grind (arith, iff, e, income)
      | inr e ↦ grind (arith, e)
    ]

-- A deferred option is a flat built to order that is not paid in cash, so its type is eligible for a
-- grant and is none of the types outside the public scheme.
pub is_deferred_housing_option-eligible :
    {F : Type 0} (o : HousingOption F)
    → is_deferred_housing_option o ≡ true
    → (o.housing_type ≡ bto)
      × (o.loan_type ≢ loan_cash)
      × (is_housing_grant_eligible_type o.housing_type ≡ true)
      × (is_non_hdb_housing_type o.housing_type ≡ false)
unfolding is_deferred_housing_option is_housing_grant_eligible_type
is_deferred_housing_option-eligible o h =
    ground (arith, eq_iff o.housing_type bto, eq_iff o.loan_type loan_cash)
