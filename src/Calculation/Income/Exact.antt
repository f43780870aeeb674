-- ===== src/Calculation/Income/Exact.antt =====
-- The sums of a household against the exact sums over its people.
use our_ne_zt_core.Common.{ℕ, ◌+◌, ◌%◌, ◌<◌, ◌≡◌, refl, Bool, false, arith, ◌||◌, List, [], ◌∷◌}
use our_ne_zt_core.Common.Int64.{add, modulus, add-lt}
use our_ne_zt_core.Domain.{PersonProfile}
use our_ne_zt_core.Calculation.Income.{
  HouseholdIncomeSummary, calculate_income_breakdown, add_person, summarize_from,
  calculate_household_income_summary, empty_summary, may_need_deferred_assessment,
}

abbrev pub total : (PersonProfile → ℕ) → List PersonProfile → ℕ
total f [] = 0
total f (p ∷ people) = f p + total f people

abbrev pub any_deferred : List PersonProfile → Bool
any_deferred [] = false
any_deferred (p ∷ people) = may_need_deferred_assessment p.employment_status || any_deferred people

-- What a sum comes to in `int64`: the exact sum over the household, modulo 2 ^ 64.
abbrev pub summed : ℕ → (PersonProfile → ℕ) → List PersonProfile → ℕ
summed from f people = (from + total f people) % modulus

-- Each of the ten sums is that of its own amount, from the sums so far.
pub record SumsFrom (s r : HouseholdIncomeSummary) (people : List PersonProfile) : Type 0 where
  pub gross :
      r.current_gross_income_cents
      ≡ summed s.current_gross_income_cents
          (λ p. (calculate_income_breakdown p).current_gross_income_cents)
          people
  pub projected :
      r.projected_gross_income_cents
      ≡ summed s.projected_gross_income_cents
          (λ p. (calculate_income_breakdown p).projected_gross_income_cents)
          people
  pub take_home :
      r.take_home_income_cents
      ≡ summed s.take_home_income_cents
          (λ p. (calculate_income_breakdown p).take_home_income_cents)
          people
  pub employee :
      r.employee_cpf_cents
      ≡ summed s.employee_cpf_cents (λ p. (calculate_income_breakdown p).employee_cpf_cents) people
  pub employer :
      r.employer_cpf_cents
      ≡ summed s.employer_cpf_cents (λ p. (calculate_income_breakdown p).employer_cpf_cents) people
  pub expenses :
      r.monthly_expenses_cents
      ≡ summed s.monthly_expenses_cents (λ p. p.monthly_expenses_cents) people
  pub surplus :
      r.monthly_surplus_cents
      ≡ summed s.monthly_surplus_cents
          (λ p. (calculate_income_breakdown p).monthly_surplus_cents)
          people
  pub oa : r.current_cpf_oa_cents ≡ summed s.current_cpf_oa_cents (λ p. p.cpf_oa_cents) people
  pub sa : r.current_cpf_sa_cents ≡ summed s.current_cpf_sa_cents (λ p. p.cpf_sa_cents) people
  pub ma : r.current_cpf_ma_cents ≡ summed s.current_cpf_ma_cents (λ p. p.cpf_ma_cents) people
  pub deferred :
      r.may_need_deferred_assessment ≡ (any_deferred people || s.may_need_deferred_assessment)

-- Every amount an `int64` pattern.
record IsSummary (s : HouseholdIncomeSummary) : Type 0 where
  gross : s.current_gross_income_cents < modulus
  projected : s.projected_gross_income_cents < modulus
  take_home : s.take_home_income_cents < modulus
  employee : s.employee_cpf_cents < modulus
  employer : s.employer_cpf_cents < modulus
  expenses : s.monthly_expenses_cents < modulus
  surplus : s.monthly_surplus_cents < modulus
  oa : s.current_cpf_oa_cents < modulus
  sa : s.current_cpf_sa_cents < modulus
  ma : s.current_cpf_ma_cents < modulus

add_person-IsSummary : (s : HouseholdIncomeSummary) (p : PersonProfile) → IsSummary (add_person s p)
unfolding add_person
add_person-IsSummary s p = record {
  gross = add-lt _ _;
  projected = add-lt _ _;
  take_home = add-lt _ _;
  employee = add-lt _ _;
  employer = add-lt _ _;
  expenses = add-lt _ _;
  surplus = add-lt _ _;
  oa = add-lt _ _;
  sa = add-lt _ _;
  ma = add-lt _ _;
}

summed-none : (s : ℕ) → s < modulus → s ≡ (s + 0) % modulus
summed-none s h = omega arith

summed-next :
    (s r : ℕ) (f : PersonProfile → ℕ) (p : PersonProfile) (people : List PersonProfile)
    → r ≡ summed (add s (f p)) f people
    → r ≡ summed s f (p ∷ people)
unfolding add
summed-next s r f p people h = omega (arith, h)

any_deferred-next :
    (s : HouseholdIncomeSummary) (p : PersonProfile) (people : List PersonProfile) (b : Bool)
    → b ≡ (any_deferred people || (add_person s p).may_need_deferred_assessment)
    → b ≡ (any_deferred (p ∷ people) || s.may_need_deferred_assessment)
unfolding add_person
any_deferred-next s p people b h = ground (arith, h)

summarize_from-SumsFrom :
    (s : HouseholdIncomeSummary) (people : List PersonProfile)
    → IsSummary s
    → SumsFrom s (summarize_from s people) people
unfolding summarize_from add_person calculate_income_breakdown
summarize_from-SumsFrom s [] h = record {
  gross = summed-none _ h.gross;
  projected = summed-none _ h.projected;
  take_home = summed-none _ h.take_home;
  employee = summed-none _ h.employee;
  employer = summed-none _ h.employer;
  expenses = summed-none _ h.expenses;
  surplus = summed-none _ h.surplus;
  oa = summed-none _ h.oa;
  sa = summed-none _ h.sa;
  ma = summed-none _ h.ma;
  deferred = refl;
}
summarize_from-SumsFrom s (p ∷ people) h =
    let rest = summarize_from-SumsFrom (add_person s p) people (add_person-IsSummary s p) in
    let r = summarize_from (add_person s p) people in
    let b = calculate_income_breakdown in
    record {
      gross = summed-next _ _ (λ p. (b p).current_gross_income_cents) p people rest.gross;
      projected = summed-next _ _ (λ p. (b p).projected_gross_income_cents) p people rest.projected;
      take_home = summed-next _ _ (λ p. (b p).take_home_income_cents) p people rest.take_home;
      employee = summed-next _ _ (λ p. (b p).employee_cpf_cents) p people rest.employee;
      employer = summed-next _ _ (λ p. (b p).employer_cpf_cents) p people rest.employer;
      expenses = summed-next _ _ (λ p. p.monthly_expenses_cents) p people rest.expenses;
      surplus = summed-next _ _ (λ p. (b p).monthly_surplus_cents) p people rest.surplus;
      oa = summed-next _ _ (λ p. p.cpf_oa_cents) p people rest.oa;
      sa = summed-next _ _ (λ p. p.cpf_sa_cents) p people rest.sa;
      ma = summed-next _ _ (λ p. p.cpf_ma_cents) p people rest.ma;
      deferred = any_deferred-next s p people r.may_need_deferred_assessment rest.deferred;
    }

abbrev pub total_take_home : List PersonProfile → ℕ
total_take_home = total (λ p. (calculate_income_breakdown p).take_home_income_cents)

abbrev pub total_expenses : List PersonProfile → ℕ
total_expenses = total (λ p. p.monthly_expenses_cents)

abbrev pub total_oa : List PersonProfile → ℕ
total_oa = total (λ p. p.cpf_oa_cents)

-- Each of the ten sums of a household's summary is the exact sum of its own amount over the people,
-- modulo 2 ^ 64, for every household; and the deferred-assessment flag is set exactly when somebody's
-- employment status asks for it.
pub calculate_household_income_summary_exact :
    (people : List PersonProfile)
    → SumsFrom empty_summary (calculate_household_income_summary people) people
unfolding calculate_household_income_summary
calculate_household_income_summary_exact people =
    summarize_from-SumsFrom empty_summary people (record {
      gross = omega arith;
      projected = omega arith;
      take_home = omega arith;
      employee = omega arith;
      employer = omega arith;
      expenses = omega arith;
      surplus = omega arith;
      oa = omega arith;
      sa = omega arith;
      ma = omega arith;
    })
