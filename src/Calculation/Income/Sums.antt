-- ===== src/Calculation/Income/Sums.antt =====
-- The sums of a household.
use mathlib.Core.List.{Perm, Permᴰ}
use mathlib.Core.Logic.{∥∥₁_elim}
use our_ne_zt_core.Common.{◌+◌, ◌*◌, ◌≤◌, ◌<◌, ◌≡◌, refl, ◌∙◌, arith, List, [], ◌∷◌, All}
use our_ne_zt_core.Common.Int64.{add, sub, lt, IsNat, modulus}
use our_ne_zt_core.Domain.{PersonProfile}
use our_ne_zt_core.Calculation.Cents.{max_int64}
use our_ne_zt_core.Calculation.Cpf.Balance.{calculate_cpf_contribution-IsBalanced}
use our_ne_zt_core.Calculation.Income.{
  HouseholdIncomeSummary, current_income_for, calculate_income_breakdown, add_person,
  summarize_from, calculate_household_income_summary, empty_summary,
}

-- A profile whose numbers are `int64` patterns.
pub record IsProfile (p : PersonProfile) : Type 0 where
  pub gross : p.gross_monthly_income_cents < modulus
  pub expenses : p.monthly_expenses_cents < modulus

current_income_for-IsNat : (p : PersonProfile) → IsProfile p → IsNat (current_income_for p)
unfolding current_income_for max_int64 lt
current_income_for-IsNat p h = ground arith

-- Take-home pay and the employee's contribution make the gross income, the employee pays at most a
-- fifth of it, and the surplus and the expenses make the take-home pay, in the arithmetic of `int64`.
pub calculate_income_breakdown_parts :
    (p : PersonProfile)
    → IsProfile p
    → let b = calculate_income_breakdown p in
      (b.take_home_income_cents + b.employee_cpf_cents ≡ b.current_gross_income_cents)
      × (5 * b.employee_cpf_cents ≤ b.current_gross_income_cents)
      × (add b.monthly_surplus_cents b.monthly_expenses_cents ≡ b.take_home_income_cents)
unfolding calculate_income_breakdown add sub
calculate_income_breakdown_parts p h =
    let gross = current_income_for-IsNat p h in
    let balance =
      calculate_cpf_contribution-IsBalanced p.age (current_income_for p) p.employment_status
        (omega arith) in
    ground arith

-- What every summary keeps while people are added.
record IsConsistent (s : HouseholdIncomeSummary) : Type 0 where
  taken : add s.take_home_income_cents s.employee_cpf_cents ≡ s.current_gross_income_cents
  left : add s.monthly_surplus_cents s.monthly_expenses_cents ≡ s.take_home_income_cents

add_person-IsConsistent :
    (s : HouseholdIncomeSummary) (p : PersonProfile)
    → IsProfile p
    → IsConsistent s
    → IsConsistent (add_person s p)
unfolding add_person add
add_person-IsConsistent s p h v =
    let parts = calculate_income_breakdown_parts p h in ground (arith, parts)

summarize_from-IsConsistent :
    (s : HouseholdIncomeSummary) (people : List PersonProfile)
    → All IsProfile people
    → IsConsistent s
    → IsConsistent (summarize_from s people)
unfolding summarize_from
summarize_from-IsConsistent s [] h v = v
summarize_from-IsConsistent s (p ∷ people) (h, hs) v =
    summarize_from-IsConsistent (add_person s p) people hs (add_person-IsConsistent s p h v)

add_person_comm :
    (s : HouseholdIncomeSummary) (p q : PersonProfile)
    → add_person (add_person s p) q ≡ add_person (add_person s q) p
unfolding add_person add
add_person_comm s p q = ground arith

-- For every household, of any size and in wrapping arithmetic too: take-home pay and the employees'
-- contributions make the gross income, and the surplus and the expenses make the take-home pay.
pub calculate_household_income_summary_parts :
    (people : List PersonProfile)
    → All IsProfile people
    → let s = calculate_household_income_summary people in
      (add s.take_home_income_cents s.employee_cpf_cents ≡ s.current_gross_income_cents)
      × (add s.monthly_surplus_cents s.monthly_expenses_cents ≡ s.take_home_income_cents)
unfolding calculate_household_income_summary add
calculate_household_income_summary_parts people h =
    let v =
      summarize_from-IsConsistent empty_summary people h (record { taken = refl; left = refl }) in
    (v.taken, v.left)

summary_set : IsSet HouseholdIncomeSummary
summary_set = hlevel

summarize_from-Permᴰ :
    (s : HouseholdIncomeSummary) {ps qs : List PersonProfile}
    → Permᴰ ps qs
    → summarize_from s ps ≡ summarize_from s qs
unfolding summarize_from
summarize_from-Permᴰ s Permᴰ.nil = refl
summarize_from-Permᴰ s (Permᴰ.cons {a = p} e d) = summarize_from-Permᴰ (add_person s p) d ∙ rw e
summarize_from-Permᴰ s (Permᴰ.swap {a = p} {b = q} {l = l} e f) =
    rw (← e, ← f, add_person_comm s p q)
summarize_from-Permᴰ s (Permᴰ.trans d f) = summarize_from-Permᴰ s d ∙ summarize_from-Permᴰ s f

-- The summary does not depend on the order in which the people of the household are listed.
pub calculate_household_income_summary_congr :
    (ps qs : List PersonProfile)
    → Perm ps qs
    → calculate_household_income_summary ps ≡ calculate_household_income_summary qs
unfolding calculate_household_income_summary
calculate_household_income_summary_congr ps qs perm =
    ∥∥₁_elim perm (summary_set _ _) (λ d. summarize_from-Permᴰ empty_summary d)
