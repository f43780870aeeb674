-- ===== src/Server/Person/Accepted.antt =====
-- Which profiles `validateAndNormalizePersonProfile` of internal/server/person.go lets through.
use text.Mathlib.TextEquality.{eq_iff}
use our_ne_zt_core.Common.{
  String, true, false, none, ◌≡◌, ◌≢◌, ◌↔◌, refl, ◌⊎◌, inl, inr, Bool-cases, arith,
}
use our_ne_zt_core.Common.Text.{is_empty, trim_space}
use our_ne_zt_core.Common.Int64.{lt}
use our_ne_zt_core.Domain.{PersonProfile, full_time, student, full_time_nsf}
use our_ne_zt_core.Errors.{Result, ok, err}
use our_ne_zt_core.Server.Mapping.{is_some}
use our_ne_zt_core.Server.Person.{
  is_relationship, normalize_employment, has_negative, check_amounts,
  validate_and_normalize_person_profile,
}

-- The dates and the future income that go with the employment status.
pub record FitsEmployment (p : PersonProfile) : Type 0 where
  pub known :
      (p.employment_status ≡ full_time)
      ⊎ ((p.employment_status ≡ student) ⊎ (p.employment_status ≡ full_time_nsf))
  pub employed :
      p.employment_status ≡ full_time
      → (p.expected_future_income_cents ≡ 0)
        × (p.expected_income_start_date ≡ none)
        × (p.graduation_date ≡ none)
        × (p.ord_date ≡ none)
  pub studying :
      p.employment_status ≡ student → (is_some p.graduation_date ≡ true) × (p.ord_date ≡ none)
  pub serving :
      p.employment_status ≡ full_time_nsf → (is_some p.ord_date ≡ true) × (p.graduation_date ≡ none)

student≢full_time : student ≢ full_time
student≢full_time e = ground (arith, eq_iff student full_time, e)

full_time_nsf≢full_time : full_time_nsf ≢ full_time
full_time_nsf≢full_time e = ground (arith, eq_iff full_time_nsf full_time, e)

full_time_nsf≢student : full_time_nsf ≢ student
full_time_nsf≢student e = ground (arith, eq_iff full_time_nsf student, e)

normalize_employment-FitsEmployment :
    (p q : PersonProfile) → normalize_employment p ≡ ok q → FitsEmployment q
unfolding normalize_employment
normalize_employment-FitsEmployment p q h =
    let employed = eq_iff p.employment_status full_time in
    let studying = eq_iff p.employment_status student in
    let serving = eq_iff p.employment_status full_time_nsf in
    record {
      known = ground (arith, h, employed, studying, serving);
      employed = λ e.
          ground
            (arith, h, e, employed, studying, serving, student≢full_time, full_time_nsf≢full_time);
      studying = λ e.
          ground
            (arith, h, e, employed, studying, serving, student≢full_time, full_time_nsf≢student);
      serving = λ e. ground (
        arith, h, e, employed, studying, serving, full_time_nsf≢full_time, full_time_nsf≢student,
      );
    }

normalize_employment_idem :
    (p q : PersonProfile) → normalize_employment p ≡ ok q → normalize_employment q ≡ ok q
unfolding normalize_employment
normalize_employment_idem p q h = ground (arith, h)

-- The labels of relationships, written out.
abbrev pub IsLabel : String → Type 0
IsLabel l =
    (l ≡ "spouse")
    ⊎ ((l ≡ "fiance") ⊎ ((l ≡ "fiancee") ⊎ ((l ≡ "occupant") ⊎ ((l ≡ "self") ⊎ (l ≡ "me")))))

is_relationship_iff : (l : String) → (is_relationship l ≡ true) ↔ IsLabel l
unfolding is_relationship
is_relationship_iff l = ground (
  arith,
  eq_iff l "spouse",
  eq_iff l "fiance",
  eq_iff l "fiancee",
  eq_iff l "occupant",
  eq_iff l "self",
  eq_iff l "me",
)

-- Each of the seven amounts is at least 0: `lt a 0` is the comparison of `int64`.
pub record IsFunded (p : PersonProfile) : Type 0 where
  pub gross : lt p.gross_monthly_income_cents 0 ≡ false
  pub future : lt p.expected_future_income_cents 0 ≡ false
  pub cash : lt p.cash_savings_cents 0 ≡ false
  pub oa : lt p.cpf_oa_cents 0 ≡ false
  pub sa : lt p.cpf_sa_cents 0 ≡ false
  pub ma : lt p.cpf_ma_cents 0 ≡ false
  pub expenses : lt p.monthly_expenses_cents 0 ≡ false

has_negative-IsFunded : (p : PersonProfile) → has_negative p ≡ false → IsFunded p
unfolding has_negative
has_negative-IsFunded p h = record {
  gross = ground (arith, h);
  future = ground (arith, h);
  cash = ground (arith, h);
  oa = ground (arith, h);
  sa = ground (arith, h);
  ma = ground (arith, h);
  expenses = ground (arith, h);
}

IsFunded-has_negative : (p : PersonProfile) → IsFunded p → has_negative p ≡ false
unfolding has_negative
IsFunded-has_negative p a = simp (a.gross, a.future, a.cash, a.oa, a.sa, a.ma, a.expenses) refl

-- What the handlers send to the database: a profile that is named, whose label and dates fit, and none
-- of whose amounts is negative.
pub record IsAccepted (to_lower : String → String) (p : PersonProfile) : Type 0 where
  pub named : is_empty (trim_space p.name) ≡ false
  pub labelled : IsLabel (trim_space (to_lower p.relationship_label))
  pub fits : FitsEmployment p
  pub normal : normalize_employment p ≡ ok p
  pub amounts : IsFunded p

module _ (to_lower : String → String) where
  normalize_employment-same :
      (p q : PersonProfile)
      → normalize_employment p ≡ ok q
      → (q.name ≡ p.name) × (q.relationship_label ≡ p.relationship_label)
  unfolding normalize_employment
  normalize_employment-same p q h = ground (arith, h)

  check_amounts-ok :
      (r : Result PersonProfile) (q : PersonProfile)
      → check_amounts r ≡ ok q
      → (r ≡ ok q) × (has_negative q ≡ false)
  unfolding check_amounts
  check_amounts-ok (ok p) q h = elim (Bool-cases (has_negative p)) [
    | inl e ↦ ground (arith, h, e)
    | inr e ↦ ground (arith, h, e)
  ]
  check_amounts-ok (err e) q h = cc

  validate-ok :
      (p q : PersonProfile)
      → validate_and_normalize_person_profile to_lower p ≡ ok q
      → (is_empty (trim_space p.name) ≡ false)
        × (is_relationship (trim_space (to_lower p.relationship_label)) ≡ true)
        × (check_amounts (normalize_employment p) ≡ ok q)
  unfolding validate_and_normalize_person_profile
  validate-ok p q h = ground (arith, h)

  -- Every profile that is let through is named, has one of the six labels and one of the three
  -- employment statuses, and none of its seven amounts is negative; a full-time employee has no future income and no dates, a student has a
  -- graduation date and no ORD, a full-time national serviceman an ORD and no graduation date;
  -- resetting its fields again changes nothing.
  pub validate-IsAccepted :
      (p q : PersonProfile)
      → validate_and_normalize_person_profile to_lower p ≡ ok q
      → IsAccepted to_lower q
  validate-IsAccepted p q h =
      let (named, labelled, checked) = validate-ok p q h in
      let (normal, amounts) = check_amounts-ok _ q checked in
      let (same_name, same_label) = normalize_employment-same p q normal in
      record {
        named = ground (arith, named, same_name);
        labelled = (is_relationship_iff _).0 (rw same_label labelled);
        fits = normalize_employment-FitsEmployment p q normal;
        normal = normalize_employment_idem p q normal;
        amounts = has_negative-IsFunded q amounts;
      }

  -- Validating an accepted profile again changes nothing.
  pub validate_accepted :
      (p : PersonProfile)
      → IsAccepted to_lower p
      → validate_and_normalize_person_profile to_lower p ≡ ok p
  unfolding validate_and_normalize_person_profile check_amounts
  validate_accepted p a =
      simp
        (a.named, (is_relationship_iff _).1 a.labelled, a.normal, IsFunded-has_negative p a.amounts)
        refl

  -- Validating a profile that was let through again changes nothing.
  pub validate_idem :
      (p q : PersonProfile)
      → validate_and_normalize_person_profile to_lower p ≡ ok q
      → validate_and_normalize_person_profile to_lower q ≡ ok q
  validate_idem p q h = validate_accepted q (validate-IsAccepted p q h)
