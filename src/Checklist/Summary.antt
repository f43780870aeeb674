-- ===== src/Checklist/Summary.antt =====
-- What the summary of internal/domain/housing_checklist.go counts.
use text.Mathlib.Text.{◌==◌}
use text.Mathlib.TextEquality.{eq_iff}
use our_ne_zt_core.Common.{
  ℕ, suc, ◌+◌, ◌^◌, ◌≤◌, ◌<◌, Bool, true, false, not, ◌&&◌, Option, List, [], ◌∷◌, ◌≡◌, refl,
  if◌then◌else◌, length, keep, arith, Option-cases, inl, inr, Bool-cases, ◌∙◌,
}
use our_ne_zt_core.Common.Float64.{Float64}
use our_ne_zt_core.Domain.{HousingCriterion, HousingAnswer}
use our_ne_zt_core.Checklist.Answers.{complete≢not_applicable}
use our_ne_zt_core.Checklist.{
  Tally, empty_tally, tally, tally_all, tally_rating, answer_from, no_answer, complete,
  not_applicable, rated, summarize_housing_evaluation,
}

abbrev pub applies : HousingAnswer → Bool
applies a = not (a.state == not_applicable)

abbrev pub is_complete : HousingAnswer → Bool
is_complete a = a.state == complete

abbrev pub is_rated : HousingAnswer → Bool
is_rated a = applies a && rated a

not_both : (a : HousingAnswer) → is_complete a ≡ true → applies a ≡ true
not_both a h =
    ground
      (arith, h, eq_iff a.state complete, eq_iff a.state not_applicable, complete≢not_applicable)

module _ {F : Type 0} (f : Float64 F) where
  abbrev Room : Tally F → ℕ → Type 0
  Room t n = (t.completed + n < 2 ^ 32) × (t.not_applicable + n < 2 ^ 32) × (t.rated + n < 2 ^ 32)

  tally-counts :
      (w : Option F) (a : HousingAnswer) (t : Tally F)
      → Room t 1
      → let u = tally f w a t in
        (u.completed ≡ (if is_complete a then t.completed + 1 else t.completed))
        × (u.not_applicable ≡ (if applies a then t.not_applicable else t.not_applicable + 1))
        × (u.rated ≡ (if is_rated a then t.rated + 1 else t.rated))
  unfolding tally tally_rating
  tally-counts w a t h = elim (Option-cases a.rating) [
    | inl e ↦ simp e (ground (arith, h, not_both a))
    | inr (r, e) ↦ simp e (ground (arith, h, not_both a))
  ]

module _ {F : Type 0} (answers : List HousingAnswer) where
  abbrev pub answer_to : HousingCriterion F → HousingAnswer
  answer_to c = answer_from no_answer c.id answers

  -- How many criteria have an answer that passes a test.
  abbrev pub count_of : (HousingAnswer → Bool) → List (HousingCriterion F) → ℕ
  count_of p [] = 0
  count_of p (c ∷ criteria) =
      let rest = count_of p criteria in if p (answer_to c) then suc rest else rest

  count_of-le :
      (p : HousingAnswer → Bool) (cs : List (HousingCriterion F)) → count_of p cs ≤ length cs
  count_of-le p [] = omega arith
  count_of-le p (c ∷ cs) = ground (arith, count_of-le p cs)

  tally_all-counts :
      (f : Float64 F) (cs : List (HousingCriterion F)) (t : Tally F)
      → Room f t (length cs)
      → let u = tally_all f answers cs t in
        (u.completed ≡ t.completed + count_of is_complete cs)
        × (u.not_applicable + count_of applies cs ≡ t.not_applicable + length cs)
        × (u.rated ≡ t.rated + count_of is_rated cs)
  unfolding tally_all
  tally_all-counts f [] t h = ground arith
  tally_all-counts f (c ∷ cs) t h =
      let step = tally-counts f c.weight (answer_to c) t (ground (arith, h)) in
      ground (
        arith,
        h,
        step,
        tally_all-counts f cs (tally f c.weight (answer_to c) t) (ground (arith, h, step)),
      )

  count_of_mono :
      (p q : HousingAnswer → Bool) (cs : List (HousingCriterion F))
      → ((a : HousingAnswer) → p a ≡ true → q a ≡ true)
      → count_of p cs ≤ count_of q cs
  count_of_mono p q [] h = omega arith
  count_of_mono p q (c ∷ cs) h = ground (arith, h (answer_to c), count_of_mono p q cs h)

  -- With fewer than 2 ^ 31 criteria, the summary counts exactly the criteria, those whose answer is
  -- complete, those that do not apply, and those that apply and are rated; the completed or rated ones
  -- and those that do not apply are never more than all.
  pub summarize-counts :
      (f : Float64 F) (cs : List (HousingCriterion F))
      → length cs < 2 ^ 31
      → let s = summarize_housing_evaluation f cs answers in
        (s.total ≡ length cs)
        × (s.completed ≡ count_of is_complete cs)
        × (s.not_applicable + count_of applies cs ≡ length cs)
        × (s.rated ≡ count_of is_rated cs)
        × (s.completed + s.not_applicable ≤ s.total)
        × (s.rated + s.not_applicable ≤ s.total)
  unfolding summarize_housing_evaluation
  summarize-counts f cs h = ground (
    arith,
    h,
    tally_all-counts f cs (empty_tally f) (ground (arith, h)),
    count_of_mono is_complete applies cs not_both,
    count_of_mono is_rated applies cs (λ a e. ground (arith, e)),
  )

  tally-skips :
      (f : Float64 F) (w : Option F) (a : HousingAnswer) (t : Tally F)
      → is_rated a ≡ false
      → ((tally f w a t).sum ≡ t.sum) × ((tally f w a t).weights ≡ t.weights)
  unfolding tally tally_rating
  tally-skips f w a t h = elim (Option-cases a.rating) [
    | inl e ↦ simp e (ground (arith, h, e))
    | inr (r, e) ↦ simp e (ground (arith, h, e))
  ]

  tally-adds :
      (f : Float64 F) (w : Option F) (a : HousingAnswer) (t u : Tally F)
      → t.sum ≡ u.sum
      → t.weights ≡ u.weights
      → ((tally f w a t).sum ≡ (tally f w a u).sum)
        × ((tally f w a t).weights ≡ (tally f w a u).weights)
  unfolding tally tally_rating
  tally-adds f w a t u e d = elim (Option-cases a.rating) [
    | inl r ↦ simp r (ground (arith, e, d))
    | inr (x, r) ↦ simp r (ground (arith, e, d))
  ]

  abbrev pub rated_criteria : List (HousingCriterion F) → List (HousingCriterion F)
  rated_criteria = keep (λ c. is_rated (answer_to c))

  tally_all-rated :
      (f : Float64 F) (cs : List (HousingCriterion F)) (t u : Tally F)
      → t.sum ≡ u.sum
      → t.weights ≡ u.weights
      → ((tally_all f answers cs t).sum ≡ (tally_all f answers (rated_criteria cs) u).sum)
        × ((tally_all f answers cs t).weights ≡ (tally_all f answers (rated_criteria cs) u).weights)
  unfolding tally_all
  tally_all-rated f [] t u e d = (e, d)
  tally_all-rated f (c ∷ cs) t u e d = elim (Bool-cases (is_rated (answer_to c))) [
    | inl r ↦
        let (e', d') = tally-adds f c.weight (answer_to c) t u e d in
        simp r (
          tally_all-rated f cs (tally f c.weight (answer_to c) t) (tally f c.weight (answer_to c) u)
            e' d')
    | inr r ↦
        let (e', d') = tally-skips f c.weight (answer_to c) t r in
        simp r (tally_all-rated f cs (tally f c.weight (answer_to c) t) u (e' ∙ e) (d' ∙ d))
  ]

  -- The score is that of the criteria that apply and are rated: the others never enter it.
  pub summarize-score-rated :
      (f : Float64 F) (cs : List (HousingCriterion F))
      → (summarize_housing_evaluation f cs answers).score
        ≡ (summarize_housing_evaluation f (rated_criteria cs) answers).score
  unfolding summarize_housing_evaluation
  summarize-score-rated f cs =
      let (e, d) = tally_all-rated f cs (empty_tally f) (empty_tally f) refl refl in
      simp (e, d) refl
