-- ===== src/Tests/Checklist.antt =====
-- The checklist of a family: some of the cases of internal/domain/housing_checklist_test.go, and
-- instances of the theorems.
use our_ne_zt_core.Common.{
  ℕ, ◌+◌, ◌^◌, ◌≤◌, ◌<◌, ◌≡◌, ◌↔◌, refl, true, false, Option, some, none, List, [], ◌∷◌, arith,
  length,
}
use our_ne_zt_core.Common.Int32.{Int32}
use our_ne_zt_core.Common.Text.{is_empty, rune_count}
use our_ne_zt_core.Domain.{HousingCriterion, HousingAnswer}
use our_ne_zt_core.Errors.{ok}
use our_ne_zt_core.Checklist.{
  validate_housing_answer, summarize_housing_evaluation, tally_all, tally, tally_rating,
  answer_from, weight_of, pending, complete, not_applicable,
}
use our_ne_zt_core.Checklist.Answers.{validate_housing_answer_iff, FitsState}
use our_ne_zt_core.Checklist.Summary.{
  summarize-counts, summarize-score-rated, count_of, applies, is_complete, is_rated, rated_criteria,
}
use our_ne_zt_core.Tests.Samples.{whole}

abbrev light : HousingCriterion ℕ
light = record {
  id = "c1";
  family_id = "f1";
  name = "Light";
  description = "";
  display_order = 0;
  weight = some 3;
}

abbrev noise : HousingCriterion ℕ
noise = record light { id = "c2"; name = "Noise"; display_order = 1; weight = none }

abbrev lift_access : HousingCriterion ℕ
lift_access = record light { id = "c3"; name = "Lift access"; display_order = 2; weight = some 9 }

abbrev criteria : List (HousingCriterion ℕ)
criteria = light ∷ noise ∷ lift_access ∷ []

abbrev bright : HousingAnswer
bright = record {
  housing_id = "h1";
  criterion_id = "c1";
  state = complete;
  rating = some 4;
  notes = "";
}

abbrev answers : List HousingAnswer
answers =
    bright
    ∷ record bright { criterion_id = "c2"; state = pending; rating = some 2 }
    ∷ record bright { criterion_id = "c3"; state = not_applicable; rating = none }
    ∷ []

-- (4 * 3 + 2 * 1) / (3 + 1), in whole numbers.
summary_of_answers : summarize_housing_evaluation whole criteria answers ≡ record {
  score = some 3;
  total = 3;
  completed = 1;
  not_applicable = 1;
  rated = 2;
  weighted = true;
}
unfolding summarize_housing_evaluation tally_all tally tally_rating answer_from weight_of
    our_ne_zt_core.Common.Int32.to_int
summary_of_answers = refl

rating_small : (r : Int32) → bright.rating ≡ some r → r < 2 ^ 32
rating_small r e = ground (arith, e)

validate_housing_answer_iff_example : (validate_housing_answer bright ≡ ok tt) ↔ (
    (is_empty "h1" ≡ false)
    × (is_empty "c1" ≡ false)
    × (rune_count "" ≤ 5000)
    × FitsState complete (some 4))
validate_housing_answer_iff_example = validate_housing_answer_iff bright rating_small

summarize-counts_example :
    let s = summarize_housing_evaluation whole criteria answers in
    (s.total ≡ 3)
    × (s.completed ≡ count_of answers is_complete criteria)
    × (s.not_applicable + count_of answers applies criteria ≡ 3)
    × (s.rated ≡ count_of answers is_rated criteria)
    × (s.completed + s.not_applicable ≤ s.total)
    × (s.rated + s.not_applicable ≤ s.total)
summarize-counts_example = summarize-counts answers whole criteria (omega arith)

summarize-score-rated_example :
    (summarize_housing_evaluation whole criteria answers).score
    ≡ (summarize_housing_evaluation whole (rated_criteria answers criteria) answers).score
summarize-score-rated_example = summarize-score-rated answers whole criteria
