-- ===== src/Checklist.antt =====
-- internal/domain/housing_checklist.go and internal/domain/housing_notes.go: the criteria by which a
-- family judges its options, the answers, and the summary of an option's answers.
use text.Mathlib.Text.{◌==◌}
use our_ne_zt_core.Common.{
  ℕ, ◌+◌, ◌%◌, ◌^◌, String, Bool, true, false, not, ◌&&◌, ◌||◌, Option, none, some, List, [], ◌∷◌,
  if◌then◌else◌, ltb, length,
}
use our_ne_zt_core.Common.Text.{is_empty, trim_space, rune_count}
use our_ne_zt_core.Common.Int32.{Int32, to_int}
use our_ne_zt_core.Common.Float64.{Float64}
use our_ne_zt_core.Common.Int64.{lt, is_neg}
use our_ne_zt_core.Domain.{EntityId, HousingCriterion, HousingAnswer, HousingEvaluationSummary}
use our_ne_zt_core.Errors.{Error, Result, ok, err}
pub mod Answers
pub mod Summary

-- `a.Rating != nil` and the tests next to it; `default` is the answer when there is none.
abbrev pub holds {ℓ} : {A : Type ℓ} → (A → Bool) → Option A → Bool
holds p none = false
holds p (some a) = p a

module _ {F : Type 0} (f : Float64 F) where
  unfoldable pub bad_weight : F → Bool
  bad_weight w = f.is_nan w || f.is_inf w || f.le w f.zero_value || f.lt (f.of_int64 1000) w

  unfoldable pub validate_housing_criterion : HousingCriterion F → Result (Unit {0})
  validate_housing_criterion c =
      if is_empty (trim_space c.family_id)
        || is_empty (trim_space c.name)
        || ltb 120 (rune_count c.name)
        || ltb 2000 (rune_count c.description)
        || is_neg (to_int c.display_order)
      then err Error.invalid_argument
      else if holds bad_weight c.weight
      then err Error.invalid_argument
      else ok tt

abbrev pub pending : String
pending = "pending"

abbrev pub complete : String
complete = "complete"

abbrev pub not_applicable : String
not_applicable = "not_applicable"

abbrev pub rated : HousingAnswer → Bool
rated a = holds (λ r. true) a.rating

abbrev pub out_of_scale : Int32 → Bool
out_of_scale r = lt (to_int r) 1 || lt 5 (to_int r)

unfoldable pub validate_housing_answer : HousingAnswer → Result (Unit {0})
validate_housing_answer a =
    if is_empty a.housing_id || is_empty a.criterion_id || ltb 5000 (rune_count a.notes)
    then err Error.invalid_argument
    else if not (a.state == pending) && not (a.state == complete) && not (a.state == not_applicable)
    then err Error.invalid_argument
    else if holds out_of_scale a.rating
    then err Error.invalid_argument
    else if ((a.state == complete) && not (rated a)) || ((a.state == not_applicable) && rated a)
    then err Error.invalid_argument
    else ok tt

-- The model's strings are valid UTF-8, so `utf8.ValidString` holds.
unfoldable pub validate_housing_notes : String → Result (Unit {0})
validate_housing_notes notes =
    if ltb 10000 (rune_count notes) then err Error.invalid_argument else ok tt

abbrev no_answer : HousingAnswer
no_answer = record { housing_id = ""; criterion_id = ""; state = ""; rating = none; notes = "" }

-- `byID[id]`: of several answers to one criterion the last one counts, and none is the zero value.
unfoldable pub answer_from : HousingAnswer → EntityId → List HousingAnswer → HousingAnswer
answer_from found id [] = found
answer_from found id (a ∷ answers) =
    answer_from (if a.criterion_id == id then a else found) id answers

-- `s.Rated++` and the like, on an `int32`.
abbrev count : Int32 → Int32
count n = (n + 1) % 2 ^ 32

-- The variables of the loop of `SummarizeHousingEvaluation`.
pub record Tally (F : Type 0) : Type 0 where
  pub completed : Int32
  pub not_applicable : Int32
  pub rated : Int32
  pub weighted : Bool
  pub sum : F
  pub weights : F

module _ {F : Type 0} (f : Float64 F) where
  unfoldable pub weight_of : Option F → F
  weight_of none = f.one
  weight_of (some w) = w

  -- The rating of an answer, if there is one, goes into the sum.
  unfoldable pub tally_rating : F → Option Int32 → Tally F → Tally F
  tally_rating weight none t = t
  tally_rating weight (some r) t = record t {
    rated = count t.rated;
    sum = f.add t.sum (f.mul (f.of_int64 (to_int r)) weight);
    weights = f.add t.weights weight;
  }

  -- One round of the loop, for a criterion's weight and its answer.
  unfoldable pub tally : Option F → HousingAnswer → Tally F → Tally F
  tally weight a t =
      let w = record t { weighted = t.weighted || holds (λ x. true) weight } in
      if a.state == not_applicable
      then record w { not_applicable = count w.not_applicable }
      else tally_rating (weight_of weight) a.rating
          (if a.state == complete then record w { completed = count w.completed } else w)

  unfoldable pub tally_all : List HousingAnswer → List (HousingCriterion F) → Tally F → Tally F
  tally_all answers [] t = t
  tally_all answers (c ∷ criteria) t =
      tally_all answers criteria (tally c.weight (answer_from no_answer c.id answers) t)

  abbrev pub empty_tally : Tally F
  empty_tally = record {
    completed = 0;
    not_applicable = 0;
    rated = 0;
    weighted = false;
    sum = f.zero_value;
    weights = f.zero_value;
  }

  unfoldable pub summarize_housing_evaluation :
      List (HousingCriterion F) → List HousingAnswer → HousingEvaluationSummary F
  summarize_housing_evaluation criteria answers =
      let t = tally_all answers criteria empty_tally in
      record {
        score = if f.lt f.zero_value t.weights then some (f.div t.sum t.weights) else none;
        total = length criteria % 2 ^ 32;
        completed = t.completed;
        not_applicable = t.not_applicable;
        rated = t.rated;
        weighted = t.weighted;
      }
