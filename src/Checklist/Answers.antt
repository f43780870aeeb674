-- ===== src/Checklist/Answers.antt =====
-- Which answers internal/domain/housing_checklist.go lets through.
use text.Mathlib.TextEquality.{eq_iff}
use our_ne_zt_core.Common.{
  String, ◌^◌, ◌≤◌, ◌<◌, false, Option, none, some, ◌≡◌, ◌≢◌, ◌↔◌, ◌⊎◌, refl, arith,
}
use our_ne_zt_core.Common.Text.{is_empty, rune_count}
use our_ne_zt_core.Common.Int32.{Int32, to_int}
use our_ne_zt_core.Common.Int64.{lt}
use our_ne_zt_core.Domain.{HousingAnswer}
use our_ne_zt_core.Errors.{ok}
use our_ne_zt_core.Checklist.{
  validate_housing_answer, pending, complete, not_applicable, out_of_scale,
}

-- A rating from 1 to 5.
abbrev pub InScale : Int32 → Type 0
InScale r = (1 ≤ r) × (r ≤ 5)

-- The states that go with no rating, and with a rating.
abbrev pub FitsState : String → Option Int32 → Type 0
FitsState state none = (state ≡ pending) ⊎ (state ≡ not_applicable)
FitsState state (some r) = InScale r × ((state ≡ pending) ⊎ (state ≡ complete))

out_of_scale_iff : (r : Int32) → r < 2 ^ 32 → (out_of_scale r ≡ false) ↔ InScale r
unfolding lt to_int
out_of_scale_iff r h = ground arith

pub complete≢not_applicable : complete ≢ not_applicable
complete≢not_applicable e = ground (arith, eq_iff complete not_applicable, e)

pending≢not_applicable : pending ≢ not_applicable
pending≢not_applicable e = ground (arith, eq_iff pending not_applicable, e)

pending≢complete : pending ≢ complete
pending≢complete e = ground (arith, eq_iff pending complete, e)

validate-fields :
    (housing criterion state notes : String) (rating : Option Int32)
    → ((r : Int32) → rating ≡ some r → r < 2 ^ 32)
    → (validate_housing_answer (record {
      housing_id = housing;
      criterion_id = criterion;
      state = state;
      rating = rating;
      notes = notes;
    })
        ≡ ok tt)
      ↔ ((is_empty housing ≡ false)
          × (is_empty criterion ≡ false)
          × (rune_count notes ≤ 5000)
          × FitsState state rating)
unfolding validate_housing_answer
validate-fields housing criterion state notes none h =
    let is_pending = eq_iff state pending in
    let is_complete = eq_iff state complete in
    let is_outside = eq_iff state not_applicable in
    ground (
      arith, is_pending, is_complete, is_outside, complete≢not_applicable, pending≢complete,
      pending≢not_applicable,
    )
validate-fields housing criterion state notes (some r) h =
    let is_pending = eq_iff state pending in
    let is_complete = eq_iff state complete in
    let is_outside = eq_iff state not_applicable in
    let scale = out_of_scale_iff r (h r refl) in
    ground (
      arith, scale, is_pending, is_complete, is_outside, complete≢not_applicable, pending≢complete,
      pending≢not_applicable,
    )

-- Exactly the answers that name an option and a criterion, have notes of at most 5000 characters, and
-- have a rating from 1 to 5 where the state is complete, none where it is not applicable, and either
-- where it is pending, are let through. A rating is the pattern of an `int32`.
pub validate_housing_answer_iff :
    (a : HousingAnswer)
    → ((r : Int32) → a.rating ≡ some r → r < 2 ^ 32)
    → (validate_housing_answer a ≡ ok tt) ↔ (
        (is_empty a.housing_id ≡ false)
        × (is_empty a.criterion_id ≡ false)
        × (rune_count a.notes ≤ 5000)
        × FitsState a.state a.rating)
validate_housing_answer_iff a h =
    validate-fields a.housing_id a.criterion_id a.state a.notes a.rating h
