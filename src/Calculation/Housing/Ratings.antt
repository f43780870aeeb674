-- ===== src/Calculation/Housing/Ratings.antt =====
-- The rating of an option by its monthly cost.
use native.Mathlib.Nat.{div-lt_iff_lt-mul}
use our_ne_zt_core.Common.{
  ℕ, ◌+◌, ◌*◌, ◌/◌, ◌^◌, ◌≤◌, ◌<◌, ◌≡◌, ◌↔◌, arith, if◌then◌else◌, ◌||◌, Bool-cases, inl, inr, ltb,
  leb,
}
use our_ne_zt_core.Common.Int64.{Int64, sign_bit, sub, mul, quot, lt, le_nat, mul_nat, quot_nat}
use our_ne_zt_core.Domain.{
  AffordabilityRating, comfortable, manageable, tight, risky, not_recommended,
}
use our_ne_zt_core.Calculation.Housing.{affordability_rating}

-- The worse a rating, the higher its rank.
abbrev pub rank : AffordabilityRating → ℕ
rank comfortable = 0
rank manageable = 1
rank tight = 2
rank risky = 3
rank not_recommended = 4

abbrev pub flow_limit : ℕ
flow_limit = 10 ^ 14

-- The surplus that is rated: what the take-home pay leaves after the expenses and the housing cost.
abbrev pub surplus : ℕ → ℕ → ℕ → Int64
surplus take_home expenses cost = sub (sub take_home expenses) cost

surplus_negative :
    (take_home expenses cost : ℕ)
    → take_home ≤ flow_limit
    → expenses ≤ flow_limit
    → cost ≤ flow_limit
    → lt (surplus take_home expenses cost) 0 ≡ ltb take_home (expenses + cost)
unfolding lt sub
surplus_negative take_home expenses cost h k l = ground arith

ratio_lem :
    (cost take_home : ℕ)
    → cost ≤ flow_limit
    → take_home ≤ flow_limit
    → (quot (mul cost 10000) take_home ≡ cost * 10000 / take_home)
      × (cost * 10000 / take_home < sign_bit)
ratio_lem cost take_home h k = (
  rw (mul_nat cost 10000 (omega arith))
      (quot_nat (cost * 10000) take_home (omega arith) (omega arith)),
  grind arith,
)

-- The rank of a ratio in basis points, by the thresholds of the source.
abbrev rank_of_ratio : ℕ → ℕ
rank_of_ratio ratio =
    if leb ratio 2500
    then 0
    else if leb ratio 3500
    then 1
    else if leb ratio 4500
    then 2
    else if leb ratio 5500
    then 3
    else 4

rank_lem :
    (cost take_home expenses : ℕ)
    → cost ≤ flow_limit
    → take_home ≤ flow_limit
    → expenses ≤ flow_limit
    → rank (affordability_rating cost take_home (surplus take_home expenses cost)) ≡ (
        if leb take_home 0 || ltb take_home (expenses + cost)
        then 4
        else rank_of_ratio (cost * 10000 / take_home))
unfolding affordability_rating
rank_lem cost take_home expenses h k l =
    let (ratio, small) = ratio_lem cost take_home h k in
    let q : ℕ = cost * 10000 / take_home in
    rw
      (
        le_nat take_home 0 (omega arith) (omega arith),
        surplus_negative take_home expenses cost k l h,
        ratio,
      )
      (ground (
        arith,
        le_nat q 2500 small (omega arith),
        le_nat q 3500 small (omega arith),
        le_nat q 4500 small (omega arith),
        le_nat q 5500 small (omega arith),
      ))

rank_of_ratio_mono : (p q : ℕ) → p ≤ q → rank_of_ratio p ≤ rank_of_ratio q
rank_of_ratio_mono p q h = ground arith

rank_of_ratio-le : (p : ℕ) → rank_of_ratio p ≤ 4
rank_of_ratio-le p = ground arith

div_mono : (a b t : ℕ) → a ≤ b → a / t ≤ b / t
div_mono a b t h = grind arith

-- At the same take-home pay and expenses, an option with the higher monthly cost is never rated
-- better. The amounts are not negative and at most a trillion dollars.
pub affordability_rating_mono :
    (c d take_home expenses : ℕ)
    → c ≤ d
    → d ≤ flow_limit
    → take_home ≤ flow_limit
    → expenses ≤ flow_limit
    → rank (affordability_rating c take_home (surplus take_home expenses c))
      ≤ rank (affordability_rating d take_home (surplus take_home expenses d))
affordability_rating_mono c d take_home expenses p h k l =
    rw (rank_lem c take_home expenses (omega arith) k l, rank_lem d take_home expenses h k l)
      (ground (
        arith,
        rank_of_ratio-le (c * 10000 / take_home),
        rank_of_ratio_mono (c * 10000 / take_home) (d * 10000 / take_home)
            (div_mono (c * 10000) (d * 10000) take_home (omega arith)),
      ))

div-le_iff : (a t k : ℕ) → 0 < t → (a / t ≤ k) ↔ (a < (k + 1) * t)
div-le_iff a t k h = (
  λ p. (div-lt_iff_lt-mul {x = a} {y = k + 1} h).0 (omega arith),
  λ p. omega (arith, (div-lt_iff_lt-mul {x = a} {y = k + 1} h).1 p),
)

-- An option is rated comfortable exactly when there is take-home pay, the expenses and the housing
-- cost are within it, and the cost is a quarter of it, up to a basis point; any rating but "not
-- recommended" means that the pay covers both.
pub affordability_rating_meaning :
    (cost take_home expenses : ℕ)
    → cost ≤ flow_limit
    → take_home ≤ flow_limit
    → expenses ≤ flow_limit
    → let r = affordability_rating cost take_home (surplus take_home expenses cost) in
      ((rank r ≡ 0)
        ↔ ((0 < take_home) × (expenses + cost ≤ take_home) × (cost * 10000 < 2501 * take_home)))
      × ((rank r < 4)
          ↔ ((0 < take_home) × (expenses + cost ≤ take_home) × (cost * 10000 < 5501 * take_home)))
affordability_rating_meaning cost take_home expenses h k l =
    let e = rank_lem cost take_home expenses h k l in
    let quarter = div-le_iff (cost * 10000) take_home 2500 in
    let half = div-le_iff (cost * 10000) take_home 5500 in
    elim (Bool-cases (ltb 0 take_home)) [
      | inl paid ↦
          let pay : 0 < take_home = ground arith in
          rw e (grind (arith, quarter pay), grind (arith, half pay))
      | inr unpaid ↦ rw e (grind arith, grind arith)
    ]
