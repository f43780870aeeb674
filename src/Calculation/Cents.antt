-- ===== src/Calculation/Cents.antt =====
-- The money helpers at the end of internal/calculation/cpf.go, and what they compute on amounts that
-- are not negative and whose products fit an `int64`.
use our_ne_zt_core.Common.{ℕ, ◌+◌, ◌-◌, ◌*◌, ◌/◌, ◌%◌, ◌≤◌, ◌<◌, ◌≡◌, arith, if◌then◌else◌, ltb}
use our_ne_zt_core.Common.Int64.{
  Int64, IsNat, sign_bit, add, sub, mul, quot, rem, lt, le, mul_nat, quot_nat, rem_nat, le_nat,
  lt_nat, add_nat,
}

unfoldable pub cents_by_bps : Int64 → Int64 → Int64
cents_by_bps cents bps = quot (mul cents bps) 10000

unfoldable pub floor_to_dollar : Int64 → Int64
floor_to_dollar cents = mul (quot cents 100) 100

unfoldable pub round_to_nearest_dollar : Int64 → Int64
round_to_nearest_dollar cents =
    let dollars = quot cents 100 in
    mul (if le 50 (rem cents 100) then add dollars 1 else dollars) 100

unfoldable pub min_int64 : Int64 → Int64 → Int64
min_int64 a b = if lt a b then a else b

unfoldable pub max_int64 : Int64 → Int64 → Int64
max_int64 a b = if lt b a then a else b

pub cents_by_bps_nat : (c b : ℕ) → c * b < sign_bit → cents_by_bps c b ≡ c * b / 10000
unfolding cents_by_bps
cents_by_bps_nat c b h = rw (mul_nat c b h) (quot_nat (c * b) 10000 h (omega arith))

pub floor_to_dollar_nat : (c : ℕ) → IsNat c → floor_to_dollar c ≡ c / 100 * 100
unfolding floor_to_dollar
floor_to_dollar_nat c h = rw (quot_nat c 100 h (omega arith)) (mul_nat (c / 100) 100 (omega arith))

pub round_to_nearest_dollar_nat :
    (c : ℕ) → c + 100 < sign_bit → round_to_nearest_dollar c ≡ (c + 50) / 100 * 100
unfolding round_to_nearest_dollar
round_to_nearest_dollar_nat c h = ground (
  arith,
  rem_nat c 100,
  quot_nat c 100,
  le_nat 50 (c % 100),
  add_nat (c / 100) 1,
  mul_nat (c / 100) 100,
  mul_nat (c / 100 + 1) 100,
)

pub min_int64_nat : (a b : ℕ) → IsNat a → IsNat b → min_int64 a b ≡ (if ltb a b then a else b)
unfolding min_int64
min_int64_nat a b h k = ground (arith, lt_nat a b h k)

pub max_int64_nat : (a b : ℕ) → IsNat a → IsNat b → max_int64 a b ≡ (if ltb b a then a else b)
unfolding max_int64
max_int64_nat a b h k = ground (arith, lt_nat b a k h)

-- A difference that is held above zero is the truncated difference of the numbers.
pub max_sub_nat : (a b : ℕ) → IsNat a → IsNat b → max_int64 (sub a b) 0 ≡ a - b
unfolding max_int64 sub lt
max_sub_nat a b h k = ground arith

-- The lesser amount, in the form of its two bounds.
pub min_int64_bounds : (a b : ℕ) → IsNat a → IsNat b → (min_int64 a b ≤ a) × (min_int64 a b ≤ b)
min_int64_bounds a b h k = ground (arith, min_int64_nat a b h k)
