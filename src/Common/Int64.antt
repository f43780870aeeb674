-- ===== src/Common/Int64.antt =====
-- Go's `int64` (and `int`, which is 64 bits wide on every platform that the service is built for).
-- A value is its two's-complement pattern, a number below 2 ^ 64; the arithmetic wraps around.
use Prim.Native.Nat.{ℕ, ◌+◌, ◌-◌, ◌*◌, ◌/◌, ◌%◌, ◌^◌, ◌≤◌, ◌<◌}
use mathlib.Core.Path.{◌≡◌}
use mathlib.Core.Bool.{Bool}
use native.Mathlib.Omega.{arith}
use our_ne_zt_core.Common.Tests.{ltb, leb, if◌then◌else◌, lt→leb}

abbrev pub Int64 : Type 0
Int64 = ℕ

abbrev pub modulus : ℕ
modulus = 2 ^ 64

abbrev pub sign_bit : ℕ
sign_bit = 2 ^ 63

unfoldable pub add : Int64 → Int64 → Int64
add a b = (a + b) % modulus

unfoldable pub sub : Int64 → Int64 → Int64
sub a b = (a + (modulus - b)) % modulus

unfoldable pub mul : Int64 → Int64 → Int64
mul a b = a * b % modulus

unfoldable pub neg : Int64 → Int64
neg a = (modulus - a) % modulus

unfoldable pub is_neg : Int64 → Bool
is_neg a = leb sign_bit a

unfoldable pub lt : Int64 → Int64 → Bool
lt a b = ltb ((a + sign_bit) % modulus) ((b + sign_bit) % modulus)

unfoldable pub le : Int64 → Int64 → Bool
le a b = leb ((a + sign_bit) % modulus) ((b + sign_bit) % modulus)

unfoldable pub magnitude : Int64 → ℕ
unfolding is_neg
magnitude a = if is_neg a then modulus - a else a

-- `a / b`, which truncates towards zero. The callers never divide by zero.
unfoldable pub quot : Int64 → Int64 → Int64
unfolding is_neg magnitude neg
quot a b =
    let size = magnitude a / magnitude b in
    if is_neg a
    then (if is_neg b then size % modulus else neg size)
    else (if is_neg b then neg size else size)

-- `a % b`, which has the sign of `a`.
unfoldable pub rem : Int64 → Int64 → Int64
unfolding is_neg magnitude neg
rem a b = let size = magnitude a % magnitude b in if is_neg a then neg size else size

abbrev pub IsNat : Int64 → Type 0
IsNat a = a < sign_bit

pub add-lt : (a b : Int64) → add a b < modulus
unfolding add
add-lt a b = omega arith

pub add_nat : (a b : ℕ) → a + b < sign_bit → add a b ≡ a + b
unfolding add
add_nat a b h = omega arith

pub sub_nat : (a b : ℕ) → b ≤ a → a < sign_bit → sub a b ≡ a - b
unfolding sub
sub_nat a b h k = omega arith

pub mul_nat : (a b : ℕ) → a * b < sign_bit → mul a b ≡ a * b
unfolding mul
mul_nat a b h = omega arith

pub lt_nat : (a b : ℕ) → IsNat a → IsNat b → lt a b ≡ ltb a b
unfolding lt
lt_nat a b h k = ground arith

pub le_nat : (a b : ℕ) → IsNat a → IsNat b → le a b ≡ leb a b
unfolding le
le_nat a b h k = ground arith

pub quot_nat : (a b : ℕ) → IsNat a → IsNat b → quot a b ≡ a / b
unfolding quot
quot_nat a b h k = rw (lt→leb sign_bit a h, lt→leb sign_bit b k)

pub rem_nat : (a b : ℕ) → IsNat a → IsNat b → rem a b ≡ a % b
unfolding rem
rem_nat a b h k = rw (lt→leb sign_bit a h, lt→leb sign_bit b k)

pub add_comm : (a b : Int64) → add a b ≡ add b a
unfolding add
add_comm a b = omega arith

pub add_assoc : (a b c : Int64) → add (add a b) c ≡ add a (add b c)
unfolding add
add_assoc a b c = omega arith

-- Taking away and giving back, in wrapping arithmetic too.
pub sub_add : (a b : Int64) → a < modulus → b < modulus → add (sub a b) b ≡ a
unfolding add sub
sub_add a b h k = omega arith
