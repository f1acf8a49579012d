-- ===== src/Double/Add.antt =====
-- Sums, differences, shifts and comparisons of double cells, as numbers below 2 ^ 128.
use Prim.Native.Nat.{bit_or}
use ficl.Common.{ℕ, ◌+◌, ◌-◌, ◌*◌, ◌/◌, ◌%◌, ◌^◌, ◌<◌, ◌≡◌, ltb, arith, if◌then◌else◌, ◌↔◌, ◌≢◌}
use ficl.Common.Bits.{bit_or-add_right}
use ficl.Cell.{sign_bit}
use ficl.Double.{
  Double, Comparison, less, same, greater, carry, double_add, double_subtract, double_negate,
  double_shift_left, double_shift_right, double_compare, double_decrement,
}

abbrev pub value : Double → ℕ
value x = x.high * 2 ^ 64 + x.low

pub record IsDouble (x : Double) : Type 0 where
  pub high_fits : x.high < 2 ^ 64
  pub low_fits : x.low < 2 ^ 64

abbrev pub Reads : Comparison → ℕ → ℕ → Type 0
Reads less a b = a < b
Reads same a b = a ≡ b
Reads greater a b = b < a

-- The carry that the code takes: only from low halves that add up to less than 3 * 2 ^ 63.
pub carry_lem :
    (x y : ℕ)
    → x < 2 ^ 64
    → y < 2 ^ 64
    → carry x y ((x + y) % 2 ^ 64)
      ≡ (if ltb (x + y) (2 ^ 64) then 0 else if ltb (x + y) (3 * 2 ^ 63) then 1 else 0)
unfolding carry
carry_lem x y hx hy = ground arith

-- `ficl2UnsignedSubtract` gives the difference of two doubles, modulo 2 ^ 128.
pub double_subtract_lem :
    {x y : Double}
    → IsDouble x
    → IsDouble y
    → value (double_subtract x y) ≡ (value x + 2 ^ 128 - value y) % 2 ^ 128
unfolding double_subtract
double_subtract_lem hx hy = ground arith

pub double_subtract-IsDouble : (x y : Double) → IsDouble (double_subtract x y)
unfolding double_subtract
double_subtract-IsDouble x y = ground arith

pub double_negate_lem :
    {x : Double} → IsDouble x → value (double_negate x) ≡ (2 ^ 128 - value x) % 2 ^ 128
unfolding double_negate
double_negate_lem hx = ground arith

pub double_shift_left_lem :
    {x : Double} → IsDouble x → value (double_shift_left x) ≡ value x * 2 % 2 ^ 128
unfolding double_shift_left
double_shift_left_lem hx = ground arith

-- `ficl2UnsignedCompare` tells whether the first of two doubles is below, equal to or above the
-- second.
pub double_compare_lem :
    {x y : Double} → IsDouble x → IsDouble y → Reads (double_compare x y) (value x) (value y)
unfolding double_compare
double_compare_lem hx hy = ground arith

pub double_shift_left-IsDouble : (x : Double) → IsDouble (double_shift_left x)
unfolding double_shift_left
double_shift_left-IsDouble x = ground arith

-- `ficl2UnsignedAdd` gives the sum of two doubles modulo 2 ^ 128 while their low halves add up to
-- less than 3 * 2 ^ 63; otherwise it loses the carry between the halves, and its result is 2 ^ 64
-- too small.
pub double_add_lem :
    (x y : Double)
    → IsDouble x
    → IsDouble y
    → value (double_add x y) ≡ (
        if ltb (x.low + y.low) (3 * 2 ^ 63)
        then (value x + value y) % 2 ^ 128
        else (value x + value y + 2 ^ 128 - 2 ^ 64) % 2 ^ 128)
unfolding double_add
double_add_lem x y hx hy = ground (arith, carry_lem x.low y.low)

pub double_add-IsDouble : (x y : Double) → IsDouble (double_add x y)
unfolding double_add
double_add-IsDouble x y = ground arith

set_sign_bit : (n : ℕ) → n < 2 ^ 63 → bit_or n sign_bit ≡ n + sign_bit
set_sign_bit n h = bit_or-add_right 63 1 n h

pub double_shift_right_lem : {x : Double} → IsDouble x → value (double_shift_right x) ≡ value x / 2
unfolding double_shift_right
double_shift_right_lem {x} hx = ground (arith, set_sign_bit (x.low / 2))

pub double_shift_right-IsDouble : (x : Double) → IsDouble x → IsDouble (double_shift_right x)
unfolding double_shift_right
double_shift_right-IsDouble x hx = ground (arith, set_sign_bit (x.low / 2))

-- `ficl2IntegerDecrement` takes one from the low half, modulo 2 ^ 64, and takes one from the
-- double, modulo 2 ^ 128, exactly when the low half is neither zero nor 2 ^ 64 - 2 ^ 31.
pub double_decrement_lem :
    (x : Double)
    → IsDouble x
    → ((double_decrement x).low ≡ (x.low + 2 ^ 64 - 1) % 2 ^ 64)
      × ((value (double_decrement x) ≡ (value x + 2 ^ 128 - 1) % 2 ^ 128)
          ↔ ((x.low ≢ 0) × (x.low ≢ 2 ^ 64 - 2 ^ 31)))
unfolding double_decrement
double_decrement_lem x hx = (ground arith, (λ h. ground arith, λ h. ground arith))

pub double_negate-IsDouble : (x : Double) → IsDouble (double_negate x)
unfolding double_negate
double_negate-IsDouble x = ground arith
