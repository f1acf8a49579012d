-- ===== src/Double.antt =====
-- Double cells: the portable half of double.c, compiled when `FICL_PLATFORM_HAS_2INTEGER` is 0,
-- as ficlplatform/unix.h sets it for 64-bit cells. A signed double is the same pair of cells.
pub mod Add
pub mod Multiply
pub mod Divide
pub mod Signed
pub mod Floored
use Prim.Native.Nat.{bit_or}
use ficl.Common.{
  ℕ, zero, suc, ◌+◌, ◌-◌, ◌*◌, ◌/◌, ◌%◌, ◌^◌, Bool, true, false, not, ◌&&◌, ◌||◌, Option, none,
  some, ltb, leb, ◌==◌, if◌then◌else◌,
}
use ficl.Cell.{cell_mod, sign_bit, is_negative, add, sub, negate, invert}

-- `ficl2Unsigned` and `ficl2Integer`.
pub record Double : Type 0 where
  pub high : ℕ
  pub low : ℕ

abbrev pub double : ℕ → ℕ → Double
double h l = record { high = h; low = l }

unfoldable pub double_is_negative : Double → Bool
double_is_negative x = is_negative x.high

pub double_negate : Double → Double
double_negate x =
    let high = invert x.high in
    let low = add (invert x.low) 1 in double (if low == 0 then add high 1 else high) low

-- `carry` is an `int`: the second assignment cuts the cell that it computes down to 32 bits.
pub carry : ℕ → ℕ → ℕ → ℕ
carry x y sum =
    let first = if (is_negative x || is_negative y) && not (is_negative sum) then 1 else 0 in
    bit_or first (if is_negative x && is_negative y then sign_bit else 0) % 2 ^ 32

pub double_add : Double → Double → Double
unfolding carry
double_add x y =
    let high = add x.high y.high in
    let low = add x.low y.low in
    double (if carry x.low y.low low == 0 then high else add high 1) low

pub double_subtract : Double → Double → Double
double_subtract x y =
    let high = sub x.high y.high in
    let low = sub x.low y.low in double (if ltb x.low y.low then sub high 1 else high) low

pub double_shift_left : Double → Double
double_shift_left x =
    let high = x.high * 2 % cell_mod in
    double (if is_negative x.low then add high 1 else high) (x.low * 2 % cell_mod)

pub double_shift_right : Double → Double
double_shift_right x =
    double (x.high / 2) (if x.high % 2 == 0 then x.low / 2 else bit_or (x.low / 2) sign_bit)

pub double_or : Double → Double → Double
double_or x y = double (bit_or x.high y.high) (bit_or x.low y.low)

-- What `ficl2UnsignedCompare` returns: -1, 0 or 1.
pub data Comparison : Type 0 where
  less same greater : Comparison

pub double_compare : Double → Double → Comparison
double_compare x y =
    if ltb y.high x.high
    then greater
    else if ltb x.high y.high
    then less
    else if ltb y.low x.low
    then greater
    else if ltb x.low y.low
    then less
    else same

-- The loop `while (x != 0)` of `ficl2UnsignedMultiply`; each round halves `x`, so 64 rounds of
-- fuel serve every cell. `none` means that the fuel ran out.
pub multiply_loop : ℕ → ℕ → Double → Double → Option Double
multiply_loop zero x addend result = if x == 0 then some result else none
multiply_loop (suc fuel) x addend result =
    let rest =
      multiply_loop fuel (x / 2) (double_shift_left addend)
        (if x % 2 == 0 then result else double_add result addend) in
    if x == 0 then some result else rest

pub double_multiply : ℕ → ℕ → Option Double
double_multiply x y = multiply_loop 64 x (double 0 y) (double 0 0)

-- `ficl2UnsignedMultiplyAccumulate`.
pub multiply_accumulate : Double → ℕ → ℕ → Option Double
multiply_accumulate u mul more = elim (double_multiply u.low mul) [
  | none ↦ none
  | some lo ↦ elim (double_multiply u.high mul) [
    | none ↦ none
    | some hi ↦
        let high = add lo.high hi.low in
        let low = add lo.low more in some (double (if ltb low lo.low then add high 1 else high) low)
  ]
]

-- `x.low == INT_MIN` compares a signed cell with the 32-bit constant.
pub double_decrement : Double → Double
double_decrement x =
    double (if x.low == cell_mod - 2 ^ 31 then sub x.high 1 else x.high) (sub x.low 1)

pub record Qr : Type 0 where
  pub quotient : Double
  pub remainder : ℕ

-- The first loop of `ficl2UnsignedDivide`.
pub align_divisor : ℕ → Double → Double → Double → Option (Double × Double)
align_divisor zero q mask subtrahend = none
align_divisor (suc fuel) q mask subtrahend =
    let rest = align_divisor fuel q (double_shift_left mask) (double_shift_left subtrahend) in
    elim (double_compare subtrahend q) [
      | less ↦ if is_negative subtrahend.high then some (mask, subtrahend) else rest
      | _ ↦ some (mask, subtrahend)
    ]

-- The second loop, with the quotient so far.
pub divide_loop : ℕ → Double → Double → Double → Double → Option Qr
divide_loop zero q mask subtrahend quotient = none
divide_loop (suc fuel) q mask subtrahend quotient =
    let mask' = double_shift_right mask in
    let subtrahend' = double_shift_right subtrahend in
    let taken =
      divide_loop fuel (double_subtract q subtrahend) mask' subtrahend' (double_or quotient mask) in
    let left = divide_loop fuel q mask' subtrahend' quotient in
    let next : Option Qr = elim (double_compare subtrahend q) [ greater ↦ left | _ ↦ taken ] in
    if mask.low == 0 && mask.high == 0
    then some (record { quotient = quotient; remainder = q.low })
    else next

pub double_divide : Double → ℕ → Option Qr
double_divide q y = elim (align_divisor 128 q (double 0 1) (double 0 y)) [
  | none ↦ none
  | some (mask, subtrahend) ↦ divide_loop 129 q mask subtrahend (double 0 0)
]
