-- ===== src/Double/Floored.antt =====
-- Floored division of signed double cells: `ficl2IntegerDivideFloored`.
use mathlib.Core.Bool.{xor}
use ficl.Common.{
  ℕ, ◌+◌, ◌-◌, ◌*◌, ◌%◌, ◌^◌, ◌<◌, ◌≡◌, refl, Bool, true, false, ltb, ◌==◌, arith, Option, none,
  some, inl, inr, Bool-cases, if◌then◌else◌, ◌&&◌, ◌≢◌, ◌∙◌,
}
use ficl.Cell.{is_negative, negate, sub, magnitude}
use ficl.Double.{Double, double_is_negative, double_negate, double_decrement, double_divide, Qr}
use ficl.Double.Add.{
  value, IsDouble, double_negate_lem, double_negate-IsDouble, double_decrement_lem,
}
use ficl.Double.Divide.{double_divide_lem}
use ficl.Double.Signed.{absolute_value, size, signed_pattern, absolute_value_lem, magnitude-pos}

-- The last part of the floored division.
pub floored_signs : Bool → Bool → ℕ → Qr → Qr
floored_signs neg_quotient neg_remainder den r =
    let negated = double_negate r.quotient in
    let quotient =
      if neg_quotient
      then if r.remainder == 0 then negated else double_decrement negated
      else r.quotient in
    let remainder =
      if neg_quotient && ltb 0 r.remainder then sub den r.remainder else r.remainder in
    record {
      quotient = quotient;
      remainder = if neg_remainder then negate remainder else remainder;
    }

pub divide_floored : Double → ℕ → Option Qr
unfolding floored_signs
divide_floored num den =
    let neg_num = double_is_negative num in
    let neg_den = is_negative den in
    elim (double_divide (absolute_value num) (magnitude den)) [
      | none ↦ none
      | some r ↦ some (floored_signs (xor neg_num neg_den) neg_den (magnitude den) r)
    ]

-- What floored division promises of its result: `k` and `m` are the sizes of the quotient and of
-- the remainder, and `differ` tells that the quotient is negative.
pub record IsFloored (differ neg_den : Bool) (size_num size_den : ℕ) (r : Qr) : Type 0 where
  pub k : ℕ
  pub m : ℕ
  pub small : m < size_den
  pub total : if differ then k * size_den ≡ size_num + m else (k * size_den + m ≡ size_num)
  pub low : r.quotient.low ≡ signed_pattern (2 ^ 128) differ k % 2 ^ 64
  pub remainder_is : r.remainder ≡ signed_pattern (2 ^ 64) neg_den m

floored_signs_lem :
    (differ neg_den : Bool) (size_num den : ℕ) (r : Qr)
    → IsDouble r.quotient
    → den < 2 ^ 64
    → value r.quotient * den + r.remainder ≡ size_num
    → r.remainder < den
    → IsFloored differ neg_den size_num den (floored_signs differ neg_den den r)
unfolding floored_signs
floored_signs_lem false neg_den size_num den r f fits total small = record {
  k = value r.quotient;
  m = r.remainder;
  small = small;
  total = total;
  low = omega arith;
  remainder_is = refl;
}
floored_signs_lem true neg_den size_num den r f fits total small =
    elim (Bool-cases (r.remainder == 0)) [
      | inl e ↦ record {
        k = value r.quotient;
        m = 0;
        small = omega arith;
        total = ground arith;
        low = rw e (omega (arith, double_negate_lem f, double_negate-IsDouble r.quotient));
        remainder_is = ground arith;
      }
      | inr e ↦ record {
        k = value r.quotient + 1;
        m = den - r.remainder;
        small = ground arith;
        total = omega arith;
        low = rw e (
            omega (
              arith,
              double_negate_lem f,
              double_negate-IsDouble r.quotient,
              (double_decrement_lem (double_negate r.quotient)
                  (double_negate-IsDouble r.quotient)).0,
            ));
        remainder_is = ground arith;
      }
    ]

-- For every signed double and every divisor cell but zero, `ficl2IntegerDivideFloored` ends. Its
-- remainder is the floored one, smaller in size than the divisor and with its sign, and the low
-- cell of its quotient is the low cell of the floored quotient; nothing is said of the high cell.
pub divide_floored_lem :
    (num : Double) (den : ℕ)
    → IsDouble num
    → den < 2 ^ 64
    → den ≢ 0
    → (r : Qr) × (divide_floored num den ≡ some r)
      × IsFloored
          (xor (double_is_negative num) (is_negative den))
          (is_negative den)
          (size num)
          (magnitude den)
          r
unfolding divide_floored
divide_floored_lem num den v h ne =
    let (pos, fits) = magnitude-pos den h ne in
    let (same_size, w) = absolute_value_lem num v in
    let (r, e, f, total, small) =
      double_divide_lem (absolute_value num) (magnitude den) w pos fits in
    let differ = xor (double_is_negative num) (is_negative den) in
    rw (e, divide_floored)
      (
        floored_signs differ (is_negative den) (magnitude den) r,
        refl,
        floored_signs_lem differ (is_negative den) (size num) (magnitude den) r f fits
            (total ∙ same_size) small,
      )
