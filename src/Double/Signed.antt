-- ===== src/Double/Signed.antt =====
-- Signed division of double cells: `ficl2IntegerDivideSymmetric`, with
-- `ficl2IntegerMultiply` and `ficl2IntegerAbsoluteValue`.
use mathlib.Core.Bool.{xor}
use mathlib.Core.Path.{subst}
use ficl.Common.{
  ℕ, ◌+◌, ◌-◌, ◌*◌, ◌%◌, ◌^◌, ◌≤◌, ◌<◌, ◌≡◌, refl, Bool, true, false, arith, ap, Option, none, some,
  inl, inr, Bool-cases, if◌then◌else◌, ◌≢◌, ◌∙◌,
}
use ficl.Cell.{is_negative, negate, magnitude}
use ficl.Double.{Double, double_is_negative, double_negate, double_multiply, double_divide, Qr}
use ficl.Double.Add.{value, IsDouble, double_negate_lem, double_negate-IsDouble}
use ficl.Double.Divide.{double_divide_lem}
use ficl.Double.Multiply.{double_multiply_lem, double_multiply_total}

pub absolute_value : Double → Double
absolute_value x = if double_is_negative x then double_negate x else x

pub integer_multiply : ℕ → ℕ → Option Double
integer_multiply x y =
    let sign = xor (is_negative x) (is_negative y) in
    elim (double_multiply (magnitude x) (magnitude y)) [
      | none ↦ none
      | some prod ↦ some (if sign then double_negate prod else prod)
    ]

-- The last part of the symmetric division: the signs of the quotient and of the remainder.
pub symmetric_signs : Bool → Bool → Qr → Qr
symmetric_signs neg_quotient neg_remainder r = record {
  quotient = if neg_quotient then double_negate r.quotient else r.quotient;
  remainder = if neg_remainder then negate r.remainder else r.remainder;
}

pub divide_symmetric : Double → ℕ → Option Qr
unfolding symmetric_signs
divide_symmetric num den =
    let neg_num = double_is_negative num in
    let neg_den = is_negative den in
    elim (double_divide (absolute_value num) (magnitude den)) [
      | none ↦ none
      | some r ↦ some (symmetric_signs (xor neg_num neg_den) neg_num r)
    ]

-- The distance of a signed double from zero.
abbrev pub size : Double → ℕ
size x = if double_is_negative x then 2 ^ 128 - value x else value x

abbrev pub signed_pattern : ℕ → Bool → ℕ → ℕ
signed_pattern modulus negative n = if negative then (modulus - n) % modulus else n

pub absolute_value_lem :
    (x : Double) → IsDouble x → (value (absolute_value x) ≡ size x) × IsDouble (absolute_value x)
unfolding absolute_value double_is_negative
absolute_value_lem x v = elim (Bool-cases (is_negative x.high)) [
  | inl e ↦ rw e (ground (arith, double_negate_lem v), double_negate-IsDouble x)
  | inr e ↦ rw e (refl, v)
]

pub magnitude-pos :
    (den : ℕ) → den < 2 ^ 64 → den ≢ 0 → (1 ≤ magnitude den) × (magnitude den < 2 ^ 64)
magnitude-pos den h ne = ground arith

negate_if :
    (b : Bool) (x : Double)
    → IsDouble x
    → value (if b then double_negate x else x) ≡ signed_pattern (2 ^ 128) b (value x)
negate_if true x v = double_negate_lem v
negate_if false x v = refl

negate_if-IsDouble :
    (b : Bool) (x : Double) → IsDouble x → IsDouble (if b then double_negate x else x)
negate_if-IsDouble true x v = double_negate-IsDouble x
negate_if-IsDouble false x v = v

-- For every signed double and every divisor cell but zero, `ficl2IntegerDivideSymmetric` ends. The
-- sizes of its quotient and its remainder are those of the division of the sizes, the quotient is
-- negative where the signs differ, and the remainder has the sign of the dividend.
pub divide_symmetric_lem :
    (num : Double) (den : ℕ)
    → IsDouble num
    → den < 2 ^ 64
    → den ≢ 0
    → (r : Qr) × (divide_symmetric num den ≡ some r)
      × (q n : ℕ) × (q * magnitude den + n ≡ size num)
      × (n < magnitude den)
      × (value r.quotient
          ≡ signed_pattern (2 ^ 128) (xor (double_is_negative num) (is_negative den)) q)
      × (r.remainder ≡ signed_pattern (2 ^ 64) (double_is_negative num) n)
      × IsDouble r.quotient
unfolding divide_symmetric
divide_symmetric_lem num den v h ne =
    let (pos, fits) = magnitude-pos den h ne in
    let (same_size, w) = absolute_value_lem num v in
    let (r, e, f, total, small) =
      double_divide_lem (absolute_value num) (magnitude den) w pos fits in
    rw (e, divide_symmetric)
      (
        symmetric_signs (xor (double_is_negative num) (is_negative den)) (double_is_negative num) r,
        refl,
        value r.quotient,
        r.remainder,
        total ∙ same_size,
        small,
        negate_if _ r.quotient f,
        refl,
        negate_if-IsDouble _ r.quotient f,
      )

-- `ficl2IntegerMultiply` ends and gives the signed product of two cells whose sizes multiply to
-- less than 3 * 2 ^ 63.
integer_multiply_lem :
    (x y : ℕ)
    → x < 2 ^ 64
    → y < 2 ^ 64
    → magnitude x * magnitude y < 3 * 2 ^ 63
    → (z : Double) × (integer_multiply x y ≡ some z)
      × (value z
          ≡ signed_pattern
              (2 ^ 128)
              (xor (is_negative x) (is_negative y))
              (magnitude x * magnitude y))
unfolding integer_multiply
integer_multiply_lem x y hx hy small =
    let fx : magnitude x < 2 ^ 64 = ground arith in
    let fy : magnitude y < 2 ^ 64 = ground arith in
    let sign = xor (is_negative x) (is_negative y) in
    let (z, e, v) = double_multiply_lem (magnitude x) (magnitude y) fx fy small in
    let (z', e', f') = double_multiply_total (magnitude x) (magnitude y) fx in
    let same : z' ≡ z = cc in
    let f : IsDouble z = subst IsDouble same f' in
    rw (e, integer_multiply)
      (
        if sign then double_negate z else z,
        refl,
        negate_if sign z f ∙ ap (signed_pattern (2 ^ 128) sign) v,
      )
