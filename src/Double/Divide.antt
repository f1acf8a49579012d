-- ===== src/Double/Divide.antt =====
-- `ficl2UnsignedDivide` is division with remainder.
mod Mask
mod Align
use Align.{IsAligned, align_divisor_lem}
use Mask.{double_or_lem, double_or-IsDouble}
use ficl.Common.{
  ℕ, zero, suc, ◌+◌, ◌-◌, ◌*◌, ◌/◌, ◌%◌, ◌^◌, ◌≤◌, ◌<◌, ◌≡◌, refl, Bool, true, false, ltb, ◌==◌,
  arith, ap, some, inl, inr, Bool-cases, if◌then◌else◌, ◌⊎◌, ◌&&◌, ◌∙◌,
}
use ficl.Common.Powers.{two_pow-suc, two_pow-pos, two_pow-add, two_pow_mono}
use ficl.Cell.{is_negative}
use ficl.Double.{
  Double, double, Comparison, less, same, greater, double_or, double_subtract, double_shift_left,
  double_shift_right, double_compare, Qr, align_divisor, divide_loop, double_divide,
}
use ficl.Double.Add.{
  value, IsDouble, Reads, double_subtract_lem, double_subtract-IsDouble, double_shift_left_lem,
  double_shift_left-IsDouble, double_shift_right_lem, double_shift_right-IsDouble,
  double_compare_lem,
}

-- What one round of the second loop leaves in `q` and in `quotient`.
abbrev rest_of : Comparison → Double → Double → Double
rest_of greater q subtrahend = q
rest_of less q subtrahend = double_subtract q subtrahend
rest_of same q subtrahend = double_subtract q subtrahend

abbrev quotient_of : Comparison → Double → Double → Double
quotient_of greater quotient mask = quotient
quotient_of less quotient mask = double_or quotient mask
quotient_of same quotient mask = double_or quotient mask

divide_loop-suc :
    (fuel : ℕ) (q mask subtrahend quotient : Double)
    → (mask.low == 0 && mask.high == 0) ≡ false
    → let c = double_compare subtrahend q in
      divide_loop (suc fuel) q mask subtrahend quotient
      ≡ divide_loop fuel
          (rest_of c q subtrahend)
          (double_shift_right mask)
          (double_shift_right subtrahend)
          (quotient_of c quotient mask)
unfolding divide_loop
divide_loop-suc fuel q mask subtrahend quotient e = ground arith

divide_loop_stop :
    (fuel : ℕ) (q mask subtrahend quotient : Double)
    → (mask.low == 0 && mask.high == 0) ≡ true
    → divide_loop (suc fuel) q mask subtrahend quotient
      ≡ some (record { quotient = quotient; remainder = q.low })
unfolding divide_loop
divide_loop_stop fuel q mask subtrahend quotient e = ground arith

-- The state at the head of a round whose mask is `2 ^ k`.
record IsRound (k y m : ℕ) (q mask subtrahend quotient : Double) : Type 0 where
  q_fits : IsDouble q
  mask_fits : IsDouble mask
  subtrahend_fits : IsDouble subtrahend
  quotient_fits : IsDouble quotient
  mask_is : value mask ≡ 2 ^ k
  subtrahend_is : value subtrahend ≡ 2 ^ k * y
  small : value q < 2 ^ suc k * y
  multiple : value quotient ≡ m * 2 ^ suc k

-- What holds after a round, whichever way the comparison went.
record IsRest (k y : ℕ) (old_q old_quotient q quotient : Double) : Type 0 where
  q_fits : IsDouble q
  quotient_fits : IsDouble quotient
  small : value q < 2 ^ k * y
  total : value quotient * y + value q ≡ value old_quotient * y + value old_q
  m : ℕ
  multiple : value quotient ≡ m * 2 ^ k

subtract_round :
    (k y m : ℕ) (q mask subtrahend quotient : Double)
    → value subtrahend ≤ value q
    → IsRound k y m q mask subtrahend quotient
    → IsRest k y q quotient (double_subtract q subtrahend) (double_or quotient mask)
subtract_round k y m q mask subtrahend quotient le r =
    let diff : value (double_subtract q subtrahend) ≡ value q - value subtrahend =
      omega (arith, double_subtract_lem r.q_fits r.subtrahend_fits, r.q_fits, r.subtrahend_fits) in
    let sum = double_or_lem m k quotient mask r.quotient_fits r.mask_fits r.multiple r.mask_is in
    let twice = ap (λ (t : ℕ). t * y) (two_pow-suc k) in
    let part = ap (λ (t : ℕ). t * y) sum in
    let double_m = ap (λ (t : ℕ). m * t) (two_pow-suc k) in
    record {
      q_fits = double_subtract-IsDouble q subtrahend;
      quotient_fits = double_or-IsDouble quotient mask r.quotient_fits r.mask_fits;
      small = omega (arith, r.small, r.subtrahend_is);
      total = omega (arith, r.subtrahend_is);
      m = m * 2 + 1;
      multiple = omega (arith, r.multiple);
    }

round_lem :
    (k y m : ℕ) (q mask subtrahend quotient : Double) (c : Comparison)
    → double_compare subtrahend q ≡ c
    → IsRound k y m q mask subtrahend quotient
    → IsRest k y q quotient (rest_of c q subtrahend) (quotient_of c quotient mask)
round_lem k y m q mask subtrahend quotient greater e r =
    let order : value q < value subtrahend =
      rw e at (double_compare_lem r.subtrahend_fits r.q_fits) in
    record {
      q_fits = r.q_fits;
      quotient_fits = r.quotient_fits;
      small = omega (arith, r.subtrahend_is);
      total = refl;
      m = m * 2;
      multiple = omega (arith, r.multiple, ap (λ (t : ℕ). m * t) (two_pow-suc k));
    }
round_lem k y m q mask subtrahend quotient less e r =
    let order : value subtrahend < value q =
      rw e at (double_compare_lem r.subtrahend_fits r.q_fits) in
    subtract_round k y m q mask subtrahend quotient (omega arith) r
round_lem k y m q mask subtrahend quotient same e r =
    let order : value subtrahend ≡ value q =
      rw e at (double_compare_lem r.subtrahend_fits r.q_fits) in
    subtract_round k y m q mask subtrahend quotient (omega arith) r

mask_left : (k : ℕ) (mask : Double) → value mask ≡ 2 ^ k → (mask.low == 0 && mask.high == 0) ≡ false
mask_left k mask e = ground (arith, two_pow-pos k)

-- The result of a division that has `quotient` and the dividend `q` left.
record IsDivided (y : ℕ) (q quotient : Double) (result : Qr) : Type 0 where
  pub fits : IsDouble result.quotient
  pub total : value result.quotient * y + result.remainder ≡ value quotient * y + value q
  pub small : result.remainder < y

divide_loop_lem :
    (k fuel y m : ℕ) (q mask subtrahend quotient : Double)
    → y < 2 ^ 64
    → IsRound k y m q mask subtrahend quotient
    → (r : Qr) × (divide_loop (suc (suc (k + fuel))) q mask subtrahend quotient ≡ some r)
      × IsDivided y q quotient r
divide_loop_lem zero fuel y m q mask subtrahend quotient hy r =
    let c = double_compare subtrahend q in
    let rest = round_lem zero y m q mask subtrahend quotient c refl r in
    let q' = rest_of c q subtrahend in
    let quotient' = quotient_of c quotient mask in
    let gone : value (double_shift_right mask) ≡ 0 =
      omega (arith, double_shift_right_lem r.mask_fits, r.mask_is) in
    let stop : ((double_shift_right mask).low == 0 && (double_shift_right mask).high == 0) ≡ true =
      ground arith in
    let less_y = rest.small in
    let fits = rest.q_fits in
    rw
      (
        divide_loop-suc (suc (zero + fuel)) q mask subtrahend quotient
            (mask_left zero mask r.mask_is),
        divide_loop_stop (zero + fuel) q' (double_shift_right mask) (double_shift_right subtrahend)
            quotient' stop,
      )
      (
        record { quotient = quotient'; remainder = q'.low },
        refl,
        record {
          fits = rest.quotient_fits;
          total = omega (arith, rest.total);
          small = omega arith;
        },
      )
divide_loop_lem (suc k) fuel y m q mask subtrahend quotient hy r =
    let c = double_compare subtrahend q in
    let rest = round_lem (suc k) y m q mask subtrahend quotient c refl r in
    let q' = rest_of c q subtrahend in
    let quotient' = quotient_of c quotient mask in
    let n : suc k + fuel ≡ suc (k + fuel) = omega arith in
    let twice = ap (λ (t : ℕ). t * y) (two_pow-suc k) in
    let next : IsRound k y rest.m q' (double_shift_right mask) (double_shift_right subtrahend)
        quotient' =
      record {
        q_fits = rest.q_fits;
        mask_fits = double_shift_right-IsDouble mask r.mask_fits;
        subtrahend_fits = double_shift_right-IsDouble subtrahend r.subtrahend_fits;
        quotient_fits = rest.quotient_fits;
        mask_is = omega (arith, double_shift_right_lem r.mask_fits, r.mask_is, two_pow-suc k);
        subtrahend_is = omega (arith, double_shift_right_lem r.subtrahend_fits, r.subtrahend_is);
        small = rest.small;
        multiple = rest.multiple;
      } in
    let (out, e, d) =
      divide_loop_lem k fuel y rest.m q' (double_shift_right mask) (double_shift_right subtrahend)
        quotient' hy next in
    rw
      (
        n,
        divide_loop-suc (suc (suc (k + fuel))) q mask subtrahend quotient
            (mask_left (suc k) mask r.mask_is),
      )
      (out, e, record { fits = d.fits; total = d.total ∙ rest.total; small = d.small })

divide_aligned :
    (q : Double) (y : ℕ) (out : Double × Double)
    → IsDouble q
    → y < 2 ^ 64
    → IsAligned y q out
    → (r : Qr) × (divide_loop 129 q out.0 out.1 (double 0 0) ≡ some r)
      × IsDivided y q (double 0 0) r
divide_aligned q y out vq hy a =
    let fuel : suc (suc (a.k + (127 - a.k))) ≡ 129 = omega (arith, a.bounded) in
    rw (ap (λ (t : ℕ). divide_loop t q out.0 out.1 (double 0 0)) fuel) at (
      divide_loop_lem a.k (127 - a.k) y 0 q out.0 out.1 (double 0 0) hy (record {
        q_fits = vq;
        mask_fits = a.mask_fits;
        subtrahend_fits = a.subtrahend_fits;
        quotient_fits = omega arith;
        mask_is = a.mask_is;
        subtrahend_is = a.subtrahend_is;
        small = a.passes;
        multiple = omega arith;
      }))

-- For every double and every divisor cell but zero, `ficl2UnsignedDivide` ends within the fuel of
-- the model, and its quotient and remainder are those of the division: the quotient times the
-- divisor plus the remainder is the dividend, and the remainder is below the divisor.
pub double_divide_lem :
    (q : Double) (y : ℕ)
    → IsDouble q
    → 1 ≤ y
    → y < 2 ^ 64
    → (r : Qr) × (double_divide q y ≡ some r)
      × IsDouble r.quotient
      × (value r.quotient * y + r.remainder ≡ value q)
      × (r.remainder < y)
unfolding double_divide
double_divide_lem q y vq pos hy =
    let (out, e, a) =
      align_divisor_lem 128 0 y q (double 0 1) (double 0 y) (omega arith) pos vq (omega arith)
        (omega arith) (omega arith) (omega arith) in
    let (r, e', d) = divide_aligned q y out vq hy a in
    rw (e, double_divide) (r, e', d.fits, omega (arith, d.total), d.small)
