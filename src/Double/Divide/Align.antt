-- ===== src/Double/Divide/Align.antt =====
-- The first loop of `ficl2UnsignedDivide`: it shifts the divisor as far up as it goes.
use ficl.Common.{
  ℕ, zero, suc, ◌+◌, ◌*◌, ◌^◌, ◌≤◌, ◌<◌, ◌≡◌, refl, Bool, true, false, ltb, arith, ap, some, inl,
  inr, Bool-cases, if◌then◌else◌,
}
use ficl.Common.Powers.{two_pow-suc, two_pow-pos, two_pow_mono}
use ficl.Cell.{is_negative}
use ficl.Double.{
  Double, Comparison, less, same, greater, double_shift_left, double_compare, align_divisor,
}
use ficl.Double.Add.{
  value, IsDouble, Reads, double_shift_left_lem, double_shift_left-IsDouble, double_compare_lem,
}

-- Where the first loop stops: the divisor is shifted by `k` places, and one more would pass `q`.
pub record IsAligned (y : ℕ) (q : Double) (out : Double × Double) : Type 0 where
  pub k : ℕ
  pub bounded : k < 128
  pub mask_fits : IsDouble out.0
  pub subtrahend_fits : IsDouble out.1
  pub mask_is : value out.0 ≡ 2 ^ k
  pub subtrahend_is : value out.1 ≡ 2 ^ k * y
  pub passes : value q < 2 ^ suc k * y

shifts_end : (k y : ℕ) → 1 ≤ y → 2 ^ k * y < 2 ^ 128 → k < 128
shifts_end k y pos h = elim (Bool-cases (ltb k 128)) [
  | inl e ↦ ground arith
  | inr e ↦
      let large : 128 ≤ k = ground arith in
      let grow = two_pow_mono 128 k large in absurd (grind arith)
]

-- The test of the first loop.
abbrev goes_on : Comparison → ℕ → Bool
goes_on less high = if is_negative high then false else true
goes_on same high = false
goes_on greater high = false

goes_on_lem :
    (q subtrahend : Double) (c : Comparison)
    → IsDouble q
    → IsDouble subtrahend
    → Reads c (value subtrahend) (value q)
    → goes_on c subtrahend.high ≡ true
    → (value subtrahend < value q) × (value subtrahend < 2 ^ 127)
goes_on_lem q subtrahend less vq vs o h = ground arith
goes_on_lem q subtrahend same vq vs o h = cc
goes_on_lem q subtrahend greater vq vs o h = cc

halts_lem :
    (q subtrahend : Double) (c : Comparison)
    → IsDouble q
    → IsDouble subtrahend
    → 1 ≤ value subtrahend
    → Reads c (value subtrahend) (value q)
    → goes_on c subtrahend.high ≡ false
    → value q < 2 * value subtrahend
halts_lem q subtrahend less vq vs pos o h = ground arith
halts_lem q subtrahend same vq vs pos o h = omega arith
halts_lem q subtrahend greater vq vs pos o h = omega arith

align_divisor-suc :
    (fuel : ℕ) (q mask subtrahend : Double)
    → align_divisor (suc fuel) q mask subtrahend ≡ (
        if goes_on (double_compare subtrahend q) subtrahend.high
        then align_divisor fuel q (double_shift_left mask) (double_shift_left subtrahend)
        else some (mask, subtrahend))
unfolding align_divisor
align_divisor-suc fuel q mask subtrahend = ground arith

product-pos : (k y : ℕ) → 1 ≤ y → 2 ^ k ≤ 2 ^ k * y
product-pos k y h = grind arith

pub align_divisor_lem :
    (fuel k y : ℕ) (q mask subtrahend : Double)
    → k + fuel ≡ 128
    → 1 ≤ y
    → IsDouble q
    → IsDouble mask
    → IsDouble subtrahend
    → value mask ≡ 2 ^ k
    → value subtrahend ≡ 2 ^ k * y
    → (out : Double × Double) × (align_divisor fuel q mask subtrahend ≡ some out)
      × IsAligned y q out
align_divisor_lem zero k y q mask subtrahend e pos vq vm vs em es =
    absurd (omega (arith, shifts_end k y pos (omega (arith, es, vs))))
align_divisor_lem (suc fuel) k y q mask subtrahend e pos vq vm vs em es =
    let c = double_compare subtrahend q in
    let order = double_compare_lem vs vq in
    let twice = ap (λ (t : ℕ). t * y) (two_pow-suc k) in
    elim (Bool-cases (goes_on c subtrahend.high)) [
      | inl go ↦
          let (below, room) = goes_on_lem q subtrahend c vq vs order go in
          rw (align_divisor-suc fuel q mask subtrahend, go)
            (align_divisor_lem fuel (suc k) y q (double_shift_left mask)
              (double_shift_left subtrahend) (omega arith) pos vq (double_shift_left-IsDouble mask)
              (double_shift_left-IsDouble subtrahend)
              (omega (arith, double_shift_left_lem vm, two_pow-suc k, product-pos k y pos))
              (omega (arith, double_shift_left_lem vs)))
      | inr stop ↦
          let passes =
            halts_lem q subtrahend c vq vs (omega (arith, product-pos k y pos, two_pow-pos k)) order
              stop in
          rw (align_divisor-suc fuel q mask subtrahend, stop)
            (
              (mask, subtrahend),
              refl,
              record {
                k = k;
                bounded = shifts_end k y pos (omega (arith, vs));
                mask_fits = vm;
                subtrahend_fits = vs;
                mask_is = em;
                subtrahend_is = es;
                passes = omega arith;
              },
            )
    ]
