-- ===== src/Double/Multiply.antt =====
-- `ficl2UnsignedMultiply`: it always ends, and where no carry is lost it multiplies.
use ficl.Common.{
  ℕ, zero, suc, ◌+◌, ◌*◌, ◌/◌, ◌%◌, ◌^◌, ◌≤◌, ◌<◌, ◌≡◌, refl, ltb, ◌==◌, arith, ap, some, inl, inr,
  Bool-cases, if◌then◌else◌,
}
use ficl.Common.Powers.{two_pow-suc}
use mathlib.Core.Path.{subst}
use ficl.Cell.{add}
use ficl.Double.{
  Double, double, multiply_accumulate, double_add, double_shift_left, multiply_loop,
  double_multiply,
}
use ficl.Double.Add.{
  value, IsDouble, double_add_lem, double_add-IsDouble, double_shift_left_lem,
  double_shift_left-IsDouble,
}

-- The result after a round: the addend is taken for an odd number.
abbrev taken : ℕ → Double → Double → Double
taken x addend result = if x % 2 == 0 then result else double_add result addend

taken-IsDouble :
    (x : ℕ) (addend result : Double) → IsDouble result → IsDouble (taken x addend result)
taken-IsDouble x addend result v = elim (Bool-cases (x % 2 == 0)) [
  | inl e ↦ rw e v
  | inr e ↦ rw e (double_add-IsDouble result addend)
]

multiply_loop_total :
    (fuel x : ℕ) (addend result : Double)
    → x < 2 ^ fuel
    → IsDouble result
    → (z : Double) × (multiply_loop fuel x addend result ≡ some z) × IsDouble z
unfolding multiply_loop
multiply_loop_total zero x addend result h v = (result, ground arith, v)
multiply_loop_total (suc fuel) x addend result h v = elim (Bool-cases (x == 0)) [
  | inl done ↦ (result, rw done, v)
  | inr more ↦ rw more (
      multiply_loop_total fuel (x / 2) (double_shift_left addend) (taken x addend result)
        (omega (arith, two_pow-suc fuel)) (taken-IsDouble x addend result v))
]

-- `ficl2UnsignedMultiply` ends within 64 rounds on every pair of cells, with a double whose halves
-- are cells.
pub double_multiply_total :
    (x y : ℕ) → x < 2 ^ 64 → (z : Double) × (double_multiply x y ≡ some z) × IsDouble z
unfolding double_multiply
double_multiply_total x y h = multiply_loop_total 64 x (double 0 y) (double 0 0) h (omega arith)

abbrev cap : ℕ
cap = 3 * 2 ^ 63

product_halves : (x a : ℕ) → x * a ≡ 2 * (x / 2 * a) + x % 2 * a
product_halves x a =
    let e : x ≡ x / 2 * 2 + x % 2 = omega arith in omega (arith, ap (λ (t : ℕ). t * a) e)

le-mul : (h a : ℕ) → 1 ≤ h → a ≤ h * a
le-mul h a p = grind arith

-- One round adds the addend of an odd number, exactly while the whole product is small.
taken_lem :
    (x : ℕ) (addend result : Double)
    → IsDouble addend
    → IsDouble result
    → 1 ≤ x
    → value result + x * value addend < cap
    → value (taken x addend result) ≡ value result + x % 2 * value addend
taken_lem x addend result va vr pos small = elim (Bool-cases (x % 2 == 0)) [
  | inl e ↦
      rw e (let z : x % 2 ≡ 0 = ground arith in omega (arith, ap (λ (t : ℕ). t * value addend) z))
  | inr e ↦ rw e (
      let z : x % 2 ≡ 1 = ground arith in
      ground (
        arith,
        double_add_lem result addend,
        le-mul x (value addend),
        ap (λ (t : ℕ). t * value addend) z,
      ))
]

-- Doubling the addend loses nothing while a later round still uses it.
shifted_lem :
    (x : ℕ) (addend : Double)
    → IsDouble addend
    → x * value addend < cap
    → x / 2 * value (double_shift_left addend) ≡ 2 * (x / 2 * value addend)
shifted_lem x addend va small = elim (Bool-cases (ltb x 2)) [
  | inl e ↦
      let z : x / 2 ≡ 0 = ground arith in
      omega (
        arith,
        ap (λ (t : ℕ). t * value (double_shift_left addend)) z,
        ap (λ (t : ℕ). t * value addend) z,
      )
  | inr e ↦
      let z : value (double_shift_left addend) ≡ value addend * 2 = ground (
        arith,
        double_shift_left_lem va,
        product_halves x (value addend),
        le-mul (x / 2) (value addend),
      ) in
      omega (arith, ap (λ (t : ℕ). x / 2 * t) z)
]

product_nil : (x a r : ℕ) → x ≡ 0 → r ≡ r + x * a
product_nil x a r e = omega (arith, ap (λ (t : ℕ). t * a) e)

multiply_loop_lem :
    (fuel x : ℕ) (addend result : Double)
    → x < 2 ^ fuel
    → IsDouble addend
    → IsDouble result
    → value result + x * value addend < cap
    → (z : Double) × (multiply_loop fuel x addend result ≡ some z)
      × (value z ≡ value result + x * value addend)
unfolding multiply_loop
multiply_loop_lem zero x addend result h va vr small =
    (result, ground arith, product_nil x (value addend) (value result) (omega arith))
multiply_loop_lem (suc fuel) x addend result h va vr small = elim (Bool-cases (x == 0)) [
  | inl done ↦ (result, rw done, product_nil x (value addend) (value result) (ground arith))
  | inr more ↦
      let one = taken_lem x addend result va vr (ground arith) small in
      let two = shifted_lem x addend va (omega arith) in
      let three = product_halves x (value addend) in
      let (z, e, r) =
        multiply_loop_lem fuel (x / 2) (double_shift_left addend) (taken x addend result)
          (omega (arith, two_pow-suc fuel)) (double_shift_left-IsDouble addend)
          (taken-IsDouble x addend result vr) (omega arith) in
      rw more (z, e, omega arith)
]

-- `ficl2UnsignedMultiply` ends and gives the product of two cells whenever that product is below 3
-- * 2 ^ 63.
pub double_multiply_lem :
    (x y : ℕ)
    → x < 2 ^ 64
    → y < 2 ^ 64
    → x * y < 3 * 2 ^ 63
    → (z : Double) × (double_multiply x y ≡ some z) × (value z ≡ x * y)
unfolding double_multiply
double_multiply_lem x y hx hy small =
    let (z, e, r) =
      multiply_loop_lem 64 x (double 0 y) (double 0 0) hx (omega arith) (omega arith)
        (omega arith) in
    (z, e, omega arith)

-- For a cell `y` that, with the low half of `2 * y`, adds up to 3 * 2 ^ 63 or more,
-- `ficl2UnsignedMultiply` of 3 and `y` gives a result 2 ^ 64 below their product.
pub double_multiply-three :
    (y : ℕ)
    → y < 2 ^ 64
    → 3 * 2 ^ 63 ≤ y + y * 2 % 2 ^ 64
    → (z : Double) × (double_multiply 3 y ≡ some z) × (value z + 2 ^ 64 ≡ 3 * y)
unfolding double_multiply multiply_loop
double_multiply-three y hy wide =
    let one = double_add (double 0 0) (double 0 y) in
    let two = double_shift_left (double 0 y) in
    (
      double_add one two,
      refl,
      ground (
        arith,
        double_add_lem (double 0 0) (double 0 y),
        double_shift_left_lem {x = double 0 y},
        double_shift_left-IsDouble (double 0 y),
        double_add-IsDouble (double 0 0) (double 0 y),
        double_add_lem one two,
      ),
    )

-- The sum of the two products that `ficl2UnsignedMultiplyAccumulate` takes its result from.
accumulate_halves : (u : Double) (mul : ℕ) → value u * mul ≡ u.high * mul * 2 ^ 64 + u.low * mul
accumulate_halves u mul = omega arith

-- `ficl2UnsignedMultiplyAccumulate` ends and gives `u * mul + more` modulo 2 ^ 128, whenever the
-- products of `mul` with the two halves of `u` are below 3 * 2 ^ 63.
pub multiply_accumulate_lem :
    (u : Double) (mul more : ℕ)
    → IsDouble u
    → mul < 2 ^ 64
    → more < 2 ^ 64
    → u.low * mul < 3 * 2 ^ 63
    → u.high * mul < 3 * 2 ^ 63
    → (z : Double) × (multiply_accumulate u mul more ≡ some z)
      × (value z ≡ (value u * mul + more) % 2 ^ 128)
unfolding multiply_accumulate
multiply_accumulate_lem u mul more vu hm hmore small_low small_high =
    let (lo, e, v) = double_multiply_lem u.low mul vu.low_fits hm small_low in
    let (hi, f, w) = double_multiply_lem u.high mul vu.high_fits hm small_high in
    let (lo', e', fits_lo) = double_multiply_total u.low mul vu.low_fits in
    let (hi', f', fits_hi) = double_multiply_total u.high mul vu.high_fits in
    let same_lo : lo' ≡ lo = cc in
    let same_hi : hi' ≡ hi = cc in
    let vl : IsDouble lo = subst IsDouble same_lo fits_lo in
    let vh : IsDouble hi = subst IsDouble same_hi fits_hi in
    let halves = accumulate_halves u mul in
    let high = add lo.high hi.low in
    let low = add lo.low more in
    let z = double (if ltb low lo.low then add high 1 else high) low in
    rw (multiply_accumulate, e, f) (z, refl, ground arith)
