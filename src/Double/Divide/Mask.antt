-- ===== src/Double/Divide/Mask.antt =====
-- `ficl2UnsignedOr` with a mask of one bit, as `ficl2UnsignedDivide` uses it.
use Prim.Native.Nat.{bit_or}
use ficl.Common.{
  ℕ, suc, ◌+◌, ◌-◌, ◌*◌, ◌^◌, ◌≤◌, ◌<◌, ◌≡◌, ltb, arith, ap, inl, inr, Bool-cases, ◌⊎◌,
}
use ficl.Common.Powers.{two_pow-suc, two_pow-pos, two_pow-add, two_pow_mono}
use ficl.Common.Bits.{bit_or-add, bit_or-zero, bit_or-lt}
use native.Mathlib.Nat.{le_of_mul-le-mul_right}
use ficl.Double.{Double, double, double_or}
use ficl.Double.Add.{value, IsDouble}

sub-product : (a b p : ℕ) → b ≤ a → (a - b) * p + b * p ≡ a * p
sub-product a b p h = let e : a - b + b ≡ a = omega arith in omega (arith, ap (λ (t : ℕ). t * p) e)

-- `|` with a power of two below every digit of the other number, in one cell.
bit_or_pow : (m k n : ℕ) → n ≡ m * 2 ^ suc k → bit_or n (2 ^ k) ≡ n + 2 ^ k
bit_or_pow m k n e =
    rw e (bit_or-add (suc k) m (2 ^ k) (omega (arith, two_pow-suc k, two_pow-pos k)))

-- The quotient so far is a multiple of twice the mask, so `|` adds the mask.
double_or_low :
    (m k : ℕ) (x y : Double)
    → IsDouble x
    → k < 64
    → value x ≡ m * 2 ^ suc k
    → y ≡ double 0 (2 ^ k)
    → value (double_or x y) ≡ value x + 2 ^ k
unfolding double_or
double_or_low m k x y vx small multiple e =
    let p : ℕ = 2 ^ suc k in
    let c : ℕ = 2 ^ (63 - k) in
    let whole : 2 ^ 64 ≡ c * p = omega (
      arith,
      two_pow-add (63 - k) (suc k),
      ap (λ (t : ℕ). 2 ^ t) (let s : 63 - k + suc k ≡ 64 = omega arith in s),
    ) in
    let top = ap (λ (t : ℕ). x.high * t) whole in
    let below : x.high * c ≤ m =
      le_of_mul-le-mul_right {m = x.high * c} {n = m} {k = p} (omega arith) (two_pow-pos (suc k)) in
    let low : x.low ≡ (m - x.high * c) * p = omega (arith, sub-product m (x.high * c) p below) in
    rw e (omega (arith, bit_or_pow (m - x.high * c) k x.low low, bit_or-zero x.high))

double_or_high :
    (m k : ℕ) (x y : Double)
    → IsDouble x
    → value x ≡ m * 2 ^ suc (64 + k)
    → y ≡ double (2 ^ k) 0
    → value (double_or x y) ≡ value x + 2 ^ (64 + k)
unfolding double_or
double_or_high m k x y vx multiple e =
    let p : ℕ = 2 ^ suc k in
    let whole : 2 ^ suc (64 + k) ≡ p * 2 ^ 64 =
      omega (arith, two_pow-add 64 k, two_pow-suc (64 + k), two_pow-suc k) in
    let top = ap (λ (t : ℕ). m * t) whole in
    let high : x.high ≡ m * p = omega arith in
    rw e (omega (arith, bit_or_pow m k x.high high, bit_or-zero x.low, two_pow-add 64 k))

pub double_or-IsDouble : (x y : Double) → IsDouble x → IsDouble y → IsDouble (double_or x y)
unfolding double_or
double_or-IsDouble x y vx vy = record {
  high_fits = bit_or-lt 64 x.high y.high vx.high_fits vy.high_fits;
  low_fits = bit_or-lt 64 x.low y.low vx.low_fits vy.low_fits;
}

-- A double with the value of a power of two has one half empty.
abbrev OneHalf : Double → ℕ → Type 0
OneHalf y k = ((k < 64) × (y ≡ double 0 (2 ^ k))) ⊎ ((64 ≤ k) × (y ≡ double (2 ^ (k - 64)) 0))

one_half : (y : Double) (k : ℕ) → IsDouble y → value y ≡ 2 ^ k → OneHalf y k
one_half y k vy e = elim (Bool-cases (ltb k 64)) [
  | inl small ↦
      let lt : k < 64 = ground arith in
      let grow = two_pow_mono (suc k) 64 lt in
      inl (lt, ground (arith, two_pow-suc k, two_pow-pos k))
  | inr large ↦
      let ge : 64 ≤ k = ground arith in
      let split : 2 ^ k ≡ 2 ^ 64 * 2 ^ (k - 64) = omega (
        arith,
        two_pow-add 64 (k - 64),
        ap (λ (t : ℕ). 2 ^ t) (let s : 64 + (k - 64) ≡ k = omega arith in s),
      ) in
      inr (ge, ground arith)
]

pub double_or_lem :
    (m k : ℕ) (x y : Double)
    → IsDouble x
    → IsDouble y
    → value x ≡ m * 2 ^ suc k
    → value y ≡ 2 ^ k
    → value (double_or x y) ≡ value x + 2 ^ k
double_or_lem m k x y vx vy multiple e = elim (one_half y k vy e) [
  | inl (lt, shape) ↦ double_or_low m k x y vx lt multiple shape
  | inr (ge, shape) ↦
      let s : 64 + (k - 64) ≡ k = omega arith in
      let p = ap (λ (t : ℕ). 2 ^ t) s in
      let q = ap (λ (t : ℕ). m * 2 ^ suc t) s in
      omega (arith, double_or_high m (k - 64) x y vx (omega arith) shape)
]
