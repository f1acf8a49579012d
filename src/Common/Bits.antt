-- ===== src/Common/Bits.antt =====
-- `|` of the native numbers, at every width, from its recursion on binary digits.
use Prim.Native.Nat.{max, digits, bit_or, bit_or-bitwise}
use Prim.Native.Nat.{ℕ, zero, suc, ◌+◌, ◌*◌, ◌/◌, ◌%◌, ◌^◌, ◌≤◌, ◌<◌}
use mathlib.Core.Path.{◌≡◌, refl, ap}
use native.Mathlib.Nat.{pow-suc}
use native.Mathlib.Omega.{arith}

-- The recursion that `|` stands for, on fuel.
abbrev or_digits : ℕ → ℕ → ℕ → ℕ
or_digits fuel x y = digits (λ y. y) max fuel x y

-- Fuel of the first number serves, and more changes nothing.
or_digits_lem : (bound fuel x y : ℕ) → fuel ≤ bound → x ≤ fuel → or_digits fuel x y ≡ bit_or x y
or_digits_lem bound zero zero y p q = omega (arith, bit_or-bitwise 0 y)
or_digits_lem bound (suc fuel) zero y p q = omega (arith, bit_or-bitwise 0 y)
or_digits_lem bound zero (suc x) y p q = absurd (omega (arith, q))
or_digits_lem zero (suc fuel) (suc x) y p q = absurd (omega (arith, p))
or_digits_lem (suc bound) (suc fuel) (suc x) y p q =
    let halves = or_digits_lem bound fuel (suc x / 2) (y / 2) (omega arith) (omega arith) in
    let least = or_digits_lem bound x (suc x / 2) (y / 2) (omega arith) (omega arith) in
    omega (arith, bit_or-bitwise (suc x) y, halves, least)

-- `|` on the lowest binary digit and on the rest.
pub bit_or_step : (x y : ℕ) → bit_or x y ≡ max (x % 2) (y % 2) + 2 * bit_or (x / 2) (y / 2)
bit_or_step zero y = omega (arith, bit_or-bitwise 0 y, bit_or-bitwise 0 (y / 2))
bit_or_step (suc x) y =
    let least = or_digits_lem x x (suc x / 2) (y / 2) (omega arith) (omega arith) in
    omega (arith, bit_or-bitwise (suc x) y, least)

bit_or-zero_below : (n a : ℕ) → a ≤ n → bit_or a 0 ≡ a
bit_or-zero_below n zero h = refl
bit_or-zero_below zero (suc a) h = absurd (omega arith)
bit_or-zero_below (suc n) (suc a) h =
    omega (arith, bit_or_step (suc a) 0, bit_or-zero_below n (suc a / 2) (omega arith))

pub bit_or-zero : (a : ℕ) → bit_or a 0 ≡ a
bit_or-zero a = bit_or-zero_below a a (omega arith)

pub zero-bit_or : (b : ℕ) → bit_or 0 b ≡ b
zero-bit_or b = omega (arith, bit_or-bitwise 0 b)

twice-pow : (q k : ℕ) → q * 2 ^ suc k ≡ 2 * (q * 2 ^ k)
twice-pow q k = omega (arith, ap (λ (t : ℕ). q * t) (pow-suc 2 k))

-- `|` of disjoint fields is their sum.
pub bit_or-add : (k q r : ℕ) → r < 2 ^ k → bit_or (q * 2 ^ k) r ≡ q * 2 ^ k + r
bit_or-add zero q r h = ground (arith, bit_or-zero q)
bit_or-add (suc k) q r h = ground (
  arith,
  bit_or_step (q * 2 ^ suc k) r,
  twice-pow q k,
  bit_or-add k q (r / 2) (omega (arith, pow-suc 2 k)),
)

pub bit_or-add_right : (k q r : ℕ) → r < 2 ^ k → bit_or r (q * 2 ^ k) ≡ r + q * 2 ^ k
bit_or-add_right zero q r h = ground (arith, zero-bit_or q)
bit_or-add_right (suc k) q r h = ground (
  arith,
  bit_or_step r (q * 2 ^ suc k),
  twice-pow q k,
  bit_or-add_right k q (r / 2) (omega (arith, pow-suc 2 k)),
)

pub bit_or-lt : (n a b : ℕ) → a < 2 ^ n → b < 2 ^ n → bit_or a b < 2 ^ n
bit_or-lt zero a b ha hb = let z : a ≡ 0 = omega arith in rw z (omega (arith, zero-bit_or b))
bit_or-lt (suc n) a b ha hb = omega (
  arith,
  pow-suc 2 n,
  bit_or_step a b,
  bit_or-lt n (a / 2) (b / 2) (omega (arith, pow-suc 2 n)) (omega (arith, pow-suc 2 n)),
)
