-- ===== src/Common/Powers.antt =====
-- Powers of two.
use native.Mathlib.Nat.{pow-suc, one-le-pow}
use ficl.Common.{ℕ, zero, suc, ◌+◌, ◌-◌, ◌*◌, ◌^◌, ◌≤◌, ◌≡◌, ap, arith}

pub two_pow-suc : (k : ℕ) → 2 ^ suc k ≡ 2 * 2 ^ k
two_pow-suc k = omega (arith, pow-suc 2 k)

pub two_pow-pos : (k : ℕ) → 1 ≤ 2 ^ k
two_pow-pos k = one-le-pow k 2 (omega arith)

pub two_pow-add : (a b : ℕ) → 2 ^ (a + b) ≡ 2 ^ a * 2 ^ b
two_pow-add zero b = let e : 0 + b ≡ b = omega arith in omega (arith, ap (λ (t : ℕ). 2 ^ t) e)
two_pow-add (suc a) b = omega (
  arith,
  ap (λ (t : ℕ). 2 ^ t) (let e : suc a + b ≡ suc (a + b) = omega arith in e),
  two_pow-suc (a + b),
  two_pow-suc a,
  ap (λ (t : ℕ). t * 2 ^ b) (two_pow-suc a),
  two_pow-add a b,
)

pub two_pow_mono : (a b : ℕ) → a ≤ b → 2 ^ a ≤ 2 ^ b
two_pow_mono a b h = grind (
  arith,
  two_pow-add a (b - a),
  ap (λ (t : ℕ). 2 ^ t) (let e : a + (b - a) ≡ b = omega arith in e),
  two_pow-pos (b - a),
)
