-- ===== src/Vm/Compute/Laws.antt =====
-- The arithmetic and comparison instructions, against the signed numbers that cells stand for.
use native.Mathlib.Nat.{mul-add-div_right, div-eq_of_lt}
use mathlib.Core.Bool.{xor}
use ficl.Common.{
  ℕ, ◌+◌, ◌-◌, ◌*◌, ◌/◌, ◌^◌, ◌≤◌, ◌<◌, ◌≡◌, ◌≢◌, refl, Bool, true, false, ◌&&◌, ◌==◌,
  if◌then◌else◌, arith, Bool-cases, inl, inr, ap, ◌∙◌, ◌⊎◌,
}
use ficl.Common.Int.{ℤ, pos, negsuc, ◌≤ℤ◌, ◌<ℤ◌}
use ficl.Cell.{cell_mod, is_negative, signed_lt, magnitude}
use ficl.Double.{Double, Qr, double_is_negative}
use ficl.Double.Add.{value, IsDouble}
use ficl.Double.Signed.{divide_symmetric_lem, signed_pattern, size}
use ficl.Outcome.{Outcome, ok}
use ficl.Vm.Compute.{
  slash, equals, less, u_less, greater_than, max_cells, min_cells, quotient, binary, sign_extend,
  divide,
}

-- The signed number of a cell.
abbrev pub to_ℤ : ℕ → ℤ
to_ℤ x = if is_negative x then negsuc (2 ^ 64 - x - 1) else pos x

-- A flag that is true exactly when `P` holds.
abbrev pub Decides : Outcome ℕ → Type 0 → Type 0
Decides o P = (o ≡ ok (2 ^ 64 - 1)) × P ⊎ (o ≡ ok 0) × (P → ⊥)

-- On two cells, `<` and `>` decide the order of the signed numbers that the cells stand for, `u<`
-- the order of the unsigned ones, and `=` whether they are the same; the flag is all ones for true
-- and zero for false.
comparisons :
    (x y : ℕ)
    → x < 2 ^ 64
    → y < 2 ^ 64
    → Decides (binary less x y) (to_ℤ x <ℤ to_ℤ y)
      × Decides (binary greater_than x y) (to_ℤ y <ℤ to_ℤ x)
      × Decides (binary u_less x y) (x < y)
      × Decides (binary equals x y) (x ≡ y)
unfolding binary
comparisons x y hx hy = (ground arith, ground arith, ground arith, ground arith)

-- On two cells, `max` gives one of them and `min` the other, and as signed numbers neither cell is
-- above that of `max` or below that of `min`.
extremes :
    (x y : ℕ)
    → x < 2 ^ 64
    → y < 2 ^ 64
    → (m n : ℕ) × (binary max_cells x y ≡ ok m)
      × (binary min_cells x y ≡ ok n)
      × ((m ≡ x) × (n ≡ y) ⊎ (m ≡ y) × (n ≡ x))
      × (to_ℤ n ≤ℤ to_ℤ x)
      × (to_ℤ n ≤ℤ to_ℤ y)
      × (to_ℤ x ≤ℤ to_ℤ m)
      × (to_ℤ y ≤ℤ to_ℤ m)
unfolding binary
extremes x y hx hy = elim (Bool-cases (signed_lt x y)) [
  | inl e ↦ (
    y,
    x,
    ground arith,
    ground arith,
    inr (refl, refl),
    ground arith,
    ground arith,
    ground arith,
    ground arith,
  )
  | inr e ↦ (
    x,
    y,
    ground arith,
    ground arith,
    inl (refl, refl),
    ground arith,
    ground arith,
    ground arith,
    ground arith,
  )
]

-- The quotient of sizes is unique.
quotient_unique : (q n m a : ℕ) → q * m + n ≡ a → n < m → a / m ≡ q
quotient_unique q n m a e h =
    rw (← e)
      (mul-add-div_right (omega arith) q n ∙ ap (λ (t : ℕ). q + t) (div-eq_of_lt h) ∙ (omega arith))

sign_extend-size : (x : ℕ) → x < 2 ^ 64 → size (sign_extend x) ≡ magnitude x
unfolding sign_extend double_is_negative
sign_extend-size x h = ground arith

sign_extend-IsDouble : (x : ℕ) → x < 2 ^ 64 → IsDouble (sign_extend x)
unfolding sign_extend
sign_extend-IsDouble x h = ground arith

sign_extend-sign : (x : ℕ) → double_is_negative (sign_extend x) ≡ is_negative x
unfolding sign_extend double_is_negative
sign_extend-sign x = ground arith

low_pattern :
    (b : Bool) (z : Double) (q : ℕ)
    → IsDouble z
    → value z ≡ signed_pattern (2 ^ 128) b q
    → q ≤ 2 ^ 63
    → z.low ≡ signed_pattern (2 ^ 64) b q
low_pattern true z q f v h = omega arith
low_pattern false z q f v h = omega arith

le-mul : (q m : ℕ) → 1 ≤ m → q ≤ q * m
le-mul q m h = grind arith

quotient_small :
    (q n x y : ℕ) → x < 2 ^ 64 → y < 2 ^ 64 → y ≢ 0 → q * magnitude y + n ≡ magnitude x → q ≤ 2 ^ 63
quotient_small q n x y hx hy ne total =
    let one : 1 ≤ magnitude y = ground arith in
    let half : magnitude x ≤ 2 ^ 63 = ground arith in omega (arith, le-mul q (magnitude y) one)

quotient_pattern :
    (x y : ℕ)
    → y ≢ 0
    → (x ≢ 2 ^ 63) ⊎ (y ≢ 2 ^ 64 - 1)
    → quotient x y
      ≡ ok (
          signed_pattern (2 ^ 64) (xor (is_negative x) (is_negative y)) (magnitude x / magnitude y))
unfolding quotient xor
quotient_pattern x y ne fits =
    let one : (y == 0) ≡ false = ground arith in
    let two : (x == 2 ^ 63 && y == cell_mod - 1) ≡ false = ground arith in
    elim (Bool-cases (is_negative x)) [
      | inl e ↦ elim (Bool-cases (is_negative y)) [
        | inl f ↦ rw (one, two, e, f) refl
        | inr f ↦ rw (one, two, e, f) refl
      ]
      | inr e ↦ elim (Bool-cases (is_negative y)) [
        | inl f ↦ rw (one, two, e, f) refl
        | inr f ↦ rw (one, two, e, f) refl
      ]
    ]

-- For cells `x` and `y` with `y` not zero, and not the least cell by -1, the division that `/mod`
-- makes has a result, and the quotient of `/` is the low cell of its quotient.
pub slash-slash_mod :
    (x y : ℕ)
    → x < 2 ^ 64
    → y < 2 ^ 64
    → y ≢ 0
    → (x ≢ 2 ^ 63) ⊎ (y ≢ 2 ^ 64 - 1)
    → (r : Qr) × (divide (sign_extend x) y ≡ ok r) × (binary slash x y ≡ ok r.quotient.low)
unfolding binary divide
slash-slash_mod x y hx hy ne fits =
    let num = sign_extend x in
    let wide : IsDouble num = sign_extend-IsDouble x hx in
    let (r, e, q, n, total, small, v, rest, f) = divide_symmetric_lem num y wide hy ne in
    let same = sign_extend-sign x in
    let total' = total ∙ sign_extend-size x hx in
    let size_q = quotient_unique q n (magnitude y) (magnitude x) total' small in
    let low =
      low_pattern (xor (is_negative x) (is_negative y)) r.quotient q f (rw (← same) v)
        (quotient_small q n x y hx hy ne total') in
    (r, rw e (ground arith), rw (low, ← size_q) (quotient_pattern x y ne fits))
