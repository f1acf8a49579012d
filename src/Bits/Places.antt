-- ===== src/Bits/Places.antt =====
-- A bit that is set is found, and the others are what they were.
use Prim.Native.Nat.{bit_and, bit_or}
use ficl.Common.{
  ℕ, zero, suc, ◌+◌, ◌-◌, ◌*◌, ◌/◌, ◌%◌, ◌^◌, ◌<◌, ◌≡◌, refl, ap, ◌∙◌, Bool, true, false, ◌&&◌, ltb,
  ◌==◌, if◌then◌else◌, arith, Bool-cases, inl, inr,
}
use ficl.Bits.{Bytes, zeros, bit_get, bit_set}

abbrev pub IsBytes : Bytes → Type 0
IsBytes bytes = (j : ℕ) → bytes j < 256

unfoldable pub all_below : ℕ → (ℕ → Bool) → Bool
all_below zero p = true
all_below (suc n) p = p n && all_below n p

pub all_below_sound : (n : ℕ) (p : ℕ → Bool) (x : ℕ) → all_below n p ≡ true → x < n → p x ≡ true
unfolding all_below
all_below_sound zero p x h low = absurd (omega arith)
all_below_sound (suc n) p x h low = ground (arith, all_below_sound n p x)

-- The bit of a byte under a mask.
abbrev bit_of : ℕ → ℕ → ℕ
bit_of k b = if bit_and (128 / 2 ^ k) b == 0 then 0 else 1

-- Every byte, with every pair of places: what setting and clearing do.
abbrev set_law : ℕ → ℕ → ℕ → Bool
set_law b k l =
    bit_of l (bit_or b (128 / 2 ^ k)) == (if k == l then 1 else bit_of l b)
    && bit_of l (bit_and b (255 - 128 / 2 ^ k)) == (if k == l then 0 else bit_of l b)
    && ltb (bit_or b (128 / 2 ^ k)) 256
    && ltb (bit_and b (255 - 128 / 2 ^ k)) 256

set_law_table : all_below 16384 (λ x. set_law (x / 64) (x / 8 % 8) (x % 8)) ≡ true
unfolding all_below
set_law_table = refl

-- What the table says of a byte and two places.
record Law (b k l : ℕ) : Type 0 where
  one : bit_of l (bit_or b (128 / 2 ^ k)) ≡ (if k == l then 1 else bit_of l b)
  nought : bit_of l (bit_and b (255 - 128 / 2 ^ k)) ≡ (if k == l then 0 else bit_of l b)
  one_fits : bit_or b (128 / 2 ^ k) < 256
  nought_fits : bit_and b (255 - 128 / 2 ^ k) < 256

read-Law : (b k l : ℕ) → set_law b k l ≡ true → Law b k l
read-Law b k l h = record {
  one = ground (arith, h);
  nought = ground (arith, h);
  one_fits = ground (arith, h);
  nought_fits = ground (arith, h);
}

law : (b k l : ℕ) → b < 256 → k < 8 → l < 8 → Law b k l
law b k l hb hk hl =
    let x = b * 64 + k * 8 + l in
    let found =
      all_below_sound 16384 (λ y. set_law (y / 64) (y / 8 % 8) (y % 8)) x set_law_table
        (omega arith) in
    let first : x / 64 ≡ b = omega arith in
    let second : x / 8 % 8 ≡ k = omega arith in
    let third : x % 8 ≡ l = omega arith in read-Law b k l (rw (first, second, third) at found)

pub bit_set-IsBytes : (bytes : Bytes) (i v : ℕ) → IsBytes bytes → IsBytes (bit_set bytes i v)
unfolding bit_set
bit_set-IsBytes bytes i v fits j =
    let l = law (bytes (i / 8)) (i % 8) 0 (fits (i / 8)) (omega arith) (omega arith) in
    ground (arith, l.one_fits, l.nought_fits, fits j)

same_place : (i j : ℕ) → i / 8 ≡ j / 8 → (i == j) ≡ (i % 8 == j % 8)
same_place i j byte = ground arith

-- In an array of bytes, `ficlBitGet` finds the bit that `ficlBitSet` has set at its place, and at
-- every other place the bit that was there.
pub bit_get-bit_set :
    (bytes : Bytes) (i j v : ℕ)
    → IsBytes bytes
    → v < 2
    → bit_get (bit_set bytes i v) j ≡ (if i == j then v else bit_get bytes j)
unfolding bit_set bit_get
bit_get-bit_set bytes i j v fits two =
    let l = law (bytes (i / 8)) (i % 8) (j % 8) (fits (i / 8)) (omega arith) (omega arith) in
    elim (Bool-cases (i / 8 == j / 8)) [
      | inl same ↦
          let byte : i / 8 ≡ j / 8 = ground arith in
          let place : (i == j) ≡ (i % 8 == j % 8) = same_place i j byte in
          elim (Bool-cases (v == 0)) [
            | inl clear ↦
                let zero_v : v ≡ 0 = ground arith in
                rw (same, clear, place, zero_v)
                  (l.nought
                    ∙ ap (λ (b : ℕ). if i % 8 == j % 8 then 0 else bit_of (j % 8) (bytes b)) byte)
            | inr set ↦
                let one_v : v ≡ 1 = ground arith in
                rw (same, set, place, one_v)
                  (l.one
                    ∙ ap (λ (b : ℕ). if i % 8 == j % 8 then 1 else bit_of (j % 8) (bytes b)) byte)
          ]
      | inr apart ↦ let other : (i == j) ≡ false = ground (arith, apart) in rw (apart, other) refl
    ]

pub bit_get-below : (bytes : Bytes) (i : ℕ) → bit_get bytes i < 2
unfolding bit_get
bit_get-below bytes i = ground arith

nought_table : all_below 8 (λ k. bit_of k 0 == 0) ≡ true
unfolding all_below
nought_table = refl

pub bit_get-zeros : (i : ℕ) → bit_get zeros i ≡ 0
unfolding bit_get
bit_get-zeros i =
    let found = all_below_sound 8 (λ k. bit_of k 0 == 0) (i % 8) nought_table (omega arith) in
    ground (arith, found)
