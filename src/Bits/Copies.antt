-- ===== src/Bits/Copies.antt =====
-- Bits that are read in a row, as the number that they stand for, and bits that are moved.
use ficl.Common.{
  ℕ, zero, suc, ◌+◌, ◌-◌, ◌*◌, ◌/◌, ◌^◌, ◌≤◌, ◌<◌, ◌≡◌, refl, ap, ◌∙◌, true, false, ◌&&◌, ltb, leb,
  ◌==◌, if◌then◌else◌, arith, Bool-cases, inl, inr,
}
use ficl.Common.Powers.{two_pow-suc}
use ficl.Bits.{Bytes, bit_get, bit_set, copy_bits}
use ficl.Bits.Places.{IsBytes, bit_set-IsBytes, bit_get-bit_set, bit_get-below}

pub copy_bits-IsBytes :
    (n : ℕ) (to from : Bytes) (i k : ℕ) → IsBytes to → IsBytes (copy_bits n to i from k)
unfolding copy_bits
copy_bits-IsBytes zero to from i k fits = fits
copy_bits-IsBytes (suc n) to from i k fits =
    copy_bits-IsBytes n (bit_set to i (bit_get from k)) from (i + 1) (k + 1)
      (bit_set-IsBytes to i (bit_get from k) fits)

-- The bits moved are the source's; the others are what they were.
pub bit_get-copy_bits :
    (n : ℕ) (to from : Bytes) (i k j : ℕ)
    → IsBytes to
    → bit_get (copy_bits n to i from k) j
      ≡ (if leb i j && ltb j (i + n) then bit_get from (k + (j - i)) else bit_get to j)
unfolding copy_bits
bit_get-copy_bits zero to from i k j fits = ground arith
bit_get-copy_bits (suc n) to from i k j fits =
    let first = bit_get-bit_set to i j (bit_get from k) fits (bit_get-below from k) in
    let rest =
      bit_get-copy_bits n (bit_set to i (bit_get from k)) from (i + 1) (k + 1) j
        (bit_set-IsBytes to i (bit_get from k) fits) in
    rest ∙ elim (Bool-cases (i == j)) [
      | inl here ↦
          let before : (leb (i + 1) j && ltb j (i + 1 + n)) ≡ false = ground (arith, here) in
          let within : (leb i j && ltb j (i + suc n)) ≡ true = ground (arith, here) in
          let start : k + (j - i) ≡ k = ground (arith, here) in
          rw (before, within, start) (first ∙ rw here refl)
      | inr apart ↦ elim (Bool-cases (leb i j && ltb j (i + suc n))) [
        | inl inside ↦
            let later : (leb (i + 1) j && ltb j (i + 1 + n)) ≡ true =
              ground (arith, apart, inside) in
            let place : k + 1 + (j - (i + 1)) ≡ k + (j - i) = ground (arith, apart, inside) in
            rw (inside, later, place) refl
        | inr outside ↦
            let later : (leb (i + 1) j && ltb j (i + 1 + n)) ≡ false =
              ground (arith, apart, outside) in
            rw (outside, later) (first ∙ rw apart refl)
      ]
    ]

-- The number that `n` bits from a place on stand for, the first the greatest.
unfoldable pub read_bits : Bytes → ℕ → ℕ → ℕ
read_bits bytes i zero = 0
read_bits bytes i (suc n) = read_bits bytes i n * 2 + bit_get bytes (i + n)

pub read_bits-below : (bytes : Bytes) (i n : ℕ) → read_bits bytes i n < 2 ^ n
unfolding read_bits
read_bits-below bytes i zero = omega arith
read_bits-below bytes i (suc n) =
    omega (arith, read_bits-below bytes i n, bit_get-below bytes (i + n), two_pow-suc n)

pub read_bits-add :
    (bytes : Bytes) (i m n : ℕ)
    → read_bits bytes i (m + n) ≡ read_bits bytes i m * 2 ^ n + read_bits bytes (i + m) n
unfolding read_bits
read_bits-add bytes i m zero = let e : m + 0 ≡ m = omega arith in rw e (omega arith)
read_bits-add bytes i m (suc n) =
    let e : m + suc n ≡ suc (m + n) = omega arith in
    let f : i + (m + n) ≡ i + m + n = omega arith in
    rw (e, f, read_bits-add bytes i m n)
      (omega (arith, two_pow-suc n, ap (λ (t : ℕ). read_bits bytes i m * t) (two_pow-suc n)))

pub read_bits_agree :
    (a b : Bytes) (i k n : ℕ)
    → ((j : ℕ) → j < n → bit_get a (i + j) ≡ bit_get b (k + j))
    → read_bits a i n ≡ read_bits b k n
unfolding read_bits
read_bits_agree a b i k zero same = refl
read_bits_agree a b i k (suc n) same =
    let last = same n (omega arith) in
    let rest = read_bits_agree a b i k n (λ j low. same j (omega arith)) in
    omega (arith, last, rest)

-- The bits that were moved, and those before and after them.
pub read_bits-copy_bits :
    (n : ℕ) (to from : Bytes) (i k : ℕ)
    → IsBytes to
    → read_bits (copy_bits n to i from k) i n ≡ read_bits from k n
read_bits-copy_bits n to from i k fits =
    read_bits_agree (copy_bits n to i from k) from i k n (λ j low.
      let inside : (leb i (i + j) && ltb (i + j) (i + n)) ≡ true = ground arith in
      let place : i + j - i ≡ j = omega arith in
      bit_get-copy_bits n to from i k (i + j) fits ∙ rw (inside, place) refl)

pub read_bits-copy_bits_before :
    (n m : ℕ) (to from : Bytes) (i j k : ℕ)
    → IsBytes to
    → j + m ≤ i
    → read_bits (copy_bits n to i from k) j m ≡ read_bits to j m
read_bits-copy_bits_before n m to from i j k fits before =
    read_bits_agree (copy_bits n to i from k) to j j m (λ l low.
      let outside : (leb i (j + l) && ltb (j + l) (i + n)) ≡ false = ground arith in
      bit_get-copy_bits n to from i k (j + l) fits ∙ rw outside refl)

-- The bytes in front of those that bits are moved to.
pub copy_bits-before :
    (n : ℕ) (to from : Bytes) (i k j : ℕ) → j < i / 8 → copy_bits n to i from k j ≡ to j
unfolding copy_bits bit_set
copy_bits-before zero to from i k j low = refl
copy_bits-before (suc n) to from i k j low =
    let other : (i / 8 == j) ≡ false = ground arith in
    copy_bits-before n (bit_set to i (bit_get from k)) from (i + 1) (k + 1) j (omega arith)
    ∙ rw other refl
