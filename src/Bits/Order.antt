-- ===== src/Bits/Order.antt =====
-- Numbers in network order: the bits of a number in memory are those of its bytes, the greatest first.
use native.Mathlib.Nat.{mul-add-mod_self_right, mod-eq_of_lt}
use ficl.Common.{
  ℕ, zero, suc, ◌+◌, ◌-◌, ◌*◌, ◌/◌, ◌%◌, ◌^◌, ◌≤◌, ◌<◌, ◌≡◌, refl, sym, ap, ◌∙◌, true, ◌==◌, arith,
}
use ficl.Common.Bits.{bit_or-add}
use ficl.Bits.{
  Bytes, zeros, bit_get, copy_bits, bit_get_string, number_of, bytes_of, network_unsigned16,
  network_unsigned32,
}
use ficl.Bits.Places.{IsBytes, bit_get-zeros, all_below, all_below_sound}
use ficl.Bits.Copies.{
  read_bits, read_bits-below, read_bits-add, read_bits_agree, copy_bits-IsBytes,
  read_bits-copy_bits, read_bits-copy_bits_before,
}

byte_table : all_below 256 (λ b. read_bits (λ i. b) 0 8 == b) ≡ true
unfolding all_below bit_get read_bits
byte_table = refl

-- Eight bits from the start of a byte are the byte.
pub read_bits-byte : (bytes : Bytes) (j : ℕ) → IsBytes bytes → read_bits bytes (8 * j) 8 ≡ bytes j
unfolding bit_get
read_bits-byte bytes j fits =
    let found =
      all_below_sound 256 (λ b. read_bits (λ i. b) 0 8 == b) (bytes j) byte_table (fits j) in
    let whole : read_bits (λ i. bytes j) 0 8 ≡ bytes j = ground (arith, found) in
    read_bits_agree bytes (λ i. bytes j) (8 * j) 0 8
      (λ l low.
        let byte : (8 * j + l) / 8 ≡ j = omega arith in
        let place : (8 * j + l) % 8 ≡ (0 + l) % 8 = omega arith in rw (byte, place) refl)
    ∙ whole

read_bits-number :
    (bytes : Bytes)
    → IsBytes bytes
    → read_bits bytes 0 32 ≡ bytes 0 * 2 ^ 24 + bytes 1 * 2 ^ 16 + bytes 2 * 2 ^ 8 + bytes 3
read_bits-number bytes fits =
    let a = read_bits-add bytes 0 8 24 in
    let b = read_bits-add bytes 8 8 16 in
    let c = read_bits-add bytes 16 8 8 in
    omega (
      arith,
      a,
      b,
      c,
      read_bits-byte bytes 0 fits,
      read_bits-byte bytes 1 fits,
      read_bits-byte bytes 2 fits,
      read_bits-byte bytes 3 fits,
    )

network_unsigned16_lem :
    (number : ℕ) → network_unsigned16 number ≡ number % 256 * 256 + number / 256 % 256
unfolding network_unsigned16
network_unsigned16_lem number = bit_or-add 8 (number % 256) (number / 256 % 256) (omega arith)

network_unsigned32_lem :
    (number : ℕ)
    → network_unsigned32 number
      ≡ bytes_of number 0 * 2 ^ 24
        + bytes_of number 1 * 2 ^ 16
        + bytes_of number 2 * 2 ^ 8
        + bytes_of number 3
unfolding network_unsigned32
network_unsigned32_lem number =
    let low = network_unsigned16_lem (number % 2 ^ 16) in
    let high = network_unsigned16_lem (number / 2 ^ 16 % 2 ^ 16) in
    let sum =
      bit_or-add 16 (network_unsigned16 (number % 2 ^ 16))
        (network_unsigned16 (number / 2 ^ 16 % 2 ^ 16)) (omega (arith, high)) in
    omega (arith, low, high, sum)

bytes_of-number_of :
    (a b c d : ℕ)
    → a < 256
    → b < 256
    → c < 256
    → d < 256
    → let t = a + b * 256 + c * 256 ^ 2 + d * 256 ^ 3 in
      bytes_of t 0 * 2 ^ 24 + bytes_of t 1 * 2 ^ 16 + bytes_of t 2 * 2 ^ 8 + bytes_of t 3
      ≡ a * 2 ^ 24 + b * 2 ^ 16 + c * 2 ^ 8 + d
bytes_of-number_of a b c d ha hb hc hd = omega arith

read_bits-zeros : (n : ℕ) → read_bits zeros 0 n ≡ 0
unfolding read_bits
read_bits-zeros zero = refl
read_bits-zeros (suc n) = omega (arith, read_bits-zeros n, bit_get-zeros (0 + n))

read_bits-network :
    (number : ℕ) → number < 2 ^ 32 → read_bits (bytes_of (network_unsigned32 number)) 0 32 ≡ number
read_bits-network number small =
    let whole = read_bits-number (bytes_of (network_unsigned32 number)) (λ j. omega arith) in
    let order = network_unsigned32_lem number in omega (arith, whole, order, small)

-- The number that bits moved to the end of a number in memory stand for.
pub network_unsigned32-bit_get_string :
    (from : Bytes) (k n : ℕ)
    → n ≤ 32
    → network_unsigned32 (number_of (bit_get_string zeros from k n 32)) ≡ read_bits from k n
unfolding bit_get_string
network_unsigned32-bit_get_string from k n few =
    let to = copy_bits n zeros (32 - n) from k in
    let fits = copy_bits-IsBytes n zeros from (32 - n) k (λ j. omega arith) in
    let all : 32 - n + n ≡ 32 = omega arith in
    let start : 0 + (32 - n) ≡ 32 - n = omega arith in
    let parts : read_bits to 0 32 ≡ read_bits to 0 (32 - n) * 2 ^ n + read_bits to (32 - n) n =
      rw (all, start) at (read_bits-add to 0 (32 - n) n) in
    let front =
      read_bits-copy_bits_before n (32 - n) zeros from (32 - n) 0 k (λ j. omega arith)
        (omega arith) in
    let back = read_bits-copy_bits n zeros from (32 - n) k (λ j. omega arith) in
    let none_set = read_bits-zeros (32 - n) in
    let order = network_unsigned32_lem (number_of to) in
    let whole = read_bits-number to fits in
    let sum : bytes_of (number_of to) 0 * 2 ^ 24
          + bytes_of (number_of to) 1 * 2 ^ 16
          + bytes_of (number_of to) 2 * 2 ^ 8
          + bytes_of (number_of to) 3
        ≡ to 0 * 2 ^ 24 + to 1 * 2 ^ 16 + to 2 * 2 ^ 8 + to 3 =
      bytes_of-number_of (to 0) (to 1) (to 2) (to 3) (fits 0) (fits 1) (fits 2) (fits 3) in
    omega (
      arith,
      order,
      sum,
      whole,
      parts,
      front,
      none_set,
      back,
      ap (λ (t : ℕ). t * 2 ^ n) (front ∙ none_set),
    )

pub bit_get_string-byte :
    (from : Bytes) (k : ℕ) → bit_get_string zeros from k 8 8 0 ≡ read_bits from k 8
unfolding bit_get_string
bit_get_string-byte from k =
    sym (
      read_bits-byte (copy_bits 8 zeros 0 from k) 0
        (copy_bits-IsBytes 8 zeros from 0 k (λ j. omega arith)))
    ∙ read_bits-copy_bits 8 zeros from 0 k (λ j. omega arith)

-- The low bits of a number, moved out of it.
last_bits : (number q r n : ℕ) → r < 2 ^ n → number ≡ q * 2 ^ n + r → r ≡ number % 2 ^ n
last_bits number q r n low e =
    sym (ap (λ (t : ℕ). t % 2 ^ n) e ∙ mul-add-mod_self_right q (2 ^ n) r ∙ mod-eq_of_lt low)

pub copy_bits-network_unsigned32 :
    (n number : ℕ) (to : Bytes) (i : ℕ)
    → IsBytes to
    → n ≤ 32
    → number < 2 ^ 32
    → read_bits (copy_bits n to i (bytes_of (network_unsigned32 number)) (32 - n)) i n
      ≡ number % 2 ^ n
copy_bits-network_unsigned32 n number to i fits few small =
    let from = bytes_of (network_unsigned32 number) in
    let moved = read_bits-copy_bits n to from i (32 - n) fits in
    let all : 32 - n + n ≡ 32 = omega arith in
    let start : 0 + (32 - n) ≡ 32 - n = omega arith in
    let parts : read_bits from 0 32
        ≡ read_bits from 0 (32 - n) * 2 ^ n + read_bits from (32 - n) n =
      rw (all, start) at (read_bits-add from 0 (32 - n) n) in
    let whole = read_bits-network number small in
    let low = read_bits-below from (32 - n) n in
    moved
    ∙ last_bits number (read_bits from 0 (32 - n)) (read_bits from (32 - n) n) n low
        (sym whole ∙ parts)
