-- ===== src/Lz/Tokens.antt =====
-- The bits of a token, written and read.
use ficl.Common.{
  ℕ, ◌+◌, ◌-◌, ◌*◌, ◌^◌, ◌≤◌, ◌<◌, ◌≡◌, refl, ◌∙◌, true, false, ◌&&◌, ltb, leb, if◌then◌else◌,
  arith, Bool-cases, inl, inr, ◌⊎◌,
}
use native.Mathlib.Nat.{mod-eq_of_lt}
use Prim.Native.Nat.{bit_or}
use ficl.Common.Powers.{two_pow_mono}
use ficl.Common.Bits.{bit_or-add}
use ficl.Bits.{Bytes, bit_get, network_unsigned32, bytes_of}
use ficl.Bits.Places.{IsBytes, bit_get-below}
use ficl.Bits.Copies.{
  read_bits, read_bits-below, read_bits-add, read_bits_agree, copy_bits-IsBytes, bit_get-copy_bits,
}
use ficl.Bits.Order.{copy_bits-network_unsigned32}
use ficl.Lz.{Match, Stream, token_of, put_token}

-- A match that a token has room for.
pub record Fits (m : Match) : Type 0 where
  pub offset_fits : m.offset + m.length ≤ 2 ^ 12
  pub length_fits : m.length ≤ 33
  pub next_fits : m.next < 256
  pub useful : (m.length ≡ 0) ⊎ (2 ≤ m.length)

-- What the bits from a place on say of a match.
pub record Reads (f : Bytes) (i : ℕ) (m : Match) : Type 0 where
  pub kind : (m.length ≡ 0) ⊎ (2 ≤ m.length)
  pub first : bit_get f i ≡ (if ltb 1 m.length then 1 else 0)
  pub phrase : ltb 1 m.length ≡ true → read_bits f (i + 1) 17 ≡ m.offset * 2 ^ 5 + (m.length - 2)
  pub symbol : read_bits f (if ltb 1 m.length then i + 18 else i + 1) 8 ≡ m.next

phrase_token :
    (offset length next : ℕ)
    → offset < 2 ^ 12
    → length < 2 ^ 5
    → next < 2 ^ 8
    → bit_or (bit_or (bit_or (2 ^ 25) (offset * 2 ^ 13)) (length * 2 ^ 8)) next
      ≡ 2 ^ 25 + offset * 2 ^ 13 + length * 2 ^ 8 + next
phrase_token offset length next ho hl hn =
    let one = bit_or-add 25 1 (offset * 2 ^ 13) (omega arith) in
    let two = bit_or-add 13 (2 ^ 12 + offset) (length * 2 ^ 8) (omega arith) in
    let three = bit_or-add 8 ((2 ^ 12 + offset) * 2 ^ 5 + length) next hn in
    let a : bit_or (2 ^ 25) (offset * 2 ^ 13) ≡ (2 ^ 12 + offset) * 2 ^ 13 = one ∙ omega arith in
    let b : bit_or ((2 ^ 12 + offset) * 2 ^ 13) (length * 2 ^ 8)
        ≡ ((2 ^ 12 + offset) * 2 ^ 5 + length) * 2 ^ 8 =
      two ∙ omega arith in
    rw (a, b) (three ∙ omega arith)

read_bits-one : (f : Bytes) (i : ℕ) → read_bits f i 1 ≡ bit_get f i
unfolding read_bits
read_bits-one f i = let e : i + 0 ≡ i = omega arith in rw e (omega arith)

phrase_bits :
    (f : Bytes) (i offset length next : ℕ)
    → offset < 2 ^ 12
    → length < 2 ^ 5
    → next < 2 ^ 8
    → read_bits f i 26 ≡ 2 ^ 25 + offset * 2 ^ 13 + length * 2 ^ 8 + next
    → (bit_get f i ≡ 1)
      × (read_bits f (i + 1) 17 ≡ offset * 2 ^ 5 + length)
      × (read_bits f (i + 18) 8 ≡ next)
phrase_bits f i offset length next ho hl hn e =
    let a = read_bits-add f i 1 25 in
    let b = read_bits-add f (i + 1) 17 8 in
    let c = read_bits-one f i in
    let place : i + 1 + 17 ≡ i + 18 = omega arith in
    let d : read_bits f (i + 1) 25 ≡ read_bits f (i + 1) 17 * 2 ^ 8 + read_bits f (i + 18) 8 =
      rw place at b in
    let low = read_bits-below f (i + 18) 8 in
    let middle = read_bits-below f (i + 1) 17 in
    let high = bit_get-below f i in (omega arith, omega arith, omega arith)

symbol_bits :
    (f : Bytes) (i next : ℕ)
    → next < 2 ^ 8
    → read_bits f i 9 ≡ next
    → (bit_get f i ≡ 0) × (read_bits f (i + 1) 8 ≡ next)
symbol_bits f i next low e =
    let a = read_bits-add f i 1 8 in
    let b = read_bits-one f i in let c = read_bits-below f (i + 1) 8 in (omega arith, omega arith)

-- A token is below the power of two that its bits make.
token_of-below :
    (m : Match) → Fits m → ((token_of m).1 ≤ 32) × ((token_of m).0 < 2 ^ (token_of m).1)
unfolding token_of
token_of-below m fits = elim (Bool-cases (ltb 1 m.length)) [
  | inl long ↦
      let offset : m.offset < 2 ^ 12 = ground (arith, long, fits.offset_fits) in
      let value =
        phrase_token m.offset (m.length - 2) m.next offset (omega (arith, fits.length_fits))
          (omega (arith, fits.next_fits)) in
      let a = offset in
      let b = fits.length_fits in
      let c = fits.next_fits in rw (token_of, long) (omega arith, omega (arith, value, a, b, c))
  | inr short ↦ let c = fits.next_fits in rw (token_of, short) (omega arith, omega (arith, c))
]

token_of-Reads :
    (f : Bytes) (i : ℕ) (m : Match)
    → Fits m
    → read_bits f i (token_of m).1 ≡ (token_of m).0
    → Reads f i m
unfolding token_of
token_of-Reads f i m fits e = elim (Bool-cases (ltb 1 m.length)) [
  | inl long ↦
      let offset : m.offset < 2 ^ 12 = ground (arith, long, fits.offset_fits) in
      let value =
        phrase_token m.offset (m.length - 2) m.next offset (omega (arith, fits.length_fits))
          (omega (arith, fits.next_fits)) in
      let bits = rw (token_of, long) at e in
      let (first, phrase, symbol) =
        phrase_bits f i m.offset (m.length - 2) m.next offset (omega (arith, fits.length_fits))
          (omega (arith, fits.next_fits)) (bits ∙ value) in
      record {
        kind = fits.useful;
        first = rw long first;
        phrase = λ p. phrase;
        symbol = rw long symbol;
      }
  | inr short ↦
      let bits = rw (token_of, short) at e in
      let (first, symbol) = symbol_bits f i m.next (omega (arith, fits.next_fits)) bits in
      record {
        kind = fits.useful;
        first = rw short first;
        phrase = λ p. absurd (ground (arith, short, p));
        symbol = rw short symbol;
      }
]

-- What is written after a stream leaves it as it is.
pub record Extends (s t : Stream) : Type 0 where
  pub fits : IsBytes t.output
  pub further : s.position ≤ t.position
  pub kept : (j : ℕ) → j < s.position → bit_get t.output j ≡ bit_get s.output j

pub Extends-trans : {s t u : Stream} → Extends s t → Extends t u → Extends s u
Extends-trans a b = record {
  fits = b.fits;
  further = omega (arith, a.further, b.further);
  kept = λ j low. b.kept j (omega (arith, low, a.further)) ∙ a.kept j low;
}

pub put_token-Extends :
    (s : Stream) (token count : ℕ) → IsBytes s.output → Extends s (put_token s (token, count))
unfolding put_token
put_token-Extends s token count fits = record {
  fits =
      copy_bits-IsBytes count s.output (bytes_of (network_unsigned32 token)) s.position (32 - count)
        fits;
  further = omega arith;
  kept = λ j low.
      let outside : (leb s.position j && ltb j (s.position + count)) ≡ false = ground arith in
      bit_get-copy_bits count s.output (bytes_of (network_unsigned32 token)) s.position (32 - count)
        j fits
      ∙ rw outside refl;
}

-- Wherever the bits of a written token come to stand, they read as its match.
pub put_token-Reads :
    (s : Stream) (m : Match) (f : Bytes) (i : ℕ)
    → IsBytes s.output
    → Fits m
    → ((j : ℕ)
        → j < (token_of m).1
        → bit_get f (i + j) ≡ bit_get (put_token s (token_of m)).output (s.position + j))
    → Reads f i m
unfolding put_token
put_token-Reads s m f i fits room same =
    let (token, count) = token_of m in
    let (few, below) = token_of-below m room in
    let written =
      copy_bits-network_unsigned32 count token s.output s.position fits few
        (omega (arith, below, two_pow_mono count 32 few)) in
    token_of-Reads f i m room (
      read_bits_agree f (put_token s (token_of m)).output i s.position count same
      ∙ written
      ∙ mod-eq_of_lt below)
