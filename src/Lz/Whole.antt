-- ===== src/Lz/Whole.antt =====
-- A text that is compressed and uncompressed, with the header in front of the stream.
use ficl.Common.{
  ℕ, ◌+◌, ◌-◌, ◌*◌, ◌/◌, ◌%◌, ◌<◌, ◌≡◌, refl, ap, ◌∙◌, true, false, ltb, if◌then◌else◌, arith, some,
}
use ficl.Bits.{Bytes, zeros, bit_get}
use ficl.Bits.Places.{IsBytes}
use ficl.Lz.{
  Stream, token_stream, compress, uncompress_loop, uncompress, encode_header_field,
  decode_header_field,
}
use ficl.Lz.Fields.{IsField, encode_header_field-Written}
use ficl.Lz.RoundTrip.{restored}

zeros-IsBytes : IsBytes zeros
zeros-IsBytes j = omega arith

-- The header and the stream behind it.
abbrev after_header : Bytes → ℕ → Bytes → Bytes
after_header header length output j = if ltb j length then header j else output (j - length)

header_byte :
    (header output : Bytes) (length j : ℕ)
    → j < length
    → after_header header length output j ≡ header j
header_byte header output length j low = let e : ltb j length ≡ true = ground arith in rw e refl

stream_bit :
    (header output : Bytes) (length j : ℕ)
    → bit_get (after_header header length output) (length * 8 + j) ≡ bit_get output j
unfolding bit_get
stream_bit header output length j =
    let behind : ltb ((length * 8 + j) / 8) length ≡ false = ground arith in
    let byte : (length * 8 + j) / 8 - length ≡ j / 8 = omega arith in
    let place : (length * 8 + j) % 8 ≡ j % 8 = omega arith in rw (behind, byte, place) refl

-- The two fields of the header, as they are read from what was compressed.
record Header (text : Bytes) (size middle start : ℕ) (f : Bytes) : Type 0 where
  bits : decode_header_field f 0 ≡ ((token_stream text size).position, middle)
  whole : decode_header_field f middle ≡ (size, start)
  behind : (j : ℕ) → bit_get f (start * 8 + j) ≡ bit_get (token_stream text size).output j

compress-Header :
    (text : Bytes) (size : ℕ)
    → IsField size
    → IsField (token_stream text size).position
    → let (first, middle) = encode_header_field zeros (token_stream text size).position 0 in
      Header text size middle (encode_header_field first size middle).1 (compress text size).0
unfolding compress
compress-Header text size size_field bits_field =
    let s = token_stream text size in
    let one = encode_header_field zeros s.position 0 in
    let two = encode_header_field one.0 size one.1 in
    let first = encode_header_field-Written zeros s.position 0 zeros-IsBytes bits_field in
    let second = encode_header_field-Written one.0 size one.1 first.fits size_field in
    let f = after_header two.0 two.1 s.output in
    record {
      bits = first.read_back f (λ j from to.
          header_byte two.0 s.output two.1 j (omega (arith, to, second.further))
          ∙ second.before j to);
      whole = second.read_back f (λ j from to. header_byte two.0 s.output two.1 j to);
      behind = stream_bit two.0 s.output two.1;
    }

uncompress-some :
    (f : Bytes) (bits middle size start : ℕ) (out : Bytes)
    → decode_header_field f 0 ≡ (bits, middle)
    → decode_header_field f middle ≡ (size, start)
    → uncompress_loop bits f (bits + start * 8) (start * 8) 0 0 zeros ≡ some out
    → uncompress f ≡ some (out, size)
unfolding uncompress
uncompress-some f bits middle size start out first second loop =
    let number : (decode_header_field f 0).0 ≡ bits = ap (λ p. p.0) first in
    let place : (decode_header_field f 0).1 ≡ middle = ap (λ p. p.1) first in
    let whole : (decode_header_field f (decode_header_field f 0).1).0 ≡ size =
      ap (λ k. (decode_header_field f k).0) place ∙ ap (λ p. p.0) second in
    let behind : (decode_header_field f middle).1 ≡ start = ap (λ p. p.1) second in
    rw (uncompress, number, place, behind, loop, whole) refl

-- What `ficlLzCompress` makes of bytes `ficlLzUncompress` turns into the same number of bytes, each
-- of them the one that it was, where the size and the number of bits of the stream are below 2 ^ 31
-- and are neither 252 nor 65536, the two numbers that a field of the header does not keep.
pub uncompress-compress :
    (text : Bytes) (size j : ℕ)
    → IsBytes text
    → IsField size
    → IsField (token_stream text size).position
    → j < size
    → (out : Bytes) × (uncompress (compress text size).0 ≡ some (out, size)) × (out j ≡ text j)
unfolding token_stream
uncompress-compress text size j bytes size_field bits_field low =
    let s = token_stream text size in
    let f = (compress text size).0 in
    let one = encode_header_field zeros s.position 0 in
    let start = (encode_header_field one.0 size one.1).1 in
    let header = compress-Header text size size_field bits_field in
    let begin : Stream = record { output = zeros; position = 0 } in
    let r =
      restored size s.position size (start * 8) text f zeros 0 0 0 size begin s bytes zeros-IsBytes
        (record { ends = refl; bounded = omega arith; grows = λ less. refl }) (omega arith)
        (omega arith) refl (λ k inside. header.behind k) (omega arith)
        (λ k none_yet. absurd (omega (arith, none_yet))) in
    let from : start * 8 + 0 ≡ start * 8 = omega arith in
    let to : start * 8 + s.position ≡ s.position + start * 8 = omega arith in
    (
      r.bytes,
      uncompress-some f s.position one.1 size start r.bytes header.bits header.whole
          (rw (from, to) at (r.ends)),
      r.agree j low,
    )
