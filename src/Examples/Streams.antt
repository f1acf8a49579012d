-- ===== src/Examples/Streams.antt =====
-- The theorems on bit strings and on LZ compression at concrete inputs.
use ficl.Common.{◌+◌, ◌≡◌, refl, leb, ltb, if◌then◌else◌, some, arith}
use ficl.Bits.{Bytes, zeros, bit_get, bit_set}
use ficl.Bits.Places.{IsBytes, bit_get-bit_set}
use ficl.Lz.{
  token_stream, compress_loop, compare_window, match_length, window_loop, put_token, slide,
  token_of, compress, uncompress,
}
use ficl.Lz.Fields.{IsField}
use ficl.Lz.Whole.{uncompress-compress}

-- Eight bytes with a match in them.
abbrev eight : Bytes
eight j = if leb j 3 then 65 + j else if ltb j 8 then 61 + j else 0

eight-IsBytes : IsBytes eight
eight-IsBytes j = ground arith

eight_position : (token_stream eight 8).position ≡ 62
unfolding token_stream compress_loop compare_window window_loop match_length put_token token_of
    slide
eight_position = refl

eight_size : IsField 8
eight_size = record {
  no_byte = λ h. omega (arith, h);
  no_half = λ h. omega (arith, h);
  small = omega arith;
}

eight_bits : IsField (token_stream eight 8).position
eight_bits = rw eight_position (record {
  no_byte = λ h. omega (arith, h);
  no_half = λ h. omega (arith, h);
  small = omega arith;
})

uncompress-compress_example :
    (out : Bytes) × (uncompress (compress eight 8).0 ≡ some (out, 8)) × (out 6 ≡ eight 6)
uncompress-compress_example =
    uncompress-compress eight 8 6 eight-IsBytes eight_size eight_bits (omega arith)

zeros-IsBytes : IsBytes zeros
zeros-IsBytes j = omega arith

bit_get-bit_set_example : bit_get (bit_set zeros 5 1) 5 ≡ 1
bit_get-bit_set_example = bit_get-bit_set zeros 5 5 1 zeros-IsBytes (omega arith)
