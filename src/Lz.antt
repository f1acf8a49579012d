-- ===== src/Lz.antt =====
-- LZ compression (lzcompress.c and lzuncompress.c). A pointer into the text, into the stream or
-- into the uncompressed bytes is a position. The stream has its bits from the place that they get
-- when the header is put in front of it.
pub mod Fields
pub mod Matches
pub mod Tokens
pub mod Steps
pub mod RoundTrip
pub mod Whole
use Prim.Native.Nat.{bit_or, min}
use ficl.Common.{
  ℕ, zero, suc, ◌+◌, ◌-◌, ◌*◌, ◌/◌, ◌%◌, ◌^◌, Bool, true, false, not, ◌&&◌, leb, ltb, ◌==◌,
  if◌then◌else◌, Option, none, some,
}
use ficl.Bits.{
  Bytes, zeros, put_byte, bit_get, copy_bits, bit_get_string, network_unsigned32, bytes_of,
  number_of,
}

-- `FICL_LZ_WINDOW_SIZE`, `FICL_LZ_BUFFER_SIZE` and `FICL_LZ_MINIMUM_USEFUL_MATCH`; a phrase takes
-- 1 + 12 + 5 + 8 bits and a symbol 1 + 8.
abbrev pub lz_window_size : ℕ
lz_window_size = 4096

abbrev pub lz_buffer_size : ℕ
lz_buffer_size = 34

abbrev pub minimum_useful_match : ℕ
minimum_useful_match = 2

-- `ficlLzEncodeHeaderField`, with the offset after the field.
unfoldable pub encode_header_field : Bytes → ℕ → ℕ → Bytes × ℕ
encode_header_field packed input offset =
    if leb input 252
    then (put_byte packed offset (input % 256), offset + 1)
    else let short = leb input 65536 in
      let count = if short then 2 else 4 in
      let number = bytes_of (network_unsigned32 input) in
      (
        copy_bits (count * 8) (put_byte packed offset (if short then 253 else 254))
            ((offset + 1) * 8) number (32 - count * 8),
        offset + 1 + count,
      )

-- `ficlLzDecodeHeaderField`, with the offset behind the field.
unfoldable pub decode_header_field : Bytes → ℕ → ℕ × ℕ
decode_header_field packed offset =
    let id = packed offset in
    let count = if id == 253 then 2 else 4 in
    if ltb id 252 then (id, offset + 1) else (
      network_unsigned32
          (number_of (bit_get_string zeros packed ((offset + 1) * 8) (count * 8) 32)),
      offset + 1 + count,
    )

-- How far two places agree, over `count` bytes at most: the loop over `windowTrace2`, which the
-- end of the window stops too.
unfoldable pub match_length : Bytes → ℕ → ℕ → ℕ → ℕ → ℕ
match_length text zero window_end i j = 0
match_length text (suc count) window_end i j =
    let rest = match_length text count window_end (i + 1) (j + 1) in
    if ltb i window_end && text i == text j then suc rest else 0

pub record Match : Type 0 where
  pub length : ℕ
  pub offset : ℕ
  pub next : ℕ

-- The loop over `windowTrace`, over `count` places from `trace` on.
unfoldable pub window_loop : Bytes → ℕ → ℕ → ℕ → ℕ → ℕ → Match → Match
window_loop text zero window buffer buffer_size trace best = best
window_loop text (suc count) window buffer buffer_size trace best =
    let window_end = trace + suc count in
    let length = match_length text buffer_size window_end trace buffer in
    let better : Match = record {
      length = length;
      offset = trace - window;
      next = text (buffer + length);
    } in
    let taken =
      text trace == text buffer && ltb best.length length && leb minimum_useful_match length in
    window_loop text count window buffer buffer_size (trace + 1) (if taken then better else best)

-- `ficlLzCompareWindow`; the last byte of the buffer is kept for `next`.
unfoldable pub compare_window : Bytes → ℕ → ℕ → ℕ → ℕ → Match
compare_window text window buffer window_size buffer_size =
    window_loop text window_size window buffer (buffer_size - 1) window
      (record { length = 0; offset = 0; next = text buffer })

-- The token for a match, and how many bits it takes.
unfoldable pub token_of : Match → ℕ × ℕ
token_of m =
    if ltb 1 m.length
    then (
      bit_or
          (bit_or (bit_or (2 ^ 25) (m.offset * 2 ^ 13)) ((m.length - minimum_useful_match) * 2 ^ 8))
          m.next,
      26,
    )
    else (m.next, 9)

pub record Stream : Type 0 where
  pub output : Bytes
  pub position : ℕ

unfoldable pub put_token : Stream → ℕ × ℕ → Stream
put_token s (token, count) = record {
  output = copy_bits count s.output s.position (bytes_of (network_unsigned32 token)) (32 - count);
  position = s.position + count;
}

-- `window` and `windowSize` after `length` bytes.
unfoldable pub slide : ℕ → ℕ → ℕ → ℕ × ℕ
slide window window_size length =
    if window_size == lz_window_size
    then (window + length, window_size)
    else if ltb (window_size + length) lz_window_size
    then (window, window_size + length)
    else (window + (window_size + length - lz_window_size), lz_window_size)

-- The loop of `ficlLzCompress`. A round takes one byte at least, so that as many rounds of fuel
-- serve as bytes remain.
unfoldable pub compress_loop : ℕ → Bytes → ℕ → ℕ → ℕ → ℕ → Stream → Stream
compress_loop zero text window window_size buffer remaining s = s
compress_loop (suc fuel) text window window_size buffer remaining s =
    let m =
      compare_window text window buffer (min remaining window_size)
        (min remaining lz_buffer_size) in
    let length = m.length + 1 in
    let (window', window_size') = slide window window_size length in
    let rest =
      compress_loop fuel text window' window_size' (buffer + length) (remaining - length)
        (put_token s (token_of m)) in
    if remaining == 0 then s else rest

-- The tokens of a text.
unfoldable pub token_stream : Bytes → ℕ → Stream
token_stream text size =
    compress_loop size text 0 0 0 size (record { output = zeros; position = 0 })

-- `ficlLzCompress`: the bytes, and how many they are.
unfoldable pub compress : Bytes → ℕ → Bytes × ℕ
compress text size =
    let s = token_stream text size in
    let (first, middle) = encode_header_field zeros s.position 0 in
    let (header, header_length) = encode_header_field first size middle in
    (
      (λ j. if ltb j header_length then header j else s.output (j - header_length)),
      (s.position - 1) / 8 + 1 + header_length,
    )

-- `memmove` inside one array.
abbrev pub move_bytes : Bytes → ℕ → ℕ → ℕ → Bytes
move_bytes bytes to from count j =
    if leb to j && ltb j (to + count) then bytes (from + (j - to)) else bytes j

-- The loop of `ficlLzUncompress`. Fuel of as many rounds as there are bits in the stream serves,
-- since a round takes nine at least; a stream that ends inside a token is never left.
unfoldable pub uncompress_loop : ℕ → Bytes → ℕ → ℕ → ℕ → ℕ → Bytes → Option Bytes
uncompress_loop zero packed end position window buffer out =
    if position == end then some out else none
uncompress_loop (suc fuel) packed end position window buffer out =
    let token = bit_get packed position in
    let phrase = number_of (bit_get_string zeros packed (position + 1) 17 32) in
    let field = network_unsigned32 phrase in
    let length = field % 2 ^ 5 + minimum_useful_match in
    let moved = if token == 0 then out else move_bytes out buffer (window + field / 2 ^ 5) length in
    let place = if token == 0 then buffer else buffer + length in
    let start = if token == 0 then position + 1 else position + 18 in
    let next = bit_get_string zeros packed start 8 8 0 in
    let buffer' = place + 1 in
    let window' = if ltb lz_window_size buffer' then buffer' - lz_window_size else window in
    let rest =
      uncompress_loop fuel packed end (start + 8) window' buffer' (put_byte moved place next) in
    if position == end then some out else rest

-- `ficlLzUncompress`: the bytes, and the size that the header names.
unfoldable pub uncompress : Bytes → Option (Bytes × ℕ)
uncompress packed =
    let (bits, middle) = decode_header_field packed 0 in
    let (size, header_length) = decode_header_field packed middle in
    let start = header_length * 8 in
    elim (uncompress_loop bits packed (bits + start) start 0 0 zeros) [
      | none ↦ none
      | some out ↦ some (out, size)
    ]
