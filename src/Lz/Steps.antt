-- ===== src/Lz/Steps.antt =====
-- One round of `ficlLzUncompress`, and what one round of `ficlLzCompress` keeps.
use ficl.Common.{
  ℕ, suc, ◌+◌, ◌-◌, ◌*◌, ◌/◌, ◌%◌, ◌^◌, ◌≤◌, ◌<◌, ◌≡◌, refl, ap, ◌∙◌, true, false, ◌&&◌, ltb, leb,
  ◌==◌, if◌then◌else◌, arith, Bool-cases, inl, inr,
}
use ficl.Bits.{Bytes, put_byte, bit_get}
use ficl.Bits.Copies.{read_bits}
use ficl.Bits.Order.{network_unsigned32-bit_get_string, bit_get_string-byte}
use ficl.Lz.{Match, token_of, slide, uncompress_loop, move_bytes, lz_window_size}
use ficl.Lz.Matches.{IsMatch}
use ficl.Lz.Tokens.{Fits, Reads}

-- The window and the bytes after a token.
abbrev pub window_after : ℕ → ℕ → ℕ
window_after window buffer = if ltb lz_window_size buffer then buffer - lz_window_size else window

abbrev pub bytes_after : Bytes → ℕ → ℕ → Match → Bytes
bytes_after out window buffer m =
    put_byte (if ltb 1 m.length then move_bytes out buffer (window + m.offset) m.length else out)
      (buffer + m.length) m.next

phrase_step :
    (fuel : ℕ) (f : Bytes) (end i window buffer : ℕ) (out : Bytes) (m : Match)
    → 2 ≤ m.length
    → Fits m
    → bit_get f i ≡ 1
    → read_bits f (i + 1) 17 ≡ m.offset * 2 ^ 5 + (m.length - 2)
    → read_bits f (i + 18) 8 ≡ m.next
    → (i == end) ≡ false
    → uncompress_loop (suc fuel) f end i window buffer out
      ≡ uncompress_loop fuel f end
          (i + 18 + 8)
          (window_after window (buffer + m.length + 1))
          (buffer + m.length + 1)
          (put_byte (move_bytes out buffer (window + m.offset) m.length) (buffer + m.length) m.next)
unfolding uncompress_loop
phrase_step fuel f end i window buffer out m long fits first phrase symbol more =
    let field = network_unsigned32-bit_get_string f (i + 1) 17 (omega arith) ∙ phrase in
    let room = fits.length_fits in
    let length_is : (m.offset * 2 ^ 5 + (m.length - 2)) % 2 ^ 5 + 2 ≡ m.length = omega arith in
    let offset_is : (m.offset * 2 ^ 5 + (m.length - 2)) / 2 ^ 5 ≡ m.offset = omega arith in
    let byte = bit_get_string-byte f (i + 18) ∙ symbol in
    rw (uncompress_loop, more, first, field, length_is, offset_is, byte) refl

symbol_step :
    (fuel : ℕ) (f : Bytes) (end i window buffer : ℕ) (out : Bytes) (next : ℕ)
    → bit_get f i ≡ 0
    → read_bits f (i + 1) 8 ≡ next
    → (i == end) ≡ false
    → uncompress_loop (suc fuel) f end i window buffer out
      ≡ uncompress_loop fuel f end
          (i + 1 + 8)
          (window_after window (buffer + 1))
          (buffer + 1)
          (put_byte out buffer next)
unfolding uncompress_loop
symbol_step fuel f end i window buffer out next first symbol more =
    let byte = bit_get_string-byte f (i + 1) ∙ symbol in
    rw (uncompress_loop, more, first, byte) refl

pub uncompress_loop-token :
    (fuel : ℕ) (f : Bytes) (end i window buffer : ℕ) (out : Bytes) (m : Match)
    → Fits m
    → Reads f i m
    → (i == end) ≡ false
    → uncompress_loop (suc fuel) f end i window buffer out
      ≡ uncompress_loop fuel f end
          (i + (token_of m).1)
          (window_after window (buffer + m.length + 1))
          (buffer + m.length + 1)
          (bytes_after out window buffer m)
unfolding token_of
uncompress_loop-token fuel f end i window buffer out m fits reads more =
    elim (Bool-cases (ltb 1 m.length)) [
      | inl long ↦
          let first = rw long at reads.first in
          let symbol = rw long at reads.symbol in
          let place : i + 18 + 8 ≡ i + 26 = omega arith in
          rw (token_of, long, ← place)
            (phrase_step fuel f end i window buffer out m (ground (arith, long)) fits first
              (reads.phrase long) symbol more)
      | inr short ↦
          let first = rw short at reads.first in
          let symbol = rw short at reads.symbol in
          let place : i + 1 + 8 ≡ i + 9 = omega arith in
          let none_moved : buffer + m.length ≡ buffer = ground (arith, short, reads.kind) in
          rw (token_of, short, ← place, none_moved)
            (symbol_step fuel f end i window buffer out m.next first symbol more)
    ]

-- Bytes that agree with the text below a place.
abbrev pub Agrees : Bytes → Bytes → ℕ → Type 0
Agrees out text n = (j : ℕ) → j < n → out j ≡ text j

moved_agrees :
    (text out : Bytes) (window size buffer limit : ℕ) (m : Match)
    → IsMatch text window size buffer limit m
    → window + size ≤ buffer
    → Agrees out text buffer
    → (j : ℕ) → j < buffer + m.length
    → (if ltb 1 m.length then move_bytes out buffer (window + m.offset) m.length else out) j
      ≡ text j
moved_agrees text out window size buffer limit m match known agrees j low =
    elim (Bool-cases (ltb 1 m.length)) [
      | inl long ↦ elim (Bool-cases (leb buffer j)) [
        | inl inside ↦
            let bounded = match.inside in
            let test : (leb buffer j && ltb j (buffer + m.length)) ≡ true =
              ground (arith, inside, low) in
            let k = j - buffer in
            let from =
              agrees (window + m.offset + k) (ground (arith, inside, low, bounded, known)) in
            let place : buffer + k ≡ j = ground (arith, inside) in
            rw (long, test) (from ∙ match.same k (ground (arith, inside, low)) ∙ ap text place)
        | inr before ↦
            let test : (leb buffer j && ltb j (buffer + m.length)) ≡ false =
              ground (arith, before) in
            rw (long, test) (agrees j (ground (arith, before)))
      ]
      | inr short ↦ rw short (agrees j (ground (arith, short, low, match.useful)))
    ]

pub bytes_after-Agrees :
    (text out : Bytes) (window size buffer limit : ℕ) (m : Match)
    → IsMatch text window size buffer limit m
    → window + size ≤ buffer
    → Agrees out text buffer
    → Agrees (bytes_after out window buffer m) text (buffer + m.length + 1)
bytes_after-Agrees text out window size buffer limit m match known agrees j low =
    elim (Bool-cases (buffer + m.length == j)) [
      | inl here ↦
          let place : buffer + m.length ≡ j = ground (arith, here) in
          rw here (match.next_is ∙ ap text place)
      | inr elsewhere ↦
          let below : j < buffer + m.length = ground (arith, elsewhere, low) in
          rw elsewhere (moved_agrees text out window size buffer limit m match known agrees j below)
    ]

-- The window that ends at the buffer.
pub record IsWindow (window size buffer : ℕ) : Type 0 where
  pub ends : window + size ≡ buffer
  pub bounded : size ≤ lz_window_size
  pub grows : (size < lz_window_size) → window ≡ 0

pub slide-IsWindow :
    (window size buffer length : ℕ)
    → 1 ≤ length
    → length ≤ lz_window_size
    → IsWindow window size buffer
    → let (window', size') = slide window size length in
      IsWindow window' size' (buffer + length) × (window_after window (buffer + length) ≡ window')
unfolding slide
slide-IsWindow window size buffer length further short w =
    elim (Bool-cases (size == lz_window_size)) [
      | inl full ↦
          let ends = w.ends in
          let test : ltb lz_window_size (buffer + length) ≡ true = ground (arith, full, ends) in
          rw (full, test)
            (
              record {
                ends = omega (arith, ends);
                bounded = w.bounded;
                grows = λ less. absurd (ground (arith, full, less));
              },
              ground (arith, full, ends),
            )
      | inr growing ↦
          let ends = w.ends in
          let start = w.grows (ground (arith, growing, w.bounded)) in
          elim (Bool-cases (ltb (size + length) lz_window_size)) [
            | inl small ↦
                let test : ltb lz_window_size (buffer + length) ≡ false =
                  ground (arith, small, ends, start) in
                rw (growing, small, test)
                  (
                    record {
                      ends = omega (arith, ends);
                      bounded = ground (arith, small);
                      grows = λ less. start;
                    },
                    refl,
                  )
            | inr large ↦
                rw (growing, large)
                  (
                    record {
                      ends = ground (arith, large, ends);
                      bounded = omega arith;
                      grows = λ less. absurd (omega (arith, less));
                    },
                    ground (arith, large, ends, start),
                  )
          ]
    ]
