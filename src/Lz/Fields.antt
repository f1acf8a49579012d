-- ===== src/Lz/Fields.antt =====
-- A header field is read back as it was written.
use native.Mathlib.Nat.{mod-eq_of_lt}
use ficl.Common.{
  ℕ, ◌+◌, ◌-◌, ◌*◌, ◌/◌, ◌%◌, ◌^◌, ◌≤◌, ◌<◌, ◌≡◌, ◌≢◌, refl, ◌∙◌, true, false, ltb, leb, ◌==◌,
  if◌then◌else◌, arith, Bool-cases, inl, inr,
}
use ficl.Bits.{Bytes, put_byte, bit_get, copy_bits, network_unsigned32, bytes_of}
use ficl.Bits.Places.{IsBytes}
use ficl.Bits.Copies.{read_bits, read_bits_agree, copy_bits-IsBytes, copy_bits-before}
use ficl.Bits.Order.{network_unsigned32-bit_get_string, copy_bits-network_unsigned32}
use ficl.Lz.{encode_header_field, decode_header_field}

-- The fields that are read back: 252 and 65536 are not.
pub record IsField (m : ℕ) : Type 0 where
  pub no_byte : m ≢ 252
  pub no_half : m ≢ 65536
  pub small : m < 2 ^ 31

put_byte-IsBytes :
    (bytes : Bytes) (i b : ℕ) → IsBytes bytes → b < 256 → IsBytes (put_byte bytes i b)
put_byte-IsBytes bytes i b fits h j = ground (arith, fits j)

-- Reading depends on the bytes that the bits stand in.
pub read_bits_same :
    (a b : Bytes) (i n low high : ℕ)
    → ((j : ℕ) → low ≤ j → j < high → a j ≡ b j)
    → low * 8 ≤ i
    → i + n ≤ high * 8
    → read_bits a i n ≡ read_bits b i n
unfolding bit_get
read_bits_same a b i n low high same from to =
    read_bits_agree a b i i n
      (λ j inside. let byte = same ((i + j) / 8) (omega arith) (omega arith) in rw byte refl)

-- A field of one byte.
decode_byte :
    (f : Bytes) (offset m : ℕ)
    → f offset ≡ m
    → m < 252
    → decode_header_field f offset ≡ (m, offset + 1)
unfolding decode_header_field
decode_byte f offset m here low = let test : ltb m 252 ≡ true = ground arith in rw (here, test) refl

-- A field of `count` bytes behind its mark.
decode_bytes :
    (f : Bytes) (offset m mark count : ℕ)
    → f offset ≡ mark
    → 252 ≤ mark
    → (if mark == 253 then 2 else 4) ≡ count
    → count ≤ 4
    → read_bits f ((offset + 1) * 8) (count * 8) ≡ m
    → decode_header_field f offset ≡ (m, offset + 1 + count)
unfolding decode_header_field
decode_bytes f offset m mark count here high which few bits =
    let test : ltb mark 252 ≡ false = ground arith in
    let number =
      network_unsigned32-bit_get_string f ((offset + 1) * 8) (count * 8) (omega arith) ∙ bits in
    rw (here, test, which, number) refl

-- What a field that is written has.
pub record Written (d e : Bytes) (m offset after : ℕ) : Type 0 where
  pub fits : IsBytes e
  pub further : offset < after
  pub short : after ≤ offset + 5
  pub before : (j : ℕ) → j < offset → e j ≡ d j
  pub read_back :
      (f : Bytes)
      → ((j : ℕ) → offset ≤ j → j < after → f j ≡ e j)
      → decode_header_field f offset ≡ (m, after)

field_of_bytes :
    (d : Bytes) (m offset mark count : ℕ)
    → IsBytes d
    → 252 < mark
    → mark < 256
    → (if mark == 253 then 2 else 4) ≡ count
    → count ≤ 4
    → m < 2 ^ (count * 8)
    → m < 2 ^ 32
    → Written d
        (copy_bits
          (count * 8)
          (put_byte d offset mark)
          ((offset + 1) * 8)
          (bytes_of (network_unsigned32 m))
          (32 - count * 8))
        m
        offset
        (offset + 1 + count)
field_of_bytes d m offset mark count fits high low which few small cell =
    let marked = put_byte d offset mark in
    let number = bytes_of (network_unsigned32 m) in
    let place = (offset + 1) * 8 in
    let e = copy_bits (count * 8) marked place number (32 - count * 8) in
    let marked_fits = put_byte-IsBytes d offset mark fits low in
    let here : (offset == offset) ≡ true = ground arith in
    let mark_is : e offset ≡ mark =
      copy_bits-before (count * 8) marked number place (32 - count * 8) offset (omega arith)
      ∙ rw here refl in
    let bits : read_bits e place (count * 8) ≡ m =
      copy_bits-network_unsigned32 (count * 8) m marked place marked_fits (omega arith) cell
      ∙ mod-eq_of_lt small in
    record {
      fits = copy_bits-IsBytes (count * 8) marked number place (32 - count * 8) marked_fits;
      further = omega arith;
      short = omega arith;
      before = λ j less.
          let other : (offset == j) ≡ false = ground arith in
          copy_bits-before (count * 8) marked number place (32 - count * 8) j (omega arith)
          ∙ rw other refl;
      read_back = λ f same.
          decode_bytes f offset m mark count (same offset (omega arith) (omega arith) ∙ mark_is)
            (omega arith) which few
            (read_bits_same f e place (count * 8) (offset + 1) (offset + 1 + count)
                (λ j from to. same j (omega arith) (omega arith)) (omega arith) (omega arith)
              ∙ bits);
    }

pub encode_header_field-Written :
    (d : Bytes) (m offset : ℕ)
    → IsBytes d
    → IsField m
    → Written d (encode_header_field d m offset).0 m offset (encode_header_field d m offset).1
unfolding encode_header_field
encode_header_field-Written d m offset fits field = elim (Bool-cases (leb m 252)) [
  | inl one ↦
      let apart = field.no_byte in
      let here : (offset == offset) ≡ true = ground arith in
      let byte : m % 256 ≡ m = ground (arith, one) in
      rw (one, byte)
        (record {
          fits = put_byte-IsBytes d offset m fits (ground (arith, one));
          further = omega arith;
          short = omega arith;
          before = λ j less. let other : (offset == j) ≡ false = ground arith in rw other refl;
          read_back = λ f same.
              decode_byte f offset m (same offset (omega arith) (omega arith) ∙ rw here refl)
                (ground (arith, one, apart));
        })
  | inr more ↦ elim (Bool-cases (leb m 65536)) [
    | inl half ↦
        let apart = field.no_half in
        rw (more, half)
          (field_of_bytes d m offset 253 2 fits (omega arith) (omega arith) refl (omega arith)
            (ground (arith, half, apart)) (omega (arith, field.small)))
    | inr whole ↦
        rw (more, whole)
          (field_of_bytes d m offset 254 4 fits (omega arith) (omega arith) refl (omega arith)
            (omega (arith, field.small)) (omega (arith, field.small)))
  ]
]
