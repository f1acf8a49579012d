-- ===== src/Bits.antt =====
-- Bit strings and byte order (bit.c). Bytes stand at the places of an array; the first bit of a
-- byte is its greatest. The host is little-endian, so a 32-bit number lies in memory with its least
-- byte first.
pub mod Places
pub mod Copies
pub mod Order
use Prim.Native.Nat.{bit_and, bit_or}
use ficl.Common.{ℕ, zero, suc, ◌+◌, ◌-◌, ◌*◌, ◌/◌, ◌%◌, ◌^◌, ◌==◌, if◌then◌else◌}

abbrev pub Bytes : Type 0
Bytes = ℕ → ℕ

abbrev pub zeros : Bytes
zeros j = 0

abbrev pub put_byte : Bytes → ℕ → ℕ → Bytes
put_byte bytes i b j = if i == j then b else bytes j

-- `128 >> bitIndex`.
abbrev pub mask : ℕ → ℕ
mask index = 128 / 2 ^ (index % 8)

unfoldable pub bit_get : Bytes → ℕ → ℕ
bit_get bits index = if bit_and (mask index) (bits (index / 8)) == 0 then 0 else 1

unfoldable pub bit_set : Bytes → ℕ → ℕ → Bytes
bit_set bits index value =
    let byte = bits (index / 8) in
    put_byte bits (index / 8)
      (if value == 0 then bit_and byte (255 - mask index) else bit_or byte (mask index))

-- The loop of `ficlBitGetString`, and those of lzcompress.c that move bits one by one.
unfoldable pub copy_bits : ℕ → Bytes → ℕ → Bytes → ℕ → Bytes
copy_bits zero destination bit source offset = destination
copy_bits (suc count) destination bit source offset =
    copy_bits count (bit_set destination bit (bit_get source offset)) (bit + 1) source (offset + 1)

unfoldable pub bit_get_string : Bytes → Bytes → ℕ → ℕ → ℕ → Bytes
bit_get_string destination source offset count alignment =
    copy_bits count destination (alignment - count) source offset

unfoldable pub network_unsigned16 : ℕ → ℕ
network_unsigned16 number = bit_or (number % 256 * 256) (number / 256 % 256)

unfoldable pub network_unsigned32 : ℕ → ℕ
network_unsigned32 number =
    bit_or (network_unsigned16 (number % 2 ^ 16) * 2 ^ 16)
      (network_unsigned16 (number / 2 ^ 16 % 2 ^ 16))

-- A 32-bit number in memory, and read from memory.
abbrev pub bytes_of : ℕ → Bytes
bytes_of number j = number / 256 ^ j % 256

abbrev pub number_of : Bytes → ℕ
number_of bytes = bytes 0 + bytes 1 * 256 + bytes 2 * 256 ^ 2 + bytes 3 * 256 ^ 3
