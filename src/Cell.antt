-- ===== src/Cell.antt =====
-- Cells: `ficlCell` of ficl.h on an LP64 host (ficlplatform/unix.h), 64 bits wide.
-- A cell is the number of its bit pattern. The signed arithmetic of the source is two's
-- complement and wraps; a signed comparison is one of the patterns with the sign bit flipped.
use ficl.Common.{ℕ, ◌+◌, ◌-◌, ◌*◌, ◌%◌, ◌^◌, Bool, ltb, leb, if◌then◌else◌}

abbrev pub cell_mod : ℕ
cell_mod = 2 ^ 64

-- `FICL_INTEGER_MIN` and `FICL_CELL_HIGH_BIT`.
abbrev pub sign_bit : ℕ
sign_bit = 2 ^ 63

abbrev pub add : ℕ → ℕ → ℕ
add a b = (a + b) % cell_mod

abbrev pub sub : ℕ → ℕ → ℕ
sub a b = (a + cell_mod - b) % cell_mod

abbrev pub mul : ℕ → ℕ → ℕ
mul a b = a * b % cell_mod

abbrev pub negate : ℕ → ℕ
negate a = (cell_mod - a) % cell_mod

-- `~x`.
abbrev pub invert : ℕ → ℕ
invert a = cell_mod - 1 - a

-- `x < 0`, and also `x & FICL_CELL_HIGH_BIT` as a test.
abbrev pub is_negative : ℕ → Bool
is_negative a = leb sign_bit a

-- The pattern with its sign bit flipped: signed order becomes the order of numbers.
abbrev pub bias : ℕ → ℕ
bias a = (a + sign_bit) % cell_mod

abbrev pub signed_lt : ℕ → ℕ → Bool
signed_lt a b = ltb (bias a) (bias b)

-- `FICL_BOOL`.
abbrev pub flag : Bool → ℕ
flag b = if b then cell_mod - 1 else 0

abbrev pub magnitude : ℕ → ℕ
magnitude a = if is_negative a then cell_mod - a else a
