-- ===== src/Memory.antt =====
-- The bytes that the program can reach, and its loads and stores of one to eight of them at a
-- time, little-endian. An address with no byte is one that C may not use.
pub mod Laws
use ficl.Common.{ℕ, zero, suc, ◌+◌, ◌*◌, ◌/◌, ◌%◌, Option, none, some, ◌==◌, if◌then◌else◌}

abbrev pub Memory : Type 0
Memory = ℕ → Option ℕ

-- `n` bytes from `a` on, as a number.
unfoldable pub load : Memory → ℕ → ℕ → Option ℕ
load m zero a = some 0
load m (suc n) a = elim (m a) [
  | none ↦ none
  | some b ↦ elim (load m n (a + 1)) [ none ↦ none | some r ↦ some (b + 256 * r) ]
]

abbrev pub update : Memory → ℕ → ℕ → Memory
update m a v b = if a == b then some v else m b

-- The `n` low bytes of `v`, from `a` on.
unfoldable pub store : Memory → ℕ → ℕ → ℕ → Option Memory
store m zero a v = some m
store m (suc n) a v = elim (m a) [
  | none ↦ none
  | some b ↦ store (update m a (v % 256)) n (a + 1) (v / 256)
]
