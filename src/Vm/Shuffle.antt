-- ===== src/Vm/Shuffle.antt =====
-- The instructions that only move cells of the data stack (vm.c).
pub mod Laws
pub mod Inverse
use ficl.Common.{
  ℕ, suc, ◌+◌, ◌-◌, ◌%◌, ◌^◌, Bool, List, [], ◌∷◌, ◌++◌, length, get_elem?, take, drop, ltb, ◌==◌,
  if◌then◌else◌, none, some, ◌||◌,
}
use ficl.Cell.{is_negative, add}
use ficl.Outcome.{Outcome, ok, fault, ◌>>=◌, ◌>>◌, access}
use ficl.Vm.Check.{on_data, check, check_deep, pop}

pub data Shuffle : Type 0 where
  dup question_dup swap drop_one two_drop two_dup over two_over pick : Shuffle
  rot roll minus_rot minus_roll two_swap : Shuffle

-- The cell at index `i` from the top goes to the top; those above it move down by one.
unfoldable pub roll_cells : ℕ → List ℕ → Outcome (List ℕ)
roll_cells i s = do c ← access (get_elem? s i); ok (c ∷ (take i s ++ drop (suc i) s))

-- The top goes to index `i`; the `i` cells below it move up by one.
unfoldable pub minus_roll_cells : ℕ → List ℕ → Outcome (List ℕ)
unfolding pop
minus_roll_cells i s = do
  (c, r) ← pop s
  if ltb (length r) i then fault else ok (take i r ++ c ∷ drop i r)

-- The label `ROLL:`, with the check in front of it.
pub roll_from : ℕ → ℕ → List ℕ → Outcome (List ℕ)
unfolding roll_cells check_deep
roll_from size i s = do check_deep size (length s) (i + 1); roll_cells i s

-- The label `MINUSROLL:`.
pub minus_roll_from : ℕ → ℕ → List ℕ → Outcome (List ℕ)
unfolding minus_roll_cells check_deep
minus_roll_from size i s = do check_deep size (length s) (i + 1); minus_roll_cells i s

-- `i < 1` of a signed cell.
abbrev below_one : ℕ → Bool
below_one i = is_negative i || i == 0

-- One instruction on a data stack that has room for `size` cells.
unfoldable pub shuffle : ℕ → Shuffle → List ℕ → Outcome (List ℕ)
unfolding check check_deep pop roll_from minus_roll_from
shuffle size dup s = do (x, r) ← pop s; check on_data size (length s) 0 1; ok (x ∷ s)
shuffle size question_dup s = do
  check on_data size (length s) 1 2
  (x, r) ← pop s
  if x == 0 then ok s else ok (x ∷ s)
shuffle size swap s = do
  check on_data size (length s) 2 2
  (a, r) ← pop s
  (b, t) ← pop r
  ok (b ∷ a ∷ t)
shuffle size drop_one s = do check on_data size (length s) 1 0; (a, r) ← pop s; ok r
shuffle size two_drop s = do check on_data size (length s) 2 0; (a, r) ← pop s; (b, t) ← pop r; ok t
shuffle size two_dup s = do
  check on_data size (length s) 2 4
  (a, r) ← pop s
  (b, t) ← pop r
  ok (a ∷ b ∷ s)
shuffle size over s = do
  check on_data size (length s) 2 3
  (a, r) ← pop s
  (b, t) ← pop r
  ok (b ∷ s)
shuffle size two_over s = do
  check on_data size (length s) 4 6
  c ← access (get_elem? s 2)
  d ← access (get_elem? s 3)
  ok (c ∷ d ∷ s)
shuffle size pick s = do
  check on_data size (length s) 1 0
  (n, r) ← pop s
  let deep = do check_deep size (length s) (add n 1 + 1); c ← access (get_elem? r n); ok (c ∷ r)
  if is_negative n then ok s else deep
shuffle size rot s = roll_from size 2 s
shuffle size roll s = do
  check on_data size (length s) 1 0
  (i, r) ← pop s
  if below_one i then ok r else roll_from size i r
shuffle size minus_rot s = minus_roll_from size 2 s
shuffle size minus_roll s = do
  check on_data size (length s) 1 0
  (i, r) ← pop s
  if below_one i then ok r else minus_roll_from size i r
shuffle size two_swap s = do
  check on_data size (length s) 4 4
  (a, r) ← pop s
  (b, t) ← pop r
  (c, u) ← pop t
  (d, v) ← pop u
  ok (c ∷ d ∷ a ∷ b ∷ v)
