-- ===== src/Vm/Compute.antt =====
-- The instructions that compute one cell from the cells on top of the data stack (vm.c).
-- A shift by 64 places or more is undefined in C, and so is the one quotient that does not fit.
pub mod Laws
use Prim.Native.Nat.{bit_and, bit_or, bit_xor}
use ficl.Common.{
  ℕ, ◌+◌, ◌-◌, ◌*◌, ◌/◌, ◌%◌, ◌^◌, Bool, true, false, not, ◌&&◌, ◌||◌, List, ◌∷◌, length, ltb, leb,
  ◌==◌, if◌then◌else◌,
}
use ficl.Cell
use ficl.Cell.{cell_mod, is_negative, signed_lt, flag, negate, invert, magnitude}
use ficl.Double.{Double, double, Qr}
use ficl.Double.Signed.{divide_symmetric, integer_multiply}
use ficl.Outcome.{Outcome, Error, ok, thrown, fault, access, ◌>>=◌, ◌>>◌}
use ficl.Vm.Check.{on_data, check, pop}

pub data Unary : Type 0 where
  one_plus one_minus two_plus two_minus zero_equals zero_less zero_greater : Unary
  invert_cell negate_cell two_star two_slash cells cell_plus : Unary

abbrev equals_zero : ℕ → ℕ
equals_zero x = flag (x == 0)

abbrev below_zero : ℕ → ℕ
below_zero x = flag (signed_lt x 0)

abbrev above_zero : ℕ → ℕ
above_zero x = flag (signed_lt 0 x)

abbrev double_cell : ℕ → ℕ
double_cell x = x * 2 % cell_mod

abbrev half : ℕ → ℕ
half x = if is_negative x then invert (invert x / 2) else x / 2

abbrev cells_of : ℕ → ℕ
cells_of x = Cell.mul x 8

abbrev next_cell : ℕ → ℕ
next_cell x = Cell.add x 8

unfoldable pub unary : Unary → ℕ → ℕ
unary one_plus x = Cell.add x 1
unary one_minus x = Cell.sub x 1
unary two_plus x = Cell.add x 2
unary two_minus x = Cell.sub x 2
unary zero_equals x = equals_zero x
unary zero_less x = below_zero x
unary zero_greater x = above_zero x
unary invert_cell x = invert x
unary negate_cell x = negate x
unary two_star x = double_cell x
unary two_slash x = half x
unary cells x = cells_of x
unary cell_plus x = next_cell x

pub data Binary : Type 0 where
  plus minus star slash equals less u_less greater_than : Binary
  and_cells or_cells xor_cells l_shift r_shift r_shift_a max_cells min_cells : Binary

-- `x / y` of signed cells, cut off towards zero.
pub quotient : ℕ → ℕ → Outcome ℕ
quotient x y =
    if y == 0
    then thrown Error.division_by_zero
    else if x == 2 ^ 63 && y == cell_mod - 1
    then fault
    else let size = magnitude x / magnitude y in
      ok (
        if is_negative x && not (is_negative y) || not (is_negative x) && is_negative y
        then negate size
        else size)

-- The shifts of `x` by `n` places.
abbrev shift_left : ℕ → ℕ → Outcome ℕ
shift_left x n = if ltb n 64 then ok (x * 2 ^ n % cell_mod) else fault

abbrev shift_right : ℕ → ℕ → Outcome ℕ
shift_right x n = if ltb n 64 then ok (x / 2 ^ n) else fault

abbrev shift_right_a : ℕ → ℕ → Outcome ℕ
shift_right_a x n =
    if ltb n 64 then ok (if is_negative x then invert (invert x / 2 ^ n) else x / 2 ^ n) else fault

abbrev larger : ℕ → ℕ → ℕ
larger x y = if signed_lt y x then x else y

abbrev smaller : ℕ → ℕ → ℕ
smaller x y = if signed_lt x y then x else y

abbrev above : ℕ → ℕ → ℕ
above x y = flag (signed_lt y x)

-- `x` is the cell under the top, `y` the top.
unfoldable pub binary : Binary → ℕ → ℕ → Outcome ℕ
unfolding quotient
binary plus x y = ok (Cell.add x y)
binary minus x y = ok (Cell.sub x y)
binary star x y = ok (Cell.mul x y)
binary slash x y = quotient x y
binary equals x y = ok (flag (x == y))
binary less x y = ok (flag (signed_lt x y))
binary u_less x y = ok (flag (ltb x y))
binary greater_than x y = ok (above x y)
binary and_cells x y = ok (bit_and x y)
binary or_cells x y = ok (bit_or x y)
binary xor_cells x y = ok (bit_xor x y)
binary l_shift x y = shift_left x y
binary r_shift x y = shift_right x y
binary r_shift_a x y = shift_right_a x y
binary max_cells x y = ok (larger x y)
binary min_cells x y = ok (smaller x y)

unfoldable pub compute_unary : ℕ → Unary → List ℕ → Outcome (List ℕ)
unfolding unary check pop
compute_unary size i s = do check on_data size (length s) 1 1; (x, r) ← pop s; ok (unary i x ∷ r)

unfoldable pub compute_binary : ℕ → Binary → List ℕ → Outcome (List ℕ)
unfolding binary check pop
compute_binary size i s = do
  check on_data size (length s) 2 1
  (y, r) ← pop s
  (x, t) ← pop r
  z ← binary i x y
  ok (z ∷ t)

-- `FICL_INTEGER_TO_2INTEGER`.
unfoldable pub sign_extend : ℕ → Double
sign_extend x = double (if is_negative x then cell_mod - 1 else 0) x

-- The instructions that go through a double cell.
pub data Scaled : Type 0 where
  slash_mod star_slash star_slash_mod : Scaled

-- The division that they share, after the test for zero.
pub divide : Double → ℕ → Outcome Qr
divide n d = if d == 0 then thrown Error.division_by_zero else access (divide_symmetric n d)

unfoldable pub compute_scaled : ℕ → Scaled → List ℕ → Outcome (List ℕ)
unfolding check pop divide sign_extend
compute_scaled size slash_mod s = do
  check on_data size (length s) 2 2
  (n2, r) ← pop s
  (n1, t) ← pop r
  qr ← divide (sign_extend n1) n2
  ok (qr.quotient.low ∷ qr.remainder ∷ t)
compute_scaled size star_slash s = do
  check on_data size (length s) 3 1
  (z, r) ← pop s
  (y, t) ← pop r
  (x, u) ← pop t
  prod ← if z == 0 then thrown Error.division_by_zero else access (integer_multiply x y)
  qr ← divide prod z
  ok (qr.quotient.low ∷ u)
compute_scaled size star_slash_mod s = do
  check on_data size (length s) 3 2
  (z, r) ← pop s
  (y, t) ← pop r
  (x, u) ← pop t
  prod ← if z == 0 then thrown Error.division_by_zero else access (integer_multiply x y)
  qr ← divide prod z
  ok (qr.quotient.low ∷ qr.remainder ∷ u)

unfoldable pub single_to_double : ℕ → List ℕ → Outcome (List ℕ)
unfolding check pop sign_extend
single_to_double size s = do
  check on_data size (length s) 1 2
  (x, r) ← pop s
  ok ((sign_extend x).high ∷ s)
