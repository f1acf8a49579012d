-- ===== src/Vm/Control.antt =====
-- The instructions that move the instruction pointer or work on the return stack (vm.c).
-- The pointer is the byte address behind the fetched instruction, where an operand stands. These
-- instructions seldom check the return stack: what runs past either of its ends is `fault`.
pub mod Turns
pub mod Loops
pub mod Transfers
pub mod Landings
pub mod Fetch
use ficl.Common.{
  ℕ, ◌+◌, ◌*◌, ◌%◌, ◌^◌, Bool, true, false, not, List, [], ◌∷◌, length, get_elem?, drop, ltb, ◌==◌,
  if◌then◌else◌,
}
use ficl.Cell.{cell_mod, sign_bit, is_negative, add, sub}
use ficl.Memory.{Memory, load}
use ficl.Outcome.{Outcome, ok, fault, ◌>>=◌, ◌>>◌, access}
use ficl.Vm.Check.{on_data, on_return, check, pop}

-- `ip`, and the two stacks, last pushed first.
pub record Machine : Type 0 where
  pub ip : ℕ
  pub data_stack : List ℕ
  pub return_stack : List ℕ

abbrev pub machine : ℕ → List ℕ → List ℕ → Machine
machine ip d r = record { ip = ip; data_stack = d; return_stack = r }

-- How many cells each of the two stacks has room for.
pub record Sizes : Type 0 where
  pub data_size : ℕ
  pub return_size : ℕ

pub data Control : Type 0 where
  branch_paren branch_0_paren of_paren exit : Control
  do_paren q_do_paren loop_paren plus_loop_paren leave unloop loop_i loop_j loop_k : Control

-- `*++top = c` without a check.
pub push : ℕ → ℕ → List ℕ → Outcome (List ℕ)
push size c s = if ltb (length s) size then ok (c ∷ s) else fault

-- `*ip`.
pub operand : Memory → ℕ → Outcome ℕ
operand m ip = access (load m 8 ip)

-- `BRANCH()`: the operand counts instructions, of 8 bytes each.
pub branch : Memory → Machine → Outcome Machine
unfolding operand
branch m s = do
  offset ← operand m s.ip
  ok (machine ((s.ip + offset * 8) % cell_mod) s.data_stack s.return_stack)

-- `EXIT_FUNCTION()`.
pub exit_function : Machine → Outcome Machine
unfolding pop
exit_function s = do (a, r) ← pop s.return_stack; ok (machine a s.data_stack r)

-- The three cells of a loop: its index less the limit and less `FICL_INTEGER_MIN`, the limit
-- plus `FICL_INTEGER_MIN`, and the address that `leave` goes to.
pub enter_loop : ℕ → ℕ → ℕ → ℕ → List ℕ → Outcome (List ℕ)
unfolding push
enter_loop size index limit leave_to r = do
  r₁ ← push size leave_to r
  r₂ ← push size (add limit sign_bit) r₁
  push size (sub index (add limit sign_bit)) r₂

-- Whether an index cell changes its sign, and so the index its side of the limit.
abbrev pub crosses : ℕ → ℕ → Bool
crosses x by = if is_negative x then not (is_negative (add x by)) else is_negative (add x by)

-- The end of `(loop)` and `(+loop)`: `by` is what the index grows by.
pub next_turn : Memory → ℕ → Machine → Outcome Machine
unfolding pop branch
next_turn m by s = do
  (prev_index, r) ← pop s.return_stack
  (limit, r₁) ← pop r
  let index = add prev_index by
  let fall_through = do (leave_to, r₂) ← pop r₁; ok (machine (add s.ip 8) s.data_stack r₂)
  let again = branch m (machine s.ip s.data_stack (index ∷ r))
  if crosses prev_index by then fall_through else again

-- The index of the loop whose three cells lie `depth` cells under the top.
pub loop_index : ℕ → ℕ → Machine → Outcome Machine
unfolding push
loop_index size depth s = do
  index ← access (get_elem? s.return_stack depth)
  limit ← access (get_elem? s.return_stack (depth + 1))
  d ← push size (add index limit) s.data_stack
  ok (machine s.ip d s.return_stack)

-- The moves of cells between the two stacks.
pub data Transfer : Type 0 where
  to_r_stack from_r_stack fetch_r_stack two_to_r two_r_from two_r_fetch : Transfer

unfoldable pub transfer : Sizes → Transfer → Machine → Outcome Machine
unfolding pop check
transfer z to_r_stack s = do
  check on_data z.data_size (length s.data_stack) 1 0
  check on_return z.return_size (length s.return_stack) 0 1
  (x, d) ← pop s.data_stack
  ok (machine s.ip d (x ∷ s.return_stack))
transfer z from_r_stack s = do
  check on_data z.data_size (length s.data_stack) 0 1
  check on_return z.return_size (length s.return_stack) 1 0
  (x, r) ← pop s.return_stack
  ok (machine s.ip (x ∷ s.data_stack) r)
transfer z fetch_r_stack s = do
  check on_data z.data_size (length s.data_stack) 0 1
  check on_return z.return_size (length s.return_stack) 1 1
  (x, r) ← pop s.return_stack
  ok (machine s.ip (x ∷ s.data_stack) s.return_stack)
transfer z two_to_r s = do
  check on_data z.data_size (length s.data_stack) 2 0
  check on_return z.return_size (length s.return_stack) 0 2
  (x, d) ← pop s.data_stack
  (y, e) ← pop d
  ok (machine s.ip e (x ∷ y ∷ s.return_stack))
transfer z two_r_from s = do
  check on_data z.data_size (length s.data_stack) 0 2
  check on_return z.return_size (length s.return_stack) 2 0
  (x, r) ← pop s.return_stack
  (y, t) ← pop r
  ok (machine s.ip (x ∷ y ∷ s.data_stack) t)
transfer z two_r_fetch s = do
  check on_data z.data_size (length s.data_stack) 0 2
  check on_return z.return_size (length s.return_stack) 2 2
  (x, r) ← pop s.return_stack
  (y, t) ← pop r
  ok (machine s.ip (x ∷ y ∷ s.data_stack) s.return_stack)

-- The instructions that push what stands behind them.
pub data Literal : Type 0 where
  literal_paren two_literal_paren : Literal

unfoldable pub literal : Sizes → Memory → Literal → Machine → Outcome Machine
unfolding check operand
literal z m literal_paren s = do
  check on_data z.data_size (length s.data_stack) 0 1
  c ← operand m s.ip
  ok (machine (add s.ip 8) (c ∷ s.data_stack) s.return_stack)
literal z m two_literal_paren s = do
  check on_data z.data_size (length s.data_stack) 0 2
  b ← operand m (add s.ip 8)
  a ← operand m s.ip
  ok (machine (add s.ip 16) (a ∷ b ∷ s.data_stack) s.return_stack)

unfoldable pub control : Sizes → Memory → Control → Machine → Outcome Machine
unfolding pop push check operand branch exit_function enter_loop next_turn loop_index
control z m branch_paren s = branch m s
control z m branch_0_paren s = do
  check on_data z.data_size (length s.data_stack) 1 0
  (x, d) ← pop s.data_stack
  let onward = ok (machine (add s.ip 8) d s.return_stack)
  if x == 0 then branch m (machine s.ip d s.return_stack) else onward
control z m of_paren s = do
  check on_data z.data_size (length s.data_stack) 2 1
  (a, d) ← pop s.data_stack
  (b, e) ← pop d
  let onward = ok (machine (add s.ip 8) e s.return_stack)
  if a == b then onward else branch m (machine s.ip d s.return_stack)
control z m exit s = exit_function s
control z m do_paren s = do
  check on_data z.data_size (length s.data_stack) 2 0
  (index, d) ← pop s.data_stack
  (limit, e) ← pop d
  leave_to ← operand m s.ip
  r ← enter_loop z.return_size index limit leave_to s.return_stack
  ok (machine (add s.ip 8) e r)
control z m q_do_paren s = do
  check on_data z.data_size (length s.data_stack) 2 0
  (index, d) ← pop s.data_stack
  (limit, e) ← pop d
  leave_to ← operand m s.ip
  let enter = do
    r ← enter_loop z.return_size index limit leave_to s.return_stack
    ok (machine (add s.ip 8) e r)
  if limit == index then ok (machine leave_to e s.return_stack) else enter
control z m loop_paren s = next_turn m 1 s
control z m plus_loop_paren s = do
  limit ← access (get_elem? s.return_stack 1)
  check on_data z.data_size (length s.data_stack) 1 0
  (by, d) ← pop s.data_stack
  next_turn m by (machine s.ip d s.return_stack)
control z m leave s = do
  (index, r) ← pop s.return_stack
  (limit, t) ← pop r
  exit_function (machine s.ip s.data_stack t)
control z m unloop s = do
  (index, r) ← pop s.return_stack
  (limit, t) ← pop r
  (leave_to, u) ← pop t
  ok (machine s.ip s.data_stack u)
control z m loop_i s = loop_index z.data_size 0 s
control z m loop_j s = loop_index z.data_size 3 s
control z m loop_k s = loop_index z.data_size 6 s
