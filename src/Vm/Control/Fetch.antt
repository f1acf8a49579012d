-- ===== src/Vm/Control/Fetch.antt =====
-- The fetch of the inner loop and its switch (vm.c), as far as it leads to the instructions of
-- Vm/Control. The tokens are numbered by their places in ficltokens.h, floating point compiled in.
use ficl.Common.{ℕ, ◌+◌, ◌<◌, ◌≡◌, refl, List, Option, none, some, ◌==◌, if◌then◌else◌, arith}
use ficl.Cell.{cell_mod, add}
use ficl.Memory.{Memory, load}
use ficl.Outcome.{Outcome, ok, ◌>>=◌}
use ficl.Vm.Control.{
  Machine, machine, operand, Control, branch_paren, branch_0_paren, of_paren, exit, do_paren,
  q_do_paren, loop_paren, plus_loop_paren, leave, unloop, loop_i, loop_j, loop_k,
}

-- A case of the switch: the instruction at once, or `ficlVmOptimizeJumpToJump` (Vm/Jumps) at the
-- fetched cell and then the instruction.
pub data Token : Type 0 where
  direct checked : Control → Token

-- The case of a fetched cell, `none` for those that lead elsewhere.
unfoldable pub token : ℕ → Option Token
token i =
    if i == 43
    then some (Token.direct exit)
    else if i == 44
    then some (Token.direct exit)
    else if i == 48
    then some (Token.checked branch_paren)
    else if i == 49
    then some (Token.direct branch_paren)
    else if i == 50
    then some (Token.checked branch_0_paren)
    else if i == 51
    then some (Token.direct branch_0_paren)
    else if i == 53
    then some (Token.direct loop_paren)
    else if i == 54
    then some (Token.direct of_paren)
    else if i == 55
    then some (Token.direct plus_loop_paren)
    else if i == 76
    then some (Token.direct do_paren)
    else if i == 78
    then some (Token.direct q_do_paren)
    else if i == 127
    then some (Token.direct loop_i)
    else if i == 128
    then some (Token.direct loop_j)
    else if i == 129
    then some (Token.direct loop_k)
    else if i == 134
    then some (Token.direct leave)
    else if i == 135
    then some (Token.direct unloop)
    else none

-- `instruction = *ip++`, and the case that is taken.
unfoldable pub fetch_instruction : Memory → Machine → Outcome (Option Token × Machine)
unfolding operand token
fetch_instruction m s = do
  instruction ← operand m s.ip
  ok (token instruction, machine (add s.ip 8) s.data_stack s.return_stack)

pub fetch_instruction-reads :
    (m : Memory) (ip next i : ℕ) (c r : List ℕ)
    → load m 8 ip ≡ some i
    → next ≡ ip + 8
    → next < cell_mod
    → fetch_instruction m (machine ip c r) ≡ ok (token i, machine next c r)
unfolding fetch_instruction operand
fetch_instruction-reads m ip next i c r h place low =
    let e : add ip 8 ≡ next = ground (arith, place, low) in rw (h, e) refl
