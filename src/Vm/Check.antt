-- ===== src/Vm/Check.antt =====
-- A stack of cells, last pushed first, and the depth check that instructions make
-- (`CHECK_STACK` of vm.c and `ficlStackCheck` of stack.c, compiled in by `FICL_ROBUST` of 2). The
-- fence cells that `ficlStack` keeps below its bottom do not belong to the stack: an access to
-- them is `fault`.
use ficl.Common.{ℕ, ◌+◌, ◌%◌, ◌^◌, ◌&&◌, List, [], ◌∷◌, ltb, if◌then◌else◌}
use ficl.Outcome.{Outcome, Error, ok, thrown, fault}

-- Which stack a check is about: it names the two errors.
pub data Which : Type 0 where
  on_data on_return : Which

unfoldable pub underflow : Which → Error
underflow on_data = Error.data_underflow
underflow on_return = Error.return_underflow

unfoldable pub overflow : Which → Error
overflow on_data = Error.data_overflow
overflow on_return = Error.return_overflow

-- `ficlStackCheck(stack, popCells, pushCells)` on a stack of `size` cells that holds `depth`.
unfoldable pub check : Which → ℕ → ℕ → ℕ → ℕ → Outcome (Unit {0})
unfolding underflow overflow
check w size depth pops pushes =
    if ltb depth pops
    then thrown (underflow w)
    else if ltb (size + pops) (pushes + depth)
    then thrown (overflow w)
    else ok tt

-- `CHECK_STACK(n, n + 1)` at a cell `n`: the arguments are cut to the 32 bits of an `int`, and a
-- negative `popCells` passes the first test.
unfoldable pub check_deep : ℕ → ℕ → ℕ → Outcome (Unit {0})
check_deep size depth n =
    let pops = n % 2 ^ 32 in
    if ltb pops (2 ^ 31) && ltb depth pops
    then thrown Error.data_underflow
    else if ltb size (depth + 1)
    then thrown Error.data_overflow
    else ok tt

-- `*top--`.
unfoldable pub pop : List ℕ → Outcome (ℕ × List ℕ)
pop [] = fault
pop (x ∷ s) = ok (x, s)
