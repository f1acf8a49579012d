-- ===== src/Stack.antt =====
-- Stacks (stack.c): an array of cells with a top pointer, behind four fence cells.
-- Index 0 is the first fence cell and index 4 is `base`, so an empty stack has its top at 3. The
-- allocation has room for one cell more than `size`. A pointer that leaves it is `fault`.
pub mod Refinement
pub mod Rolls
pub mod Doubles
pub mod Frames
use ficl.Common.{
  ℕ, zero, suc, ◌+◌, ◌-◌, ◌*◌, ◌/◌, ◌%◌, ◌^◌, Bool, true, false, ◌&&◌, ◌||◌, List, [], ◌∷◌, ltb,
  ◌==◌, if◌then◌else◌,
}
use ficl.Common.Int.{ℤ, pos, negsuc}
use ficl.Cell.{sub}
use ficl.Double.{Double, double}
use ficl.Outcome.{Outcome, Error, ok, thrown, fault, ◌>>=◌, ◌>>◌}
use ficl.Vm.Check.{Which, underflow, overflow}

-- `address` is that of the first fence cell; `frame` is a pointer, 0 for none.
pub record Stack : Type 0 where
  pub size : ℕ
  pub address : ℕ
  pub frame : ℕ
  pub top : ℕ
  pub cells : ℕ → ℕ

abbrev pub with_top : Stack → ℕ → Stack
with_top s t = record s { top = t }

abbrev pub with_frame : Stack → ℕ → Stack
with_frame s f = record s { frame = f }

abbrev pub put_cell : (ℕ → ℕ) → ℕ → ℕ → ℕ → ℕ
put_cell cells i c j = if i == j then c else cells j

abbrev pub within : Stack → ℕ → Bool
within s i = ltb i (s.size + 5)

-- `*p` and `*p = c` at an index.
unfoldable pub read : Stack → ℕ → Outcome ℕ
read s i = if within s i then ok (s.cells i) else fault

unfoldable pub write : Stack → ℕ → ℕ → Outcome Stack
write s i c = if within s i then ok (record s { cells = put_cell s.cells i c }) else fault

-- `top - n`.
unfoldable pub lower : Stack → ℕ → Outcome ℕ
lower s n = if ltb s.top n then fault else ok (s.top - n)

-- `STKDEPTH`.
unfoldable pub stack_depth : Stack → ℕ
stack_depth s = sub (s.top + 1) 4

unfoldable pub stack_check : Which → Stack → ℕ → ℕ → Outcome (Unit {0})
unfolding underflow overflow
stack_check w s pops pushes =
    if ltb s.top (3 + pops)
    then thrown (underflow w)
    else if ltb (s.size + pops) (pushes + (s.top - 3))
    then thrown (overflow w)
    else ok tt

abbrev fenced : (ℕ → ℕ) → ℕ → ℕ
fenced cells i = if ltb i 4 then 0xDEADC0DE else cells i

unfoldable pub stack_reset : Stack → Stack
stack_reset s = record s { top = 3; cells = fenced s.cells }

-- The cells that `ficlMalloc` gives are whatever they are.
unfoldable pub stack_create : ℕ → (ℕ → ℕ) → ℕ → Stack
unfolding stack_reset
stack_create address cells size =
    stack_reset (record { size = size; address = address; frame = 0; top = 0; cells = cells })

unfoldable pub stack_drop : Stack → ℕ → Outcome Stack
unfolding lower
stack_drop s n = do t ← lower s n; ok (with_top s t)

unfoldable pub stack_fetch : Stack → ℕ → Outcome ℕ
unfolding lower read
stack_fetch s n = do i ← lower s n; read s i

unfoldable pub stack_store : Stack → ℕ → ℕ → Outcome Stack
unfolding lower write
stack_store s n c = do i ← lower s n; write s i c

unfoldable pub stack_get_top : Stack → Outcome ℕ
unfolding read
stack_get_top s = read s s.top

unfoldable pub stack_push : Stack → ℕ → Outcome Stack
unfolding write
stack_push s c = do t ← write s (s.top + 1) c; ok (with_top t (s.top + 1))

unfoldable pub stack_pop : Stack → Outcome (ℕ × Stack)
unfolding read lower
stack_pop s = do c ← read s s.top; t ← lower s 1; ok (c, with_top s t)

unfoldable pub stack_pick : Stack → ℕ → Outcome Stack
unfolding stack_fetch stack_push
stack_pick s n = do c ← stack_fetch s n; stack_push s c

unfoldable pub stack_pop_double : Stack → Outcome (Double × Stack)
unfolding stack_pop
stack_pop_double s = do (high, t) ← stack_pop s; (low, u) ← stack_pop t; ok (double high low, u)

unfoldable pub stack_push_double : Stack → Double → Outcome Stack
unfolding stack_push
stack_push_double s d = do t ← stack_push s d.low; stack_push t d.high

-- `stack->frame = stack->top + 1; stack->top += size`.
unfoldable pub stack_link : Stack → ℕ → Outcome Stack
unfolding stack_push
stack_link s n = do
  t ← stack_push s s.frame
  ok (with_top (with_frame t (t.address + 8 * (t.top + 1))) (t.top + n))

-- The index that a frame pointer stands for.
unfoldable pub frame_index : Stack → Outcome ℕ
frame_index s = if ltb s.frame (s.address + 8) then fault else ok ((s.frame - s.address) / 8)

unfoldable pub stack_unlink : Stack → Outcome Stack
unfolding stack_pop frame_index
stack_unlink s = do i ← frame_index s; (f, t) ← stack_pop (with_top s (i - 1)); ok (with_frame t f)

-- The loops of `ficlStackRoll`, from a cell upwards and downwards.
unfoldable pub roll_up : ℕ → Stack → ℕ → Outcome Stack
unfolding read write
roll_up zero s i = ok s
roll_up (suc n) s i = do c ← read s (i + 1); t ← write s i c; roll_up n t (i + 1)

unfoldable pub roll_down : ℕ → Stack → ℕ → Outcome Stack
unfolding read write
roll_down zero s i = ok s
roll_down (suc n) s i =
    if i == 0 then fault else do c ← read s (i - 1); t ← write s i c; roll_down n t (i - 1)

-- The two cases of `ficlStackRoll` for a count that is not zero.
unfoldable pub roll_to_top : Stack → ℕ → Outcome Stack
unfolding lower read write
roll_to_top s n = do i ← lower s n; c ← read s i; t ← roll_up n s i; write t s.top c

unfoldable pub roll_from_top : Stack → ℕ → Outcome Stack
unfolding lower read write
roll_from_top s n = do c ← read s s.top; t ← roll_down n s s.top; i ← lower s n; write t i c

-- `negsuc n` is `-(n + 1)`.
unfoldable pub stack_roll : Stack → ℤ → Outcome Stack
unfolding roll_to_top roll_from_top
stack_roll s (pos zero) = ok s
stack_roll s (pos (suc n)) = roll_to_top s (suc n)
stack_roll s (negsuc n) = roll_from_top s (suc n)

-- `FICL_STACK_CHECK(stack, 1, 1)` and the store.
unfoldable pub stack_set_top : Which → Stack → ℕ → Outcome Stack
unfolding stack_check write
stack_set_top w s c = do stack_check w s 1 1; write s s.top c

-- The cells that `ficlStackWalk` gives its callback, which goes on while the callback says so.
unfoldable pub walk_loop : {A : Type 0} → (A → ℕ → A × Bool) → Bool → ℕ → Stack → ℕ → A → Outcome A
unfolding read
walk_loop callback upwards zero s i a = ok a
walk_loop callback upwards (suc n) s i a = do
  c ← read s i
  let (b, more) = callback a c
  let rest = walk_loop callback upwards n s (if upwards then i + 1 else i - 1) b
  if more then rest else ok b

unfoldable pub stack_walk : {A : Type 0} → (A → ℕ → A × Bool) → Bool → Which → Stack → A → Outcome A
unfolding stack_check walk_loop
stack_walk callback upwards w s a = do
  stack_check w s 0 0
  walk_loop callback upwards (s.top - 3) s (if upwards then 4 else s.top) a
