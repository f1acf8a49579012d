-- ===== src/Primitives/Structures.antt =====
-- The words that compile control structures (primitives.c). A mark on the data stack is an address
-- in the dictionary under the address of a tag, a string of the program. Where the strings lie is
-- the linker's choice and a parameter.
pub mod Cells
pub mod Branches
pub mod Conditional
pub mod Backward
pub mod Loops
pub mod Tests
pub mod Pretested
pub mod Runs
use ficl.Common.{
  ℕ, zero, suc, ◌+◌, ◌-◌, ◌*◌, ◌/◌, ◌%◌, ◌^◌, Bool, true, false, List, [], ◌∷◌, leb, ltb, ◌==◌,
  if◌then◌else◌, Option, none, some,
}
use ficl.Common.Int.{ℤ, pos}
use ficl.Cell.{cell_mod, is_negative, add, sub, negate}
use ficl.Memory.{Memory, store}
use ficl.Outcome.{Outcome, ok, thrown, fault, ◌>>=◌, ◌>>◌, access, unmatched_control, data_overflow}
use ficl.Stack.{Stack, stack_check, stack_push, stack_pop, stack_get_top, stack_roll}
use ficl.Vm.Check.{on_data}
use ficl.Dictionary.{Dictionary, append_unsigned}
use ficl.Interpreter.{int_is_negative}
use ficl.Primitives.{Session, session}

pub data Tag : Type 0 where
  do_tag leave_tag dest_tag orig_tag case_tag of_tag fallthrough_tag : Tag

-- "do", "leave", "target", "origin", "case", "of" and "fallthrough".
abbrev pub text : Tag → List ℕ
text do_tag = 100 ∷ 111 ∷ []
text leave_tag = 108 ∷ 101 ∷ 97 ∷ 118 ∷ 101 ∷ []
text dest_tag = 116 ∷ 97 ∷ 114 ∷ 103 ∷ 101 ∷ 116 ∷ []
text orig_tag = 111 ∷ 114 ∷ 105 ∷ 103 ∷ 105 ∷ 110 ∷ []
text case_tag = 99 ∷ 97 ∷ 115 ∷ 101 ∷ []
text of_tag = 111 ∷ 102 ∷ []
text fallthrough_tag = 102 ∷ 97 ∷ 108 ∷ 108 ∷ 116 ∷ 104 ∷ 114 ∷ 111 ∷ 117 ∷ 103 ∷ 104 ∷ []

-- The instructions that are compiled, by their places in ficltokens.h.
pub data Instruction : Type 0 where
  branch_with_check branch_0_with_check of_instruction do_instruction q_do_instruction : Instruction
  loop_instruction plus_loop_instruction drop_instruction : Instruction

abbrev pub code : Instruction → ℕ
code branch_with_check = 48
code branch_0_with_check = 50
code of_instruction = 54
code do_instruction = 76
code q_do_instruction = 78
code loop_instruction = 53
code plus_loop_instruction = 55
code drop_instruction = 106

-- Whether `strcmp` finds this string at an address.
unfoldable pub is_string : Memory → ℕ → List ℕ → Outcome Bool
is_string m a [] = do b ← access (m a); ok (b == 0)
is_string m a (c ∷ s) = do b ← access (m a); if b == c then is_string m (a + 1) s else ok false

-- The difference of two cell pointers, which C defines for whole cells.
abbrev pub cells_from : ℕ → ℕ → Outcome ℕ
cells_from to from =
    let bytes = sub to from in
    if bytes % 8 == 0
    then ok (if is_negative bytes then negate (negate bytes / 8) else bytes / 8)
    else fault

-- `*patchAddr`.
unfoldable pub patch : Session → ℕ → ℕ → Outcome Session
patch v a value = do
  m ← access (store v.dictionary.memory 8 a value)
  ok (session (record v.dictionary { memory = m }) v.stack)

unfoldable pub compile : Session → ℕ → Outcome Session
unfolding append_unsigned
compile v u = do d ← append_unsigned v.dictionary u; ok (session d v.stack)

unfoldable pub push_cell : Session → ℕ → Outcome Session
unfolding stack_push
push_cell v c = do s ← stack_push v.stack c; ok (session v.dictionary s)

unfoldable pub pop_cell : Session → Outcome (ℕ × Session)
unfolding stack_pop
pop_cell v = do (c, s) ← stack_pop v.stack; ok (c, session v.dictionary s)

-- A branch to `here` at an address, relative to it.
unfoldable pub patch_here : Session → ℕ → Outcome Session
unfolding patch
patch_here v a = do offset ← cells_from v.dictionary.here a; patch v a offset

module _ (address_of : Tag → ℕ) where
  unfoldable pub mark_control_tag : Session → Tag → Outcome Session
  unfolding push_cell
  mark_control_tag v tag = push_cell v (address_of tag)

  unfoldable pub mark_branch : Session → Tag → Outcome Session
  unfolding push_cell
  mark_branch v tag = do w ← push_cell v v.dictionary.here; push_cell w (address_of tag)

  unfoldable pub match_control_tag : Session → Tag → Outcome Session
  unfolding stack_check pop_cell is_string
  match_control_tag v want = do
    stack_check on_data v.stack 1 0
    (tag, w) ← pop_cell v
    let compare = do
      same ← is_string w.dictionary.memory tag (text want)
      if same then ok w else thrown unmatched_control
    if tag == address_of want then ok w else compare

  unfoldable pub resolve_back_branch : Session → Tag → Outcome Session
  unfolding match_control_tag stack_check pop_cell compile
  resolve_back_branch v tag = do
    w ← match_control_tag v tag
    stack_check on_data w.stack 1 0
    (target, x) ← pop_cell w
    offset ← cells_from target x.dictionary.here
    compile x offset

  unfoldable pub resolve_forward_branch : Session → Tag → Outcome Session
  unfolding match_control_tag stack_check pop_cell patch_here
  resolve_forward_branch v tag = do
    w ← match_control_tag v tag
    stack_check on_data w.stack 1 0
    (a, x) ← pop_cell w
    patch_here x a

  -- Another tag gives a warning on the terminal.
  unfoldable pub resolve_abs_branch : Session → Tag → Outcome Session
  unfolding stack_check pop_cell is_string patch
  resolve_abs_branch v want = do
    stack_check on_data v.stack 2 0
    (tag, w) ← pop_cell v
    let compare = is_string w.dictionary.memory tag (text want)
    same ← if tag == address_of want then ok true else compare
    (a, x) ← pop_cell w
    patch x a x.dictionary.here

  unfoldable pub if_co_im : Session → Outcome Session
  unfolding compile mark_branch
  if_co_im v = do w ← compile v (code branch_0_with_check); x ← mark_branch w orig_tag; compile x 1

  unfoldable pub else_co_im : Session → Outcome Session
  unfolding compile match_control_tag pop_cell mark_branch patch_here
  else_co_im v = do
    w ← compile v (code branch_with_check)
    x ← match_control_tag w orig_tag
    (a, y) ← pop_cell x
    z ← mark_branch y orig_tag
    done ← compile z 1
    patch_here done a

  unfoldable pub ahead_co_im : Session → Outcome Session
  unfolding compile mark_branch
  ahead_co_im v = do w ← compile v (code branch_with_check); x ← mark_branch w orig_tag; compile x 1

  unfoldable pub endif_co_im : Session → Outcome Session
  unfolding resolve_forward_branch
  endif_co_im v = resolve_forward_branch v orig_tag

  unfoldable pub begin_co_im : Session → Outcome Session
  unfolding mark_branch
  begin_co_im v = mark_branch v dest_tag

  unfoldable pub until_co_im : Session → Outcome Session
  unfolding compile resolve_back_branch
  until_co_im v = do w ← compile v (code branch_0_with_check); resolve_back_branch w dest_tag

  unfoldable pub while_co_im : Session → Outcome Session
  unfolding stack_check compile mark_branch stack_roll
  while_co_im v = do
    stack_check on_data v.stack 2 5
    w ← compile v (code branch_0_with_check)
    x ← mark_branch w orig_tag
    s ← stack_roll x.stack (pos 3)
    t ← stack_roll s (pos 3)
    compile (session x.dictionary t) 1

  unfoldable pub repeat_co_im : Session → Outcome Session
  unfolding compile resolve_back_branch resolve_forward_branch
  repeat_co_im v = do
    w ← compile v (code branch_with_check)
    x ← resolve_back_branch w dest_tag
    resolve_forward_branch x orig_tag

  unfoldable pub again_co_im : Session → Outcome Session
  unfolding compile resolve_back_branch
  again_co_im v = do w ← compile v (code branch_with_check); resolve_back_branch w dest_tag

  -- `ficlPrimitiveDoCoIm` and `ficlPrimitiveQDoCoIm`.
  unfoldable pub do_co_im : Instruction → Session → Outcome Session
  unfolding compile mark_branch
  do_co_im instruction v = do
    w ← compile v (code instruction)
    x ← mark_branch w leave_tag
    y ← compile x 0
    mark_branch y do_tag

  -- `ficlPrimitiveLoopCoIm` and `ficlPrimitivePlusLoopCoIm`.
  unfoldable pub loop_co_im : Instruction → Session → Outcome Session
  unfolding compile resolve_back_branch resolve_abs_branch
  loop_co_im instruction v = do
    w ← compile v (code instruction)
    x ← resolve_back_branch w do_tag
    resolve_abs_branch x leave_tag
