-- ===== src/Vm/Jumps.antt =====
-- `ficlVmOptimizeJumpToJump` (vm.c): a branch to a branch is made to go where the second one goes.
-- Code is an array of cells, by their places; a pointer to cells wraps round at 2 ^ 61.
pub mod Laws
pub mod Shortcuts
pub mod Checks
pub mod Passes
use ficl.Common.{
  ℕ, zero, suc, ◌+◌, ◌-◌, ◌*◌, ◌%◌, ◌^◌, Bool, true, false, ◌||◌, ltb, ◌==◌, if◌then◌else◌, Option,
  none, some,
}
use ficl.Cell.{cell_mod}

abbrev pub Code : Type 0
Code = ℕ → ℕ

abbrev pub put_code : Code → ℕ → ℕ → Code
put_code code x c y = if x == y then c else code y

-- Where a branch at a place goes.
abbrev pub goes : Code → ℕ → ℕ
goes code x = (x + 1 + code (x + 1)) % 2 ^ 61

-- The difference of two pointers to cells, as a cell.
abbrev pub between : ℕ → ℕ → ℕ
between to from =
    let n = (to + 2 ^ 61 - from) % 2 ^ 61 in if ltb n (2 ^ 60) then n else cell_mod - 2 ^ 61 + n

-- `*ip = destination - ip`, with the destination of the branch at `target`.
abbrev pub retarget : Code → ℕ → ℕ → Code
retarget code ip target = put_code code (ip + 1) (between (goes code target) (ip + 1))

-- 48 and 49 are `(branch)` before and after this pass, 50 and 51 `(branch0)`. Each round takes one
-- check away; a round that lacks fuel gives `none`.
unfoldable pub optimize : ℕ → Code → ℕ → Option Code
optimize zero code ip = none
optimize (suc fuel) code ip =
    let seen = put_code code ip (if code ip == 48 then 49 else 51) in
    let target = goes seen ip in
    elim (code ip == 48 || code ip == 50) [
      | false ↦ some code
      | true ↦ elim (seen target == 48) [
        | true ↦ elim (optimize fuel seen target) [
          | none ↦ none
          | some done ↦ some (retarget done ip target)
        ]
        | false ↦ elim (seen target == 49) [
          | true ↦ some (retarget seen ip target)
          | false ↦ some seen
        ]
      ]
    ]
