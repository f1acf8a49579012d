-- ===== src/Stack/Frames.antt =====
-- Frames for local variables: `ficlStackUnlink` undoes `ficlStackLink`.
use ficl.Common.{
  ℕ, ◌+◌, ◌-◌, ◌*◌, ◌/◌, ◌<◌, ◌≡◌, refl, ◌∙◌, true, false, List, length, ltb, ◌==◌, arith,
}
use ficl.Outcome.{ok}
use ficl.Stack.{
  Stack, put_cell, read, write, lower, stack_push, stack_pop, stack_link, stack_unlink, frame_index,
}
use ficl.Stack.Refinement.{cells_to, Holds, Holds-depth, Holds-intro, Holds-cells, cells_to_ext}

-- On a stack with room for the frame pointer and the locals, `ficlStackLink` succeeds, and
-- `ficlStackUnlink` then restores the cells, the frame pointer and the top.
pub stack_unlink-stack_link :
    (s : Stack) (xs : List ℕ) (n : ℕ)
    → Holds s xs
    → length xs + n < s.size
    → (t u : Stack) × (stack_link s n ≡ ok t)
      × (stack_unlink t ≡ ok u)
      × Holds u xs
      × (u.frame ≡ s.frame)
      × (u.top ≡ s.top)
unfolding stack_link stack_unlink stack_push stack_pop frame_index read write lower
stack_unlink-stack_link s xs n h room =
    let depth = Holds-depth s xs h in
    let i = s.top + 1 in
    let inside : ltb i (s.size + 5) ≡ true = ground arith in
    let a = s.address + 8 * (i + 1) in
    let t = record s { frame = a; top = i + n; cells = put_cell s.cells i s.frame } in
    let far : ltb a (s.address + 8) ≡ false = ground arith in
    let back : (a - s.address) / 8 - 1 ≡ i = omega arith in
    let back' : i - 1 ≡ s.top = omega arith in
    let positive : ltb i 1 ≡ false = ground arith in
    let here : (i == i) ≡ true = ground arith in
    let u = record s { cells = put_cell s.cells i s.frame } in
    let same : cells_to u.cells (length xs) ≡ xs =
      cells_to_ext u.cells s.cells (length xs)
        (λ j low high. let other : (i == j) ≡ false = ground arith in rw other refl)
      ∙ Holds-cells s xs h in
    (
      t,
      u,
      rw inside refl,
      rw (far, back, inside, here, positive, back') refl,
      Holds-intro u xs (length xs) depth (omega arith) same,
      refl,
      refl,
    )
