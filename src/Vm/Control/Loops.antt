-- ===== src/Vm/Control/Loops.antt =====
-- What a counted loop comes to: the turns that it makes and the index that each of them sees.
use ficl.Common.{
  ℕ, suc, ◌+◌, ◌-◌, ◌*◌, ◌%◌, ◌^◌, ◌≤◌, ◌<◌, ◌≡◌, refl, Bool, true, false, not, List, ◌∷◌, length,
  if◌then◌else◌, arith, some, Bool-cases, inl, inr, ap, ◌∙◌,
}
use ficl.Cell.{sign_bit, is_negative, add, sub}
use ficl.Memory.{Memory, load}
use ficl.Outcome.{Outcome, ok, ◌>>=◌}
use ficl.Vm.Check.{pop}
use ficl.Vm.Control.{Machine, machine, Sizes, crosses, do_paren, plus_loop_paren, loop_i, control}
use ficl.Vm.Control.Turns.{
  turns, trips, in_loop, goes_on, ends, turns-within, turns-all, distance, leaves-at, stays-all,
  pops-ok, loop_i_lem, do_paren_lem,
}

-- `do` at an index and a limit, and then `count` turns.
abbrev pub run_loop : Sizes → Memory → (ℕ → List ℕ → List ℕ) → ℕ → Machine → ℕ → Outcome Machine
run_loop z m body at s count = control z m do_paren s >>= λ t. turns z m body at count t

-- As long as the number `k` of turns made is below `trips`, the loop that `(do)` opened is still
-- running, and `i` gives the first index plus `k`, wrapped round at 2 ^ 64, on any data stack with
-- room for it and whatever the body has done to the data stack.
pub loop-index :
    (z : Sizes) (m : Memory) (body : ℕ → List ℕ → List ℕ)
    → (index limit leave_to ip at offset k p : ℕ) (d r e : List ℕ) → index < 2 ^ 64
    → limit < 2 ^ 64
    → length d + 2 ≤ z.data_size
    → length r + 3 ≤ z.return_size
    → load m 8 ip ≡ some leave_to
    → load m 8 at ≡ some offset
    → k < trips (sub limit index)
    → length e < z.data_size
    → (t : Machine) × (run_loop z m body at (machine ip (index ∷ limit ∷ d) r) k ≡ ok t)
      × (control z m loop_i (machine p e t.return_stack)
          ≡ ok (machine p ((index + k) % 2 ^ 64 ∷ e) t.return_stack))
loop-index z m body index limit leave_to ip at offset k p d r e hi hl room room_r h ho small
      room_e =
    let x = sub index (add limit sign_bit) in
    let n = trips (sub limit index) - 1 in
    let stays =
      stays-all x (trips (sub limit index)) n (distance index limit hi hl) (omega arith) in
    let s = machine (add ip 8) d (in_loop index limit leave_to r) in
    let fits : x < 2 ^ 64 = ground arith in
    let (t, f, g) =
      turns-within z m body at x (add limit sign_bit) leave_to offset r s n ho refl stays k
        (omega arith) fits in
    (
      t,
      rw (do_paren_lem z m index limit leave_to ip d r h room room_r) f,
      rw g (loop_i_lem z m index limit leave_to k p e r hi hl room_e),
    )

-- A loop that `(do)` opens, on stacks with cells and room for it and with operands that can be
-- read, ends after `trips` turns of `(loop)`, whatever its body does to the data stack: as many
-- turns as the limit lies above the first index, modulo 2 ^ 64, but 2 ^ 63 fewer where that is more
-- than 2 ^ 63, and 2 ^ 63 where it is zero. It then goes on behind the operand of `(loop)`, with
-- the return stack as it was before `(do)`.
pub loop-ends :
    (z : Sizes) (m : Memory) (body : ℕ → List ℕ → List ℕ)
    → (index limit leave_to ip at offset : ℕ) (d r : List ℕ) → index < 2 ^ 64
    → limit < 2 ^ 64
    → length d + 2 ≤ z.data_size
    → length r + 3 ≤ z.return_size
    → load m 8 ip ≡ some leave_to
    → load m 8 at ≡ some offset
    → (t : Machine) × (run_loop z m body at
          (machine ip (index ∷ limit ∷ d) r)
          (trips (sub limit index))
        ≡ ok t)
      × (t.return_stack ≡ r)
      × (t.ip ≡ add at 8)
loop-ends z m body index limit leave_to ip at offset d r hi hl room room_r h ho =
    let x = sub index (add limit sign_bit) in
    let n = trips (sub limit index) - 1 in
    let last : n + 1 ≡ trips (sub limit index) = ground arith in
    let same : trips (sub limit index) ≡ suc n = omega arith in
    let far = distance index limit hi hl in
    let s = machine (add ip 8) d (in_loop index limit leave_to r) in
    let fits : x < 2 ^ 64 = ground arith in
    let (t, f, g, h_ip) =
      turns-all z m body at x (add limit sign_bit) leave_to offset r s n ho refl
        (stays-all x (trips (sub limit index)) n far last)
        (leaves-at x (trips (sub limit index)) n far last) fits in
    (
      t,
      rw (do_paren_lem z m index limit leave_to ip d r h room room_r)
          (ap (λ c. turns z m body at c s) same ∙ f),
      g,
      h_ip,
    )

abbrev pub agree : Bool → Bool → Bool
agree a b = if a then b else not b

crosses-agree :
    (index limit by : ℕ) (b : Bool)
    → index < 2 ^ 64
    → limit < 2 ^ 64
    → by < 2 ^ 64
    → agree (is_negative (sub index limit)) (is_negative (sub (add index by) limit)) ≡ b
    → crosses (sub index (add limit sign_bit)) by ≡ not b
crosses-agree index limit by true hi hl hb e = ground arith
crosses-agree index limit by false hi hl hb e = ground arith

-- `(+loop)`, with its step on the data stack and in a loop at some index, goes back to its branch
-- target with the index grown by the step while the index and the grown index lie on the same side
-- of the limit: their differences from it, modulo 2 ^ 64, are both negative as signed cells or both
-- not. Otherwise it leaves the loop and drops its three cells.
pub plus_loop_lem :
    (z : Sizes) (m : Memory) (index limit leave_to at offset by : ℕ) (d r : List ℕ)
    → index < 2 ^ 64
    → limit < 2 ^ 64
    → by < 2 ^ 64
    → length d < z.data_size
    → load m 8 at ≡ some offset
    → control z m plus_loop_paren (machine at (by ∷ d) (in_loop index limit leave_to r))
      ≡ ok (
          if agree (is_negative (sub index limit)) (is_negative (sub (add index by) limit))
          then machine ((at + offset * 8) % 2 ^ 64) d (in_loop (add index by) limit leave_to r)
          else machine (add at 8) d r)
unfolding control pop
plus_loop_lem z m index limit leave_to at offset by d r hi hl hb room h =
    let x = sub index (add limit sign_bit) in
    let l = add limit sign_bit in
    let moved : add x by ≡ sub (add index by) l = ground arith in
    let enough = pops-ok z.data_size (length (by ∷ d)) 1 (omega arith) (omega arith) in
    elim (Bool-cases
      (agree (is_negative (sub index limit)) (is_negative (sub (add index by) limit)))) [
        | inl e ↦
            rw
              (
                enough,
                e,
                goes_on m at x l leave_to by offset d r h
                    (crosses-agree index limit by true hi hl hb e),
                moved,
              )
              refl
        | inr e ↦
            rw
              (
                enough,
                e,
                ends m at x l leave_to by d r (crosses-agree index limit by false hi hl hb e),
              )
              refl
      ]
