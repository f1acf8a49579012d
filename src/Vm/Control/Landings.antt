-- ===== src/Vm/Control/Landings.antt =====
-- Where the branch instructions go.
use ficl.Common.{
  ℕ, ◌+◌, ◌*◌, ◌%◌, ◌-◌, ◌≤◌, ◌<◌, ◌≡◌, refl, ◌∙◌, List, ◌∷◌, length, ◌==◌, if◌then◌else◌, arith,
  Bool-cases, inl, inr, some,
}
use ficl.Cell.{cell_mod, sign_bit, negate, add, sub}
use ficl.Memory.{Memory, load}
use ficl.Outcome.{ok}
use ficl.Vm.Check.{pop}
use ficl.Vm.Control.{
  machine, Sizes, control, branch, operand, branch_paren, branch_0_paren, leave, loop_paren,
  exit_function, crosses,
}
use ficl.Vm.Control.Turns.{pops-ok, in_loop, goes_on, ends}

-- The branches of the inner interpreter on an operand of `k` cells.
pub branch-lands :
    (z : Sizes) (m : Memory) (ip k : ℕ) (c r : List ℕ)
    → load m 8 ip ≡ some k
    → ip + k * 8 < cell_mod
    → control z m branch_paren (machine ip c r) ≡ ok (machine (ip + k * 8) c r)
unfolding control branch operand
branch-lands z m ip k c r h low =
    let e : (ip + k * 8) % cell_mod ≡ ip + k * 8 = ground arith in rw (h, e) refl

pub branch_0-lands :
    (z : Sizes) (m : Memory) (ip k x : ℕ) (c r : List ℕ)
    → load m 8 ip ≡ some k
    → ip + k * 8 < cell_mod
    → ip + 8 < cell_mod
    → length c < z.data_size
    → control z m branch_0_paren (machine ip (x ∷ c) r)
      ≡ ok (machine (if x == 0 then ip + k * 8 else ip + 8) c r)
unfolding control branch operand pop
branch_0-lands z m ip k x c r h low next room =
    let e : (ip + k * 8) % cell_mod ≡ ip + k * 8 = ground arith in
    let onward : add ip 8 ≡ ip + 8 = ground arith in
    let checked = pops-ok z.data_size (length (x ∷ c)) 1 (omega arith) (omega arith) in
    elim (Bool-cases (x == 0)) [
      | inl nought ↦ rw (checked, nought, h, e) refl
      | inr other ↦ rw (checked, other, onward) refl
    ]

-- A branch back over `k` cells.
pub back_lands :
    (ip k : ℕ) → k * 8 ≤ ip → ip < cell_mod → (ip + negate k * 8) % cell_mod ≡ ip - k * 8
back_lands ip k far low = ground arith

pub branch-lands_back :
    (z : Sizes) (m : Memory) (ip k : ℕ) (c r : List ℕ)
    → load m 8 ip ≡ some (negate k)
    → k * 8 ≤ ip
    → ip < cell_mod
    → control z m branch_paren (machine ip c r) ≡ ok (machine (ip - k * 8) c r)
unfolding control branch operand
branch-lands_back z m ip k c r h far low = let e = back_lands ip k far low in rw (h, e) refl

pub branch_0-lands_back :
    (z : Sizes) (m : Memory) (ip k x : ℕ) (c r : List ℕ)
    → load m 8 ip ≡ some (negate k)
    → k * 8 ≤ ip
    → ip + 8 < cell_mod
    → length c < z.data_size
    → control z m branch_0_paren (machine ip (x ∷ c) r)
      ≡ ok (machine (if x == 0 then ip - k * 8 else ip + 8) c r)
unfolding control branch operand pop
branch_0-lands_back z m ip k x c r h far next room =
    let e = back_lands ip k far (omega (arith, next)) in
    let onward : add ip 8 ≡ ip + 8 = ground arith in
    let checked = pops-ok z.data_size (length (x ∷ c)) 1 (omega arith) (omega arith) in
    elim (Bool-cases (x == 0)) [
      | inl nought ↦ rw (checked, nought, h, e) refl
      | inr other ↦ rw (checked, other, onward) refl
    ]

-- `leave` goes to the address that the loop holds.
pub leave-lands :
    (z : Sizes) (m : Memory) (ip index limit leave_to : ℕ) (c r : List ℕ)
    → control z m leave (machine ip c (in_loop index limit leave_to r)) ≡ ok (machine leave_to c r)
unfolding control exit_function pop
leave-lands z m ip index limit leave_to c r = refl

-- `loop` goes back to the body or on behind itself.
pub loop-lands :
    (z : Sizes) (m : Memory) (ip k index limit leave_to : ℕ) (c r : List ℕ)
    → load m 8 ip ≡ some (negate k)
    → k * 8 ≤ ip
    → ip + 8 < cell_mod
    → control z m loop_paren (machine ip c (in_loop index limit leave_to r))
      ≡ ok (
          if crosses (sub index (add limit sign_bit)) 1
          then machine (ip + 8) c r
          else machine
              (ip - k * 8)
              c
              (add (sub index (add limit sign_bit)) 1 ∷ add limit sign_bit ∷ leave_to ∷ r))
unfolding control
loop-lands z m ip k index limit leave_to c r h far next =
    let x = sub index (add limit sign_bit) in
    let e = back_lands ip k far (omega (arith, next)) in
    let onward : add ip 8 ≡ ip + 8 = ground arith in
    elim (Bool-cases (crosses x 1)) [
      | inl over ↦ ends m ip x (add limit sign_bit) leave_to 1 c r over ∙ rw (over, onward) refl
      | inr stays ↦
          goes_on m ip x (add limit sign_bit) leave_to 1 (negate k) c r h stays ∙ rw (stays, e) refl
    ]
