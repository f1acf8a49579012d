-- ===== src/Primitives/Structures/Runs.antt =====
-- Control structures that were compiled, run by the inner interpreter.
use ficl.Common.{
  ℕ, ◌+◌, ◌-◌, ◌*◌, ◌^◌, ◌≤◌, ◌<◌, ◌≡◌, refl, ap, ◌∙◌, List, ◌∷◌, length, some, ◌==◌, if◌then◌else◌,
  arith,
}
use ficl.Cell.{sign_bit, negate, add, sub}
use ficl.Memory.{Memory}
use ficl.Outcome.{Outcome, ok}
use ficl.Stack.{Stack}
use ficl.Stack.Refinement.{Holds}
use ficl.Vm.Control.{
  Machine, machine, Sizes, control, crosses, branch_paren, branch_0_paren, do_paren, loop_paren,
  leave,
}
use ficl.Vm.Control.Turns.{trips, in_loop, do_paren_lem}
use ficl.Vm.Control.Loops.{run_loop, loop-ends}
use ficl.Vm.Control.Landings.{
  branch-lands, branch_0-lands, branch_0-lands_back, branch-lands_back, loop-lands, leave-lands,
}
use ficl.Vm.Control.Fetch.{direct, checked, fetch_instruction, token, fetch_instruction-reads}
use ficl.Dictionary.{Dictionary}
use ficl.Primitives.{Session, session}
use ficl.Primitives.Structures.{Tag, do_instruction, loop_instruction}
use ficl.Primitives.Structures.Cells.{IsMapped, placed}
use ficl.Primitives.Structures.Conditional.{IsPart, conditional, conditional-ChosenCode}
use ficl.Primitives.Structures.Backward.{indefinite, indefinite-RepeatedCode}
use ficl.Primitives.Structures.Pretested.{pretested, pretested-TestedCode}
use ficl.Primitives.Structures.Loops.{counted, counted-LoopCode}

-- Where `if`, `else` and `endif` are compiled around two parts that compile wherever they stand, on
-- a data stack and in a memory with room for them, they and the parts succeed and leave the stack
-- as it was. In the memory that results the inner loop fetches at `if` the case of the conditional
-- branch with its check, and that branch goes to the second part when it finds a zero and to the
-- first when it does not; behind the first part it fetches the case of the unconditional branch
-- with its check, and that branch goes behind the second part. The checks, which Vm/Jumps is about,
-- are not run here.
pub conditional-runs :
    (address_of : Tag → ℕ) (f g : Session → Outcome Session) (n l k : ℕ) (d : Dictionary)
    (s : Stack) (h : ℕ) (m : Memory) (xs : List ℕ) (z : Sizes) (x : ℕ) (c r : List ℕ)
    → IsPart f n k
    → IsPart g l k
    → Holds s xs
    → length xs + (k + 2) ≤ s.size
    → IsMapped m h ((n + l + 4) * 8)
    → h + (n + l + 4) * 8 < 2 ^ 63
    → length c < z.data_size
    → (t : Stack) × (m' : Memory) × (conditional address_of f g (session (placed d h m) s)
        ≡ ok (session (placed d (h + (n + l + 4) * 8) m') t))
      × Holds t xs
      × (fetch_instruction m' (machine h (x ∷ c) r)
          ≡ ok (some (checked branch_0_paren), machine (h + 8) (x ∷ c) r))
      × (control z m' branch_0_paren (machine (h + 8) (x ∷ c) r)
          ≡ ok (machine (if x == 0 then h + 32 + n * 8 else h + 16) c r))
      × (fetch_instruction m' (machine (h + 16 + n * 8) c r)
          ≡ ok (some (checked branch_paren), machine (h + 24 + n * 8) c r))
      × (control z m' branch_paren (machine (h + 24 + n * 8) c r)
          ≡ ok (machine (h + (n + l + 4) * 8) c r))
unfolding token
conditional-runs address_of f g n l k d s h m xs z x c r f_part g_part holds room mapped low
      room_c =
    let v =
      conditional-ChosenCode address_of f g n l k f_part g_part d s h m xs room mapped low holds in
    let m' = v.whole.memory in
    let second : h + 8 + (n + 3) * 8 ≡ h + 32 + n * 8 = omega arith in
    let first : h + 8 + 8 ≡ h + 16 = omega arith in
    let behind : h + 24 + n * 8 + (l + 1) * 8 ≡ h + (n + l + 4) * 8 = omega arith in
    (
      v.whole.stack,
      m',
      v.whole.does,
      v.whole.holds,
      fetch_instruction-reads m' h (h + 8) 50 (x ∷ c) r v.test refl (omega (arith, low)),
      branch_0-lands z m' (h + 8) (n + 3) x c r v.test_operand (omega (arith, low))
            (omega (arith, low)) room_c
          ∙ rw (second, first) refl,
      fetch_instruction-reads m' (h + 16 + n * 8) (h + 24 + n * 8) 48 c r v.jump (omega arith)
          (omega (arith, low)),
      branch-lands z m' (h + 24 + n * 8) (l + 1) c r v.jump_operand (omega (arith, low))
          ∙ ap (λ a. ok (machine a c r)) behind,
    )

indefinite-runs :
    (address_of : Tag → ℕ) (f : Session → Outcome Session) (n k : ℕ) (d : Dictionary) (s : Stack)
    (h : ℕ) (m : Memory) (xs : List ℕ) (z : Sizes) (x : ℕ) (c r : List ℕ)
    → IsPart f n k
    → Holds s xs
    → length xs + (k + 2) ≤ s.size
    → IsMapped m h ((n + 2) * 8)
    → h + (n + 2) * 8 < 2 ^ 63
    → length c < z.data_size
    → (t : Stack) × (m' : Memory) × (indefinite address_of f (session (placed d h m) s)
        ≡ ok (session (placed d (h + (n + 2) * 8) m') t))
      × Holds t xs
      × (control z m' branch_0_paren (machine (h + 8 + n * 8) (x ∷ c) r)
          ≡ ok (machine (if x == 0 then h else h + (n + 2) * 8) c r))
indefinite-runs address_of f n k d s h m xs z x c r f_part holds room mapped low room_c =
    let v = indefinite-RepeatedCode address_of f n k f_part d s h m xs room mapped low holds in
    let m' = v.whole.memory in
    let start : h + 8 + n * 8 - (n + 1) * 8 ≡ h = omega arith in
    let behind : h + 8 + n * 8 + 8 ≡ h + (n + 2) * 8 = omega arith in
    (
      v.whole.stack,
      m',
      v.whole.does,
      v.whole.holds,
      branch_0-lands_back z m' (h + 8 + n * 8) (n + 1) x c r v.test_operand (omega arith)
            (omega (arith, low)) room_c
          ∙ rw (start, behind) refl,
    )

-- Where `begin`, `while` and `repeat` are compiled around two parts that compile wherever they
-- stand, on a data stack and in a memory with room for them, they and the parts succeed and leave
-- the stack as it was. In the memory that results the inner loop fetches at `while` the case of the
-- conditional branch with its check, and that branch goes behind `repeat` when it finds a zero and
-- to the second part when it does not; at `repeat` it fetches the case of the unconditional branch
-- with its check, and that branch goes back to the first part. The checks, which Vm/Jumps is about,
-- are not run here.
pub pretested-runs :
    (address_of : Tag → ℕ) (f g : Session → Outcome Session) (n l k : ℕ) (d : Dictionary)
    (s : Stack) (h : ℕ) (m : Memory) (xs : List ℕ) (z : Sizes) (x : ℕ) (c r : List ℕ)
    → IsPart f n k
    → IsPart g l k
    → Holds s xs
    → length xs + (k + 5) ≤ s.size
    → IsMapped m h ((n + l + 4) * 8)
    → h + (n + l + 4) * 8 < 2 ^ 63
    → length c < z.data_size
    → (t : Stack) × (m' : Memory) × (pretested address_of f g (session (placed d h m) s)
        ≡ ok (session (placed d (h + (n + l + 4) * 8) m') t))
      × Holds t xs
      × (fetch_instruction m' (machine (h + n * 8) (x ∷ c) r)
          ≡ ok (some (checked branch_0_paren), machine (h + 8 + n * 8) (x ∷ c) r))
      × (control z m' branch_0_paren (machine (h + 8 + n * 8) (x ∷ c) r)
          ≡ ok (machine (if x == 0 then h + (n + l + 4) * 8 else h + 16 + n * 8) c r))
      × (fetch_instruction m' (machine (h + 16 + (n + l) * 8) c r)
          ≡ ok (some (checked branch_paren), machine (h + 24 + (n + l) * 8) c r))
      × (control z m' branch_paren (machine (h + 24 + (n + l) * 8) c r) ≡ ok (machine h c r))
unfolding token
pretested-runs address_of f g n l k d s h m xs z x c r f_part g_part holds room mapped low room_c =
    let v =
      pretested-TestedCode address_of f g n l k f_part g_part d s h m xs room mapped low holds in
    let m' = v.whole.memory in
    let behind : h + 8 + n * 8 + (l + 3) * 8 ≡ h + (n + l + 4) * 8 = omega arith in
    let inside : h + 8 + n * 8 + 8 ≡ h + 16 + n * 8 = omega arith in
    let start : h + 24 + (n + l) * 8 - (n + l + 3) * 8 ≡ h = omega arith in
    (
      v.whole.stack,
      m',
      v.whole.does,
      v.whole.holds,
      fetch_instruction-reads m' (h + n * 8) (h + 8 + n * 8) 50 (x ∷ c) r v.test (omega arith)
          (omega (arith, low)),
      branch_0-lands z m' (h + 8 + n * 8) (l + 3) x c r v.test_operand (omega (arith, low))
            (omega (arith, low)) room_c
          ∙ rw (behind, inside) refl,
      fetch_instruction-reads m' (h + 16 + (n + l) * 8) (h + 24 + (n + l) * 8) 48 c r v.jump
          (omega arith) (omega (arith, low)),
      branch-lands_back z m' (h + 24 + (n + l) * 8) (n + l + 3) c r v.jump_operand (omega arith)
            (omega (arith, low))
          ∙ rw start refl,
    )

-- Where `do` and `loop` are compiled around a part that compiles wherever it stands, on a data
-- stack and in a memory with room for them, they and the part succeed and leave the stack as it
-- was. In the memory that results the inner loop fetches `(do)` in front of the part, which enters
-- the loop with a first index and a limit, and behind the part `(loop)`, which goes back to the
-- part or leaves the loop; `leave` goes behind the loop, and after as many turns as the limit asks
-- for the loop goes on behind itself with the return stack as before.
pub counted-runs :
    (address_of : Tag → ℕ) (f : Session → Outcome Session) (n k : ℕ) (d : Dictionary) (s : Stack)
    (h : ℕ) (m : Memory) (xs : List ℕ) (z : Sizes) (body : ℕ → List ℕ → List ℕ)
    (first limit index p : ℕ) (c e r : List ℕ)
    → IsPart f n k
    → Holds s xs
    → length xs + (k + 4) ≤ s.size
    → IsMapped m h ((n + 4) * 8)
    → h + (n + 4) * 8 < 2 ^ 63
    → first < 2 ^ 64
    → limit < 2 ^ 64
    → length c + 2 ≤ z.data_size
    → length r + 3 ≤ z.return_size
    → let behind = h + (n + 4) * 8 in
      (t : Stack) × (m' : Memory) × (u : Machine) × (counted address_of do_instruction
          loop_instruction f
          (session (placed d h m) s)
        ≡ ok (session (placed d behind m') t))
      × Holds t xs
      × (fetch_instruction m' (machine h (first ∷ limit ∷ c) r)
          ≡ ok (some (direct do_paren), machine (h + 8) (first ∷ limit ∷ c) r))
      × (control z m' do_paren (machine (h + 8) (first ∷ limit ∷ c) r)
          ≡ ok (machine (h + 16) c (in_loop first limit behind r)))
      × (fetch_instruction m' (machine (h + 16 + n * 8) e (in_loop index limit behind r))
          ≡ ok
              (some (direct loop_paren), machine (h + 24 + n * 8) e (in_loop index limit behind r)))
      × (control z m' loop_paren (machine (h + 24 + n * 8) e (in_loop index limit behind r))
          ≡ ok (
              if crosses (sub index (add limit sign_bit)) 1
              then machine behind e r
              else machine
                  (h + 16)
                  e
                  (add (sub index (add limit sign_bit)) 1 ∷ add limit sign_bit ∷ behind ∷ r)))
      × (control z m' leave (machine p e (in_loop index limit behind r)) ≡ ok (machine behind e r))
      × (run_loop z m' body
            (h + 24 + n * 8)
            (machine (h + 8) (first ∷ limit ∷ c) r)
            (trips (sub limit first))
          ≡ ok u)
      × (u.ip ≡ behind)
      × (u.return_stack ≡ r)
unfolding token
counted-runs address_of f n k d s h m xs z body first limit index p c e r f_part holds room mapped
      low hi hl room_c room_r =
    let v =
      counted-LoopCode address_of do_instruction loop_instruction f n k f_part d s h m xs room
        mapped low holds in
    let m' = v.whole.memory in
    let behind = h + (n + 4) * 8 in
    let (u, runs, returned, place) =
      loop-ends z m' body first limit behind (h + 8) (h + 24 + n * 8) (negate (n + 1)) c r hi hl
        room_c room_r v.leave_to v.back in
    let start : add (h + 8) 8 ≡ h + 16 = ground (arith, low) in
    let finish : add (h + 24 + n * 8) 8 ≡ behind = ground (arith, low) in
    let head : h + 24 + n * 8 - (n + 1) * 8 ≡ h + 16 = omega arith in
    let tail : h + 24 + n * 8 + 8 ≡ behind = omega arith in
    (
      v.whole.stack,
      m',
      u,
      v.whole.does,
      v.whole.holds,
      fetch_instruction-reads m' h (h + 8) 76 (first ∷ limit ∷ c) r v.first refl
          (omega (arith, low)),
      do_paren_lem z m' first limit behind (h + 8) c r v.leave_to room_c room_r ∙ rw start refl,
      fetch_instruction-reads m' (h + 16 + n * 8) (h + 24 + n * 8) 53 e
          (in_loop index limit behind r) v.last (omega arith) (omega (arith, low)),
      loop-lands z m' (h + 24 + n * 8) (n + 1) index limit behind e r v.back (omega arith)
            (omega (arith, low))
          ∙ rw (head, tail) refl,
      leave-lands z m' p index limit behind e r,
      runs,
      place ∙ finish,
      returned,
    )
