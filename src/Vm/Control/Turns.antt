-- ===== src/Vm/Control/Turns.antt =====
-- The single turns of a counted loop.
use ficl.Common.{
  ℕ, zero, suc, ◌+◌, ◌-◌, ◌*◌, ◌%◌, ◌^◌, ◌≤◌, ◌<◌, ◌≡◌, refl, true, false, List, ◌∷◌, length, ltb,
  ◌==◌, if◌then◌else◌, arith, some, ◌⊎◌, ap,
}
use ficl.Cell.{cell_mod, sign_bit, add, sub}
use ficl.Memory.{Memory, load}
use ficl.Outcome.{Outcome, ok, ◌>>=◌}
use ficl.Vm.Check.{on_data, check, pop}
use ficl.Vm.Control.{
  Machine, machine, Sizes, crosses, do_paren, loop_paren, loop_i, push, operand, branch, enter_loop,
  next_turn, loop_index, control,
}

-- The body of a loop, with the instruction that closes it: `count` turns from the state behind
-- the one that opens it. A body may use the return stack but leaves it as it was, and may do
-- what it likes to the data stack.
abbrev pub turns : Sizes → Memory → (ℕ → List ℕ → List ℕ) → ℕ → ℕ → Machine → Outcome Machine
turns z m body at zero s = ok s
turns z m body at (suc count) s = turns z m body at count s >>= λ t.
    control z m loop_paren (machine at (body count t.data_stack) t.return_stack)

-- How often a loop runs whose limit lies `n` above its first index, modulo 2 ^ 64.
abbrev pub trips : ℕ → ℕ
trips n = if n == 0 then 2 ^ 63 else if ltb (2 ^ 63) n then n - 2 ^ 63 else n

-- The three cells of a loop on the return stack, at an index.
abbrev pub in_loop : ℕ → ℕ → ℕ → List ℕ → List ℕ
in_loop index limit leave_to r = sub index (add limit sign_bit) ∷ add limit sign_bit ∷ leave_to ∷ r

pub goes_on :
    (m : Memory) (at x l a by offset : ℕ) (d r : List ℕ)
    → load m 8 at ≡ some offset
    → crosses x by ≡ false
    → next_turn m by (machine at d (x ∷ l ∷ a ∷ r))
      ≡ ok (machine ((at + offset * 8) % cell_mod) d (add x by ∷ l ∷ a ∷ r))
unfolding next_turn branch operand pop
goes_on m at x l a by offset d r h same = rw (same, h) refl

pub ends :
    (m : Memory) (at x l a by : ℕ) (d r : List ℕ)
    → crosses x by ≡ true
    → next_turn m by (machine at d (x ∷ l ∷ a ∷ r)) ≡ ok (machine (add at 8) d r)
unfolding next_turn pop
ends m at x l a by d r differ = rw differ refl

-- The index cell after `count` turns, as long as the loop goes on.
pub turns-within :
    (z : Sizes) (m : Memory) (body : ℕ → List ℕ → List ℕ) (at x l a offset : ℕ) (r : List ℕ)
    (s : Machine) (n : ℕ)
    → load m 8 at ≡ some offset
    → s.return_stack ≡ x ∷ l ∷ a ∷ r
    → ((k : ℕ) → k < n → crosses (add x k) 1 ≡ false)
    → (k : ℕ) → k ≤ n
    → x < 2 ^ 64
    → (t : Machine) × (turns z m body at k s ≡ ok t) × (t.return_stack ≡ add x k ∷ l ∷ a ∷ r)
unfolding control
turns-within z m body at x l a offset r s n h e stays zero below hx =
    let same : add x 0 ≡ x = ground arith in (s, refl, rw same e)
turns-within z m body at x l a offset r s n h e stays (suc k) below hx =
    let (t, f, g) = turns-within z m body at x l a offset r s n h e stays k (omega arith) hx in
    let next =
      machine ((at + offset * 8) % cell_mod) (body k t.data_stack) (add (add x k) 1 ∷ l ∷ a ∷ r) in
    (
      next,
      rw (f, g)
          (goes_on m at (add x k) l a 1 offset (body k t.data_stack) r h (stays k (omega arith))),
      ap (λ c. c ∷ l ∷ a ∷ r) (ground arith),
    )

pub turns-all :
    (z : Sizes) (m : Memory) (body : ℕ → List ℕ → List ℕ) (at x l a offset : ℕ) (r : List ℕ)
    (s : Machine) (n : ℕ)
    → load m 8 at ≡ some offset
    → s.return_stack ≡ x ∷ l ∷ a ∷ r
    → ((k : ℕ) → k < n → crosses (add x k) 1 ≡ false)
    → crosses (add x n) 1 ≡ true
    → x < 2 ^ 64
    → (t : Machine) × (turns z m body at (suc n) s ≡ ok t)
      × (t.return_stack ≡ r)
      × (t.ip ≡ add at 8)
unfolding control
turns-all z m body at x l a offset r s n h e stays leaves hx =
    let (t, f, g) = turns-within z m body at x l a offset r s n h e stays n (omega arith) hx in
    (
      machine (add at 8) (body n t.data_stack) r,
      rw (f, g) (ends m at (add x n) l a 1 (body n t.data_stack) r leaves),
      refl,
      refl,
    )

-- The first index cell is as many steps below the next change of side as the loop makes turns.
pub distance :
    (index limit : ℕ)
    → index < 2 ^ 64
    → limit < 2 ^ 64
    → (sub index (add limit sign_bit) < 2 ^ 63)
        × (sub index (add limit sign_bit) + trips (sub limit index) ≡ 2 ^ 63)
      ⊎ (2 ^ 63 ≤ sub index (add limit sign_bit))
        × (sub index (add limit sign_bit) + trips (sub limit index) ≡ 2 ^ 64)
distance index limit hi hl = ground arith

pub stays-before :
    (x count k : ℕ)
    → (x < 2 ^ 63) × (x + count ≡ 2 ^ 63) ⊎ (2 ^ 63 ≤ x) × (x + count ≡ 2 ^ 64)
    → k + 1 < count
    → crosses (add x k) 1 ≡ false
stays-before x count k h small = ground arith

pub leaves-at :
    (x count k : ℕ)
    → (x < 2 ^ 63) × (x + count ≡ 2 ^ 63) ⊎ (2 ^ 63 ≤ x) × (x + count ≡ 2 ^ 64)
    → k + 1 ≡ count
    → crosses (add x k) 1 ≡ true
leaves-at x count k h last = ground arith

pub stays-all :
    (x count n : ℕ)
    → (x < 2 ^ 63) × (x + count ≡ 2 ^ 63) ⊎ (2 ^ 63 ≤ x) × (x + count ≡ 2 ^ 64)
    → n + 1 ≡ count
    → (k : ℕ) → k < n
    → crosses (add x k) 1 ≡ false
stays-all x count n h last k small = stays-before x count k h (omega arith)

pub push-ok : (size c : ℕ) (s : List ℕ) → length s < size → push size c s ≡ ok (c ∷ s)
unfolding push
push-ok size c s h = ground arith

pub pops-ok :
    (size depth n : ℕ) → n ≤ depth → depth ≤ size + n → check on_data size depth n 0 ≡ ok tt
unfolding check
pops-ok size depth n h k = ground arith

pub enter_loop-ok :
    (size index limit leave_to : ℕ) (r : List ℕ)
    → length r + 3 ≤ size
    → enter_loop size index limit leave_to r ≡ ok (in_loop index limit leave_to r)
unfolding enter_loop
enter_loop-ok size index limit leave_to r h =
    rw
      (
        push-ok size leave_to r (omega arith),
        push-ok size (add limit sign_bit) (leave_to ∷ r) (omega arith),
        push-ok size (sub index (add limit sign_bit)) (add limit sign_bit ∷ leave_to ∷ r)
            (omega arith),
      )
      refl

-- `i` gives the index that the loop has reached.
pub loop_i_lem :
    (z : Sizes) (m : Memory) (index limit leave_to k ip : ℕ) (d r : List ℕ)
    → index < 2 ^ 64
    → limit < 2 ^ 64
    → length d < z.data_size
    → control z m loop_i
        (machine ip d (add (sub index (add limit sign_bit)) k ∷ add limit sign_bit ∷ leave_to ∷ r))
      ≡ ok (
          machine ip
            ((index + k) % 2 ^ 64 ∷ d)
            (add (sub index (add limit sign_bit)) k ∷ add limit sign_bit ∷ leave_to ∷ r))
unfolding control loop_index
loop_i_lem z m index limit leave_to k ip d r hi hl room =
    let cell = add (add (sub index (add limit sign_bit)) k) (add limit sign_bit) in
    let same : cell ≡ (index + k) % 2 ^ 64 = ground arith in
    rw (push-ok z.data_size cell d room, same) refl

pub do_paren_lem :
    (z : Sizes) (m : Memory) (index limit leave_to ip : ℕ) (d r : List ℕ)
    → load m 8 ip ≡ some leave_to
    → length d + 2 ≤ z.data_size
    → length r + 3 ≤ z.return_size
    → control z m do_paren (machine ip (index ∷ limit ∷ d) r)
      ≡ ok (machine (add ip 8) d (in_loop index limit leave_to r))
unfolding control operand pop
do_paren_lem z m index limit leave_to ip d r h room room_r =
    rw
      (
        pops-ok z.data_size (length (index ∷ limit ∷ d)) 2 (omega arith) (omega arith),
        h,
        enter_loop-ok z.return_size index limit leave_to r room_r,
      )
      refl
