-- ===== src/Examples.antt =====
-- The theorems at concrete inputs.
mod Texts
mod Storage
mod Words
mod Streams
mod Structures
mod Jumps
use mathlib.Core.Bool.{xor}
use mathlib.Core.List.{Perm}
use ficl.Common.{
  ℕ, ◌+◌, ◌-◌, ◌*◌, ◌%◌, ◌^◌, ◌<◌, ◌≡◌, ◌≢◌, ◌↔◌, refl, List, [], ◌∷◌, ltb, if◌then◌else◌, some,
  arith, inl, inr, ◌⊎◌,
}
use ficl.Common.Int.{◌≤ℤ◌, ◌<ℤ◌}
use ficl.Cell.{is_negative, magnitude, sub, add}
use ficl.Memory.{Memory, load}
use ficl.Double.{
  Double, double, Qr, double_is_negative, double_add, double_subtract, double_decrement,
  double_compare, double_multiply, double_divide, multiply_accumulate,
}
use ficl.Double.Add.{
  value, IsDouble, Reads, double_add_lem, double_subtract_lem, double_decrement_lem,
  double_compare_lem,
}
use ficl.Double.Multiply.{
  double_multiply_total, double_multiply_lem, double_multiply-three, multiply_accumulate_lem,
}
use ficl.Double.Divide.{double_divide_lem}
use ficl.Double.Floored.{divide_floored, divide_floored_lem, IsFloored}
use ficl.Double.Signed.{
  divide_symmetric, integer_multiply, divide_symmetric_lem, signed_pattern, size,
}
use ficl.Outcome.{◌>>=◌, ok}
use ficl.Vm.Shuffle.{two_over, roll, minus_roll, pick, shuffle}
use ficl.Vm.Shuffle.Laws.{DepthAtMost, IsAnswer, shuffle-fits, shuffle-IsAnswer}
use ficl.Vm.Shuffle.Inverse.{minus_roll-roll}
use ficl.Vm.Compute.{
  less, greater_than, u_less, equals, max_cells, min_cells, slash, binary, sign_extend, divide,
}
use ficl.Vm.Compute.Laws.{to_ℤ, Decides, slash-slash_mod}
use ficl.Vm.Control.{Machine, machine, Sizes, control, loop_i, plus_loop_paren}
use ficl.Vm.Control.{
  transfer, to_r_stack, from_r_stack, fetch_r_stack, two_to_r, two_r_from, two_r_fetch,
}
use ficl.Vm.Control.Transfers.{transfers_undone}
use ficl.Memory.{update, store}
use ficl.Vm.Access.{
  Store, with_stack, with_memory, half_word, bytes, fetch, put, through, store_up, fetch_up,
}
use ficl.Vm.Access.Laws.{fetch-put}
use ficl.Vm.Control.Turns.{trips, in_loop}
use ficl.Vm.Control.Loops.{run_loop, loop-index, loop-ends, plus_loop_lem, agree}

-- A double that is above one cell, and one whose halves are both negative as signed cells.
abbrev big : Double
big = double 5 7

abbrev ones : Double
ones = double (2 ^ 64 - 1) (2 ^ 64 - 1)

big-IsDouble : IsDouble big
big-IsDouble = record { high_fits = omega arith; low_fits = omega arith }

ones-IsDouble : IsDouble ones
ones-IsDouble = record { high_fits = omega arith; low_fits = omega arith }

double_divide_lem_example :
    (r : Qr) × (double_divide big 3 ≡ some r)
    × IsDouble r.quotient
    × (value r.quotient * 3 + r.remainder ≡ value big)
    × (r.remainder < 3)
double_divide_lem_example = double_divide_lem big 3 big-IsDouble (omega arith) (omega arith)

divide_symmetric_lem_example :
    (r : Qr) × (divide_symmetric ones 3 ≡ some r)
    × (q n : ℕ) × (q * magnitude 3 + n ≡ size ones)
    × (n < magnitude 3)
    × (value r.quotient
        ≡ signed_pattern (2 ^ 128) (xor (double_is_negative ones) (is_negative 3)) q)
    × (r.remainder ≡ signed_pattern (2 ^ 64) (double_is_negative ones) n)
    × IsDouble r.quotient
divide_symmetric_lem_example = divide_symmetric_lem ones 3 ones-IsDouble (omega arith) (omega arith)

divide_floored_lem_example :
    (r : Qr) × (divide_floored ones 3 ≡ some r)
    × IsFloored
        (xor (double_is_negative ones) (is_negative 3))
        (is_negative 3)
        (size ones)
        (magnitude 3)
        r
divide_floored_lem_example = divide_floored_lem ones 3 ones-IsDouble (omega arith) (omega arith)

double_multiply_lem_example : (z : Double) × (double_multiply 6 7 ≡ some z) × (value z ≡ 6 * 7)
double_multiply_lem_example = double_multiply_lem 6 7 (omega arith) (omega arith) (omega arith)

double_multiply-three_example :
    (z : Double) × (double_multiply 3 (2 ^ 64 - 1) ≡ some z) × (value z + 2 ^ 64 ≡ 3 * (2 ^ 64 - 1))
double_multiply-three_example = double_multiply-three (2 ^ 64 - 1) (omega arith) (omega arith)

double_add_lem_example : value (double_add ones big) ≡ (
    if ltb (ones.low + big.low) (3 * 2 ^ 63)
    then (value ones + value big) % 2 ^ 128
    else (value ones + value big + 2 ^ 128 - 2 ^ 64) % 2 ^ 128)
double_add_lem_example = double_add_lem ones big ones-IsDouble big-IsDouble

double_decrement_lem_example :
    ((double_decrement big).low ≡ (big.low + 2 ^ 64 - 1) % 2 ^ 64)
    × ((value (double_decrement big) ≡ (value big + 2 ^ 128 - 1) % 2 ^ 128)
        ↔ ((big.low ≢ 0) × (big.low ≢ 2 ^ 64 - 2 ^ 31)))
double_decrement_lem_example = double_decrement_lem big big-IsDouble

shuffle-fits_example : DepthAtMost 8 (shuffle 8 two_over (1 ∷ 2 ∷ 3 ∷ 4 ∷ []))
shuffle-fits_example = shuffle-fits 8 two_over (1 ∷ 2 ∷ 3 ∷ 4 ∷ []) (omega arith)

shuffle-IsAnswer_example : IsAnswer (shuffle 8 pick (1 ∷ 20 ∷ 30 ∷ []))
shuffle-IsAnswer_example = shuffle-IsAnswer 8 pick (1 ∷ 20 ∷ 30 ∷ []) (inl (omega arith))

rolled : shuffle 8 roll (2 ∷ 10 ∷ 20 ∷ 30 ∷ 40 ∷ []) ≡ ok (30 ∷ 10 ∷ 20 ∷ 40 ∷ [])
unfolding shuffle
rolled = refl

minus_roll-roll_example :
    (shuffle 8 minus_roll (2 ∷ 30 ∷ 10 ∷ 20 ∷ 40 ∷ []) ≡ ok (10 ∷ 20 ∷ 30 ∷ 40 ∷ []))
    × Perm {A = ℕ} (30 ∷ 10 ∷ 20 ∷ 40 ∷ []) (10 ∷ 20 ∷ 30 ∷ 40 ∷ [])
minus_roll-roll_example =
    minus_roll-roll 8 2 (10 ∷ 20 ∷ 30 ∷ 40 ∷ []) (30 ∷ 10 ∷ 20 ∷ 40 ∷ []) rolled

slash-slash_mod_example :
    (r : Qr) × (divide (sign_extend (2 ^ 64 - 7)) 2 ≡ ok r)
    × (binary slash (2 ^ 64 - 7) 2 ≡ ok r.quotient.low)
slash-slash_mod_example =
    slash-slash_mod (2 ^ 64 - 7) 2 (omega arith) (omega arith) (omega arith) (inl (omega arith))

-- A memory of zeros, a body that drops a cell, and room for eight cells on each stack.
abbrev zeros : Memory
zeros a = some 0

abbrev body : ℕ → List ℕ → List ℕ
body k d = []

abbrev eight : Sizes
eight = record { data_size = 8; return_size = 8 }

zero_operand : (a : ℕ) → load zeros 8 a ≡ some 0
unfolding load
zero_operand a = refl

loop-index_example :
    (t : Machine) × (run_loop eight zeros body 40 (machine 16 (2 ∷ 5 ∷ []) []) 1 ≡ ok t)
    × (control eight zeros loop_i (machine 24 [] t.return_stack)
        ≡ ok (machine 24 ((2 + 1) % 2 ^ 64 ∷ []) t.return_stack))
loop-index_example =
    loop-index eight zeros body 2 5 0 16 40 0 1 24 [] [] [] (omega arith) (omega arith)
      (omega arith) (omega arith) (zero_operand 16) (zero_operand 40) (omega arith) (omega arith)

loop-ends_example :
    (t : Machine) × (run_loop eight zeros body 40 (machine 16 (2 ∷ 5 ∷ []) []) (trips (sub 5 2))
      ≡ ok t)
    × (t.return_stack ≡ [])
    × (t.ip ≡ add 40 8)
loop-ends_example =
    loop-ends eight zeros body 2 5 0 16 40 0 [] [] (omega arith) (omega arith) (omega arith)
      (omega arith) (zero_operand 16) (zero_operand 40)

plus_loop_lem_example :
    control eight zeros plus_loop_paren (machine 40 (3 ∷ []) (in_loop 2 5 0 []))
    ≡ ok (
        if agree (is_negative (sub 2 5)) (is_negative (sub (add 2 3) 5))
        then machine ((40 + 0 * 8) % 2 ^ 64) [] (in_loop (add 2 3) 5 0 [])
        else machine (add 40 8) [] [])
plus_loop_lem_example =
    plus_loop_lem eight zeros 2 5 0 40 0 3 [] [] (omega arith) (omega arith) (omega arith)
      (omega arith) (zero_operand 40)

transfers_undone_example :
    ((transfer eight to_r_stack (machine 16 (2 ∷ 5 ∷ []) []) >>= transfer eight from_r_stack)
      ≡ ok (machine 16 (2 ∷ 5 ∷ []) []))
    × ((transfer eight two_to_r (machine 16 (2 ∷ 5 ∷ []) []) >>= transfer eight two_r_from)
        ≡ ok (machine 16 (2 ∷ 5 ∷ []) []))
    × ((transfer eight to_r_stack (machine 16 (2 ∷ 5 ∷ []) []) >>= transfer eight fetch_r_stack)
        ≡ ok (machine 16 (2 ∷ 5 ∷ []) (2 ∷ [])))
    × ((transfer eight two_to_r (machine 16 (2 ∷ 5 ∷ []) []) >>= transfer eight two_r_fetch)
        ≡ ok (machine 16 (2 ∷ 5 ∷ []) (2 ∷ 5 ∷ [])))
transfers_undone_example = transfers_undone eight 16 2 5 [] [] (omega arith) (omega arith)

-- Memory of zeros with an empty stack, and what storing 513 in two bytes makes of it.
abbrev start : Store
start = record { memory = zeros; data_stack = []; areg = 16; breg = 0 }

abbrev two_bytes : Memory
two_bytes = update (update zeros 16 1) 17 2

halves_put :
    put 8 half_word (with_stack start (16 ∷ 513 ∷ [])) ≡ ok (with_memory start two_bytes [])
unfolding put store
halves_put = refl

fetch-put_example :
    ((with_memory start two_bytes []).data_stack ≡ [])
    × (fetch 8 half_word (with_stack (with_memory start two_bytes []) (16 ∷ []))
        ≡ ok (with_stack (with_memory start two_bytes []) (513 ∷ [])))
    × (two_bytes 18 ≡ zeros 18)
unfolding put store bytes
fetch-put_example =
    fetch-put 8 half_word start (with_memory start two_bytes []) 16 513 18 [] (omega arith)
      (omega arith) (inr (omega arith)) halves_put
