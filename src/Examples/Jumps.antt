-- ===== src/Examples/Jumps.antt =====
-- The theorems on short-cut jumps and on pictured numbers at concrete inputs.
use ficl.Common.{
  ℕ, ◌≤◌, ◌≡◌, refl, ap, ◌∙◌, Bool, ◌||◌, List, [], ◌∷◌, length, some, ◌==◌, if◌then◌else◌, arith,
}
use ficl.Double.{Qr, double, double_divide}
use ficl.Double.Divide.{double_divide_lem}
use ficl.Outcome.{ok}
use ficl.Number.Digits.{AreDigits, characters, number}
use ficl.Stack.{Stack, put_cell, stack_check, stack_pop_double, stack_push_double}
use ficl.Stack.Refinement.{Holds}
use ficl.Vm.Jumps.{Code, goes, optimize}
use ficl.Vm.Jumps.Laws.{plain, Lands, stays, goes_on, IsCode}
use ficl.Vm.Jumps.Passes.{optimize-Lands}
use ficl.Primitives.Pictured.{
  Pad, less_number_sign, number_sign_s, number_sign_loop, number_sign_greater, to_number_loop,
}
use ficl.Primitives.Pictured.Numbers.{
  number_sign_greater-number_sign_s, to_number_loop-number_sign_s,
}

-- A conditional branch to a branch.
abbrev two_jumps : Code
two_jumps x = if x == 0 then 50 else if x == 4 then 48 else if x == 1 || x == 5 then 3 else 7

abbrev two_jumps_starts : ℕ → Bool
two_jumps_starts x = x == 0 || x == 4 || x == 8

two_jumps-IsCode : IsCode two_jumps_starts 9 two_jumps
two_jumps-IsCode = record {
  within = λ x s. ground arith;
  operand = λ x s j. ground arith;
  target = λ x s j. ground arith;
}

four_Lands : Lands two_jumps 4 8
four_Lands = goes_on 4 8 refl (stays 8 refl)

optimize-Lands_example :
    (done : Code) × (optimize 3 two_jumps 0 ≡ some done)
    × Lands done 4 8
    × Lands done (goes done 0) 8
    × (plain (done 0) ≡ 51)
    × IsCode two_jumps_starts 9 done
optimize-Lands_example =
    optimize-Lands 3 two_jumps_starts 9 two_jumps 0 4 8 0 8 two_jumps-IsCode (omega arith) refl
      (omega arith) refl four_Lands refl refl four_Lands

-- A stack that holds the double 7.
abbrev seven_stack : Stack
seven_stack = record {
  size = 10;
  address = 5000;
  frame = 0;
  top = 5;
  cells = λ i. if i == 4 then 7 else 0;
}

seven_stack-Holds : Holds seven_stack (0 ∷ 7 ∷ [])
seven_stack-Holds = record {
  sound = record { grounded = omega arith; fits = omega arith };
  cells_are = refl;
}

abbrev seven_pad : Pad
seven_pad = record { base = 10; place = 7000; text = 1 ∷ []; stack = seven_stack }

abbrev zeros_stack : Stack
zeros_stack = record seven_stack { cells = put_cell (put_cell seven_stack.cells 4 0) 5 0 }

abbrev written_pad : Pad
written_pad = record seven_pad { text = 55 ∷ []; stack = zeros_stack }

abbrev given_pad : Pad
given_pad = record written_pad {
  stack = record zeros_stack { cells = put_cell (put_cell zeros_stack.cells 4 7000) 5 1 };
}

qr-zero :
    (r : Qr)
    → r.quotient.high ≡ 0
    → r.quotient.low ≡ 0
    → r.remainder ≡ 7
    → r ≡ record { quotient = double 0 0; remainder = 7 }
qr-zero r high low rest = cc

seven_divided :
    double_divide (double 0 7) 10 ≡ some (record { quotient = double 0 0; remainder = 7 })
seven_divided =
    let (r, e, fits, total, rest) =
      double_divide_lem (double 0 7) 10 (record { high_fits = omega arith; low_fits = omega arith })
        (omega arith) (omega arith) in
    e
    ∙ ap some (
        qr-zero r (omega (arith, total, rest)) (omega (arith, total, rest))
          (omega (arith, total, rest)))

loop_written : number_sign_loop 128 10 (double 0 7) [] ≡ some (double 0 0, 55 ∷ [])
unfolding number_sign_loop
loop_written = rw (number_sign_loop, seven_divided) refl

written : number_sign_s (less_number_sign seven_pad) ≡ ok written_pad
unfolding number_sign_s less_number_sign stack_check stack_pop_double stack_push_double
written = rw loop_written refl

given : number_sign_greater written_pad ≡ ok given_pad
unfolding number_sign_greater
given = refl

number_sign_greater-number_sign_s_example :
    (q r : Pad) × (vs : List ℕ) × (number_sign_s (less_number_sign seven_pad) ≡ ok q)
    × (number_sign_greater q ≡ ok r)
    × (r.text ≡ characters vs)
    × AreDigits 10 vs
    × (number 10 0 vs ≡ 7)
    × (1 ≤ length vs)
    × Holds r.stack (length r.text ∷ 7000 ∷ [])
number_sign_greater-number_sign_s_example =
    number_sign_greater-number_sign_s seven_pad (double 0 7) [] (omega arith) (omega arith)
      (record { high_fits = omega arith; low_fits = omega arith }) seven_stack-Holds

to_number_loop-number_sign_s_example :
    to_number_loop (λ a. some (if a == 7000 then 55 else 0)) 10 1 7000 (double 0 0)
    ≡ ok (double 0 7, 7001, 0)
to_number_loop-number_sign_s_example =
    to_number_loop-number_sign_s seven_pad written_pad given_pad 7 []
      (λ a. some (if a == 7000 then 55 else 0)) 7000 (omega arith) (omega arith) (omega arith)
      seven_stack-Holds written given (refl, (0, refl))
