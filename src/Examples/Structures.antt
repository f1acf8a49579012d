-- ===== src/Examples/Structures.antt =====
-- The theorems on the search order and on control structures at concrete inputs.
use ficl.Common.{ℕ, ◌≡◌, refl, [], ◌∷◌, some, if◌then◌else◌, arith}
use ficl.Cell.{sign_bit, add, sub}
use ficl.Outcome.{Outcome, ok}
use ficl.Memory.{Memory}
use ficl.Stack.{Stack}
use ficl.Stack.Refinement.{Holds}
use ficl.Hash.{Word}
use ficl.Dictionary.{Dictionary}
use ficl.Vm.Control.{
  Machine, machine, Sizes, control, crosses, branch_paren, branch_0_paren, do_paren, loop_paren,
  leave,
}
use ficl.Vm.Control.Fetch.{direct, checked, fetch_instruction}
use ficl.Vm.Control.Turns.{trips, in_loop}
use ficl.Vm.Control.Loops.{run_loop}
use ficl.Primitives.{Session, session}
use ficl.Primitives.Order.{with_order, get_order, set_order, search_pop, search_push}
use ficl.Primitives.Order.Laws.{set_order-get_order, search_pop-search_push}
use ficl.Primitives.Structures.{
  Tag, do_tag, leave_tag, dest_tag, orig_tag, case_tag, of_tag, fallthrough_tag, do_instruction,
  loop_instruction, compile,
}
use ficl.Primitives.Structures.Cells.{IsMapped, placed}
use ficl.Primitives.Structures.Conditional.{IsPart, conditional, compile-IsPart}
use ficl.Primitives.Structures.Pretested.{pretested}
use ficl.Primitives.Structures.Loops.{counted}
use ficl.Primitives.Structures.Runs.{conditional-runs, pretested-runs, counted-runs}

abbrev nameless : Word
nameless = record { name = []; name_at = 0; word_length = 0; word_hash = 0; code = 0; flags = 0 }

abbrev two_wordlists : Dictionary
two_wordlists = record {
  here = 800;
  base = 800;
  size = 100;
  memory = λ a. some 0;
  words = λ a. nameless;
  hashes = λ a. record { buckets = 1; table = λ i. [] };
  inherited = λ a. [];
  smudge = 0;
  forth_wordlist = 8;
  compilation_wordlist = 8;
  search_order = 16 ∷ 8 ∷ [];
  locks = 0;
}

-- A stack of twenty cells that holds one.
abbrev one_cell : Stack
one_cell = record { size = 20; address = 5000; frame = 0; top = 4; cells = λ i. 24 }

one_cell-Holds : Holds one_cell (24 ∷ [])
one_cell-Holds = record {
  sound = record { grounded = omega arith; fits = omega arith };
  cells_are = refl;
}

abbrev address_of : Tag → ℕ
address_of do_tag = 9000
address_of leave_tag = 9010
address_of dest_tag = 9020
address_of orig_tag = 9030
address_of case_tag = 9040
address_of of_tag = 9050
address_of fallthrough_tag = 9060

all_bytes : (h n : ℕ) → IsMapped two_wordlists.memory h n
all_bytes h n j low high = (0, refl)

abbrev sizes : Sizes
sizes = record { data_size = 8; return_size = 8 }

abbrev seven : Session → Outcome Session
seven v = compile v 7

seven-IsPart : IsPart seven 1 0
seven-IsPart = compile-IsPart 7 (omega arith)

set_order-get_order_example :
    (u w : Session) × (get_order (session two_wordlists one_cell) ≡ ok u)
    × (u.dictionary ≡ two_wordlists)
    × (set_order (session (with_order two_wordlists []) u.stack) ≡ ok w)
    × (w.dictionary ≡ with_order two_wordlists (16 ∷ 8 ∷ []))
    × Holds w.stack (24 ∷ [])
set_order-get_order_example =
    set_order-get_order (session two_wordlists one_cell) (24 ∷ []) (with_order two_wordlists [])
      one_cell-Holds (omega arith) (omega arith)

search_pop-search_push_example :
    (u w : Session) × (search_push (session two_wordlists one_cell) ≡ ok u)
    × (u.dictionary ≡ with_order two_wordlists (24 ∷ 16 ∷ 8 ∷ []))
    × (search_pop u ≡ ok w)
    × (w.dictionary ≡ two_wordlists)
    × Holds w.stack (24 ∷ [])
search_pop-search_push_example =
    search_pop-search_push (session two_wordlists one_cell) 24 [] one_cell-Holds (omega arith)

conditional-runs_example :
    (t : Stack) × (m' : Memory) × (conditional address_of seven seven
        (session two_wordlists one_cell)
      ≡ ok (session (placed two_wordlists 848 m') t))
    × Holds t (24 ∷ [])
    × (fetch_instruction m' (machine 800 (0 ∷ 3 ∷ []) [])
        ≡ ok (some (checked branch_0_paren), machine 808 (0 ∷ 3 ∷ []) []))
    × (control sizes m' branch_0_paren (machine 808 (0 ∷ 3 ∷ []) []) ≡ ok (machine 840 (3 ∷ []) []))
    × (fetch_instruction m' (machine 824 (3 ∷ []) [])
        ≡ ok (some (checked branch_paren), machine 832 (3 ∷ []) []))
    × (control sizes m' branch_paren (machine 832 (3 ∷ []) []) ≡ ok (machine 848 (3 ∷ []) []))
conditional-runs_example =
    conditional-runs address_of seven seven 1 1 0 two_wordlists one_cell 800 two_wordlists.memory
      (24 ∷ []) sizes 0 (3 ∷ []) [] seven-IsPart seven-IsPart one_cell-Holds (omega arith)
      (all_bytes 800 48) (omega arith) (omega arith)

counted-runs_example :
    (t : Stack) × (m' : Memory) × (u : Machine) × (counted address_of do_instruction
        loop_instruction seven
        (session two_wordlists one_cell)
      ≡ ok (session (placed two_wordlists 840 m') t))
    × Holds t (24 ∷ [])
    × (fetch_instruction m' (machine 800 (0 ∷ 3 ∷ []) [])
        ≡ ok (some (direct do_paren), machine 808 (0 ∷ 3 ∷ []) []))
    × (control sizes m' do_paren (machine 808 (0 ∷ 3 ∷ []) [])
        ≡ ok (machine 816 [] (in_loop 0 3 840 [])))
    × (fetch_instruction m' (machine 824 [] (in_loop 1 3 840 []))
        ≡ ok (some (direct loop_paren), machine 832 [] (in_loop 1 3 840 [])))
    × (control sizes m' loop_paren (machine 832 [] (in_loop 1 3 840 []))
        ≡ ok (
            if crosses (sub 1 (add 3 sign_bit)) 1
            then machine 840 [] []
            else machine 816 [] (add (sub 1 (add 3 sign_bit)) 1 ∷ add 3 sign_bit ∷ 840 ∷ [])))
    × (control sizes m' leave (machine 816 [] (in_loop 1 3 840 [])) ≡ ok (machine 840 [] []))
    × (run_loop sizes m' (λ i c. c) 832 (machine 808 (0 ∷ 3 ∷ []) []) (trips 3) ≡ ok u)
    × (u.ip ≡ 840)
    × (u.return_stack ≡ [])
counted-runs_example =
    counted-runs address_of seven 1 0 two_wordlists one_cell 800 two_wordlists.memory (24 ∷ [])
      sizes (λ i c. c) 0 3 1 816 [] [] [] seven-IsPart one_cell-Holds (omega arith)
      (all_bytes 800 40) (omega arith) (omega arith) (omega arith) (omega arith) (omega arith)

pretested-runs_example :
    (t : Stack) × (m' : Memory) × (pretested address_of seven seven (session two_wordlists one_cell)
      ≡ ok (session (placed two_wordlists 848 m') t))
    × Holds t (24 ∷ [])
    × (fetch_instruction m' (machine 808 (0 ∷ 3 ∷ []) [])
        ≡ ok (some (checked branch_0_paren), machine 816 (0 ∷ 3 ∷ []) []))
    × (control sizes m' branch_0_paren (machine 816 (0 ∷ 3 ∷ []) []) ≡ ok (machine 848 (3 ∷ []) []))
    × (fetch_instruction m' (machine 832 (3 ∷ []) [])
        ≡ ok (some (checked branch_paren), machine 840 (3 ∷ []) []))
    × (control sizes m' branch_paren (machine 840 (3 ∷ []) []) ≡ ok (machine 800 (3 ∷ []) []))
pretested-runs_example =
    pretested-runs address_of seven seven 1 1 0 two_wordlists one_cell 800 two_wordlists.memory
      (24 ∷ []) sizes 0 (3 ∷ []) [] seven-IsPart seven-IsPart one_cell-Holds (omega arith)
      (all_bytes 800 48) (omega arith) (omega arith)
