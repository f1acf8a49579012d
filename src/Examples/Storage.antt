-- ===== src/Examples/Storage.antt =====
-- The theorems on stacks, strings and hash tables at concrete inputs.
use ficl.Common.{ℕ, ◌≡◌, refl, List, [], ◌∷◌, some, arith}
use ficl.Common.Int.{pos}
use ficl.Outcome.{ok}
use ficl.Vm.Shuffle.{roll_cells}
use ficl.Stack.{Stack, stack_roll, stack_link, stack_unlink}
use ficl.Stack.Refinement.{Holds}
use ficl.Stack.Rolls.{stack_roll-Holds}
use ficl.Stack.Frames.{stack_unlink-stack_link}
use ficl.Text.{strincmp}
use ficl.Hash.{
  Heap, Hash, hash_code, hash_lookup, hash_forget, hash_insert, find_in_chain, is_named,
}
use ficl.Hash.Names.{IsWord}
use ficl.Hash.Views.{
  Represents, hash_lookup-Represents, hash_forget-Represents, hash_insert-Represents,
}

-- A stack of five cells that holds three.
abbrev three_cells : Stack
three_cells = record { size = 5; address = 1000; frame = 0; top = 6; cells = λ i. i }

three_cells-Holds : Holds three_cells (6 ∷ 5 ∷ 4 ∷ [])
three_cells-Holds = record {
  sound = record { grounded = omega arith; fits = omega arith };
  cells_are = refl;
}

stack_roll-Holds_example :
    (ys : List ℕ) × (t : Stack) × (roll_cells 2 (6 ∷ 5 ∷ 4 ∷ []) ≡ ok ys)
    × (stack_roll three_cells (pos 2) ≡ ok t)
    × Holds t ys
stack_roll-Holds_example =
    stack_roll-Holds three_cells (6 ∷ 5 ∷ 4 ∷ []) 2 three_cells-Holds (omega arith)

stack_unlink-stack_link_example :
    (t u : Stack) × (stack_link three_cells 1 ≡ ok t)
    × (stack_unlink t ≡ ok u)
    × Holds u (6 ∷ 5 ∷ 4 ∷ [])
    × (u.frame ≡ 0)
    × (u.top ≡ 6)
stack_unlink-stack_link_example =
    stack_unlink-stack_link three_cells (6 ∷ 5 ∷ 4 ∷ []) 1 three_cells-Holds (omega arith)

-- Every word of this heap is called `x`.
abbrev a_heap : Heap
a_heap a = record {
  name = 120 ∷ [];
  name_at = 0;
  word_length = 1;
  word_hash = hash_code (120 ∷ []);
  code = 0;
  flags = 0;
}

abbrev no_words : Hash
no_words = record { buckets = 2; table = λ i. [] }

abbrev a_table : Hash
a_table = hash_insert a_heap (hash_insert a_heap no_words 10) 20

no_words-Represents : Represents a_heap no_words []
no_words-Represents = record {
  some_buckets = omega arith;
  few_buckets = omega arith;
  chains_are = λ i below. refl;
}

a_table-Represents : Represents a_heap a_table (20 ∷ 10 ∷ [])
a_table-Represents =
    hash_insert-Represents a_heap (hash_insert a_heap no_words 10) (10 ∷ []) 20
      (hash_insert-Represents a_heap no_words [] 10 no_words-Represents)

a_heap-IsWord : IsWord (a_heap 0)
a_heap-IsWord = record {
  short = omega arith;
  letters = (omega arith, omega arith, tt);
  length_is = refl;
  hash_is = refl;
}

-- The newer of the two words that are called `x` is found by `X`.
hash_lookup-Represents_example :
    hash_lookup a_heap (a_table ∷ []) (88 ∷ []) (hash_code (88 ∷ [])) ≡ some 20
unfolding find_in_chain hash_lookup is_named strincmp
hash_lookup-Represents_example =
    hash_lookup-Represents a_heap a_table [] (20 ∷ 10 ∷ []) (88 ∷ []) a_table-Represents
      (a_heap-IsWord, (a_heap-IsWord, tt)) (omega arith, omega arith, tt) (omega arith)

hash_forget-Represents_example :
    (left : Hash) × (hash_forget a_table 20 ≡ ok left) × Represents a_heap left (10 ∷ [])
hash_forget-Represents_example =
    hash_forget-Represents a_heap a_table (20 ∷ 10 ∷ []) 20 a_table-Represents
      ((omega arith, tt), (tt, tt)) (omega arith)
