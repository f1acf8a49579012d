-- ===== src/Examples/Words.antt =====
-- The theorems on the dictionary and on the outer interpreter at concrete inputs.
use ficl.Common.{ℕ, ◌+◌, ◌*◌, ◌≡◌, refl, false, List, [], ◌∷◌, some, arith}
use ficl.Outcome.{ok}
use ficl.Memory.{Memory, store, update}
use ficl.Stack.{Stack, stack_check}
use ficl.Hash.{
  Word, hash_code, hash_lookup_smudged, find_in_chain, is_named, is_smudged, hash_insert,
}
use ficl.Text.{strincmp}
use ficl.Dictionary.{
  Dictionary, at, append_word, append_string, append_data, store_all, align, align_pointer,
  unsmudge, abort_definition, lookup, lookup_smudged, lookup_smudged_loop, cells_available, allot,
}
use ficl.Dictionary.Search.{IsWordlist}
use ficl.Dictionary.Definitions.{append_word-IsWordlist, lookup-append_word}
use ficl.Dictionary.Abort.{abort_definition-append_word}
use ficl.Interpreter.{
  System, executes, parse_word, parse_found, find_word, dictionary_check, simple_check, vm_allot,
  vm_allot_cells,
}
use ficl.Interpreter.Room.{HasRoom, vm_allot-HasRoom, vm_allot_cells_lem}
use ficl.Interpreter.Steps.{MayRun, parse_word-MayRun}

abbrev no_word : Word
no_word = record { name = []; name_at = 0; word_length = 0; word_hash = 0; code = 0; flags = 0 }

-- A dictionary of 100 cells from 800 on, with one empty wordlist at 8.
abbrev empty : Dictionary
empty = record {
  here = 800;
  base = 800;
  size = 100;
  memory = λ a. some 0;
  words = λ a. no_word;
  hashes = λ a. record { buckets = 1; table = λ i. [] };
  inherited = λ a. [];
  smudge = 0;
  forth_wordlist = 8;
  compilation_wordlist = 8;
  search_order = 8 ∷ [];
  locks = 0;
}

abbrev no_names : ℕ → List ℕ
no_names a = []

empty-IsWordlist : IsWordlist empty no_names 8
empty-IsWordlist = record {
  represents = record {
    some_buckets = omega arith;
    few_buckets = omega arith;
    chains_are = λ i below. refl;
  };
  words_are = tt;
  alone = refl;
}

-- `x`, which is copied to 800 and has its header at 808, while its definition is open.
abbrev x_open : Dictionary
x_open = record empty {
  here = 848;
  memory = update (update empty.memory 800 120) 801 0;
  words = at empty.words 808 (record {
    name = 120 ∷ [];
    name_at = 800;
    word_length = 1;
    word_hash = hash_code (120 ∷ []);
    code = 5;
    flags = 4;
  });
  smudge = 808;
}

abbrev x_defined : Dictionary
x_defined = unsmudge x_open

x_open_appended : append_word empty (120 ∷ []) 5 4 ≡ ok (808, x_open)
unfolding append_word append_string append_data store_all align align_pointer store
x_open_appended = refl

x_appended : append_word empty (120 ∷ []) 5 0 ≡ ok (808, x_defined)
unfolding append_word append_string append_data store_all align align_pointer store unsmudge
x_appended = refl

append_word-IsWordlist_example : IsWordlist x_defined (at no_names 8 (808 ∷ [])) 8
append_word-IsWordlist_example =
    append_word-IsWordlist empty x_defined no_names (120 ∷ []) 5 0 808 8
      (omega arith, omega arith, tt) (omega arith) (omega arith) refl x_appended empty-IsWordlist tt

-- `X` finds it.
lookup-append_word_example : (lookup x_defined (88 ∷ [])).0 ≡ some 808
lookup-append_word_example =
    lookup-append_word empty x_defined no_names (120 ∷ []) (88 ∷ []) 5 0 808 []
      (omega arith, omega arith, tt) (omega arith) (omega arith) refl x_appended refl
      (empty-IsWordlist, tt) (tt, tt) (omega arith, omega arith, tt) refl refl

abort_definition-append_word_example :
    (m : Memory) × (abort_definition x_open ≡ record empty {
      memory = m;
      words = at empty.words 808 (record {
        name = 120 ∷ [];
        name_at = 800;
        word_length = 1;
        word_hash = hash_code (120 ∷ []);
        code = 5;
        flags = 4;
      });
      smudge = 808;
    })
abort_definition-append_word_example =
    abort_definition-append_word empty x_open 120 [] 5 808 x_open_appended

-- The interpreter's state with that word, and an empty stack.
abbrev a_system : System
a_system = record { dictionary = x_defined; locals = empty; locals_count = 0 }

abbrev no_cells : Stack
no_cells = record { size = 5; address = 1000; frame = 0; top = 3; cells = λ i. 0 }

abbrev x_found : System
x_found = (find_word a_system (120 ∷ [])).1

x_parsed :
    parse_word false no_cells a_system (120 ∷ []) ≡ ok (executes 808 (x_defined.words 808) x_found)
unfolding parse_word parse_found find_word dictionary_check simple_check stack_check lookup_smudged
    lookup_smudged_loop hash_lookup_smudged find_in_chain is_named is_smudged strincmp unsmudge
    hash_insert cells_available
x_parsed = refl

parse_word-MayRun_example :
    MayRun false (120 ∷ []) (x_defined.words 808) × (x_defined.words 808 ≡ x_defined.words 808)
parse_word-MayRun_example =
    parse_word-MayRun false no_cells a_system x_found (120 ∷ []) 808 (x_defined.words 808) refl
      x_parsed

empty-HasRoom : HasRoom empty
empty-HasRoom = record {
  from_base = omega arith;
  to_end = omega arith;
  whole_cells = refl;
  small = omega arith;
  low = omega arith;
}

space_taken : vm_allot empty 16 ≡ ok (record empty { here = 816 })
unfolding vm_allot simple_check cells_available allot
space_taken = refl

vm_allot-HasRoom_example : HasRoom (record empty { here = 816 })
vm_allot-HasRoom_example =
    vm_allot-HasRoom empty (record empty { here = 816 }) 16 empty-HasRoom (omega arith)
      (omega arith) refl space_taken

-- 800 cells are taken of a dictionary that has 100.
vm_allot_cells_lem_example : vm_allot_cells empty 800 ≡ ok (record empty { here = 800 + 800 * 8 })
vm_allot_cells_lem_example = vm_allot_cells_lem empty 800 empty-HasRoom (omega arith) (omega arith)
