-- ===== src/Interpreter.antt =====
-- The outer interpreter's step for a word (`ficlVmParseWord` of vm.c, the tests of word.c and
-- `ficlSystemLookupLocal` of system.c), and the checks of the dictionary that vm.c makes.
pub mod Steps
pub mod Room
use ficl.Common.{
  ℕ, zero, suc, ◌+◌, ◌-◌, ◌*◌, ◌/◌, ◌%◌, ◌^◌, Bool, true, false, not, ◌&&◌, ◌||◌, List, [], ◌∷◌,
  length, leb, ltb, ◌==◌, if◌then◌else◌, Option, none, some,
}
use ficl.Cell.{cell_mod}
use ficl.Outcome.{
  Outcome, Error, ok, thrown, fault, ◌>>=◌, ◌>>◌, compile_only, interpret_only, dictionary_full,
  dictionary_underflow, search_order_overflow,
}
use ficl.Stack.{Stack, stack_check}
use ficl.Vm.Check.{Which, on_data}
use ficl.Hash.{Word, hash_code, hash_lookup}
use ficl.Dictionary.{
  Dictionary, tables, lookup_loop, lookup_smudged, lock, unlock, allot, allot_cells, append_cell,
  append_unsigned, cells_used, cells_available, reset_search_order,
}

-- `ficlWordIsImmediate`, `ficlWordIsCompileOnly` and `ficlWordIsInterpretOnly` of a word that is there.
abbrev pub is_immediate : Word → Bool
is_immediate w = w.flags % 2 == 1

abbrev pub is_compile_only : Word → Bool
is_compile_only w = w.flags / 2 % 2 == 1

abbrev pub is_interpret_only : Word → Bool
is_interpret_only w = w.flags / 32 % 2 == 1

-- `FICL_WORD_INSTRUCTION`.
abbrev pub is_instruction : Word → Bool
is_instruction w = w.flags / 16 % 2 == 1

pub record System : Type 0 where
  pub dictionary : Dictionary
  pub locals : Dictionary
  pub locals_count : ℕ

abbrev pub with_dictionary : System → Dictionary → System
with_dictionary s d = record s { dictionary = d }

-- A word that is found, with its address.
abbrev pub found_in : Dictionary → Option ℕ → Option (ℕ × Word)
found_in d none = none
found_in d (some a) = some (a, d.words a)

-- The locals come first, then the search order.
unfoldable pub lookup_local : System → List ℕ → Option (ℕ × Word) × System
lookup_local s name =
    let code = hash_code name in
    let local = hash_lookup s.locals.words (tables s.locals s.locals.forth_wordlist) name code in
    let main =
      found_in s.dictionary (lookup_loop s.dictionary s.dictionary.search_order name code) in
    let found : Option (ℕ × Word) = elim (found_in s.locals local) [
      | some w ↦ some w
      | none ↦ main
    ] in
    (found, with_dictionary s (unlock (lock s.dictionary)))

-- A comparison of 32-bit integers.
abbrev pub int_lt : ℕ → ℕ → Bool
int_lt a b = ltb ((a + 2 ^ 31) % 2 ^ 32) ((b + 2 ^ 31) % 2 ^ 32)

abbrev pub int_is_negative : ℕ → Bool
int_is_negative a = leb (2 ^ 31) a

-- `ficlVmDictionarySimpleCheck`: the count is an `int`, and the bytes are counted in an `int`.
unfoldable pub simple_check : Dictionary → ℕ → Outcome (Unit {0})
simple_check d cells =
    if not (int_is_negative cells) && int_lt (cells_available d * 8 % 2 ^ 32) cells
    then thrown dictionary_full
    else if (int_is_negative cells || cells == 0)
        && int_lt (cells_used d * 8 % 2 ^ 32) ((2 ^ 32 - cells) % 2 ^ 32)
    then thrown dictionary_underflow
    else ok tt

-- `ficlVmDictionaryCheck`, with the dictionary after it; `FICL_MAX_WORDLISTS` is 16. The count of
-- wordlists does not fall below zero.
unfoldable pub dictionary_check : Dictionary → ℕ → Outcome (Unit {0}) × Dictionary
dictionary_check d cells =
    let many = ltb 16 (length d.search_order) in
    elim (simple_check d cells) [
      | ok u ↦ if many then (thrown search_order_overflow, reset_search_order d) else (ok u, d)
      | thrown e ↦ (thrown e, d)
      | fault ↦ (fault, d)
    ]

-- An `int` as a cell.
abbrev pub extend_int : ℕ → ℕ
extend_int n = if int_is_negative n then cell_mod - 2 ^ 32 + n else n

unfoldable pub vm_allot : Dictionary → ℕ → Outcome Dictionary
vm_allot d n = do simple_check d n; ok (allot d (extend_int n))

unfoldable pub vm_allot_cells : Dictionary → ℕ → Outcome Dictionary
vm_allot_cells d n = do simple_check d n; ok (allot_cells d (extend_int n))

-- What the step does with a name: run a word, which the caller's inner loop does; compile it; or
-- leave it to the steps that follow.
pub data Step : Type 0 where
  executes : (address : ℕ) → (word : Word) → System → Step
  compiles : System → Step
  unknown : System → Step

unfoldable pub find_word : System → List ℕ → Option (ℕ × Word) × System
find_word s name =
    let (a, d) = lookup_smudged s.dictionary name in
    if ltb 0 s.locals_count
    then lookup_local s name
    else (found_in s.dictionary a, with_dictionary s d)

-- A word that is compiled: its code, for an instruction, or its address.
unfoldable pub compile_word : Dictionary → ℕ → Word → Outcome Dictionary
compile_word d a w = if is_instruction w then append_unsigned d w.code else append_cell d a

unfoldable pub parse_found : Bool → System → ℕ → Word → Outcome Step
parse_found compiling s a w =
    if compiling
    then if is_interpret_only w
      then thrown interpret_only
      else if is_immediate w
      then ok (executes a w s)
      else compile_word s.dictionary a w >>= (λ d. ok (compiles (with_dictionary s d)))
    else if is_compile_only w
    then thrown compile_only
    else ok (executes a w s)

-- A throw of either check leaves the system to the handler.
unfoldable pub parse_word : Bool → Stack → System → List ℕ → Outcome Step
parse_word compiling stack s name = do
  (dictionary_check s.dictionary 0).0
  stack_check on_data stack 0 0
  let (found, t) = find_word s name
  elim found [ none ↦ ok (unknown t) | some (a, w) ↦ parse_found compiling t a w ]
