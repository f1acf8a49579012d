-- ===== src/Primitives/Order.antt =====
-- The search order (search.c). A wordlist is the address of its table. A count is an `int`.
pub mod Laws
use ficl.Common.{
  ℕ, zero, suc, ◌+◌, ◌-◌, ◌*◌, ◌%◌, ◌^◌, Bool, true, false, List, [], ◌∷◌, length, take, leb, ltb,
  ◌==◌, if◌then◌else◌, Option, none, some,
}
use ficl.Cell.{cell_mod}
use ficl.Memory.{Memory}
use ficl.Outcome.{
  Outcome, ok, thrown, fault, ◌>>=◌, ◌>>◌, access, no_search_order, too_many_wordlists,
  search_order_overflow,
}
use ficl.Stack.{Stack, stack_check, stack_push, stack_pop}
use ficl.Vm.Check.{on_data}
use ficl.Dictionary.Entries.{create_wordlist}
use ficl.Hash.{hash_code, hash_lookup}
use ficl.Dictionary.{Dictionary, tables, lock, unlock, reset_search_order}
use ficl.Interpreter.{int_is_negative, is_immediate}
use ficl.Primitives.{Session, session}

-- `FICL_MAX_WORDLISTS`, the places of the array.
abbrev pub max_wordlists : ℕ
max_wordlists = 16

abbrev pub with_order : Dictionary → List ℕ → Dictionary
with_order d order = record d { search_order = order }

unfoldable pub definitions : Session → Outcome Session
definitions v = elim v.dictionary.search_order [
  | [] ↦ thrown no_search_order
  | first ∷ order ↦ ok (session (record v.dictionary { compilation_wordlist = first }) v.stack)
]

unfoldable pub forth_wordlist : Session → Outcome Session
unfolding stack_push
forth_wordlist v = do
  s ← stack_push v.stack v.dictionary.forth_wordlist
  ok (session v.dictionary s)

unfoldable pub get_current : Session → Outcome Session
unfolding stack_push
get_current v = do
  let d = lock v.dictionary
  s ← stack_push v.stack d.compilation_wordlist
  ok (session (unlock d) s)

unfoldable pub set_current : Session → Outcome Session
unfolding stack_pop
set_current v = do
  (wid, s) ← stack_pop v.stack
  ok (session (unlock (record (lock v.dictionary) { compilation_wordlist = wid })) s)

-- The loop of `get-order`, which starts with the wordlist searched last.
unfoldable pub push_order : Stack → List ℕ → Outcome Stack
unfolding stack_push
push_order s [] = ok s
push_order s (wid ∷ order) = do t ← push_order s order; stack_push t wid

unfoldable pub get_order : Session → Outcome Session
unfolding push_order stack_push
get_order v = do
  let d = lock v.dictionary
  s ← push_order v.stack d.search_order
  t ← stack_push s (length v.dictionary.search_order)
  ok (session (unlock d) t)

-- The loop of `set-order`: the wordlist searched first comes first.
unfoldable pub pop_order : ℕ → Stack → Outcome (List ℕ × Stack)
unfolding stack_pop
pop_order zero s = ok ([], s)
pop_order (suc n) s = do (wid, t) ← stack_pop s; (order, u) ← pop_order n t; ok (wid ∷ order, u)

unfoldable pub set_order : Session → Outcome Session
unfolding stack_pop pop_order
set_order v = do
  (cell, s) ← stack_pop v.stack
  let count = cell % 2 ^ 32
  let d = lock v.dictionary
  let some_lists = do (order, t) ← pop_order count s; ok (session (unlock (with_order d order)) t)
  if int_is_negative count
      then ok (session (unlock (reset_search_order d)) s)
      else if ltb max_wordlists count
      then thrown too_many_wordlists
      else some_lists

unfoldable pub search_pop : Session → Outcome Session
unfolding stack_push
search_pop v = elim v.dictionary.search_order [
  | [] ↦ thrown no_search_order
  | first ∷ order ↦ do
    s ← stack_push v.stack first
    ok (session (unlock (with_order (lock v.dictionary) order)) s)
]

-- With all places taken the new wordlist goes behind the array.
unfoldable pub search_push : Session → Outcome Session
unfolding stack_pop
search_push v = do
  let d = lock v.dictionary
  let count = length d.search_order
  let pushed = do
    (wid, s) ← stack_pop v.stack
    ok (session (unlock (with_order d (wid ∷ d.search_order))) s)
  if ltb max_wordlists count
      then thrown search_order_overflow
      else if count == max_wordlists
      then fault
      else pushed

-- A string of the program, whose length is cut to a byte.
unfoldable pub read_string : Memory → ℕ → ℕ → Outcome (List ℕ)
read_string m zero a = ok []
read_string m (suc n) a = do b ← access (m a); s ← read_string m n (a + 1); ok (b ∷ s)

-- Immediate words give 1 and the others -1.
unfoldable pub search_wordlist : Session → Outcome Session
unfolding stack_pop stack_push read_string
search_wordlist v = do
  (wid, s) ← stack_pop v.stack
  (size, t) ← stack_pop s
  (text, u) ← stack_pop t
  name ← read_string v.dictionary.memory (size % 256) text
  let d = lock v.dictionary
  let found = hash_lookup d.words (tables d wid) name (hash_code name)
  elim found [
    | none ↦ do w ← stack_push u 0; ok (session (unlock d) w)
    | some a ↦ do
      w ← stack_push u a
      x ← stack_push w (if is_immediate (d.words a) then 1 else cell_mod - 1)
      ok (session (unlock d) x)
  ]

unfoldable pub ficl_wordlist : Session → Outcome Session
unfolding stack_check stack_pop create_wordlist stack_push
ficl_wordlist v = do
  stack_check on_data v.stack 1 1
  (buckets, s) ← stack_pop v.stack
  let (wid, d) = create_wordlist v.dictionary buckets
  t ← stack_push s wid
  ok (session d t)
