-- ===== src/Dictionary.antt =====
-- The dictionary (dictionary.c): free space at `here`, the word under construction, and the search
-- order. Addresses are those of an LP64 host. Bytes that are appended stand in `memory`; headers of
-- words and hash tables stand in heaps of their own, by address. The lock is counted.
pub mod Space
pub mod Search
pub mod Headers
pub mod Definitions
pub mod Abort
pub mod Entries
use Prim.Native.Nat.{bit_or, bit_and, min}
use ficl.Common.{
  ℕ, zero, suc, ◌+◌, ◌-◌, ◌*◌, ◌/◌, ◌%◌, ◌^◌, Bool, true, false, not, ◌&&◌, ◌||◌, List, [], ◌∷◌,
  length, take, leb, ltb, ◌==◌, if◌then◌else◌, Option, none, some,
}
use ficl.Cell.{cell_mod, add, sub}
use ficl.Double.{Double}
use ficl.Memory.{Memory, store}
use ficl.Outcome.{Outcome, ok, thrown, fault, ◌>>=◌, ◌>>◌, access}
use ficl.Hash.{
  Word, Heap, Hash, name_length, hash_code, hash_insert, hash_reset, hash_lookup,
  hash_lookup_smudged,
}

-- `inherited` gives the tables along the `link` of the one at an address; `search_order` has the
-- wordlist searched first at its head.
pub record Dictionary : Type 0 where
  pub here : ℕ
  pub base : ℕ
  pub size : ℕ
  pub memory : Memory
  pub words : Heap
  pub hashes : ℕ → Hash
  pub inherited : ℕ → List ℕ
  pub smudge : ℕ
  pub forth_wordlist : ℕ
  pub compilation_wordlist : ℕ
  pub search_order : List ℕ
  pub locks : ℕ

abbrev pub at : {A : Type 0} → (ℕ → A) → ℕ → A → ℕ → A
at f a x b = if a == b then x else f b

-- `ficlAlignPointer`, with `FICL_PLATFORM_ALIGNMENT` of 8.
unfoldable pub align_pointer : ℕ → ℕ
align_pointer p = if p % 8 == 0 then p else (p - p % 8 + 8) % cell_mod

unfoldable pub align : Dictionary → Dictionary
unfolding align_pointer
align d = record d { here = align_pointer d.here }

-- The count is a cell, so a negative one takes space back.
unfoldable pub allot : Dictionary → ℕ → Dictionary
allot d n = record d { here = add d.here n }

unfoldable pub allot_cells : Dictionary → ℕ → Dictionary
allot_cells d n = record d { here = add d.here (n * 8) }

unfoldable pub append_cell : Dictionary → ℕ → Outcome Dictionary
append_cell d c = do
  m ← access (store d.memory 8 d.here c)
  ok (record d { here = add d.here 8; memory = m })

unfoldable pub append_character : Dictionary → ℕ → Outcome Dictionary
append_character d c = do
  m ← access (store d.memory 1 d.here c)
  ok (record d { here = add d.here 1; memory = m })

unfoldable pub append_unsigned : Dictionary → ℕ → Outcome Dictionary
append_unsigned d u = do
  m ← access (store d.memory 8 d.here u)
  ok (record d { here = add d.here 8; memory = m })

-- The bytes of a list, one after the other.
unfoldable pub store_all : Memory → ℕ → List ℕ → Outcome Memory
store_all m a [] = ok m
store_all m a (c ∷ s) = do n ← access (store m 1 a c); store_all n (a + 1) s

-- The address where the data went, with the dictionary after it.
unfoldable pub append_data : Dictionary → List ℕ → Outcome (ℕ × Dictionary)
unfolding align store_all
append_data d [] = let e = align d in ok (e.here, e)
append_data d (c ∷ s) = do
  m ← store_all d.memory d.here (c ∷ s)
  n ← access (store m 1 (d.here + length (c ∷ s)) 0)
  ok (d.here, align (record d { here = d.here + length (c ∷ s) + 1; memory = n }))

unfoldable pub append_string : Dictionary → List ℕ → Outcome (ℕ × Dictionary)
unfolding append_data
append_string d s = append_data d (take name_length s)

-- `ficlDictionaryLock`.
abbrev pub lock : Dictionary → Dictionary
lock d = record d { locks = d.locks + 1 }

abbrev pub unlock : Dictionary → Dictionary
unlock d = record d { locks = d.locks - 1 }

-- `flags & ~FICL_WORD_SMUDGED`, of one byte.
abbrev pub without_smudged : ℕ → ℕ
without_smudged flags = bit_and flags 251

abbrev pub with_flags : Word → ℕ → Word
with_flags w f = record w { flags = f }

-- A word of no length stays out of the wordlist.
unfoldable pub unsmudge : Dictionary → Dictionary
unsmudge d =
    let w = d.words d.smudge in
    let wordlist = d.compilation_wordlist in
    let linked = hash_insert d.words (d.hashes wordlist) d.smudge in
    record d {
      words = at d.words d.smudge (with_flags w (without_smudged w.flags));
      hashes = if ltb 0 w.word_length then at d.hashes wordlist linked else d.hashes;
    }

-- The header takes 40 bytes; the parameters of the word follow.
unfoldable pub append_word : Dictionary → List ℕ → ℕ → ℕ → Outcome (ℕ × Dictionary)
unfolding append_string unsmudge
append_word d s code flags = do
  (name_at, e) ← append_string (lock d) s
  let w : Word = record {
    name = take name_length s;
    name_at = name_at;
    word_length = length s % 256;
    word_hash = hash_code s;
    code = code;
    flags = bit_or flags 4 % 256;
  }
  let f = record e { smudge = e.here; words = at e.words e.here w; here = add e.here 40 }
  ok (e.here, unlock (if flags / 4 % 2 == 1 then f else unsmudge f))

unfoldable pub abort_definition : Dictionary → Dictionary
abort_definition d =
    let w = d.words d.smudge in
    let e = lock d in unlock (if w.flags / 4 % 2 == 1 then record e { here = w.name_at } else e)

unfoldable pub set_flags : Dictionary → ℕ → Dictionary
set_flags d f =
    let w = d.words d.smudge in
    record d { words = at d.words d.smudge (with_flags w (bit_or w.flags f)) }

unfoldable pub clear_flags : Dictionary → ℕ → Dictionary
clear_flags d f =
    let w = d.words d.smudge in
    record d { words = at d.words d.smudge (with_flags w (bit_and w.flags (255 - f))) }

unfoldable pub set_immediate : Dictionary → Dictionary
set_immediate d =
    let w = d.words d.smudge in
    record d { words = at d.words d.smudge (with_flags w (bit_or w.flags 1)) }

-- Both counts are `int`; `here` does not fall below `base`.
unfoldable pub cells_used : Dictionary → ℕ
cells_used d = (d.here - d.base) / 8 % 2 ^ 32

unfoldable pub cells_available : Dictionary → ℕ
unfolding cells_used
cells_available d = (d.size + 2 ^ 32 - cells_used d) % 2 ^ 32

unfoldable pub includes : Dictionary → ℕ → Bool
includes d p = leb d.base p && ltb p (d.base + d.size * 8)

-- The tables at some addresses.
abbrev pub tables_at : Dictionary → List ℕ → List Hash
tables_at d [] = []
tables_at d (a ∷ list) = d.hashes a ∷ tables_at d list

-- A wordlist with the tables that it inherits from.
abbrev pub tables : Dictionary → ℕ → List Hash
tables d a = tables_at d (a ∷ d.inherited a)

-- The loop over the search order.
unfoldable pub lookup_loop : Dictionary → List ℕ → List ℕ → ℕ → Option ℕ
lookup_loop d [] s code = none
lookup_loop d (a ∷ list) s code = elim (hash_lookup d.words (tables d a) s code) [
  | some w ↦ some w
  | none ↦ lookup_loop d list s code
]

unfoldable pub lookup_smudged_loop : Dictionary → List ℕ → List ℕ → ℕ → Option ℕ
lookup_smudged_loop d [] s code = none
lookup_smudged_loop d (a ∷ list) s code = elim (hash_lookup_smudged d.words (tables d a) s code) [
  | some w ↦ some w
  | none ↦ lookup_smudged_loop d list s code
]

-- Both lookups lock a second time where the other operations unlock.
unfoldable pub lookup : Dictionary → List ℕ → Option ℕ × Dictionary
unfolding lookup_loop
lookup d s = (lookup_loop d d.search_order s (hash_code s), lock (lock d))

unfoldable pub lookup_smudged : Dictionary → List ℕ → Option ℕ × Dictionary
unfolding lookup_smudged_loop
lookup_smudged d s = (lookup_smudged_loop d d.search_order s (hash_code s), lock (lock d))

unfoldable pub reset_search_order : Dictionary → Dictionary
reset_search_order d = record d {
  compilation_wordlist = d.forth_wordlist;
  search_order = d.forth_wordlist ∷ [];
}
