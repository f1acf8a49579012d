-- ===== src/Input.antt =====
-- The input buffer, and the strings that are parsed out of it (vm.c, and `ficlTIB` of ficl.h).
-- A pointer into the text is the list of the bytes from there to `end`; the C locale is assumed of
-- `isspace`.
pub mod Words
pub mod Strings
use ficl.Common.{
  ℕ, zero, suc, ◌+◌, ◌-◌, ◌*◌, ◌%◌, ◌^◌, Bool, true, false, not, ◌&&◌, ◌||◌, List, [], ◌∷◌, ◌++◌,
  length, take, drop, leb, ltb, ◌==◌, if◌then◌else◌, Option, none, some,
}
use ficl.Outcome.{Outcome, ok, thrown, fault, ◌>>=◌, restart, counted_string_too_long}

-- `text` runs up to `end`.
pub record Tib : Type 0 where
  pub text : List ℕ
  pub index : ℕ

-- The bytes behind the index.
abbrev pub unread : Tib → List ℕ
unread t = drop t.index t.text

-- `ficlVmGetInBuf`. From an index behind the end, which `>in` can set, the loops of the source do not
-- meet the end and read on: `fault`.
unfoldable pub in_buffer : Tib → Outcome (List ℕ)
in_buffer t = if leb t.index (length t.text) then ok (unread t) else fault

-- `ficlVmUpdateTib`, from the bytes that are left.
abbrev pub update_tib : Tib → List ℕ → Tib
update_tib t trace = record t { index = length t.text - length trace }

abbrev pub is_space : ℕ → Bool
is_space c = leb 9 c && leb c 13 || c == 32

-- `ficlStringSkipSpace`.
unfoldable pub skip_space : List ℕ → List ℕ
skip_space [] = []
skip_space (c ∷ s) = if is_space c then skip_space s else c ∷ s

-- The loop of `ficlVmGetWord0`: the word, and where it stops.
unfoldable pub scan_word : List ℕ → List ℕ × List ℕ
scan_word [] = ([], [])
scan_word (c ∷ s) =
    let (word, trace) = scan_word s in if is_space c then ([], c ∷ s) else (c ∷ word, trace)

abbrev pub skip_one : (ℕ → Bool) → List ℕ → List ℕ
skip_one wanted [] = []
skip_one wanted (c ∷ s) = if wanted c then s else c ∷ s

unfoldable pub get_word0 : Tib → Outcome (List ℕ × Tib)
unfolding in_buffer skip_space scan_word
get_word0 t = do
  start ← in_buffer t
  let (word, trace) = scan_word (skip_space start)
  ok (word, update_tib t (skip_one is_space trace))

-- `ficlVmGetWord`, which throws `FICL_VM_STATUS_RESTART` at the end of the text.
unfoldable pub get_word : Tib → Outcome (List ℕ × Tib)
unfolding get_word0
get_word t = do (word, u) ← get_word0 t; if length word == 0 then thrown restart else ok (word, u)

-- `ficlVmGetWordToPad`, as the bytes that go to the pad before the terminator.
unfoldable pub get_word_to_pad : Tib → Outcome (List ℕ × Tib)
get_word_to_pad t = do
  (word, u) ← get_word t
  ok (if ltb 256 (length word) then take 256 word else word, u)

-- The loop over leading delimiters.
unfoldable pub skip_delimiters : ℕ → List ℕ → List ℕ
skip_delimiters delimiter [] = []
skip_delimiters delimiter (c ∷ s) = if c == delimiter then skip_delimiters delimiter s else c ∷ s

-- The test that ends the string: its delimiter, or the end of the line.
abbrev pub ends : ℕ → Bool → ℕ → Bool
ends delimiter find_eol c = c == delimiter || find_eol && (c == 13 || c == 10)

unfoldable pub scan_string : ℕ → Bool → List ℕ → List ℕ × List ℕ
scan_string delimiter find_eol [] = ([], [])
scan_string delimiter find_eol (c ∷ s) =
    let (string, trace) = scan_string delimiter find_eol s in
    if ends delimiter find_eol c then ([], c ∷ s) else (c ∷ string, trace)

unfoldable pub parse_string_ex : Tib → ℕ → Bool → Bool → Outcome (List ℕ × Tib)
unfolding in_buffer
parse_string_ex t delimiter skip_leading find_eol = do
  input ← in_buffer t
  let start = if skip_leading then skip_delimiters delimiter input else input
  let (string, trace) = scan_string delimiter find_eol start
  ok (string, update_tib t (skip_one (λ c. c == delimiter) trace))

unfoldable pub parse_string : Tib → ℕ → Outcome (List ℕ × Tib)
parse_string t delimiter = parse_string_ex t delimiter true true

-- `ficlCountedString`: the length is one byte.
pub record CountedString : Type 0 where
  pub length_byte : ℕ
  pub text : List ℕ

-- `ficlVmGetString`, with `FICL_COUNTED_STRING_MAX` of 256.
unfoldable pub get_string : Tib → ℕ → Outcome (CountedString × Tib)
unfolding parse_string_ex
get_string t delimiter = do
  (s, u) ← parse_string_ex t delimiter false true
  let counted : CountedString = record { length_byte = length s % 256; text = s }
  if ltb 256 (length s) then thrown counted_string_too_long else ok (counted, u)

-- `ficlVmGetPairedString`, whose length is a cell.
unfoldable pub get_paired_string : Tib → ℕ → Outcome (List ℕ × Tib)
get_paired_string t delimiter = parse_string_ex t delimiter false true

-- `ficlVmPushTib`: the new buffer, with the one that is saved.
unfoldable pub push_tib : Tib → List ℕ → Tib × Tib
push_tib t text = (record { text = text; index = 0 }, t)

-- `ficlVmPopTib`, which does nothing for a null pointer.
unfoldable pub pop_tib : Tib → Option Tib → Tib
pop_tib t none = t
pop_tib t (some saved) = saved
