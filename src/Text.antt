-- ===== src/Text.antt =====
-- Characters and strings (utility.c). A string is the list of its bytes; reading at its end gives
-- the terminator, 0. The C locale is assumed of `tolower`.
pub mod Folding
use ficl.Common.{
  ℕ, zero, suc, ◌+◌, ◌-◌, ◌%◌, ◌^◌, Bool, true, false, ◌&&◌, List, [], ◌∷◌, leb, ltb, ◌==◌,
  if◌then◌else◌,
}

abbrev pub to_lower : ℕ → ℕ
to_lower c = if leb 65 c && leb c 90 then c + 32 else c

-- A `char` as an `int` of 32 bits.
abbrev pub char_value : ℕ → ℕ
char_value c = if ltb c 128 then c else 2 ^ 32 + c - 256

abbrev pub first_char : List ℕ → ℕ
first_char [] = 0
first_char (c ∷ s) = c

abbrev pub next_chars : List ℕ → List ℕ
next_chars [] = []
next_chars (c ∷ s) = s

-- The `int` that `ficlStrincmp` returns, as its 32 bits.
unfoldable pub strincmp : List ℕ → List ℕ → ℕ → ℕ
strincmp s t zero = 0
strincmp s t (suc count) =
    let i =
      (char_value (to_lower (first_char s)) + 2 ^ 32 - char_value (to_lower (first_char t)))
      % 2 ^ 32 in
    let rest = strincmp (next_chars s) (next_chars t) count in
    if i == 0 then if first_char s == 0 then 0 else rest else i

-- `ficlStringCaseFold`, which stops at the terminator.
unfoldable pub case_fold : List ℕ → List ℕ
case_fold [] = []
case_fold (c ∷ s) = let rest = case_fold s in if c == 0 then c ∷ s else to_lower c ∷ rest
