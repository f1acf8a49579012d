-- ===== src/Examples/Texts.antt =====
-- The theorems on numbers as text and on the input at concrete inputs.
use ficl.Common.{ℕ, ◌-◌, ◌^◌, ◌≤◌, ◌≡◌, ◌≢◌, ◌↔◌, refl, true, List, [], ◌∷◌, length, some, arith}
use ficl.Outcome.{ok}
use ficl.Number.{integer_to_string, parse_number, single}
use ficl.Number.Writing.{parse_number-integer_to_string}
use ficl.Input.{
  Tib, unread, in_buffer, scan_string, skip_delimiters, parse_string_ex, CountedString, get_string,
}
use ficl.Input.Words.{Takes, get_word0-Takes}
use ficl.Input.Strings.{IsCut, parse_string_ex_lem, get_string_lem}

parse_number-integer_to_string_example :
    (s : List ℕ) × (integer_to_string (2 ^ 64 - 42) 10 ≡ some s)
    × (parse_number 10 s ≡ some (single (2 ^ 64 - 42) (2 ^ 64 - 1)))
parse_number-integer_to_string_example =
    parse_number-integer_to_string (2 ^ 64 - 42) 10 (omega arith) (omega arith) (omega arith)

-- ` dup +`, and `ab" c`.
abbrev two_words : Tib
two_words = record { text = 32 ∷ 100 ∷ 117 ∷ 112 ∷ 32 ∷ 43 ∷ []; index = 0 }

abbrev quoted : Tib
quoted = record { text = 97 ∷ 98 ∷ 34 ∷ 32 ∷ 99 ∷ []; index = 0 }

get_word0-Takes_example : Takes two_words ((100 ∷ 117 ∷ 112 ∷ []) ∷ (43 ∷ []) ∷ [])
get_word0-Takes_example = get_word0-Takes two_words (omega arith)

parse_string_ex_lem_example :
    (s rest : List ℕ) × (u : Tib) × (parse_string_ex quoted 34 true true ≡ ok (s, u))
    × (in_buffer u ≡ ok rest)
    × IsCut 34 true (skip_delimiters 34 (unread quoted)) s rest
parse_string_ex_lem_example = parse_string_ex_lem quoted 34 true true (omega arith)

abbrev quoted_string : CountedString
quoted_string = record { length_byte = 2; text = 97 ∷ 98 ∷ [] }

quoted_got : get_string quoted 34 ≡ ok (quoted_string, record { text = quoted.text; index = 3 })
unfolding get_string parse_string_ex in_buffer scan_string
quoted_got = refl

get_string_lem_example :
    (length quoted_string.text ≤ 256)
    × ((quoted_string.length_byte ≡ length quoted_string.text) ↔ (length quoted_string.text ≢ 256))
get_string_lem_example =
    get_string_lem quoted (record { text = quoted.text; index = 3 }) 34 quoted_string quoted_got
