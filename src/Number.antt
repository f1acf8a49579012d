-- ===== src/Number.antt =====
-- Numbers as text: `ficlLtoa` and `ficlUltoa` of utility.c, and `ficlVmParseNumber` of vm.c.
-- A string is the list of its bytes, without its terminator; the C locale is assumed of `isalnum`.
-- A result of `none` means that the fuel of a loop over double cells ran out.
pub mod Digits
pub mod Reading
pub mod Writing
use ficl.Common.{
  ℕ, zero, suc, ◌+◌, ◌-◌, ◌*◌, ◌/◌, ◌%◌, ◌^◌, Bool, true, false, not, ◌&&◌, ◌||◌, List, [], ◌∷◌,
  ◌++◌, length, leb, ltb, ◌==◌, if◌then◌else◌, Option, none, some,
}
use ficl.Cell.{cell_mod, is_negative, negate}
use ficl.Double.{Double, double, double_divide, double_negate, multiply_accumulate}
use ficl.Text.{to_lower, first_char, next_chars}

-- An entry of the table `digits`: ten figures, then the capital letters.
abbrev pub digit_to_character : ℕ → ℕ
digit_to_character value = if ltb value 10 then 48 + value else 55 + value

-- `ficlStringReverse`.
abbrev pub string_reverse : List ℕ → List ℕ
string_reverse [] = []
string_reverse (c ∷ s) = string_reverse s ++ c ∷ []

-- The loop of `ficlIsPowerOfTwo`; `t` wraps round to zero after 63 rounds at most.
unfoldable pub power_of_two_loop : ℕ → ℕ → ℕ → ℕ → ℕ
power_of_two_loop zero u i t = 0
power_of_two_loop (suc fuel) u i t =
    let rest = power_of_two_loop fuel u (i + 1) (t * 2 % cell_mod) in
    if leb t u && not (t == 0) then if u == t then i else rest else 0

unfoldable pub is_power_of_two : ℕ → ℕ
unfolding power_of_two_loop
is_power_of_two u = power_of_two_loop 64 u 1 2

-- The loop of `ficlUltoa` and of `ficlLtoa`, least digit first.
unfoldable pub digits_loop : ℕ → ℕ → Double → Option (List ℕ)
digits_loop zero radix v = if v.low == 0 && v.high == 0 then some [] else none
digits_loop (suc fuel) radix v = elim (v.low == 0 && v.high == 0) [
  | true ↦ some []
  | false ↦ elim (double_divide v radix) [
    | none ↦ none
    | some r ↦ elim (digits_loop fuel radix r.quotient) [
      | none ↦ none
      | some s ↦ some (digit_to_character r.remainder ∷ s)
    ]
  ]
]

-- The loop of `ficlLtoa` for a radix that is a power of two. `mask` has the low `pwr` bits.
unfoldable pub bits_loop : ℕ → ℕ → ℕ → List ℕ
bits_loop zero pwr v = []
bits_loop (suc fuel) pwr v =
    let rest = bits_loop fuel pwr (v / 2 ^ pwr) in
    if v == 0 then [] else digit_to_character (v % 2 ^ pwr) ∷ rest

unfoldable pub unsigned_to_string : ℕ → ℕ → Option (List ℕ)
unsigned_to_string value radix =
    if value == 0 then some (48 ∷ []) else elim (digits_loop 64 radix (double 0 value)) [
      | none ↦ none
      | some s ↦ some (string_reverse s)
    ]

-- The digits that `ficlLtoa` writes, before the sign.
unfoldable pub size_to_digits : ℕ → ℕ → Option (List ℕ)
size_to_digits size radix =
    let pwr = is_power_of_two radix in
    if size == 0
    then some (48 ∷ [])
    else if not (pwr == 0)
    then some (bits_loop 64 pwr size)
    else digits_loop 64 radix (double 0 size)

unfoldable pub integer_to_string : ℕ → ℕ → Option (List ℕ)
integer_to_string value radix =
    let sign = radix == 10 && is_negative value in
    elim (size_to_digits (if sign then negate value else value) radix) [
      | none ↦ none
      | some s ↦ some (string_reverse (if sign then s ++ 45 ∷ [] else s))
    ]

-- `ficlNumberSeparator`.
abbrev pub number_separator : ℕ → Bool
number_separator c = leb 43 c && ltb c 48 || c == 58

abbrev pub is_alphanumeric : ℕ → Bool
is_alphanumeric c = leb 48 c && leb c 57 || leb 65 c && leb c 90 || leb 97 c && leb c 122

abbrev pub digit_value : ℕ → ℕ
digit_value c = if leb 48 c && ltb (c - 48) 10 then c - 48 else to_lower c - 97 + 10

-- The byte at an index.
abbrev pub char_at : List ℕ → ℕ → ℕ
char_at [] i = 0
char_at (c ∷ s) zero = c
char_at (c ∷ s) (suc i) = char_at s i

-- How the reading of a number ends, with `vm->dpl` after it: refused, or with the cell or the
-- double that goes to the data stack.
pub data Parsed : Type 0 where
  refused : (dpl : ℕ) → Parsed
  single : (cell : ℕ) → (dpl : ℕ) → Parsed
  pair : (d : Double) → (dpl : ℕ) → Parsed

pub data Loop : Type 0 where
  stopped : (dpl : ℕ) → Loop
  finished : (accumulator : Double) → (is_double : Bool) → (dpl : ℕ) → Loop

-- The loop over the characters, `length` of them at most.
unfoldable pub parse_loop : ℕ → ℕ → List ℕ → Double → Bool → ℕ → Option Loop
parse_loop base zero s acc is_double dpl = some (finished acc is_double dpl)
parse_loop base (suc n) [] acc is_double dpl = some (finished acc is_double dpl)
parse_loop base (suc n) (c ∷ s) acc is_double dpl = elim (c == 0) [
  | true ↦ some (finished acc is_double dpl)
  | false ↦ elim (number_separator c) [
    | true ↦ parse_loop base n s acc true (if is_double then dpl else n)
    | false ↦ elim (is_alphanumeric c && ltb (digit_value c) base) [
      | false ↦ some (stopped dpl)
      | true ↦ elim (multiply_accumulate acc base (digit_value c)) [
        | none ↦ none
        | some next ↦ parse_loop base n s next is_double dpl
      ]
    ]
  ]
]

-- What goes to the data stack.
abbrev pub push_parsed : Bool → Loop → Parsed
push_parsed negative (stopped dpl) = refused dpl
push_parsed negative (finished acc is_double dpl) =
    let d = if negative then double_negate acc else acc in
    if is_double then pair d dpl else single d.low dpl

-- The part behind the sign: a separator at the end is taken off, then the digits are read.
unfoldable pub parse_unsigned : ℕ → Bool → ℕ → List ℕ → Option Parsed
parse_unsigned base negative n s =
    let trailing = ltb 0 n && number_separator (char_at s (n - 1)) in
    let dpl = if trailing then 0 else cell_mod - 1 in
    let count = if trailing then n - 1 else n in
    if count == 0
    then some (refused dpl)
    else elim (parse_loop base count s (double 0 0) trailing dpl) [
      | none ↦ none
      | some l ↦ some (push_parsed negative l)
    ]

-- The length is cut to 8 bits.
unfoldable pub parse_number : ℕ → List ℕ → Option Parsed
parse_number base s =
    let n = length s % 256 in
    let c = first_char s in
    if ltb 1 n && c == 45
    then parse_unsigned base true (n - 1) (next_chars s)
    else if ltb 1 n && c == 43
    then parse_unsigned base false (n - 1) (next_chars s)
    else parse_unsigned base false n s
