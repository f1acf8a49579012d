-- ===== src/Number/Reading.antt =====
-- Reading a number back from the digits that it is written with.
use ficl.Common.{
  ℕ, zero, suc, ◌+◌, ◌-◌, ◌*◌, ◌%◌, ◌^◌, ◌≤◌, ◌<◌, ◌≡◌, refl, ap, ◌∙◌, Bool, true, false, ◌&&◌,
  List, [], ◌∷◌, length, ltb, ◌==◌, arith, Bool-cases, inl, inr, some,
}
use ficl.Double.{Double, double, double_negate, multiply_accumulate}
use ficl.Double.Add.{IsDouble, double_negate_lem, double_negate-IsDouble}
use ficl.Double.Multiply.{multiply_accumulate_lem}
use ficl.Text.{first_char}
use ficl.Number.{
  digit_to_character, unsigned_to_string, number_separator, is_alphanumeric, digit_value, char_at,
  single, finished, parse_loop, push_parsed, parse_unsigned, parse_number,
}
use ficl.Number.Digits.{
  AreDigits, characters, number, IsWritten, unsigned_to_string_lem, small_double,
}

pub accumulate_small :
    (acc base v : ℕ)
    → acc < 2 ^ 64
    → base ≤ 36
    → v < base
    → acc * base + v < 2 ^ 64
    → multiply_accumulate (double 0 acc) base v ≡ some (double 0 (acc * base + v))
accumulate_small acc base v cell high below small =
    let (z, e, f) =
      multiply_accumulate_lem (double 0 acc) base v
        (record { high_fits = omega arith; low_fits = cell }) (omega arith) (omega arith)
        (omega arith) (omega arith) in
    e ∙ ap some (small_double z (acc * base + v) (omega (arith, f)) (omega (arith, f)))

-- How `ficlVmParseNumber` sees the character of a digit.
record IsRead (base v c : ℕ) : Type 0 where
  goes_on : (c == 0) ≡ false
  no_separator : number_separator c ≡ false
  is_digit : (is_alphanumeric c && ltb (digit_value c) base) ≡ true
  value_is : digit_value c ≡ v

digit_to_character-IsRead :
    (base v : ℕ) → base ≤ 36 → v < base → IsRead base v (digit_to_character v)
digit_to_character-IsRead base v high below = record {
  goes_on = ground arith;
  no_separator = ground arith;
  is_digit = ground arith;
  value_is = ground arith;
}

pub acc-number : (base acc : ℕ) (vs : List ℕ) → 1 ≤ base → acc ≤ number base acc vs
acc-number base acc [] h = omega arith
acc-number zero acc (v ∷ vs) h = absurd (omega arith)
acc-number (suc base) acc (v ∷ vs) h =
    omega (arith, acc-number (suc base) (acc * suc base + v) vs h)

parse_loop-digit :
    (base n v c dpl : ℕ) (s : List ℕ) (acc next : Double)
    → IsRead base v c
    → multiply_accumulate acc base v ≡ some next
    → parse_loop base (suc n) (c ∷ s) acc false dpl ≡ parse_loop base n s next false dpl
unfolding parse_loop
parse_loop-digit base n v c dpl s acc next seen step =
    let step' : multiply_accumulate acc base (digit_value c) ≡ some next = rw seen.value_is step in
    rw (parse_loop, seen.goes_on, seen.no_separator, seen.is_digit, step') refl

parse_loop-characters :
    (base acc dpl : ℕ) (vs : List ℕ)
    → base ≤ 36
    → AreDigits base vs
    → number base acc vs < 2 ^ 64
    → acc < 2 ^ 64
    → parse_loop base (length vs) (characters vs) (double 0 acc) false dpl
      ≡ some (finished (double 0 (number base acc vs)) false dpl)
unfolding parse_loop
parse_loop-characters base acc dpl [] high all small cell = refl
parse_loop-characters base acc dpl (v ∷ vs) high (this, all) small cell =
    let seen = digit_to_character-IsRead base v high this in
    let next : acc * base + v < 2 ^ 64 =
      omega (arith, acc-number base (acc * base + v) vs (omega arith)) in
    parse_loop-digit base (length vs) v (digit_to_character v) dpl (characters vs) (double 0 acc)
      (double 0 (acc * base + v)) seen (accumulate_small acc base v cell high this next)
    ∙ parse_loop-characters base (acc * base + v) dpl vs high all small next

char_at-characters :
    (base i : ℕ) (vs : List ℕ)
    → base ≤ 36
    → AreDigits base vs
    → i < length vs
    → number_separator (char_at (characters vs) i) ≡ false
char_at-characters base i [] high all h = absurd (omega arith)
char_at-characters base zero (v ∷ vs) high (this, all) h =
    (digit_to_character-IsRead base v high this).no_separator
char_at-characters base (suc i) (v ∷ vs) high (this, all) h =
    char_at-characters base i vs high all (omega arith)

parse_unsigned-characters :
    (base v : ℕ) (negative : Bool) (vs : List ℕ)
    → base ≤ 36
    → v < 2 ^ 64
    → IsWritten base v vs
    → parse_unsigned base negative (length vs) (characters vs)
      ≡ some (push_parsed negative (finished (double 0 v) false (2 ^ 64 - 1)))
unfolding parse_unsigned
parse_unsigned-characters base v negative vs high cell w =
    let plain : number_separator (char_at (characters vs) (length vs - 1)) ≡ false =
      char_at-characters base (length vs - 1) vs high w.below (omega (arith, w.some_digit)) in
    let some_digit : ltb 0 (length vs) ≡ true = ground (arith, w.some_digit) in
    let more : (length vs == 0) ≡ false = ground (arith, w.some_digit) in
    let read =
      parse_loop-characters base 0 (2 ^ 64 - 1) vs high w.below (omega (arith, w.stands_for))
        (omega arith) in
    rw (some_digit, plain, more, read, w.stands_for) refl

length-characters : (vs : List ℕ) → length (characters vs) ≡ length vs
length-characters [] = refl
length-characters (v ∷ vs) = ap suc (length-characters vs)

first-characters :
    (base : ℕ) (vs : List ℕ)
    → base ≤ 36
    → AreDigits base vs
    → 1 ≤ length vs
    → ((first_char (characters vs) == 45) ≡ false) × ((first_char (characters vs) == 43) ≡ false)
first-characters base [] high all h = absurd (omega arith)
first-characters base (v ∷ vs) high (this, all) h = (ground arith, ground arith)

pub parse_number-characters :
    (base v : ℕ) (vs : List ℕ)
    → base ≤ 36
    → v < 2 ^ 64
    → IsWritten base v vs
    → parse_number base (characters vs) ≡ some (single v (2 ^ 64 - 1))
unfolding parse_number
parse_number-characters base v vs high cell w =
    let (minus, plus) = first-characters base vs high w.below w.some_digit in
    let n : length (characters vs) % 256 ≡ length vs =
      omega (arith, length-characters vs, w.few_digits) in
    let read = parse_unsigned-characters base v false vs high cell w in
    elim (Bool-cases (ltb 1 (length vs))) [
      | inl long ↦ rw (n, minus, plus, long) read
      | inr short ↦ rw (n, minus, plus, short) read
    ]

double_negate-low : (v : ℕ) → v < 2 ^ 64 → (double_negate (double 0 v)).low ≡ (2 ^ 64 - v) % 2 ^ 64
double_negate-low v cell =
    let fits : IsDouble (double 0 v) = record { high_fits = omega arith; low_fits = cell } in
    let out = double_negate-IsDouble (double 0 v) in
    let h = out.high_fits in let l = out.low_fits in ground (arith, double_negate_lem fits)

pub parse_number-minus :
    (base v : ℕ) (vs : List ℕ)
    → base ≤ 36
    → v < 2 ^ 64
    → IsWritten base v vs
    → parse_number base (45 ∷ characters vs) ≡ some (single ((2 ^ 64 - v) % 2 ^ 64) (2 ^ 64 - 1))
unfolding parse_number
parse_number-minus base v vs high cell w =
    let n : length (45 ∷ characters vs) % 256 ≡ suc (length vs) =
      omega (arith, length-characters vs, w.few_digits) in
    let some_digit : ltb 1 (suc (length vs)) ≡ true = ground (arith, w.some_digit) in
    let rest : suc (length vs) - 1 ≡ length vs = omega arith in
    rw (n, some_digit, rest)
      (parse_unsigned-characters base v true vs high cell w
        ∙ ap (λ (c : ℕ). some (single c (2 ^ 64 - 1))) (double_negate-low v cell))

-- Reading what `ficlUltoa` wrote.
pub parse_number-unsigned_to_string :
    (v radix : ℕ)
    → 2 ≤ radix
    → radix ≤ 36
    → v < 2 ^ 64
    → (s : List ℕ) × (unsigned_to_string v radix ≡ some s)
      × (parse_number radix s ≡ some (single v (2 ^ 64 - 1)))
parse_number-unsigned_to_string v radix low high cell =
    let (vs, e, w) = unsigned_to_string_lem v radix low high cell in
    (characters vs, e, parse_number-characters radix v vs high cell w)
