-- ===== src/Number/Writing.antt =====
-- What `ficlLtoa` writes: the digits of the size, behind a minus sign for a negative cell in base 10.
use ficl.Common.{
  ℕ, zero, suc, ◌+◌, ◌-◌, ◌*◌, ◌/◌, ◌%◌, ◌^◌, ◌≤◌, ◌<◌, ◌≡◌, ◌≢◌, refl, sym, ap, ◌∙◌, true, false,
  not, ◌&&◌, List, [], ◌∷◌, ◌++◌, leb, ◌==◌, if◌then◌else◌, arith, Bool-cases, inl, inr, ◌⊎◌, some,
}
use mathlib.Core.Path.{subst}
use native.Mathlib.Nat.{div-add-mod, mod-lt}
use ficl.Common.Powers.{two_pow-suc, two_pow_mono, two_pow-pos}
use ficl.Cell.{is_negative}
use ficl.Double.{double}
use ficl.Number.{
  string_reverse, is_power_of_two, power_of_two_loop, digits_loop, bits_loop, integer_to_string,
  size_to_digits, single, parse_number,
}
use ficl.Number.Digits.{
  twice, characters, IsWritten, AreLeast, digits_loop_lem, reversed-IsWritten,
  characters-string_reverse,
}
use ficl.Number.Reading.{parse_number-characters, parse_number-minus}

-- The bit is still inside the cell.
power_found : (u i t : ℕ) → i ≤ 64 → u ≡ t → t ≢ 0 → t ≡ 2 ^ i % 2 ^ 64 → u ≡ 2 ^ i
power_found u i t few e apart is_power = elim (Bool-cases (i == 64)) [
  | inl last ↦
      let i_is : i ≡ 64 = ground arith in
      absurd (apart (is_power ∙ ap (λ (k : ℕ). 2 ^ k % 2 ^ 64) i_is))
  | inr inside ↦
      let below : i ≤ 63 = ground arith in omega (arith, two_pow_mono i 63 below, is_power, e)
]

power_of_two_loop_lem :
    (fuel u i t : ℕ)
    → i + fuel ≤ 65
    → t ≡ 2 ^ i % 2 ^ 64
    → (power_of_two_loop fuel u i t ≡ 0) ⊎ (u ≡ 2 ^ power_of_two_loop fuel u i t)
unfolding power_of_two_loop
power_of_two_loop_lem zero u i t few is_power = inl refl
power_of_two_loop_lem (suc fuel) u i t few is_power = elim (Bool-cases (leb t u && not (t == 0))) [
  | inl go ↦ elim (Bool-cases (u == t)) [
    | inl here ↦
        let power : u ≡ 2 ^ i =
          power_found u i t (omega arith) (ground arith) (ground arith) is_power in
        rw (go, here, power_of_two_loop) (inr power)
    | inr on ↦
        let double_is : t * 2 % 2 ^ 64 ≡ 2 ^ (i + 1) % 2 ^ 64 =
          let next : i + 1 ≡ suc i = omega arith in
          omega (arith, two_pow-suc i, ap (λ (k : ℕ). 2 ^ k) next) in
        rw (go, on, power_of_two_loop)
          (power_of_two_loop_lem fuel u (i + 1) (t * 2 % 2 ^ 64) (omega arith) double_is)
  ]
  | inr stop ↦ rw (stop, power_of_two_loop) (inl refl)
]

pub is_power_of_two_lem : (u : ℕ) → (is_power_of_two u ≡ 0) ⊎ (u ≡ 2 ^ is_power_of_two u)
unfolding is_power_of_two
is_power_of_two_lem u = power_of_two_loop_lem 64 u 1 2 (omega arith) refl

quotient_small : (fuel pwr v : ℕ) → 1 ≤ pwr → v < 2 ^ suc fuel → v / 2 ^ pwr < 2 ^ fuel
quotient_small fuel zero v pos small = absurd (omega arith)
quotient_small fuel (suc pwr) v pos small =
    let total = div-add-mod v (2 ^ suc pwr) in
    let half = two_pow-suc pwr in
    let all = two_pow-suc fuel in
    let pos_power = two_pow-pos pwr in
    let more = twice (v / 2 ^ suc pwr) (2 ^ suc pwr) (omega arith) in omega arith

bits_loop_lem :
    (fuel pwr v : ℕ)
    → 1 ≤ pwr
    → v < 2 ^ fuel
    → (vs : List ℕ) × (bits_loop fuel pwr v ≡ characters vs) × AreLeast (2 ^ pwr) fuel v vs
unfolding bits_loop
bits_loop_lem zero pwr v pos small =
    let e : v ≡ 0 = omega arith in
    (
      [],
      refl,
      record {
        below = tt;
        stands_for = sym e;
        few = omega arith;
        none_for_zero = λ h. omega arith;
      },
    )
bits_loop_lem (suc fuel) pwr v pos small = elim (Bool-cases (v == 0)) [
  | inl e ↦
      let zero_v : v ≡ 0 = ground arith in
      (
        [],
        rw (e, bits_loop) refl,
        record {
          below = tt;
          stands_for = sym zero_v;
          few = omega arith;
          none_for_zero = λ h. omega arith;
        },
      )
  | inr e ↦
      let radix_pos = two_pow-pos pwr in
      let (vs, g, l) =
        bits_loop_lem fuel pwr (v / 2 ^ pwr) pos (quotient_small fuel pwr v pos small) in
      (
        v % 2 ^ pwr ∷ vs,
        rw (e, g, bits_loop) refl,
        record {
          below = (mod-lt v (omega (arith, radix_pos)), l.below);
          stands_for =
              ap (λ (t : ℕ). t * 2 ^ pwr + v % 2 ^ pwr) l.stands_for
              ∙ omega (arith, div-add-mod v (2 ^ pwr));
          few = omega (arith, l.few);
          none_for_zero = λ h. omega arith;
        },
      )
]

power_pos : (radix k : ℕ) → 2 ≤ radix → radix ≡ 2 ^ k → 1 ≤ k
power_pos radix zero low e = absurd (omega arith)
power_pos radix (suc k) low e = omega arith

-- The text for a cell that is not zero, least digit first.
sized :
    (radix v : ℕ)
    → 2 ≤ radix
    → radix ≤ 36
    → v < 2 ^ 64
    → (vs : List ℕ) × ((if not (is_power_of_two radix == 0)
          then some (bits_loop 64 (is_power_of_two radix) v)
          else digits_loop 64 radix (double 0 v))
        ≡ some (characters vs))
      × AreLeast radix 64 v vs
sized radix v low high cell = elim (is_power_of_two_lem radix) [
  | inl none_found ↦
      let (vs, e, l) = digits_loop_lem 64 radix v low (omega arith) cell cell in
      let test : (is_power_of_two radix == 0) ≡ true = ground arith in (vs, rw test e, l)
  | inr power ↦
      let some_bits = power_pos radix (is_power_of_two radix) low power in
      let (vs, e, l) = bits_loop_lem 64 (is_power_of_two radix) v some_bits cell in
      let test : (is_power_of_two radix == 0) ≡ false = ground arith in
      (vs, rw (test, e) refl, subst (λ (r : ℕ). AreLeast r 64 v vs) (sym power) l)
]

-- The text before it is reversed.
text_lem :
    (radix v : ℕ)
    → 2 ≤ radix
    → radix ≤ 36
    → v < 2 ^ 64
    → (vs : List ℕ) × (size_to_digits v radix ≡ some (characters vs))
      × IsWritten radix v (string_reverse vs)
unfolding size_to_digits
text_lem radix v low high cell = elim (Bool-cases (v == 0)) [
  | inl e ↦
      let zero_v : v ≡ 0 = ground arith in
      (
        0 ∷ [],
        rw e refl,
        record {
          below = (omega arith, tt);
          stands_for = omega (arith, zero_v);
          some_digit = omega arith;
          few_digits = omega arith;
        },
      )
  | inr e ↦
      let some_value : 1 ≤ v = ground arith in
      let (vs, f, l) = sized radix v low high cell in
      (vs, rw e f, reversed-IsWritten radix v vs some_value l)
]

string_reverse-append : (s : List ℕ) (c : ℕ) → string_reverse (s ++ c ∷ []) ≡ c ∷ string_reverse s
string_reverse-append [] c = refl
string_reverse-append (d ∷ s) c = ap (λ t. t ++ d ∷ []) (string_reverse-append s c)

plain_text :
    (v radix : ℕ)
    → 2 ≤ radix
    → radix ≤ 36
    → v < 2 ^ 64
    → (radix == 10 && is_negative v) ≡ false
    → (vs : List ℕ) × (integer_to_string v radix ≡ some (characters vs)) × IsWritten radix v vs
unfolding integer_to_string
plain_text v radix low high cell plain =
    let (vs, e, w) = text_lem radix v low high cell in
    (
      string_reverse vs,
      rw (integer_to_string, plain, e, plain) (ap some (characters-string_reverse vs)),
      w,
    )

minus_text :
    (v : ℕ)
    → 2 ^ 63 ≤ v
    → v < 2 ^ 64
    → (vs : List ℕ) × (integer_to_string v 10 ≡ some (45 ∷ characters vs))
      × IsWritten 10 (2 ^ 64 - v) vs
unfolding integer_to_string
minus_text v low cell =
    let sign : is_negative v ≡ true = ground arith in
    let (vs, e, w) = text_lem 10 (2 ^ 64 - v) (omega arith) (omega arith) (omega arith) in
    let size : (2 ^ 64 - v) % 2 ^ 64 ≡ 2 ^ 64 - v = omega arith in
    (
      string_reverse vs,
      rw (integer_to_string, sign, size, e, sign)
          (ap some (
            string_reverse-append (characters vs) 45
            ∙ ap (λ t. 45 ∷ t) (characters-string_reverse vs))),
      w,
    )

-- For every cell and every base from 2 to 36, `ficlLtoa` ends with a string, and
-- `ficlVmParseNumber` in that base reads it back as that cell, with no decimal point seen.
pub parse_number-integer_to_string :
    (v radix : ℕ)
    → 2 ≤ radix
    → radix ≤ 36
    → v < 2 ^ 64
    → (s : List ℕ) × (integer_to_string v radix ≡ some s)
      × (parse_number radix s ≡ some (single v (2 ^ 64 - 1)))
parse_number-integer_to_string v radix low high cell =
    elim (Bool-cases (radix == 10 && is_negative v)) [
      | inl minus ↦
          let ten : radix ≡ 10 = ground arith in
          let negative : 2 ^ 63 ≤ v = ground arith in
          let (vs, e, w) = minus_text v negative cell in
          let again : (2 ^ 64 - (2 ^ 64 - v)) % 2 ^ 64 ≡ v = omega arith in
          let read = parse_number-minus 10 (2 ^ 64 - v) vs (omega arith) (omega arith) w in
          (
            45 ∷ characters vs,
            rw ten e,
            rw ten (read ∙ ap (λ (c : ℕ). some (single c (2 ^ 64 - 1))) again),
          )
      | inr plain ↦
          let (vs, e, w) = plain_text v radix low high cell plain in
          (characters vs, e, parse_number-characters radix v vs high cell w)
    ]
