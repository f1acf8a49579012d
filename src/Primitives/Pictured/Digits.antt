-- ===== src/Primitives/Pictured/Digits.antt =====
-- The digits that `#s` writes.
use ficl.Common.{
  ℕ, zero, suc, ◌+◌, ◌*◌, ◌%◌, ◌^◌, ◌≤◌, ◌<◌, ◌≡◌, refl, ap, ◌∙◌, true, false, ◌&&◌, List, [], ◌∷◌,
  ◌++◌, length, length-append, ◌==◌, arith, Bool-cases, inl, inr, some,
}
use mathlib.Core.List.{append_assoc}
use ficl.Common.Powers.{two_pow-suc}
use ficl.Double.{Double, Qr, double, double_divide}
use ficl.Double.Add.{value, IsDouble}
use ficl.Double.Divide.{double_divide_lem}
use ficl.Number.{digit_to_character}
use ficl.Number.Digits.{AreDigits, characters, backwards, twice}
use ficl.Primitives.Pictured.{put_character, number_sign_loop}

-- What a round of digits has: the digits of a number, least digit first.
pub record Wrote (fuel base : ℕ) (u : Double) (text vs : List ℕ) : Type 0 where
  pub does : number_sign_loop fuel base u text ≡ some (double 0 0, text ++ characters vs)
  pub below : AreDigits base vs
  pub stands_for : backwards base vs ≡ value u
  pub some_digit : 1 ≤ length vs
  pub few : length vs ≤ fuel

put_character-digit :
    (v : ℕ) (text : List ℕ)
    → v < 36
    → length text < 255
    → put_character (digit_to_character v) text ≡ text ++ digit_to_character v ∷ []
put_character-digit v text small room =
    let fits : (length text == 255) ≡ false = ground arith in
    let byte : digit_to_character v % 256 ≡ digit_to_character v = ground (arith, small) in
    rw (fits, byte) refl

loop-last :
    (fuel base : ℕ) (u : Double) (text : List ℕ) (r : Qr)
    → double_divide u base ≡ some r
    → (r.quotient.high == 0 && r.quotient.low == 0) ≡ true
    → number_sign_loop (suc fuel) base u text
      ≡ some (r.quotient, put_character (digit_to_character r.remainder) text)
unfolding number_sign_loop
loop-last fuel base u text r e done = rw (number_sign_loop, e, done) refl

loop-more :
    (fuel base : ℕ) (u : Double) (text : List ℕ) (r : Qr)
    → double_divide u base ≡ some r
    → (r.quotient.high == 0 && r.quotient.low == 0) ≡ false
    → number_sign_loop (suc fuel) base u text
      ≡ number_sign_loop fuel base r.quotient (put_character (digit_to_character r.remainder) text)
unfolding number_sign_loop
loop-more fuel base u text r e more = rw (number_sign_loop, e, more) refl

zero_double : (q : Double) → (q.high == 0 && q.low == 0) ≡ true → q ≡ double 0 0
zero_double q h =
    let high : q.high ≡ 0 = ground (arith, h) in let low : q.low ≡ 0 = ground (arith, h) in cc

last-Wrote :
    (fuel base : ℕ) (u : Double) (text : List ℕ) (r : Qr)
    → double_divide u base ≡ some r
    → value r.quotient * base + r.remainder ≡ value u
    → r.remainder < base
    → base ≤ 36
    → length text < 255
    → (r.quotient.high == 0 && r.quotient.low == 0) ≡ true
    → Wrote (suc fuel) base u text (r.remainder ∷ [])
last-Wrote fuel base u text r e total rest high room done =
    let nothing = zero_double r.quotient done in
    let no_value : value r.quotient ≡ 0 = ap value nothing in
    let held = put_character-digit r.remainder text (omega (arith, rest, high)) room in
    record {
      does =
          loop-last fuel base u text r e done
          ∙ rw held (ap (λ x. some (x, text ++ digit_to_character r.remainder ∷ [])) nothing);
      below = (rest, tt);
      stands_for = omega (arith, total, ap (λ (x : ℕ). x * base) no_value);
      some_digit = omega arith;
      few = omega arith;
    }

some_value : (q : Double) → (q.high == 0 && q.low == 0) ≡ false → 1 ≤ value q
some_value q h = ground (arith, h)

pub number_sign_loop-Wrote :
    (fuel base : ℕ) (u : Double) (text : List ℕ)
    → 2 ≤ base
    → base ≤ 36
    → IsDouble u
    → value u < 2 ^ suc fuel
    → length text + suc fuel ≤ 255
    → (vs : List ℕ) × Wrote (suc fuel) base u text vs
number_sign_loop-Wrote zero base u text low high fits small room =
    let (r, e, q_fits, total, rest) =
      double_divide_lem u base fits (omega (arith, low)) (omega (arith, high)) in
    let half = twice (value r.quotient) base low in
    elim (Bool-cases (r.quotient.high == 0 && r.quotient.low == 0)) [
      | inl done ↦ (
        r.remainder ∷ [],
        last-Wrote zero base u text r e total rest high (omega (arith, room)) done,
      )
      | inr more ↦ absurd (omega (arith, some_value r.quotient more, half, total, small))
    ]
number_sign_loop-Wrote (suc fuel) base u text low high fits small room =
    let (r, e, q_fits, total, rest) =
      double_divide_lem u base fits (omega (arith, low)) (omega (arith, high)) in
    let half = twice (value r.quotient) base low in
    let c = digit_to_character r.remainder in
    elim (Bool-cases (r.quotient.high == 0 && r.quotient.low == 0)) [
      | inl done ↦ (
        r.remainder ∷ [],
        last-Wrote (suc fuel) base u text r e total rest high (omega (arith, room)) done,
      )
      | inr more ↦
          let held =
            put_character-digit r.remainder text (omega (arith, rest, high))
              (omega (arith, room)) in
          let (vs, w) =
            number_sign_loop-Wrote fuel base r.quotient (text ++ c ∷ []) low high q_fits
              (omega (arith, half, total, small, two_pow-suc (suc fuel)))
              (omega (arith, room, length-append text (c ∷ []))) in
          let joined : text ++ c ∷ [] ++ characters vs ≡ text ++ (c ∷ characters vs) =
            append_assoc text (c ∷ []) (characters vs) in
          (
            r.remainder ∷ vs,
            record {
              does =
                  loop-more (suc fuel) base u text r e more
                  ∙ ap (number_sign_loop (suc fuel) base r.quotient) held
                  ∙ w.does
                  ∙ ap (λ s. some (double 0 0, s)) joined;
              below = (rest, w.below);
              stands_for = omega (arith, total, ap (λ (x : ℕ). x * base) w.stands_for);
              some_digit = omega arith;
              few = omega (arith, w.few);
            },
          )
    ]
