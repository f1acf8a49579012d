-- ===== src/Primitives/Pictured/Numbers.antt =====
-- `#s` and `#>` write a number, and `>number` reads it.
use ficl.Common.{
  ℕ, suc, ◌+◌, ◌*◌, ◌%◌, ◌^◌, ◌≤◌, ◌<◌, ◌≡◌, refl, sym, ap, ◌∙◌, false, List, [], ◌∷◌, ◌++◌, length,
  leb, ltb, ◌==◌, arith, some,
}
use mathlib.Core.Path.{subst}
use mathlib.Core.List.{append_assoc, append-nil}
use ficl.Double.{Double, double}
use ficl.Double.Add.{value, IsDouble}
use ficl.Memory.{Memory}
use ficl.Outcome.{ok, ok-inj}
use ficl.Number.{digit_to_character, string_reverse}
use ficl.Number.Digits.{
  AreDigits, characters, number, number-string_reverse, AreDigits-string_reverse,
  length-string_reverse, characters-append,
}
use ficl.Number.Reading.{accumulate_small, acc-number}
use ficl.Stack.{Stack, stack_check}
use ficl.Stack.Refinement.{Holds, Holds-depth, stack_push-Holds, stack_check-Holds}
use ficl.Stack.Doubles.{stack_pop_double-Holds, stack_push_double-Holds, stack_drop-two}
use ficl.Vm.Check.{on_data, check}
use ficl.Primitives.Pictured.{
  Pad, less_number_sign, number_sign_s, number_sign_greater, reverse_to_nul, digit_of,
  to_number_loop,
}
use ficl.Primitives.Pictured.Digits.{Wrote, number_sign_loop-Wrote}

reverse_to_nul-characters :
    (done : List ℕ) (base : ℕ) (vs : List ℕ)
    → AreDigits base vs
    → reverse_to_nul done (characters vs) ≡ characters (string_reverse vs) ++ done
reverse_to_nul-characters done base [] all = refl
reverse_to_nul-characters done base (v ∷ vs) (this, all) =
    let other : (digit_to_character v == 0) ≡ false = ground arith in
    rw other (
      reverse_to_nul-characters (digit_to_character v ∷ done) base vs all
      ∙ sym (append_assoc (characters (string_reverse vs)) (digit_to_character v ∷ []) done)
      ∙ ap (λ s. s ++ done) (sym (characters-append v (string_reverse vs))))

length-characters : (vs : List ℕ) → length (characters vs) ≡ length vs
length-characters [] = refl
length-characters (v ∷ vs) = ap suc (length-characters vs)

two_cells :
    (s : Stack) (xs : List ℕ) (a b : ℕ) → Holds s (a ∷ b ∷ xs) → stack_check on_data s 2 2 ≡ ok tt
unfolding check
two_cells s xs a b h =
    let depth = Holds-depth s (a ∷ b ∷ xs) h in
    let fits = h.sound.fits in
    stack_check-Holds on_data s (a ∷ b ∷ xs) 2 2 h ∙ ground (arith, depth, fits)

-- The pad after `#s`.
number_sign_s-Wrote :
    (p : Pad) (u : Double) (xs : List ℕ)
    → 2 ≤ p.base
    → p.base ≤ 36
    → IsDouble u
    → Holds p.stack (u.high ∷ u.low ∷ xs)
    → (t : Stack) × (vs : List ℕ) × (number_sign_s (less_number_sign p)
        ≡ ok (record p { text = characters vs; stack = t }))
      × Holds t (0 ∷ 0 ∷ xs)
      × (t.size ≡ p.stack.size)
      × Wrote 128 p.base u [] vs
unfolding number_sign_s less_number_sign
number_sign_s-Wrote p u xs low high fits h =
    let base_fits : p.base % 2 ^ 16 ≡ p.base = ground (arith, high) in
    let (s, e, k, same) = stack_pop_double-Holds p.stack xs u h in
    let (vs, w) =
      number_sign_loop-Wrote 127 p.base u [] low high fits
        (omega (arith, fits.high_fits, fits.low_fits)) (omega arith) in
    let (t, f, l, again) =
      stack_push_double-Holds s xs (double 0 0) k
        (omega (arith, same, Holds-depth p.stack (u.high ∷ u.low ∷ xs) h, h.sound.fits)) in
    (
      t,
      vs,
      rw (two_cells p.stack xs u.high u.low h, e, base_fits, w.does, f) refl,
      l,
      again ∙ same,
      w,
    )

-- For any double and any base from 2 to 36, `<#`, `#s` and `#>` succeed and leave the place and the
-- length of a text whose characters are digits below the base, at least one of them, that stand for
-- the double, the greatest first.
pub number_sign_greater-number_sign_s :
    (p : Pad) (u : Double) (xs : List ℕ)
    → 2 ≤ p.base
    → p.base ≤ 36
    → IsDouble u
    → Holds p.stack (u.high ∷ u.low ∷ xs)
    → (q r : Pad) × (vs : List ℕ) × (number_sign_s (less_number_sign p) ≡ ok q)
      × (number_sign_greater q ≡ ok r)
      × (r.text ≡ characters vs)
      × AreDigits p.base vs
      × (number p.base 0 vs ≡ value u)
      × (1 ≤ length vs)
      × Holds r.stack (length r.text ∷ p.place ∷ xs)
unfolding number_sign_greater
number_sign_greater-number_sign_s p u xs low high fits h =
    let (t, vs, e, k, same, w) = number_sign_s-Wrote p u xs low high fits h in
    let text = reverse_to_nul [] (characters vs) in
    let reversed =
      reverse_to_nul-characters [] p.base vs w.below
      ∙ append-nil (characters (string_reverse vs)) in
    let (a, f, l, same₁) = stack_drop-two t xs 0 0 k in
    let room : length xs < a.size =
      omega (arith, same, same₁, Holds-depth p.stack (u.high ∷ u.low ∷ xs) h, h.sound.fits) in
    let (b, g, m, same₂) = stack_push-Holds a xs p.place l room in
    let (c, i, n, same₃) = stack_push-Holds b (p.place ∷ xs) (length (characters vs)) m (
      omega
        (arith, same, same₁, same₂, Holds-depth p.stack (u.high ∷ u.low ∷ xs) h, h.sound.fits)) in
    let same_length : length (characters vs) ≡ length text =
      length-characters vs
      ∙ sym (length-string_reverse vs)
      ∙ sym (length-characters (string_reverse vs))
      ∙ ap length (sym reversed) in
    (
      record p { text = characters vs; stack = t },
      record p { text = text; stack = c },
      string_reverse vs,
      e,
      rw (two_cells t xs 0 0 k, f, g, i) refl,
      reversed,
      AreDigits-string_reverse p.base vs w.below,
      number-string_reverse p.base vs ∙ w.stands_for,
      omega (arith, length-string_reverse vs, w.some_digit),
      subst (λ x. Holds c (x ∷ p.place ∷ xs)) same_length n,
    )

-- A string in memory, with a byte behind it.
abbrev pub AreStored : Memory → ℕ → List ℕ → Type 0
AreStored m a [] = (b : ℕ) × (m a ≡ some b)
AreStored m a (c ∷ s) = (m a ≡ some c) × AreStored m (a + 1) s

to_number_loop-digit :
    (m : Memory) (base n a v acc : ℕ)
    → base ≤ 36
    → v < base
    → m a ≡ some (digit_to_character v)
    → acc < 2 ^ 64
    → acc * base + v < 2 ^ 64
    → to_number_loop m base (suc n) a (double 0 acc)
      ≡ to_number_loop m base n (a + 1) (double 0 (acc * base + v))
unfolding to_number_loop
to_number_loop-digit m base n a v acc high below here cell small =
    let c = digit_to_character v in
    let figure : ltb c 48 ≡ false = ground arith in
    let digit : digit_of c ≡ v = ground (arith, below, high) in
    let within : leb base v ≡ false = ground (arith, below) in
    rw
      (
        to_number_loop,
        here,
        figure,
        digit,
        within,
        accumulate_small acc base v cell high below small,
      )
      refl

to_number_loop-characters :
    (m : Memory) (base a acc : ℕ) (vs : List ℕ)
    → 1 ≤ base
    → base ≤ 36
    → AreDigits base vs
    → AreStored m a (characters vs)
    → acc < 2 ^ 64
    → number base acc vs < 2 ^ 64
    → to_number_loop m base (length vs) a (double 0 acc)
      ≡ ok (double 0 (number base acc vs), a + length vs, 0)
unfolding to_number_loop
to_number_loop-characters m base a acc [] low high all (b, stored) cell small =
    let place : a + 0 ≡ a = omega arith in rw (stored, place) refl
to_number_loop-characters m base a acc (v ∷ vs) low high (this, all) (here, stored) cell small =
    let next : acc * base + v < 2 ^ 64 =
      omega (arith, acc-number base (acc * base + v) vs low, small) in
    let place : a + 1 + length vs ≡ a + suc (length vs) = omega arith in
    to_number_loop-digit m base (length vs) a v acc high this here cell next
    ∙ to_number_loop-characters m base (a + 1) (acc * base + v) vs low high all stored next small
    ∙ ap (λ x. ok (double 0 (number base (acc * base + v) vs), x, 0)) place

-- Where `<#`, `#s` and `#>` have made a text of a number of one cell, in a base from 2 to 36, and
-- the text lies in memory with a byte behind it, the loop of `>number` reads all of it from zero
-- and comes to that number.
pub to_number_loop-number_sign_s :
    (p q r : Pad) (v : ℕ) (xs : List ℕ) (m : Memory) (a : ℕ)
    → 2 ≤ p.base
    → p.base ≤ 36
    → v < 2 ^ 64
    → Holds p.stack (0 ∷ v ∷ xs)
    → number_sign_s (less_number_sign p) ≡ ok q
    → number_sign_greater q ≡ ok r
    → AreStored m a r.text
    → to_number_loop m p.base (length r.text) a (double 0 0) ≡ ok (double 0 v, a + length r.text, 0)
to_number_loop-number_sign_s p q r v xs m a low high cell h written given stored =
    let (q', r', vs, e, f, text, all, stands_for, some_digit, k) =
      number_sign_greater-number_sign_s p (double 0 v) xs low high
        (record { high_fits = omega arith; low_fits = cell }) h in
    let same_q : q ≡ q' = ok-inj (sym written ∙ e) in
    let same_r : r ≡ r' = ok-inj (sym given ∙ ap number_sign_greater same_q ∙ f) in
    let text_is : r.text ≡ characters vs = ap (λ x. x.text) same_r ∙ text in
    let value_is : number p.base 0 vs ≡ v = omega (arith, stands_for) in
    rw (text_is, length-characters vs)
      (to_number_loop-characters m p.base a 0 vs (omega (arith, low)) high all
          (subst (AreStored m a) text_is stored) (omega arith) (omega (arith, value_is, cell))
        ∙ ap (λ x. ok (double 0 x, a + length vs, 0)) value_is)
