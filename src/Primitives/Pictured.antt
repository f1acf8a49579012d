-- ===== src/Primitives/Pictured.antt =====
-- Pictured numeric output and `>number` (primitives.c). The buffer `vm->pob` is a counted string
-- whose length is a byte: `text` has its bytes, the one held first at the head. A divisor with
-- which the division does not end is `fault`. In a base above 36 the source may read behind its
-- table of digits, and the model goes on after the letters.
pub mod Digits
pub mod Numbers
use ficl.Common.{
  ℕ, zero, suc, ◌+◌, ◌-◌, ◌*◌, ◌/◌, ◌%◌, ◌^◌, Bool, true, false, ◌&&◌, List, [], ◌∷◌, ◌++◌, length,
  leb, ltb, ◌==◌, if◌then◌else◌, Option, none, some,
}
use ficl.Cell.{cell_mod, is_negative, sub}
use ficl.Double.{Double, double_divide, multiply_accumulate}
use ficl.Memory.{Memory}
use ficl.Outcome.{Outcome, ok, thrown, fault, ◌>>=◌, ◌>>◌, access}
use ficl.Number.{digit_to_character, string_reverse}
use ficl.Text.{to_lower}
use ficl.Stack.{
  Stack, stack_check, stack_drop, stack_push, stack_pop, stack_push_double, stack_pop_double,
}
use ficl.Vm.Check.{on_data}

-- `place` is the address of the text.
pub record Pad : Type 0 where
  pub base : ℕ
  pub place : ℕ
  pub text : List ℕ
  pub stack : Stack

-- `counted->text[counted->length++] = c`: the length wraps round.
abbrev pub put_character : ℕ → List ℕ → List ℕ
put_character c text = if length text == 255 then [] else text ++ c % 256 ∷ []

unfoldable pub less_number_sign : Pad → Pad
less_number_sign p = record p { text = [] }

unfoldable pub number_sign : Pad → Outcome Pad
unfolding stack_check stack_pop_double stack_push_double
number_sign p = do
  stack_check on_data p.stack 2 2
  (u, s) ← stack_pop_double p.stack
  r ← access (double_divide u (p.base % 2 ^ 16))
  t ← stack_push_double s r.quotient
  ok (record p { text = put_character (digit_to_character r.remainder) p.text; stack = t })

-- The loop of `#s`; a quotient is half of the dividend at most, so that 128 rounds serve.
unfoldable pub number_sign_loop : ℕ → ℕ → Double → List ℕ → Option (Double × List ℕ)
number_sign_loop zero base u text = none
number_sign_loop (suc fuel) base u text = elim (double_divide u base) [
  | none ↦ none
  | some r ↦
      let q = r.quotient in
      let more = put_character (digit_to_character r.remainder) text in
      elim (q.high == 0 && q.low == 0) [
        | true ↦ some (q, more)
        | false ↦ number_sign_loop fuel base q more
      ]
]

unfoldable pub number_sign_s : Pad → Outcome Pad
unfolding stack_check stack_pop_double stack_push_double number_sign_loop
number_sign_s p = do
  stack_check on_data p.stack 2 2
  (u, s) ← stack_pop_double p.stack
  (v, text) ← access (number_sign_loop 128 (p.base % 2 ^ 16) u p.text)
  t ← stack_push_double s v
  ok (record p { text = text; stack = t })

-- `ficlStringReverse` of a text that may have a terminator in it.
abbrev pub reverse_to_nul : List ℕ → List ℕ → List ℕ
reverse_to_nul done [] = done
reverse_to_nul done (c ∷ s) = if c == 0 then done ++ c ∷ s else reverse_to_nul (c ∷ done) s

unfoldable pub number_sign_greater : Pad → Outcome Pad
unfolding stack_check stack_drop stack_push
number_sign_greater p = do
  stack_check on_data p.stack 2 2
  s ← stack_drop p.stack 2
  t ← stack_push s p.place
  u ← stack_push t (length p.text)
  ok (record p { text = reverse_to_nul [] p.text; stack = u })

unfoldable pub hold : Pad → Outcome Pad
unfolding stack_check stack_pop
hold p = do
  stack_check on_data p.stack 1 0
  (i, s) ← stack_pop p.stack
  ok (record p { text = put_character i p.text; stack = s })

unfoldable pub sign : Pad → Outcome Pad
unfolding stack_check stack_pop
sign p = do
  stack_check on_data p.stack 1 0
  (i, s) ← stack_pop p.stack
  ok (record p { text = if is_negative i then put_character 45 p.text else p.text; stack = s })

-- The value that `>number` takes of a byte from '0' on; a byte from 128 on is a negative `char`.
abbrev pub digit_of : ℕ → ℕ
digit_of c =
    if ltb c 58
    then c - 48
    else if ltb c 128
    then sub (to_lower c) 87
    else sub (c + cell_mod - 256) 87

-- The loop of `>number`, which reads the byte behind the string too: the double, the place and the
-- bytes that are left.
unfoldable pub to_number_loop : Memory → ℕ → ℕ → ℕ → Double → Outcome (Double × ℕ × ℕ)
to_number_loop m base zero a acc = do c ← access (m a); ok (acc, a, 0)
to_number_loop m base (suc n) a acc = do
  c ← access (m a)
  let next = do
    d ← access (multiply_accumulate acc base (digit_of c))
    to_number_loop m base n (a + 1) d
  if ltb c 48
      then ok (acc, a, suc n)
      else if leb base (digit_of c)
      then ok (acc, a, suc n)
      else next

unfoldable pub to_number : Memory → ℕ → Stack → Outcome Stack
unfolding stack_check stack_pop stack_pop_double stack_push stack_push_double to_number_loop
to_number m base s = do
  stack_check on_data s 4 4
  (n, s₁) ← stack_pop s
  (a, s₂) ← stack_pop s₁
  (acc, s₃) ← stack_pop_double s₂
  (d, place, left) ← to_number_loop m base n a acc
  s₄ ← stack_push_double s₃ d
  s₅ ← stack_push s₄ place
  stack_push s₅ left
