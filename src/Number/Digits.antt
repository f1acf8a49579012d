-- ===== src/Number/Digits.antt =====
-- What the digit loops write.
use ficl.Common.{
  ℕ, zero, suc, ◌+◌, ◌*◌, ◌^◌, ◌≤◌, ◌<◌, ◌≡◌, refl, sym, ap, ◌∙◌, List, [], ◌∷◌, ◌++◌, length,
  length-append, ◌==◌, arith, Bool-cases, inl, inr, some,
}
use ficl.Double.{Double, Qr, double, double_divide}
use ficl.Double.Add.{value}
use ficl.Double.Divide.{double_divide_lem}
use ficl.Number.{digit_to_character, string_reverse, digits_loop, unsigned_to_string}

-- Digits below a radix.
abbrev pub AreDigits : ℕ → List ℕ → Type 0
AreDigits radix [] = Unit
AreDigits radix (v ∷ vs) = (v < radix) × AreDigits radix vs

abbrev pub characters : List ℕ → List ℕ
characters [] = []
characters (v ∷ vs) = digit_to_character v ∷ characters vs

-- The number that digits stand for, behind what is read already; the greatest digit comes first.
abbrev pub number : ℕ → ℕ → List ℕ → ℕ
number radix acc [] = acc
number radix acc (v ∷ vs) = number radix (acc * radix + v) vs

-- The same with the least digit first.
abbrev pub backwards : ℕ → List ℕ → ℕ
backwards radix [] = 0
backwards radix (v ∷ vs) = backwards radix vs * radix + v

number-append :
    (radix acc v : ℕ) (vs : List ℕ)
    → number radix acc (vs ++ v ∷ []) ≡ number radix acc vs * radix + v
number-append radix acc v [] = refl
number-append radix acc v (w ∷ vs) = number-append radix (acc * radix + w) v vs

pub number-string_reverse :
    (radix : ℕ) (vs : List ℕ) → number radix 0 (string_reverse vs) ≡ backwards radix vs
number-string_reverse radix [] = refl
number-string_reverse radix (v ∷ vs) =
    number-append radix 0 v (string_reverse vs)
    ∙ ap (λ (t : ℕ). t * radix + v) (number-string_reverse radix vs)

AreDigits-append :
    (radix v : ℕ) (vs : List ℕ) → AreDigits radix vs → v < radix → AreDigits radix (vs ++ v ∷ [])
AreDigits-append radix v [] all h = (h, tt)
AreDigits-append radix v (w ∷ vs) (this, all) h = (this, AreDigits-append radix v vs all h)

pub AreDigits-string_reverse :
    (radix : ℕ) (vs : List ℕ) → AreDigits radix vs → AreDigits radix (string_reverse vs)
AreDigits-string_reverse radix [] all = tt
AreDigits-string_reverse radix (v ∷ vs) (this, all) =
    AreDigits-append radix v (string_reverse vs) (AreDigits-string_reverse radix vs all) this

pub length-string_reverse : (vs : List ℕ) → length (string_reverse vs) ≡ length vs
length-string_reverse [] = refl
length-string_reverse (v ∷ vs) =
    omega (arith, length-append (string_reverse vs) (v ∷ []), length-string_reverse vs)

pub characters-append :
    (v : ℕ) (vs : List ℕ) → characters (vs ++ v ∷ []) ≡ characters vs ++ digit_to_character v ∷ []
characters-append v [] = refl
characters-append v (w ∷ vs) = ap (λ t. digit_to_character w ∷ t) (characters-append v vs)

pub characters-string_reverse :
    (vs : List ℕ) → string_reverse (characters vs) ≡ characters (string_reverse vs)
characters-string_reverse [] = refl
characters-string_reverse (v ∷ vs) =
    ap (λ t. t ++ digit_to_character v ∷ []) (characters-string_reverse vs)
    ∙ sym (characters-append v (string_reverse vs))

-- The digits that a number is written with.
pub record IsWritten (radix v : ℕ) (vs : List ℕ) : Type 0 where
  pub below : AreDigits radix vs
  pub stands_for : number radix 0 vs ≡ v
  pub some_digit : 1 ≤ length vs
  pub few_digits : length vs ≤ 64

pub record AreLeast (radix fuel v : ℕ) (vs : List ℕ) : Type 0 where
  pub below : AreDigits radix vs
  pub stands_for : backwards radix vs ≡ v
  pub few : length vs ≤ fuel
  pub none_for_zero : 1 ≤ v → 1 ≤ length vs

pub twice : (q radix : ℕ) → 2 ≤ radix → 2 * q ≤ q * radix
twice q zero h = absurd (omega arith)
twice q (suc zero) h = absurd (omega arith)
twice q (suc (suc k)) h = omega arith

pub small_double : (x : Double) (q : ℕ) → x.high ≡ 0 → x.low ≡ q → x ≡ double 0 q
small_double x q h l = cc

with_quotient :
    (q : Double) (radix : ℕ) (r : Qr) (quotient : Double)
    → double_divide q radix ≡ some r
    → r.quotient ≡ quotient
    → double_divide q radix ≡ some (record { quotient = quotient; remainder = r.remainder })
with_quotient q radix r quotient e f = e ∙ cc

-- A cell divided as a double.
divided :
    (radix v : ℕ)
    → 2 ≤ radix
    → radix < 2 ^ 64
    → v < 2 ^ 64
    → (q digit : ℕ) × (double_divide (double 0 v) radix
        ≡ some (record { quotient = double 0 q; remainder = digit }))
      × (q * radix + digit ≡ v)
      × (digit < radix)
divided radix v low high cell =
    let (r, e, fits, total, small) =
      double_divide_lem (double 0 v) radix
        (record { high_fits = omega arith; low_fits = omega arith }) (omega arith) high in
    let q = value r.quotient in
    let half = twice q radix low in
    let bounded : q ≤ v = omega (arith, total, half) in
    let no_high : r.quotient.high ≡ 0 = omega (arith, bounded) in
    let shape : r.quotient ≡ double 0 q =
      small_double r.quotient q no_high (omega (arith, no_high)) in
    (
      q,
      r.remainder,
      with_quotient (double 0 v) radix r (double 0 q) e shape,
      omega (arith, total),
      small,
    )

pub digits_loop_lem :
    (fuel radix v : ℕ)
    → 2 ≤ radix
    → radix < 2 ^ 64
    → v < 2 ^ fuel
    → v < 2 ^ 64
    → (vs : List ℕ) × (digits_loop fuel radix (double 0 v) ≡ some (characters vs))
      × AreLeast radix fuel v vs
unfolding digits_loop
digits_loop_lem zero radix v low high small cell =
    let e : v ≡ 0 = omega arith in
    (
      [],
      ground arith,
      record {
        below = tt;
        stands_for = sym e;
        few = omega arith;
        none_for_zero = λ h. omega arith;
      },
    )
digits_loop_lem (suc fuel) radix v low high small cell = elim (Bool-cases (v == 0)) [
  | inl e ↦
      let zero_v : v ≡ 0 = ground arith in
      (
        [],
        rw (e, digits_loop) refl,
        record {
          below = tt;
          stands_for = sym zero_v;
          few = omega arith;
          none_for_zero = λ h. omega arith;
        },
      )
  | inr e ↦
      let (q, digit, f, total, below) = divided radix v low high cell in
      let half = twice q radix low in
      let (vs, g, l) =
        digits_loop_lem fuel radix q low high (omega (arith, half, total))
          (omega (arith, half, total)) in
      (
        digit ∷ vs,
        rw (e, f, g, digits_loop) refl,
        record {
          below = (below, l.below);
          stands_for = ap (λ (t : ℕ). t * radix + digit) l.stands_for ∙ total;
          few = omega (arith, l.few);
          none_for_zero = λ h. omega arith;
        },
      )
]

pub reversed-IsWritten :
    (radix v : ℕ) (vs : List ℕ)
    → 1 ≤ v
    → AreLeast radix 64 v vs
    → IsWritten radix v (string_reverse vs)
reversed-IsWritten radix v vs some_value l = record {
  below = AreDigits-string_reverse radix vs l.below;
  stands_for = number-string_reverse radix vs ∙ l.stands_for;
  some_digit = omega (arith, length-string_reverse vs, l.none_for_zero some_value);
  few_digits = omega (arith, length-string_reverse vs, l.few);
}

pub unsigned_to_string_lem :
    (v radix : ℕ)
    → 2 ≤ radix
    → radix ≤ 36
    → v < 2 ^ 64
    → (vs : List ℕ) × (unsigned_to_string v radix ≡ some (characters vs)) × IsWritten radix v vs
unfolding unsigned_to_string
unsigned_to_string_lem v radix low high cell = elim (Bool-cases (v == 0)) [
  | inl e ↦
      let zero_v : v ≡ 0 = ground arith in
      (
        0 ∷ [],
        rw e refl,
        record {
          below = (omega arith, tt);
          stands_for = omega (arith, zero_v);
          some_digit = omega arith;
          few_digits = omega arith;
        },
      )
  | inr e ↦
      let some_value : 1 ≤ v = ground arith in
      let (vs, f, l) = digits_loop_lem 64 radix v low (omega arith) cell cell in
      (
        string_reverse vs,
        rw (e, f) (ap some (characters-string_reverse vs)),
        reversed-IsWritten radix v vs some_value l,
      )
]
