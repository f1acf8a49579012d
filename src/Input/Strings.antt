-- ===== src/Input/Strings.antt =====
-- The strings that `ficlVmParseStringEx` cuts out of the input.
use mathlib.Core.Path.{subst}
use ficl.Common.{
  ℕ, ◌%◌, ◌≤◌, ◌≡◌, ◌≢◌, ◌↔◌, refl, sym, ap, ◌∙◌, Bool, true, false, List, [], ◌∷◌, ◌++◌, length,
  ltb, ◌==◌, if◌then◌else◌, arith, Bool-cases, inl, inr, ◌⊎◌,
}
use ficl.Outcome.{Outcome, >>=-eq-ok, ok, thrown, ok-inj, counted_string_too_long}
use ficl.Input.{
  Tib, unread, in_buffer, update_tib, skip_one, ends, skip_delimiters, scan_string, parse_string_ex,
  CountedString, get_string,
}
use ficl.Input.Words.{
  Suffix, Suffix_trans, in_buffer-unread, unread-Suffix, unread-update_tib, skip_one-Suffix,
}

-- No byte of a string ends it.
abbrev Inside : ℕ → Bool → List ℕ → Type 0
Inside delimiter find_eol [] = Unit
Inside delimiter find_eol (c ∷ s) =
    (ends delimiter find_eol c ≡ false) × Inside delimiter find_eol s

-- A string that is cut off the front of the input, and the input behind it: the input ends with the
-- string, or a delimiter follows and goes with it, or the end of the line follows and stays.
pub data IsCut (delimiter : ℕ) (find_eol : Bool) : List ℕ → List ℕ → List ℕ → Type 0 where
  whole : {s : List ℕ} → Inside delimiter find_eol s → IsCut delimiter find_eol s s []
  delimited :
      {s rest : List ℕ}
      → Inside delimiter find_eol s
      → IsCut delimiter find_eol (s ++ delimiter ∷ rest) s rest
  line :
      {s rest : List ℕ} {c : ℕ}
      → Inside delimiter find_eol s
      → find_eol ≡ true
      → (c ≡ 13) ⊎ (c ≡ 10)
      → c ≢ delimiter
      → IsCut delimiter find_eol (s ++ c ∷ rest) s (c ∷ rest)

longer :
    (delimiter : ℕ) (find_eol : Bool) (c : ℕ) {input s rest : List ℕ}
    → ends delimiter find_eol c ≡ false
    → IsCut delimiter find_eol input s rest
    → IsCut delimiter find_eol (c ∷ input) (c ∷ s) rest
longer delimiter find_eol c h (whole i) = whole (h, i)
longer delimiter find_eol c h (delimited i) = delimited (h, i)
longer delimiter find_eol c h (line i e l apart) = line (h, i) e l apart

at_line_end :
    (delimiter c : ℕ) (find_eol : Bool)
    → ends delimiter find_eol c ≡ true
    → (c == delimiter) ≡ false
    → (find_eol ≡ true) × ((c ≡ 13) ⊎ (c ≡ 10))
at_line_end delimiter c false stop apart = absurd (ground (arith, stop, apart))
at_line_end delimiter c true stop apart = elim (Bool-cases (c == 13)) [
  | inl e ↦ (refl, inl (ground arith))
  | inr e ↦ (refl, inr (ground arith))
]

ends_here :
    (delimiter : ℕ) (find_eol : Bool) (c : ℕ) (s : List ℕ)
    → ends delimiter find_eol c ≡ true
    → IsCut delimiter find_eol (c ∷ s) [] (skip_one (λ b. b == delimiter) (c ∷ s))
ends_here delimiter find_eol c s stop = elim (Bool-cases (c == delimiter)) [
  | inl e ↦
      let same : c ≡ delimiter = ground arith in
      rw e (subst (λ b. IsCut delimiter find_eol (b ∷ s) [] s) (sym same) (delimited tt))
  | inr apart ↦
      let (eol, which) = at_line_end delimiter c find_eol stop apart in
      let other : c ≢ delimiter = ground arith in rw apart (line tt eol which other)
]

scan_string-IsCut :
    (delimiter : ℕ) (find_eol : Bool) (input : List ℕ)
    → IsCut delimiter find_eol input
        (scan_string delimiter find_eol input).0
        (skip_one (λ c. c == delimiter) (scan_string delimiter find_eol input).1)
unfolding scan_string
scan_string-IsCut delimiter find_eol [] = whole tt
scan_string-IsCut delimiter find_eol (c ∷ s) = elim (Bool-cases (ends delimiter find_eol c)) [
  | inl stop ↦ rw stop (ends_here delimiter find_eol c s stop)
  | inr on ↦ rw on (longer delimiter find_eol c on (scan_string-IsCut delimiter find_eol s))
]

scan_string-Suffix :
    (delimiter : ℕ) (find_eol : Bool) (input : List ℕ)
    → Suffix (scan_string delimiter find_eol input).1 input
unfolding scan_string
scan_string-Suffix delimiter find_eol [] = ([], refl)
scan_string-Suffix delimiter find_eol (c ∷ s) = elim (Bool-cases (ends delimiter find_eol c)) [
  | inl stop ↦ rw stop ([], refl)
  | inr on ↦
      let (front, e) = scan_string-Suffix delimiter find_eol s in
      rw on (c ∷ front, ap (λ t. c ∷ t) e)
]

skip_delimiters-Suffix :
    (delimiter : ℕ) (input : List ℕ) → Suffix (skip_delimiters delimiter input) input
unfolding skip_delimiters
skip_delimiters-Suffix delimiter [] = ([], refl)
skip_delimiters-Suffix delimiter (c ∷ s) = elim (Bool-cases (c == delimiter)) [
  | inl e ↦
      let (front, f) = skip_delimiters-Suffix delimiter s in rw e (c ∷ front, ap (λ t. c ∷ t) f)
  | inr e ↦ rw e ([], refl)
]

starts :
    (t : Tib) (delimiter : ℕ) (skip_leading : Bool)
    → Suffix (if skip_leading then skip_delimiters delimiter (unread t) else unread t) (unread t)
starts t delimiter true = skip_delimiters-Suffix delimiter (unread t)
starts t delimiter false = ([], refl)

-- From an index that is not behind the end of the text, `ficlVmParseStringEx` cuts off the input,
-- behind the delimiters that it is to skip, a string that neither the delimiter nor an end of line
-- that it is to find stands in; the input ends with the string, or a delimiter follows and is taken
-- too, or the end of the line follows and stays.
pub parse_string_ex_lem :
    (t : Tib) (delimiter : ℕ) (skip_leading find_eol : Bool)
    → t.index ≤ length t.text
    → (s rest : List ℕ) × (u : Tib) × (parse_string_ex t delimiter skip_leading find_eol
        ≡ ok (s, u))
      × (in_buffer u ≡ ok rest)
      × IsCut delimiter find_eol
          (if skip_leading then skip_delimiters delimiter (unread t) else unread t)
          s
          rest
unfolding parse_string_ex
parse_string_ex_lem t delimiter skip_leading find_eol low =
    let start = if skip_leading then skip_delimiters delimiter (unread t) else unread t in
    let trace = (scan_string delimiter find_eol start).1 in
    let rest = skip_one (λ c. c == delimiter) trace in
    let here : Suffix rest t.text = Suffix_trans (skip_one-Suffix (λ c. c == delimiter) trace) (
      Suffix_trans (scan_string-Suffix delimiter find_eol start)
        (Suffix_trans (starts t delimiter skip_leading) (unread-Suffix t))) in
    (
      (scan_string delimiter find_eol start).0,
      rest,
      update_tib t rest,
      rw (in_buffer-unread t low) refl,
      in_buffer-unread (update_tib t rest) (omega arith) ∙ ap ok (unread-update_tib t rest here),
      scan_string-IsCut delimiter find_eol start,
    )

at_most_a_byte : (n : ℕ) → n ≤ 256 → n ≢ 256 → n % 256 ≡ n
at_most_a_byte n fits other = ground arith

-- The test of `ficlVmGetString` on a string that was cut.
counted-fits :
    (s : List ℕ) (v u : Tib) (counted : CountedString)
    → Path
        (Outcome (CountedString × Tib))
        (if ltb 256 (length s)
          then thrown counted_string_too_long
          else ok (record { length_byte = length s % 256; text = s }, v))
        (ok (counted, u))
    → (length counted.text ≤ 256)
      × ((counted.length_byte ≡ length counted.text) ↔ (length counted.text ≢ 256))
counted-fits s v u counted h = elim (Bool-cases (ltb 256 (length s))) [
  | inl long ↦
      let refused : Path (Outcome (CountedString × Tib)) (thrown counted_string_too_long)
          (ok (counted, u)) =
        rw long at h in
      absurd cc
  | inr short ↦
      let fits : length s ≤ 256 = ground arith in
      let done : Path (Outcome (CountedString × Tib))
          (ok (record { length_byte = length s % 256; text = s }, v)) (ok (counted, u)) =
        rw short at h in
      let is : record { length_byte = length s % 256; text = s } ≡ counted =
        ap (λ (p : CountedString × Tib). p.0) (ok-inj done) in
      subst
        (λ (c : CountedString).
          (length c.text ≤ 256) × ((c.length_byte ≡ length c.text) ↔ (length c.text ≢ 256)))
        is (fits, (λ k n. omega (arith, k, n), λ k. at_most_a_byte (length s) fits k))
]

-- When `ficlVmGetString` gives a counted string, that has at most 256 bytes, and its length byte is
-- their number exactly when they are not 256.
pub get_string_lem :
    (t u : Tib) (delimiter : ℕ) (counted : CountedString)
    → get_string t delimiter ≡ ok (counted, u)
    → (length counted.text ≤ 256)
      × ((counted.length_byte ≡ length counted.text) ↔ (length counted.text ≢ 256))
unfolding get_string
get_string_lem t u delimiter counted h =
    let ((s, v), parsed, goes) =
      >>=-eq-ok (parse_string_ex t delimiter false true)
        (λ p.
          if ltb 256 (length p.0)
          then thrown counted_string_too_long
          else ok (record { length_byte = length p.0 % 256; text = p.0 }, p.1))
        h in
    counted-fits s v u counted goes
