-- ===== src/Input/Words.antt =====
-- The words of a text, as `ficlVmGetWord0` takes them one by one.
use ficl.Common.{
  leb, ℕ, zero, suc, ◌-◌, ◌≤◌, ◌<◌, ◌≡◌, refl, sym, ap, ◌∙◌, Bool, true, List, [], ◌∷◌, ◌++◌,
  length, length-append, take, take-append-drop, drop, ◌==◌, if◌then◌else◌, arith, Bool-cases, inl,
  inr,
}
use mathlib.Core.Path.{subst}
use ficl.Outcome.{ok}
use ficl.Input.{
  Tib, unread, in_buffer, update_tib, is_space, skip_space, scan_word, skip_one, get_word0,
}

-- The words of a text, character by character: `word` is the part of a word that is read already.
abbrev pub words_from : List ℕ → List ℕ → List (List ℕ)
words_from word [] = if length word == 0 then [] else word ∷ []
words_from word (c ∷ s) =
    let rest = words_from [] s in
    let longer = words_from (word ++ c ∷ []) s in
    if is_space c then if length word == 0 then rest else word ∷ rest else longer

-- Words that are taken from a buffer, one after the other, until there is none.
pub data Takes : Tib → List (List ℕ) → Type 0 where
  stop : {t u : Tib} → get_word0 t ≡ ok ([], u) → Takes t []
  next :
      {t u : Tib} {word : List ℕ} {words : List (List ℕ)}
      → get_word0 t ≡ ok (word, u)
      → 1 ≤ length word
      → Takes u words
      → Takes t (word ∷ words)

-- What is left of a text.
abbrev pub Suffix : List ℕ → List ℕ → Type 0
Suffix rest s = (front : List ℕ) × (front ++ rest ≡ s)

append_assoc : (xs ys zs : List ℕ) → (xs ++ ys) ++ zs ≡ xs ++ (ys ++ zs)
append_assoc [] ys zs = refl
append_assoc (x ∷ xs) ys zs = ap (λ t. x ∷ t) (append_assoc xs ys zs)

append_nil : (xs : List ℕ) → xs ++ [] ≡ xs
append_nil [] = refl
append_nil (x ∷ xs) = ap (λ t. x ∷ t) (append_nil xs)

pub Suffix_trans : {a b c : List ℕ} → Suffix a b → Suffix b c → Suffix a c
Suffix_trans {a} {b} (f, e) (g, h) =
    let grouped : (g ++ f) ++ a ≡ g ++ b = append_assoc g f a ∙ ap (λ t. g ++ t) e in
    (g ++ f, grouped ∙ h)

pub unread-Suffix : (t : Tib) → Suffix (unread t) t.text
unread-Suffix t = (take t.index t.text, take-append-drop t.index t.text)

drop-append :
    (front rest : List ℕ) → drop (length (front ++ rest) - length rest) (front ++ rest) ≡ rest
drop-append [] rest = let e : length rest - length rest ≡ 0 = omega arith in rw e refl
drop-append (c ∷ front) rest =
    let e : suc (length (front ++ rest)) - length rest
        ≡ suc (length (front ++ rest) - length rest) =
      omega (arith, length-append front rest) in
    rw e (drop-append front rest)

-- A buffer that is moved on to a suffix goes on with it.
pub unread-update_tib :
    (t : Tib) (rest : List ℕ) → Suffix rest t.text → unread (update_tib t rest) ≡ rest
unread-update_tib t rest (front, e) =
    subst (λ text. drop (length text - length rest) text ≡ rest) e (drop-append front rest)

pub in_buffer-unread : (t : Tib) → t.index ≤ length t.text → in_buffer t ≡ ok (unread t)
unfolding in_buffer
in_buffer-unread t low =
    let inside : leb t.index (length t.text) ≡ true = ground arith in rw inside refl

skip_space-Suffix : (s : List ℕ) → Suffix (skip_space s) s
unfolding skip_space
skip_space-Suffix [] = ([], refl)
skip_space-Suffix (c ∷ s) = elim (Bool-cases (is_space c)) [
  | inl e ↦ let (front, f) = skip_space-Suffix s in (c ∷ front, rw e (ap (λ t. c ∷ t) f))
  | inr e ↦ ([], rw e refl)
]

pub skip_one-Suffix : (wanted : ℕ → Bool) (s : List ℕ) → Suffix (skip_one wanted s) s
skip_one-Suffix wanted [] = ([], refl)
skip_one-Suffix wanted (c ∷ s) = elim (Bool-cases (wanted c)) [
  | inl e ↦ (c ∷ [], rw e refl)
  | inr e ↦ ([], rw e refl)
]

scan_word-append : (s : List ℕ) → (scan_word s).0 ++ (scan_word s).1 ≡ s
unfolding scan_word
scan_word-append [] = refl
scan_word-append (c ∷ s) = elim (Bool-cases (is_space c)) [
  | inl e ↦ rw e refl
  | inr e ↦ rw e (ap (λ t. c ∷ t) (scan_word-append s))
]

-- The words of a text are the one that is read first, and those behind it.
words_from-scan_word :
    (word s : List ℕ)
    → words_from word s ≡ (
        if length (word ++ (scan_word s).0) == 0
        then words_from [] (skip_one is_space (scan_word s).1)
        else (word ++ (scan_word s).0) ∷ words_from [] (skip_one is_space (scan_word s).1))
unfolding scan_word
words_from-scan_word word [] = rw (append_nil word) refl
words_from-scan_word word (c ∷ s) = elim (Bool-cases (is_space c)) [
  | inl e ↦ rw (e, append_nil word, e) refl
  | inr e ↦ rw e (
      words_from-scan_word (word ++ c ∷ []) s
      ∙ ap
          (λ w.
            if length w == 0
            then words_from [] (skip_one is_space (scan_word s).1)
            else w ∷ words_from [] (skip_one is_space (scan_word s).1))
          (append_assoc word (c ∷ []) (scan_word s).0))
]

words_from-skip_space : (s : List ℕ) → words_from [] s ≡ words_from [] (skip_space s)
unfolding skip_space
words_from-skip_space [] = refl
words_from-skip_space (c ∷ s) = elim (Bool-cases (is_space c)) [
  | inl e ↦ rw e (words_from-skip_space s)
  | inr e ↦ rw (e, e) refl
]

-- A word of no length is found at the end only.
scan_word-skip_space : (s : List ℕ) → (scan_word (skip_space s)).0 ≡ [] → skip_space s ≡ []
unfolding scan_word skip_space
scan_word-skip_space [] h = refl
scan_word-skip_space (c ∷ s) h = elim (Bool-cases (is_space c)) [
  | inl e ↦ rw e (scan_word-skip_space s (rw e at h))
  | inr e ↦ let letter : c ∷ (scan_word s).0 ≡ [] = rw (e, e) at h in absurd cc
]

empty : (s : List ℕ) → (length s == 0) ≡ true → s ≡ []
empty [] h = refl
empty (c ∷ s) h = absurd (ground arith)

length-Suffix : {a b : List ℕ} → Suffix a b → length a ≤ length b
length-Suffix {a} {b} (front, e) = omega (arith, length-append front a, ap length e)

get_word0-does :
    (t : Tib)
    → t.index ≤ length t.text
    → get_word0 t
      ≡ ok (
        (scan_word (skip_space (unread t))).0,
        update_tib t (skip_one is_space (scan_word (skip_space (unread t))).1),
      )
unfolding get_word0
get_word0-does t low = rw (in_buffer-unread t low) refl

get_word0-Takes_first :
    (t : Tib)
    → ((u : Tib)
        → u.index ≤ length u.text
        → length (unread u) < length (unread t)
        → Takes u (words_from [] (unread u)))
    → t.index ≤ length t.text
    → Takes t (words_from [] (unread t))
get_word0-Takes_first t go low =
    let s = skip_space (unread t) in
    let word = (scan_word s).0 in
    let left = skip_one is_space (scan_word s).1 in
    let (skipped, e) = skip_space-Suffix (unread t) in
    let (one, f) = skip_one-Suffix is_space (scan_word s).1 in
    let g = scan_word-append s in
    let here : Suffix left t.text =
      Suffix_trans (one, f)
        (Suffix_trans (word, g) (Suffix_trans (skipped, e) (unread-Suffix t))) in
    let moved : unread (update_tib t left) ≡ left = unread-update_tib t left here in
    let list : words_from [] (unread t)
        ≡ (if length word == 0 then words_from [] left else word ∷ words_from [] left) =
      words_from-skip_space (unread t) ∙ words_from-scan_word [] s in
    elim (Bool-cases (length word == 0)) [
      | inl none_left ↦
          let nothing : s ≡ [] = scan_word-skip_space (unread t) (empty word none_left) in
          subst (Takes t) (sym (words_from-skip_space (unread t) ∙ ap (words_from []) nothing)) (
            stop
              (get_word0-does t low ∙ ap (λ w. ok (w, update_tib t left)) (empty word none_left)))
      | inr some_left ↦
          let more : 1 ≤ length word = ground arith in
          let shorter : length left < length (unread t) = omega (
            arith,
            length-Suffix (one, f),
            length-append word (scan_word s).1,
            ap length g,
            length-Suffix (skipped, e),
            more,
          ) in
          let rest : Takes (update_tib t left) (words_from [] left) =
            subst (λ b. Takes (update_tib t left) (words_from [] b)) moved
              (go (update_tib t left) (omega arith) (omega (arith, ap length moved, shorter))) in
          let same : (if length word == 0 then words_from [] left else word ∷ words_from [] left)
              ≡ word ∷ words_from [] left =
            rw some_left refl in
          subst (Takes t) (sym (list ∙ same)) (next (get_word0-does t low) more rest)
    ]

get_word0-Takes_within :
    (n : ℕ) (t : Tib)
    → length (unread t) ≤ n
    → t.index ≤ length t.text
    → Takes t (words_from [] (unread t))
get_word0-Takes_within zero t small =
    get_word0-Takes_first t (λ u inside less. absurd (omega arith))
get_word0-Takes_within (suc n) t small =
    get_word0-Takes_first t (λ u inside less. get_word0-Takes_within n u (omega arith) inside)

-- The words that `ficlVmGetWord0` takes one after the other, until it gives an empty one, are those
-- that a reading of the rest of the text character by character splits off at white space, from any
-- index that is not behind the end of the text.
pub get_word0-Takes : (t : Tib) → t.index ≤ length t.text → Takes t (words_from [] (unread t))
get_word0-Takes t low = get_word0-Takes_within (length (unread t)) t (omega arith) low
