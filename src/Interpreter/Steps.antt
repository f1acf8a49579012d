-- ===== src/Interpreter/Steps.antt =====
-- Which words the outer interpreter runs.
use mathlib.Core.Path.{subst}
use ficl.Common.{
  ℕ, ◌^◌, ◌<◌, ◌≡◌, refl, sym, ap, ◌∙◌, Bool, true, false, not, ◌&&◌, List, [], ◌∷◌, ltb,
  if◌then◌else◌, arith, Bool-cases, inl, inr, Option, none, some,
}
use ficl.Outcome.{
  Outcome, access, access-ok, compile_only, interpret_only, ok, thrown, ◌>>=◌, >>=-eq-ok, ok-inj,
}
use ficl.Cell.{add}
use ficl.Memory.{load, store}
use ficl.Memory.Laws.{load-store}
use ficl.Stack.{Stack, stack_check}
use ficl.Vm.Check.{on_data}
use ficl.Hash.{
  Word, Heap, Hash, hash_code, is_named, is_smudged, find_in_chain, hash_lookup_smudged,
  lookup_bucket,
}
use ficl.Dictionary.{
  Dictionary, tables, lookup_smudged, lookup_smudged_loop, append_unsigned, append_cell,
}
use ficl.Interpreter.{
  System, Step, executes, compiles, unknown, is_immediate, is_compile_only, is_interpret_only,
  is_instruction, dictionary_check, find_word, found_in, parse_found, parse_word, compile_word,
  with_dictionary,
}

find_in_chain-passes :
    (wanted : ℕ → Bool) (chain : List ℕ) (a : ℕ)
    → find_in_chain wanted chain ≡ some a
    → wanted a ≡ true
unfolding find_in_chain
find_in_chain-passes wanted [] a h = absurd cc
find_in_chain-passes wanted (b ∷ chain) a h = elim (Bool-cases (wanted b)) [
  | inl e ↦
      let found : some b ≡ some a = rw e at h in
      let same : b ≡ a = cc in subst (λ c. wanted c ≡ true) same e
  | inr e ↦ find_in_chain-passes wanted chain a (rw e at h)
]

-- The test of `ficlHashLookupSmudged`.
abbrev open_name : Heap → List ℕ → ℕ → Bool
open_name words name a = is_named name (words a) && not (is_smudged (words a))

first_found :
    (words : Heap) (name : List ℕ) (first rest : Option ℕ) (a : ℕ)
    → ((b : ℕ) → first ≡ some b → open_name words name b ≡ true)
    → ((b : ℕ) → rest ≡ some b → open_name words name b ≡ true)
    → elim first as (λ x. Option ℕ) [ some b ↦ some b | none ↦ rest ] ≡ some a
    → open_name words name a ≡ true
first_found words name none rest a one two h = two a h
first_found words name (some b) rest a one two h = one a h

hash_lookup_smudged-passes :
    (words : Heap) (list : List Hash) (name : List ℕ) (code a : ℕ)
    → hash_lookup_smudged words list name code ≡ some a
    → open_name words name a ≡ true
unfolding hash_lookup_smudged
hash_lookup_smudged-passes words [] name code a h = absurd cc
hash_lookup_smudged-passes words (t ∷ list) name code a h =
    first_found words name (find_in_chain (open_name words name) (t.table (lookup_bucket t code)))
      (hash_lookup_smudged words list name code) a
      (λ b e. find_in_chain-passes (open_name words name) (t.table (lookup_bucket t code)) b e)
      (λ b e. hash_lookup_smudged-passes words list name code b e) h

lookup_smudged_loop-passes :
    (d : Dictionary) (list : List ℕ) (name : List ℕ) (code a : ℕ)
    → lookup_smudged_loop d list name code ≡ some a
    → open_name d.words name a ≡ true
unfolding lookup_smudged_loop
lookup_smudged_loop-passes d [] name code a h = absurd cc
lookup_smudged_loop-passes d (l ∷ list) name code a h =
    first_found d.words name (hash_lookup_smudged d.words (tables d l) name code)
      (lookup_smudged_loop d list name code) a
      (λ b e. hash_lookup_smudged-passes d.words (tables d l) name code b e)
      (λ b e. lookup_smudged_loop-passes d list name code b e) h

-- What a word that the outer interpreter runs has.
pub record MayRun (compiling : Bool) (name : List ℕ) (w : Word) : Type 0 where
  pub named : is_named name w ≡ true
  pub finished : is_smudged w ≡ false
  pub allowed :
      (if compiling then is_immediate w && not (is_interpret_only w) else not (is_compile_only w))
      ≡ true

-- The word that is run is the one found, under the conditions of the state.
record Ran (compiling : Bool) (b : ℕ) (x : Word) (a : ℕ) (w : Word) : Type 0 where
  address_is : b ≡ a
  word_is : x ≡ w
  allowed :
      (if compiling then is_immediate x && not (is_interpret_only x) else not (is_compile_only x))
      ≡ true

parse_found-Ran :
    (compiling : Bool) (s t : System) (b a : ℕ) (x w : Word)
    → parse_found compiling s b x ≡ ok (executes a w t)
    → Ran compiling b x a w
unfolding parse_found
parse_found-Ran false s t b a x w h = elim (Bool-cases (is_compile_only x)) [
  | inl e ↦ let refused : thrown compile_only ≡ ok (executes a w t) = rw e at h in absurd cc
  | inr e ↦
      let done : Path (Outcome Step) (ok (executes b x s)) (ok (executes a w t)) = rw e at h in
      record { address_is = cc; word_is = cc; allowed = rw e refl }
]
parse_found-Ran true s t b a x w h = elim (Bool-cases (is_interpret_only x)) [
  | inl e ↦ let refused : thrown interpret_only ≡ ok (executes a w t) = rw e at h in absurd cc
  | inr e ↦ elim (Bool-cases (is_immediate x)) [
    | inl f ↦
        let done : Path (Outcome Step) (ok (executes b x s)) (ok (executes a w t)) =
          rw (e, f) at h in
        record { address_is = cc; word_is = cc; allowed = rw (f, e) refl }
    | inr f ↦
        let compiled : (compile_word s.dictionary b x
              >>= (λ d. ok (compiles (with_dictionary s d))))
            ≡ ok (executes a w t) =
          rw (e, f) at h in
        let (d, g, k) =
          >>=-eq-ok (compile_word s.dictionary b x) (λ d. ok (compiles (with_dictionary s d)))
            compiled in
        absurd cc
  ]
]

step_of :
    (compiling : Bool) (found : Option (ℕ × Word)) (s t : System) (a : ℕ) (w : Word)
    → Path
        (Outcome Step)
        (elim found as (λ x. Outcome Step) [
          | none ↦ ok (unknown s)
          | some x ↦ parse_found compiling s x.0 x.1
        ])
        (ok (executes a w t))
    → (b : ℕ) × (x : Word) × (found ≡ some (b, x)) × Ran compiling b x a w
step_of compiling none s t a w h = absurd cc
step_of compiling (some (b, x)) s t a w h = (b, x, refl, parse_found-Ran compiling s t b a x w h)

found_in-eq-some :
    (d : Dictionary) (o : Option ℕ) (b : ℕ) (x : Word)
    → found_in d o ≡ some (b, x)
    → (o ≡ some b) × (x ≡ d.words b)
found_in-eq-some d none b x h = absurd cc
found_in-eq-some d (some c) b x h =
    let inside : Path (ℕ × Word) (c, d.words c) (b, x) = cc in
    let same : c ≡ b = ap (λ (p : ℕ × Word). p.0) inside in
    let word : d.words c ≡ x = ap (λ (p : ℕ × Word). p.1) inside in
    (ap some same, sym word ∙ ap d.words same)

no_locals_find :
    (s : System) (name : List ℕ) (b : ℕ) (x : Word)
    → s.locals_count ≡ 0
    → (find_word s name).0 ≡ some (b, x)
    → found_in s.dictionary
        (lookup_smudged_loop s.dictionary s.dictionary.search_order name (hash_code name))
      ≡ some (b, x)
unfolding find_word lookup_smudged
no_locals_find s name b x no_locals h =
    let test : ltb 0 s.locals_count ≡ false = ground (arith, no_locals) in rw (find_word, test) at h

both : (p q : Bool) → (p && not q) ≡ true → (p ≡ true) × (q ≡ false)
both true true h = absurd cc
both true false h = (refl, refl)
both false q h = absurd cc

-- When `ficlVmParseWord` runs a word and no locals are declared, the word is the one at the address
-- it goes by in the dictionary, it has the name looked for, its definition is finished, and the
-- state allows it: compiling, it is immediate and not interpret-only; interpreting, it is not
-- compile-only.
pub parse_word-MayRun :
    (compiling : Bool) (stack : Stack) (s t : System) (name : List ℕ) (a : ℕ) (w : Word)
    → s.locals_count ≡ 0
    → parse_word compiling stack s name ≡ ok (executes a w t)
    → MayRun compiling name w × (w ≡ s.dictionary.words a)
unfolding parse_word
parse_word-MayRun compiling stack s t name a w no_locals h =
    let (u, e, f) = >>=-eq-ok (dictionary_check s.dictionary 0).0 _ h in
    let (v, g, k) = >>=-eq-ok (stack_check on_data stack 0 0) _ f in
    let t' = (find_word s name).1 in
    let (b, x, found, r) = step_of compiling (find_word s name).0 t' t a w k in
    let main : found_in s.dictionary
          (lookup_smudged_loop s.dictionary s.dictionary.search_order name (hash_code name))
        ≡ some (b, x) =
      no_locals_find s name b x no_locals found in
    let (at_b, x_is) =
      found_in-eq-some s.dictionary
        (lookup_smudged_loop s.dictionary s.dictionary.search_order name (hash_code name)) b x
        main in
    let passed =
      lookup_smudged_loop-passes s.dictionary s.dictionary.search_order name (hash_code name) b
        at_b in
    let (named, finished) =
      both (is_named name (s.dictionary.words b)) (is_smudged (s.dictionary.words b)) passed in
    let w_is : w ≡ s.dictionary.words b = sym r.word_is ∙ x_is in
    (
      record {
        named = rw w_is named;
        finished = rw w_is finished;
        allowed = rw (sym r.word_is) r.allowed;
      },
      w_is ∙ ap s.dictionary.words r.address_is,
    )

appended :
    (d e : Dictionary) (c : ℕ)
    → c < 2 ^ 64
    → Path
        (Outcome Dictionary)
        (access (store d.memory 8 d.here c)
          >>= (λ m. ok (record d { here = add d.here 8; memory = m })))
        (ok e)
    → (load e.memory 8 d.here ≡ some c) × (e ≡ record d { here = add d.here 8; memory = e.memory })
appended d e c fits h =
    let (m, stored, done) =
      >>=-eq-ok (access (store d.memory 8 d.here c))
        (λ m. ok (record d { here = add d.here 8; memory = m })) h in
    let is : record d { here = add d.here 8; memory = m } ≡ e = ok-inj done in
    let found : load m 8 d.here ≡ some c =
      load-store 8 d.memory m d.here c (access-ok (store d.memory 8 d.here c) m stored) fits in
    subst
      (λ (x : Dictionary).
        (load x.memory 8 d.here ≡ some c)
        × (x ≡ record d { here = add d.here 8; memory = x.memory }))
      is (found, refl)

pub compile_word_lem :
    (d e : Dictionary) (a : ℕ) (w : Word)
    → a < 2 ^ 64
    → w.code < 2 ^ 64
    → compile_word d a w ≡ ok e
    → (load e.memory 8 d.here ≡ some (if is_instruction w then w.code else a))
      × (e ≡ record d { here = add d.here 8; memory = e.memory })
unfolding compile_word append_unsigned append_cell
compile_word_lem d e a w at_cell code_cell h = elim (Bool-cases (is_instruction w)) [
  | inl i ↦ rw i (appended d e w.code code_cell (rw i at h))
  | inr i ↦ rw i (appended d e a at_cell (rw i at h))
]
