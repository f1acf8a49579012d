-- ===== src/Dictionary/Search.antt =====
-- The search order as one list of words.
use ficl.Common.{
  ℕ, ◌≤◌, ◌≡◌, refl, sym, ap, ◌∙◌, Bool, List, [], ◌∷◌, ◌++◌, length, Bool-cases, inl, inr, Option,
  none, some,
}
use mathlib.Core.Path.{subst}
use ficl.Text.Folding.{AreChars}
use ficl.Hash.{name_length, hash_code, is_named, hash_lookup, find_in_chain}
use ficl.Hash.Names.{IsWord}
use ficl.Hash.Views.{Each, Represents, hash_lookup-Represents}
use ficl.Dictionary.{Dictionary, tables, tables_at, lookup_loop}

-- A wordlist of the dictionary that holds these words and inherits from no other.
pub record IsWordlist (d : Dictionary) (added : ℕ → List ℕ) (a : ℕ) : Type 0 where
  pub represents : Represents d.words (d.hashes a) (added a)
  pub words_are : Each (λ w. IsWord (d.words w)) (added a)
  pub alone : d.inherited a ≡ []

-- The words of some wordlists, one list after the other.
abbrev pub all_added : (ℕ → List ℕ) → List ℕ → List ℕ
all_added added [] = []
all_added added (a ∷ list) = added a ++ all_added added list

find_in_chain-append :
    (wanted : ℕ → Bool) (xs ys : List ℕ)
    → find_in_chain wanted (xs ++ ys)
      ≡ elim (find_in_chain wanted xs) [ some w ↦ some w | none ↦ find_in_chain wanted ys ]
unfolding find_in_chain
find_in_chain-append wanted [] ys = refl
find_in_chain-append wanted (x ∷ xs) ys = elim (Bool-cases (wanted x)) [
  | inl e ↦ rw e refl
  | inr e ↦ rw e (find_in_chain-append wanted xs ys)
]

-- A second search comes in where the first one finds nothing.
searches_in_turn :
    (o first p q : Option ℕ)
    → first ≡ o
    → p ≡ q
    → elim (elim first as (λ x. Option ℕ) [ none ↦ none | some w ↦ some w ]) as (λ x. Option ℕ) [
      | none ↦ p
      | some w ↦ some w
    ]
      ≡ elim o as (λ x. Option ℕ) [ some w ↦ some w | none ↦ q ]
searches_in_turn none first p q e f = rw e f
searches_in_turn (some w) first p q e f = rw e refl

pub lookup_loop_lem :
    (d : Dictionary) (added : ℕ → List ℕ) (list s : List ℕ)
    → Each (IsWordlist d added) list
    → AreChars s
    → length s ≤ name_length
    → lookup_loop d list s (hash_code s)
      ≡ find_in_chain (λ w. is_named s (d.words w)) (all_added added list)
unfolding lookup_loop find_in_chain hash_lookup
lookup_loop_lem d added [] s all letters short = refl
lookup_loop_lem d added (a ∷ list) s (this, all) letters short =
    let wanted : ℕ → Bool = λ w. is_named s (d.words w) in
    let found = find_in_chain wanted (added a) in
    let rest = lookup_loop_lem d added list s all letters short in
    let first : hash_lookup d.words (tables d a) s (hash_code s)
        ≡ elim found as (λ x. Option ℕ) [ some w ↦ some w | none ↦ none ] =
      subst
        (λ p.
          hash_lookup d.words (d.hashes a ∷ tables_at d p) s (hash_code s)
          ≡ elim found as (λ x. Option ℕ) [ some w ↦ some w | none ↦ none ])
        (sym this.alone)
        (hash_lookup-Represents d.words (d.hashes a) [] (added a) s this.represents this.words_are
          letters short) in
    ap
      (λ o. elim o as (λ x. Option ℕ) [
        | some w ↦ some w
        | none ↦ lookup_loop d list s (hash_code s)
      ])
      first
    ∙ searches_in_turn found found (lookup_loop d list s (hash_code s))
        (find_in_chain wanted (all_added added list)) refl rest
    ∙ sym (find_in_chain-append wanted (added a) (all_added added list))
