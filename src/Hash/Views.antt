-- ===== src/Hash/Views.antt =====
-- A hash table as the plain list of the words put into it, the newest first.
use ficl.Common.{
  ℕ, ◌^◌, ◌≤◌, ◌<◌, ◌≡◌, refl, ap, ◌∙◌, Bool, true, false, List, [], ◌∷◌, length, leb, ltb, ◌==◌,
  if◌then◌else◌, arith, Bool-cases, inl, inr, none, some,
}
use native.Mathlib.Nat.{mod-lt}
use ficl.Outcome.{ok}
use ficl.Text.Folding.{AreChars}
use ficl.Hash.{
  Heap, Hash, bucket, lookup_bucket, name_length, hash_code, is_named, hash_insert, hash_lookup,
  find_in_chain, forget_chain, hash_forget, hash_reset,
}
use ficl.Hash.Names.{IsWord, is_named-hash}

-- The members of a list that pass a test, in their order.
abbrev pub kept : (ℕ → Bool) → List ℕ → List ℕ
kept keep [] = []
kept keep (a ∷ list) = if keep a then a ∷ kept keep list else kept keep list

-- Every member of a list.
abbrev pub Each : (ℕ → Type 0) → List ℕ → Type 0
Each P [] = Unit
Each P (a ∷ list) = P a × Each P list

-- Each bucket holds the words whose codes fall into it, and nothing else.
pub record Represents (words : Heap) (h : Hash) (added : List ℕ) : Type 0 where
  pub some_buckets : 1 ≤ h.buckets
  pub few_buckets : h.buckets ≤ 2 ^ 16
  pub chains_are :
      (i : ℕ) → i < h.buckets → h.table i ≡ kept (λ a. bucket h (words a).word_hash == i) added

pub hash_reset-Represents :
    (words : Heap) (h : Hash)
    → 1 ≤ h.buckets
    → h.buckets ≤ 2 ^ 16
    → Represents words (hash_reset h) []
unfolding hash_reset
hash_reset-Represents words h low high = record {
  some_buckets = low;
  few_buckets = high;
  chains_are = λ i below. ground arith;
}

pub hash_insert-Represents :
    (words : Heap) (h : Hash) (added : List ℕ) (a : ℕ)
    → Represents words h added
    → Represents words (hash_insert words h a) (a ∷ added)
unfolding hash_insert
hash_insert-Represents words h added a r = record {
  some_buckets = r.some_buckets;
  few_buckets = r.few_buckets;
  chains_are =
      λ i below. ground (arith, r.chains_are i below, r.chains_are (bucket h (words a).word_hash));
}

-- A search passes over what it does not want.
find_in_chain-kept :
    (wanted keep : ℕ → Bool) (list : List ℕ)
    → Each (λ a. wanted a ≡ true → keep a ≡ true) list
    → find_in_chain wanted (kept keep list) ≡ find_in_chain wanted list
unfolding find_in_chain
find_in_chain-kept wanted keep [] all = refl
find_in_chain-kept wanted keep (a ∷ list) (this, all) =
    let rest = find_in_chain-kept wanted keep list all in
    elim (Bool-cases (wanted a)) [
      | inl found ↦ rw (this found, find_in_chain, found) refl
      | inr missed ↦ elim (Bool-cases (keep a)) [
        | inl kept_too ↦ rw (kept_too, find_in_chain, missed) rest
        | inr left_out ↦ rw (left_out, missed) rest
      ]
    ]

pub Each-map :
    (P Q : ℕ → Type 0) (list : List ℕ) → ((a : ℕ) → P a → Q a) → Each P list → Each Q list
Each-map P Q [] f all = tt
Each-map P Q (a ∷ list) f (this, all) = (f a this, Each-map P Q list f all)

pub bucket-lookup_bucket :
    (h : Hash) (code : ℕ)
    → 1 ≤ h.buckets
    → h.buckets ≤ 2 ^ 16
    → (lookup_bucket h code ≡ bucket h code) × (bucket h code < h.buckets)
bucket-lookup_bucket h code low high =
    let positive : 0 < h.buckets = omega arith in ground (arith, mod-lt code positive)

-- In a table that holds some words, newest first, `ficlHashLookup` of a name of at most 31
-- characters finds the newest of them that has that name up to case, and goes on to the tables that
-- the table inherits from only where there is none.
pub hash_lookup-Represents :
    (words : Heap) (h : Hash) (parents : List Hash) (added s : List ℕ)
    → Represents words h added
    → Each (λ a. IsWord (words a)) added
    → AreChars s
    → length s ≤ name_length
    → hash_lookup words (h ∷ parents) s (hash_code s)
      ≡ elim (find_in_chain (λ a. is_named s (words a)) added) [
        | some a ↦ some a
        | none ↦ hash_lookup words parents s (hash_code s)
      ]
unfolding hash_lookup
hash_lookup-Represents words h parents added s r all letters short =
    let (place, low) = bucket-lookup_bucket h (hash_code s) r.some_buckets r.few_buckets in
    let wanted : ℕ → Bool = λ a. is_named s (words a) in
    let i = bucket h (hash_code s) in
    let keep : ℕ → Bool = λ a. bucket h (words a).word_hash == i in
    let same = find_in_chain-kept wanted keep added (
      Each-map (λ a. IsWord (words a)) (λ a. wanted a ≡ true → keep a ≡ true) added
        (λ a ok found.
          let code = is_named-hash s (words a) ok letters short found in rw code (ground arith))
        all) in
    rw (hash_lookup, place, r.chains_are i low, same) refl

-- Addresses that go down along a list.
abbrev pub IsDescending : List ℕ → Type 0
IsDescending [] = Unit
IsDescending (a ∷ list) = Each (λ b. b < a) list × IsDescending list

forget_chain-below :
    (where_from : ℕ) (list : List ℕ)
    → Each (λ b. b < where_from) list
    → forget_chain where_from list ≡ list
unfolding forget_chain
forget_chain-below where_from [] all = refl
forget_chain-below where_from (a ∷ list) (this, all) =
    let stays : leb where_from a ≡ false = ground arith in rw stays refl

kept-all :
    (keep : ℕ → Bool) (list : List ℕ) → Each (λ b. keep b ≡ true) list → kept keep list ≡ list
kept-all keep [] all = refl
kept-all keep (a ∷ list) (this, all) = rw (this, kept-all keep list all) refl

Each-kept :
    (P : ℕ → Type 0) (keep : ℕ → Bool) (list : List ℕ) → Each P list → Each P (kept keep list)
Each-kept P keep [] all = tt
Each-kept P keep (a ∷ list) (this, all) = elim (Bool-cases (keep a)) [
  | inl e ↦ rw e (this, Each-kept P keep list all)
  | inr e ↦ rw e (Each-kept P keep list all)
]

kept-IsDescending :
    (keep : ℕ → Bool) (list : List ℕ) → IsDescending list → IsDescending (kept keep list)
kept-IsDescending keep [] d = tt
kept-IsDescending keep (a ∷ list) (above, d) = elim (Bool-cases (keep a)) [
  | inl e ↦ rw e (Each-kept (λ b. b < a) keep list above, kept-IsDescending keep list d)
  | inr e ↦ rw e (kept-IsDescending keep list d)
]

-- On a list that goes down, forgetting keeps what lies below the address.
forget_chain-kept :
    (where_from : ℕ) (list : List ℕ)
    → IsDescending list
    → forget_chain where_from list ≡ kept (λ a. ltb a where_from) list
unfolding forget_chain
forget_chain-kept where_from [] d = refl
forget_chain-kept where_from (a ∷ list) (above, d) = elim (Bool-cases (leb where_from a)) [
  | inl e ↦
      let goes : ltb a where_from ≡ false = ground arith in
      rw (e, goes) (forget_chain-kept where_from list d)
  | inr e ↦
      let stays : ltb a where_from ≡ true = ground arith in
      let rest =
        kept-all (λ b. ltb b where_from) list
          (Each-map (λ b. b < a) (λ b. ltb b where_from ≡ true) list (λ b below. ground arith)
            above) in
      rw (e, stays, rest) refl
]

kept-kept : (p q : ℕ → Bool) (list : List ℕ) → kept p (kept q list) ≡ kept q (kept p list)
kept-kept p q [] = refl
kept-kept p q (a ∷ list) = ground (arith, kept-kept p q list)

-- The chains without the addresses from a place on.
forget_chains-Represents :
    (words : Heap) (h : Hash) (added : List ℕ) (where_from : ℕ)
    → Represents words h added
    → IsDescending added
    → Represents words
        (record {
          buckets = h.buckets;
          table = λ i. if ltb i h.buckets then forget_chain where_from (h.table i) else h.table i;
        })
        (kept (λ a. ltb a where_from) added)
forget_chains-Represents words h added where_from r d = record {
  some_buckets = r.some_buckets;
  few_buckets = r.few_buckets;
  chains_are = λ i below.
      let keep : ℕ → Bool = λ a. bucket h (words a).word_hash == i in
      let inside : ltb i h.buckets ≡ true = ground arith in
      rw (inside, r.chains_are i below)
        (forget_chain-kept where_from (kept keep added) (kept-IsDescending keep added d)
          ∙ kept-kept (λ a. ltb a where_from) keep added);
}

-- In a table whose words stand at falling addresses, newest first, `ficlHashForget` with an address
-- that is not null leaves exactly the words below it.
pub hash_forget-Represents :
    (words : Heap) (h : Hash) (added : List ℕ) (where_from : ℕ)
    → Represents words h added
    → IsDescending added
    → 1 ≤ where_from
    → (left : Hash) × (hash_forget h where_from ≡ ok left)
      × Represents words left (kept (λ a. ltb a where_from) added)
unfolding hash_forget
hash_forget-Represents words h added where_from r d some_place =
    let there : (where_from == 0) ≡ false = ground arith in
    let left : Hash = record {
      buckets = h.buckets;
      table = λ i. if ltb i h.buckets then forget_chain where_from (h.table i) else h.table i;
    } in
    (left, rw there refl, forget_chains-Represents words h added where_from r d)

kept-agree :
    (p q : ℕ → Bool) (list : List ℕ) → Each (λ a. p a ≡ q a) list → kept p list ≡ kept q list
kept-agree p q [] all = refl
kept-agree p q (a ∷ list) (this, all) = rw (this, kept-agree p q list all) refl

-- Only the hash codes of the words matter.
pub Represents-agree :
    (words words' : Heap) (h : Hash) (added : List ℕ)
    → Each (λ a. (words a).word_hash ≡ (words' a).word_hash) added
    → Represents words h added
    → Represents words' h added
Represents-agree words words' h added same r = record {
  some_buckets = r.some_buckets;
  few_buckets = r.few_buckets;
  chains_are = λ i below.
      r.chains_are i below
      ∙ kept-agree (λ a. bucket h (words a).word_hash == i)
          (λ a. bucket h (words' a).word_hash == i) added
          (Each-map (λ a. (words a).word_hash ≡ (words' a).word_hash)
            (λ a. (bucket h (words a).word_hash == i) ≡ (bucket h (words' a).word_hash == i)) added
            (λ a e. ap (λ c. bucket h c == i) e) same);
}

pub Each-zip :
    (P Q R : ℕ → Type 0) (list : List ℕ)
    → ((a : ℕ) → P a → Q a → R a)
    → Each P list
    → Each Q list
    → Each R list
Each-zip P Q R [] f ps qs = tt
Each-zip P Q R (a ∷ list) f (p, ps) (q, qs) = (f a p q, Each-zip P Q R list f ps qs)
