-- ===== src/Hash.antt =====
-- Words and the hash tables that they are found in (hash.c, and `ficlWord` of ficl.h).
-- A chain of `link` pointers is the list of the addresses of its words, and so is the chain of
-- tables that `ficlHash.link` makes; the words stand in a heap.
pub mod Names
pub mod Views
use Prim.Native.Nat.{bit_xor, min}
use ficl.Common.{
  ℕ, zero, suc, ◌+◌, ◌-◌, ◌*◌, ◌/◌, ◌%◌, ◌^◌, Bool, true, false, not, ◌&&◌, List, [], ◌∷◌, length,
  leb, ltb, ◌==◌, if◌then◌else◌, Option, none, some,
}
use ficl.Outcome.{Outcome, ok, fault}
use ficl.Text.{to_lower, strincmp}

-- `name` is the copy in the dictionary, cut to 31 characters, which stands at `name_at`;
-- `word_length` is one byte.
pub record Word : Type 0 where
  pub name : List ℕ
  pub name_at : ℕ
  pub word_length : ℕ
  pub word_hash : ℕ
  pub code : ℕ
  pub flags : ℕ

abbrev pub Heap : Type 0
Heap = ℕ → Word

-- `FICL_NAME_LENGTH`.
abbrev pub name_length : ℕ
name_length = 31

pub record Hash : Type 0 where
  pub buckets : ℕ
  pub table : ℕ → List ℕ

-- The loop of FNV-1a, which stops at a terminator.
unfoldable pub hash_loop : ℕ → List ℕ → ℕ
hash_loop code [] = code
hash_loop code (c ∷ s) =
    let rest = hash_loop (bit_xor code (to_lower c) * 16777619 % 2 ^ 32) s in
    if c == 0 then code else rest

unfoldable pub hash_code : List ℕ → ℕ
unfolding hash_loop
hash_code s = hash_loop 2166136261 s % 2 ^ 16

-- `FICL_BUCKET`, with the test for a single list.
abbrev pub bucket : Hash → ℕ → ℕ
bucket h code = if h.buckets == 1 then 0 else code % h.buckets

abbrev pub with_chain : Hash → ℕ → List ℕ → Hash
with_chain h i chain = record {
  buckets = h.buckets;
  table = λ j. if i == j then chain else h.table j;
}

unfoldable pub hash_insert : Heap → Hash → ℕ → Hash
hash_insert words h a = let i = bucket h (words a).word_hash in with_chain h i (a ∷ h.table i)

-- The test for a word in the loops of the lookups.
unfoldable pub is_named : List ℕ → Word → Bool
is_named s w = w.word_length == length s && strincmp s w.name (min (length s) name_length) == 0

unfoldable pub is_smudged : Word → Bool
is_smudged w = w.flags / 4 % 2 == 1

-- The inner loop, over a chain, for a word that passes a test.
unfoldable pub find_in_chain : (ℕ → Bool) → List ℕ → Option ℕ
find_in_chain wanted [] = none
find_in_chain wanted (a ∷ chain) = if wanted a then some a else find_in_chain wanted chain

-- The bucket that a lookup searches: `hash->size > 1` where the insertion asks `hash->size == 1`.
abbrev pub lookup_bucket : Hash → ℕ → ℕ
lookup_bucket h code = if ltb 1 h.buckets then code % h.buckets % 2 ^ 16 else 0

unfoldable pub hash_lookup : Heap → List Hash → List ℕ → ℕ → Option ℕ
unfolding find_in_chain
hash_lookup words [] s code = none
hash_lookup words (h ∷ parents) s code =
    elim (find_in_chain (λ a. is_named s (words a)) (h.table (lookup_bucket h code))) [
      | some a ↦ some a
      | none ↦ hash_lookup words parents s code
    ]

unfoldable pub hash_lookup_smudged : Heap → List Hash → List ℕ → ℕ → Option ℕ
unfolding find_in_chain
hash_lookup_smudged words [] s code = none
hash_lookup_smudged words (h ∷ parents) s code =
    elim (find_in_chain (λ a. is_named s (words a) && not (is_smudged (words a)))
      (h.table (lookup_bucket h code))) [
        | some a ↦ some a
        | none ↦ hash_lookup_smudged words parents s code
      ]

-- The inner loop of `ficlHashForget`: an address that is not below `where` goes, up to the first
-- one that is. The null pointer at the end is below `where`, which `hash_forget` sees to not being
-- null.
unfoldable pub forget_chain : ℕ → List ℕ → List ℕ
forget_chain where_from [] = []
forget_chain where_from (a ∷ chain) =
    if leb where_from a then forget_chain where_from chain else a ∷ chain

-- Every chain, up to the null pointer, loses its addresses from `where` on. The null pointer itself
-- fails the assertion on `where`, and without the assertion a chain would be followed behind its end.
unfoldable pub hash_forget : Hash → ℕ → Outcome Hash
unfolding forget_chain
hash_forget h where_from =
    let forgotten : Hash = record {
      buckets = h.buckets;
      table = λ i. if ltb i h.buckets then forget_chain where_from (h.table i) else h.table i;
    } in
    if where_from == 0 then fault else ok forgotten

unfoldable pub hash_reset : Hash → Hash
hash_reset h = record {
  buckets = h.buckets;
  table = λ i. if ltb i h.buckets then [] else h.table i;
}
