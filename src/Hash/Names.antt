-- ===== src/Hash/Names.antt =====
-- Which words a name finds, and that they have its hash code.
use Prim.Native.Nat.{bit_xor, min}
use ficl.Common.{
  ℕ, suc, ◌*◌, ◌%◌, ◌^◌, ◌≤◌, ◌≡◌, ◌↔◌, refl, ap, true, false, List, [], ◌∷◌, length, ◌==◌, arith,
}
use ficl.Text.{to_lower}
use ficl.Text.Folding.{AreChars, fold, strincmp_lem}
use ficl.Hash.{Word, name_length, hash_loop, hash_code, is_named}

-- A word as `ficlDictionaryAppendWord` makes it from a name that it does not cut.
pub record IsWord (w : Word) : Type 0 where
  pub short : length w.name ≤ name_length
  pub letters : AreChars w.name
  pub length_is : w.word_length ≡ length w.name
  pub hash_is : w.word_hash ≡ hash_code w.name

hash_loop-fold :
    (code : ℕ) (s t : List ℕ)
    → AreChars s
    → AreChars t
    → fold s ≡ fold t
    → hash_loop code s ≡ hash_loop code t
unfolding hash_loop
hash_loop-fold code [] [] hs ht e = refl
hash_loop-fold code [] (b ∷ t) hs ht e = cc
hash_loop-fold code (a ∷ s) [] hs ht e = cc
hash_loop-fold code (a ∷ s) (b ∷ t) (pa, ba, hs) (pb, bb, ht) e =
    let heads : to_lower a ≡ to_lower b = cc in
    let tails : fold s ≡ fold t = cc in
    let one : (a == 0) ≡ false = ground arith in
    let two : (b == 0) ≡ false = ground arith in
    rw (one, two, heads)
      (hash_loop-fold (bit_xor code (to_lower b) * 16777619 % 2 ^ 32) s t hs ht tails)

-- The hash code does not see the case of a name.
pub hash_code-fold :
    (s t : List ℕ) → AreChars s → AreChars t → fold s ≡ fold t → hash_code s ≡ hash_code t
unfolding hash_code
hash_code-fold s t hs ht e = ap (λ (c : ℕ). c % 2 ^ 16) (hash_loop-fold 2166136261 s t hs ht e)

length-fold : (s : List ℕ) → length (fold s) ≡ length s
length-fold [] = refl
length-fold (c ∷ s) = ap suc (length-fold s)

pub is_named_lem :
    (s : List ℕ) (w : Word)
    → IsWord w
    → AreChars s
    → length s ≤ name_length
    → (is_named s w ≡ true) ↔ (fold s ≡ fold w.name)
unfolding is_named
is_named_lem s w ok hs short =
    let cut : min (length s) name_length ≡ length s = omega arith in
    let len = ok.length_is in
    (
      λ h.
          let lengths : length s ≡ length w.name = ground arith in
          (strincmp_lem s w.name hs ok.letters lengths).0 (ground (arith, cut)),
      λ h.
          let lengths : length s ≡ length w.name =
            omega (arith, ap length h, length-fold s, length-fold w.name) in
          let same = (strincmp_lem s w.name hs ok.letters lengths).1 h in
          ground (arith, cut, lengths, len, same),
    )

-- A word that a name finds has the name's hash code.
pub is_named-hash :
    (s : List ℕ) (w : Word)
    → IsWord w
    → AreChars s
    → length s ≤ name_length
    → is_named s w ≡ true
    → w.word_hash ≡ hash_code s
is_named-hash s w ok hs short h =
    let same = (is_named_lem s w ok hs short).0 h in
    rw ok.hash_is (hash_code-fold w.name s ok.letters hs cc)
