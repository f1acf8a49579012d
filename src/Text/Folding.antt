-- ===== src/Text/Folding.antt =====
-- What `ficlStrincmp` compares: the strings up to the case of their letters.
use ficl.Common.{
  ℕ, ◌+◌, ◌-◌, ◌%◌, ◌^◌, ◌<◌, ◌≡◌, ◌↔◌, refl, true, false, List, [], ◌∷◌, ◌==◌, length, arith,
  Bool-cases, inl, inr,
}
use ficl.Text.{to_lower, char_value, strincmp}

-- Bytes other than the terminator.
abbrev pub AreChars : List ℕ → Type 0
AreChars [] = Unit
AreChars (c ∷ s) = (0 < c) × (c < 256) × AreChars s

abbrev pub fold : List ℕ → List ℕ
fold [] = []
fold (c ∷ s) = to_lower c ∷ fold s

same_value :
    (a b : ℕ)
    → a < 256
    → b < 256
    → (((char_value (to_lower a) + 2 ^ 32 - char_value (to_lower b)) % 2 ^ 32 == 0) ≡ true)
      ↔ (to_lower a ≡ to_lower b)
same_value a b ha hb = (λ h. ground arith, λ h. ground arith)

-- `ficlStrincmp` of two strings of the same length, over that length, gives zero exactly when they
-- are the same up to the case of their letters.
pub strincmp_lem :
    (s t : List ℕ)
    → AreChars s
    → AreChars t
    → length s ≡ length t
    → (strincmp s t (length s) ≡ 0) ↔ (fold s ≡ fold t)
unfolding strincmp
strincmp_lem [] [] hs ht e = (λ h. refl, λ h. refl)
strincmp_lem [] (b ∷ t) hs ht e = absurd (omega (arith, e))
strincmp_lem (a ∷ s) [] hs ht e = absurd (omega (arith, e))
strincmp_lem (a ∷ s) (b ∷ t) (pa, ba, hs) (pb, bb, ht) e =
    let rest = strincmp_lem s t hs ht (omega (arith, e)) in
    let here = same_value a b ba bb in
    let letter : (a == 0) ≡ false = ground arith in
    (
      λ h.
          elim (Bool-cases
            ((char_value (to_lower a) + 2 ^ 32 - char_value (to_lower b)) % 2 ^ 32 == 0)) [
              | inl same ↦
                  let tails : fold s ≡ fold t = rest.0 (rw (same, letter) at h) in
                  let heads : to_lower a ≡ to_lower b = here.0 same in cc
              | inr differ ↦ absurd (ground arith)
            ],
      λ h.
          let heads : to_lower a ≡ to_lower b = cc in
          let tails : fold s ≡ fold t = cc in rw (here.1 heads, letter) (rest.1 tails),
    )
