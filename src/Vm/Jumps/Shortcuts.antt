-- ===== src/Vm/Jumps/Shortcuts.antt =====
-- One branch to a branch that is made to go further.
use ficl.Common.{
  ℕ, ◌+◌, ◌%◌, ◌^◌, ◌≤◌, ◌<◌, ◌≡◌, inl, inr, refl, sym, ap, ◌∙◌, Bool, true, false, ◌==◌, arith,
  Bool-cases,
}
use mathlib.Core.Path.{subst}
use ficl.Vm.Jumps.{Code, goes, between, retarget}
use ficl.Vm.Jumps.Laws.{always, jumps, plain, Lands, stays, goes_on, IsCode, Follows}

between_lem : (to from : ℕ) → to < 2 ^ 61 → from < 2 ^ 61 → (from + between to from) % 2 ^ 61 ≡ to
between_lem to from ht hf = ground arith

Lands-next :
    (code : Code) (x y : ℕ) → always (code x) ≡ true → Lands code x y → Lands code (goes code x) y
Lands-next code x y h (stays _ other) = absurd (ground (arith, h, other))
Lands-next code x y h (goes_on _ _ same l) = l

module _ (starts : ℕ → Bool) (size : ℕ) (code : Code) (ip : ℕ) (c : IsCode starts size code)
    (small : size ≤ 2 ^ 60) (at : starts ip ≡ true) (branch : jumps (code ip) ≡ true)
    (further : always (code (goes code ip)) ≡ true) where
  abbrev short : Code
  short = retarget code ip (goes code ip)

  same_cell : (x : ℕ) → starts x ≡ true → short x ≡ code x
  same_cell x s = elim (Bool-cases (ip + 1 == x)) [
    | inl same ↦
        let place : ip + 1 ≡ x = ground (arith, same) in
        let clash : true ≡ false = sym s ∙ ap starts (sym place) ∙ c.operand ip at branch in
        absurd (ground (arith, clash))
    | inr apart ↦ rw apart refl
  ]

  same_goes : (x : ℕ) → (ip == x) ≡ false → goes short x ≡ goes code x
  same_goes x apart = let other : (ip + 1 == x + 1) ≡ false = ground (arith, apart) in rw other refl

  goes_further : goes short ip ≡ goes code (goes code ip)
  goes_further =
      let here : (ip + 1 == ip + 1) ≡ true = ground arith in
      rw here (
        between_lem (goes code (goes code ip)) (ip + 1) (omega arith)
          (omega (arith, c.within ip at, small)))

  goes_with : goes short ip ≡ goes short (goes code ip)
  goes_with = elim (Bool-cases (ip == goes code ip)) [
    | inl loops ↦ let place : ip ≡ goes code ip = ground (arith, loops) in ap (goes short) place
    | inr apart ↦ goes_further ∙ sym (same_goes (goes code ip) apart)
  ]

  -- From behind the branch, once what it went to is known to land.
  past : (y : ℕ) → Lands short (goes code ip) y → Lands short (goes short ip) y
  past y l =
      let target = c.target ip at branch in
      subst (λ t. Lands short t y) (sym goes_with)
        (Lands-next short (goes code ip) y (ap always (same_cell (goes code ip) target) ∙ further)
          l)

  short_lands : (x y : ℕ) → starts x ≡ true → Lands code x y → Lands short x y
  short_lands x y s (stays _ h) = stays x (ap always (same_cell x s) ∙ h)
  short_lands x y s (goes_on _ _ h l) =
      let j : jumps (code x) ≡ true = ground (arith, h) in
      let rest = short_lands (goes code x) y (c.target x s j) l in
      let still = ap always (same_cell x s) ∙ h in
      elim (Bool-cases (ip == x)) [
        | inl here ↦
            let place : ip ≡ x = ground (arith, here) in
            goes_on x y still (
              subst (λ t. Lands short (goes short t) y) place
                (past y (subst (λ t. Lands short (goes code t) y) (sym place) rest)))
        | inr apart ↦
            goes_on x y still (subst (λ t. Lands short t y) (sym (same_goes x apart)) rest)
      ]

  pub short-Follows : Follows starts code short
  short-Follows = record {
    kinds = λ x s. ap plain (same_cell x s);
    lands = short_lands;
    branches = λ x y s j l.
        let rest = short_lands (goes code x) y (c.target x s j) l in
        elim (Bool-cases (ip == x)) [
          | inl here ↦
              let place : ip ≡ x = ground (arith, here) in
              subst (λ t. Lands short (goes short t) y) place
                (past y (subst (λ t. Lands short (goes code t) y) (sym place) rest))
          | inr apart ↦ subst (λ t. Lands short t y) (sym (same_goes x apart)) rest
        ];
  }

  pub short-IsCode : IsCode starts size short
  short-IsCode = record {
    within = c.within;
    operand = λ x s j. c.operand x s (ap jumps (sym (same_cell x s)) ∙ j);
    target = λ x s j.
        let j' = ap jumps (sym (same_cell x s)) ∙ j in
        elim (Bool-cases (ip == x)) [
          | inl here ↦
              let place : ip ≡ x = ground (arith, here) in
              let target = c.target ip at branch in
              let onward : jumps (code (goes code ip)) ≡ true = ground (arith, further) in
              subst (λ t. starts (goes short t) ≡ true) place
                (ap starts goes_further ∙ c.target (goes code ip) target onward)
          | inr apart ↦ ap starts (same_goes x apart) ∙ c.target x s j'
        ];
  }
