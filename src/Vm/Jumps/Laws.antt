-- ===== src/Vm/Jumps/Laws.antt =====
-- Code runs as before when jumps to jumps are short-cut, and the pass ends.
use ficl.Common.{
  ℕ, ◌+◌, ◌<◌, ◌≡◌, inl, inr, refl, sym, ap, ◌∙◌, Bool, true, false, ◌||◌, ◌&&◌, leb, ◌==◌,
  if◌then◌else◌, arith, Bool-cases,
}
use mathlib.Core.Path.{subst}
use ficl.Vm.Jumps.{Code, put_code, goes}

-- An unconditional branch, and any branch.
abbrev pub always : ℕ → Bool
always c = c == 48 || c == 49

abbrev pub jumps : ℕ → Bool
jumps c = leb 48 c && leb c 51

-- A branch without its check.
abbrev pub plain : ℕ → ℕ
plain c = if c == 48 then 49 else if c == 50 then 51 else c

-- From a place to the next instruction that is no branch.
pub data Lands (code : Code) : ℕ → ℕ → Type 0 where
  stays : (x : ℕ) → always (code x) ≡ false → Lands code x x
  goes_on : (x y : ℕ) → always (code x) ≡ true → Lands code (goes code x) y → Lands code x y

-- `starts` tells where instructions stand: operands stand elsewhere, and branches go to instructions.
pub record IsCode (starts : ℕ → Bool) (size : ℕ) (code : Code) : Type 0 where
  pub within : (x : ℕ) → starts x ≡ true → x < size
  pub operand : (x : ℕ) → starts x ≡ true → jumps (code x) ≡ true → starts (x + 1) ≡ false
  pub target : (x : ℕ) → starts x ≡ true → jumps (code x) ≡ true → starts (goes code x) ≡ true

-- Code that does what other code does.
pub record Follows (starts : ℕ → Bool) (code code' : Code) : Type 0 where
  pub kinds : (x : ℕ) → starts x ≡ true → plain (code' x) ≡ plain (code x)
  pub lands : (x y : ℕ) → starts x ≡ true → Lands code x y → Lands code' x y
  pub branches :
      (x y : ℕ)
      → starts x ≡ true
      → jumps (code x) ≡ true
      → Lands code (goes code x) y
      → Lands code' (goes code' x) y

pub same_jumps : (a b : ℕ) → plain a ≡ plain b → jumps a ≡ jumps b
same_jumps a b h = ground (arith, h)

pub same_always : (a b : ℕ) → plain a ≡ plain b → always a ≡ always b
same_always a b h = ground (arith, h)

pub Follows-trans :
    {starts : ℕ → Bool} {a b c : Code}
    → Follows starts a b
    → Follows starts b c
    → Follows starts a c
Follows-trans {starts = starts} {a = a} {b = b} f g = record {
  kinds = λ x s. g.kinds x s ∙ f.kinds x s;
  lands = λ x y s l. g.lands x y s (f.lands x y s l);
  branches = λ x y s j l.
      g.branches x y s (same_jumps (b x) (a x) (f.kinds x s) ∙ j) (f.branches x y s j l);
}

-- Code that is the same at every instruction but for checks, and goes to the same places.
pub record LooksAlike (starts : ℕ → Bool) (code code' : Code) : Type 0 where
  pub kinds : (x : ℕ) → starts x ≡ true → plain (code' x) ≡ plain (code x)
  pub same : (x : ℕ) → starts x ≡ true → jumps (code x) ≡ true → goes code' x ≡ goes code x

alike-lands :
    (starts : ℕ → Bool) (size : ℕ) (code code' : Code) (x y : ℕ)
    → IsCode starts size code
    → LooksAlike starts code code'
    → starts x ≡ true
    → Lands code x y
    → Lands code' x y
alike-lands starts size code code' x y c a s (stays _ h) =
    stays x (same_always (code' x) (code x) (a.kinds x s) ∙ h)
alike-lands starts size code code' x y c a s (goes_on _ _ h l) =
    let j : jumps (code x) ≡ true = ground (arith, h) in
    goes_on x y (same_always (code' x) (code x) (a.kinds x s) ∙ h) (
      subst (λ t. Lands code' t y) (sym (a.same x s j))
        (alike-lands starts size code code' (goes code x) y c a (c.target x s j) l))

pub alike-Follows :
    (starts : ℕ → Bool) (size : ℕ) (code code' : Code)
    → IsCode starts size code
    → LooksAlike starts code code'
    → Follows starts code code'
alike-Follows starts size code code' c a = record {
  kinds = a.kinds;
  lands = λ x y s l. alike-lands starts size code code' x y c a s l;
  branches = λ x y s j l.
      subst (λ t. Lands code' t y) (sym (a.same x s j))
        (alike-lands starts size code code' (goes code x) y c a (c.target x s j) l);
}

pub alike-IsCode :
    (starts : ℕ → Bool) (size : ℕ) (code code' : Code)
    → IsCode starts size code
    → LooksAlike starts code code'
    → IsCode starts size code'
alike-IsCode starts size code code' c a = record {
  within = c.within;
  operand = λ x s j. c.operand x s (same_jumps (code x) (code' x) (sym (a.kinds x s)) ∙ j);
  target = λ x s j.
      let j' = same_jumps (code x) (code' x) (sym (a.kinds x s)) ∙ j in
      subst (λ t. starts t ≡ true) (sym (a.same x s j')) (c.target x s j');
}

pub not_operand :
    (starts : ℕ → Bool) (size : ℕ) (code : Code) (ip x : ℕ)
    → IsCode starts size code
    → starts ip ≡ true
    → starts x ≡ true
    → jumps (code x) ≡ true
    → (ip == x + 1) ≡ false
not_operand starts size code ip x c at s j = elim (Bool-cases (ip == x + 1)) [
  | inl same ↦
      let place : ip ≡ x + 1 = ground (arith, same) in
      let no = c.operand x s j in
      let clash : true ≡ false = sym at ∙ ap starts place ∙ no in absurd (ground (arith, clash))
  | inr apart ↦ apart
]

-- Taking a check away.
pub unchecked-Alike :
    (starts : ℕ → Bool) (size : ℕ) (code : Code) (ip : ℕ)
    → IsCode starts size code
    → starts ip ≡ true
    → (code ip == 48 || code ip == 50) ≡ true
    → LooksAlike starts code (put_code code ip (if code ip == 48 then 49 else 51))
unchecked-Alike starts size code ip c at h = record {
  kinds = λ x s. elim (Bool-cases (ip == x)) [
    | inl here ↦
        let place : ip ≡ x = ground (arith, here) in rw here (ground (arith, h, ap code place))
    | inr apart ↦ rw apart refl
  ];
  same = λ x s j. let other = not_operand starts size code ip x c at s j in rw other refl;
}
