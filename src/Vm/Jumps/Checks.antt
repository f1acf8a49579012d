-- ===== src/Vm/Jumps/Checks.antt =====
-- How many branches still have their check.
use ficl.Common.{
  ℕ, zero, suc, ◌+◌, ◌≤◌, ◌<◌, ◌≡◌, inl, inr, refl, Bool, true, false, ◌||◌, ◌&&◌, ◌==◌,
  if◌then◌else◌, arith, Bool-cases,
}
use ficl.Vm.Jumps.{Code, put_code}

-- A branch with its check.
abbrev pub checked : ℕ → Bool
checked c = c == 48 || c == 50

-- The branches with their checks among the first `n` cells.
abbrev pub checks : (ℕ → Bool) → Code → ℕ → ℕ
checks starts code zero = 0
checks starts code (suc n) = (if starts n && checked (code n) then 1 else 0) + checks starts code n

abbrev pub unchecked : Code → ℕ → Code
unchecked code ip = put_code code ip (if code ip == 48 then 49 else 51)

checks-below :
    (starts : ℕ → Bool) (code : Code) (ip n : ℕ)
    → n ≤ ip
    → checks starts (unchecked code ip) n ≡ checks starts code n
checks-below starts code ip zero low = refl
checks-below starts code ip (suc n) low =
    let other : (ip == n) ≡ false = ground arith in
    rw (other, checks-below starts code ip n (omega arith)) refl

pub checks-unchecked :
    (starts : ℕ → Bool) (code : Code) (ip n : ℕ)
    → starts ip ≡ true
    → checked (code ip) ≡ true
    → ip < n
    → checks starts (unchecked code ip) n + 1 ≡ checks starts code n
checks-unchecked starts code ip zero at h low = absurd (omega (arith, low))
checks-unchecked starts code ip (suc n) at h low = elim (Bool-cases (ip == n)) [
  | inl here ↦
      let place : n ≡ ip = ground (arith, here) in
      let gone : checked (if code ip == 48 then 49 else 51) ≡ false = ground arith in
      let below = checks-below starts code ip n (omega (arith, place)) in
      let before : (starts n && checked (code n)) ≡ true = rw (place, at, h) refl in
      let after : (starts n && checked (unchecked code ip n)) ≡ false =
        rw (here, place, at, gone) refl in
      rw (before, after, below) (omega arith)
  | inr apart ↦
      let rest = checks-unchecked starts code ip n at h (ground (arith, apart, low)) in
      rw apart (omega (arith, rest))
]
