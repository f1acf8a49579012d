-- ===== src/Vm/Jumps/Passes.antt =====
-- The whole pass: it ends, and the code does what it did.
use ficl.Common.{
  ℕ, zero, suc, ◌+◌, ◌%◌, ◌^◌, ◌≤◌, ◌<◌, ◌≡◌, inl, inr, refl, sym, ap, ◌∙◌, Bool, true, false, ◌==◌,
  if◌then◌else◌, arith, Bool-cases, some,
}
use ficl.Vm.Jumps.{Code, goes, retarget, optimize}
use ficl.Vm.Jumps.Laws.{
  always, jumps, plain, Lands, IsCode, Follows, Follows-trans, alike-Follows, alike-IsCode,
  unchecked-Alike, not_operand, same_always, same_jumps,
}
use ficl.Vm.Jumps.Checks.{checked, checks, unchecked, checks-unchecked}
use ficl.Vm.Jumps.Shortcuts.{short-Follows, short-IsCode}

record Pass (starts : ℕ → Bool) (size : ℕ) (fuel : ℕ) (code : Code) (ip : ℕ) : Type 0 where
  done : Code
  does : optimize fuel code ip ≡ some done
  follows : Follows starts code done
  sound : IsCode starts size done
  kept :
      (x : ℕ)
      → starts x ≡ true
      → jumps (code x) ≡ true
      → checked (code x) ≡ false
      → done (x + 1) ≡ code (x + 1)

optimize-plain :
    (fuel : ℕ) (code : Code) (ip : ℕ)
    → checked (code ip) ≡ false
    → optimize (suc fuel) code ip ≡ some code
unfolding optimize
optimize-plain fuel code ip h = rw (optimize, h) refl

optimize-stays :
    (fuel : ℕ) (code : Code) (ip : ℕ)
    → checked (code ip) ≡ true
    → always (unchecked code ip (goes (unchecked code ip) ip)) ≡ false
    → optimize (suc fuel) code ip ≡ some (unchecked code ip)
unfolding optimize
optimize-stays fuel code ip h other =
    let target = unchecked code ip (goes (unchecked code ip) ip) in
    let first : (target == 48) ≡ false = ground (arith, other) in
    let second : (target == 49) ≡ false = ground (arith, other) in
    rw (optimize, h, first, second) refl

optimize-shortens :
    (fuel : ℕ) (code : Code) (ip : ℕ)
    → checked (code ip) ≡ true
    → (unchecked code ip (goes (unchecked code ip) ip) == 48) ≡ false
    → (unchecked code ip (goes (unchecked code ip) ip) == 49) ≡ true
    → optimize (suc fuel) code ip
      ≡ some (retarget (unchecked code ip) ip (goes (unchecked code ip) ip))
unfolding optimize
optimize-shortens fuel code ip h first second = rw (optimize, h, first, second) refl

optimize-deeper :
    (fuel : ℕ) (code done : Code) (ip : ℕ)
    → checked (code ip) ≡ true
    → (unchecked code ip (goes (unchecked code ip) ip) == 48) ≡ true
    → optimize fuel (unchecked code ip) (goes (unchecked code ip) ip) ≡ some done
    → optimize (suc fuel) code ip ≡ some (retarget done ip (goes (unchecked code ip) ip))
unfolding optimize
optimize-deeper fuel code done ip h first rest = rw (optimize, h, first, rest) refl

module _ (starts : ℕ → Bool) (size : ℕ) (code : Code) (ip : ℕ) (c : IsCode starts size code)
    (small : size ≤ 2 ^ 60) (at : starts ip ≡ true) (h : checked (code ip) ≡ true) where
  abbrev seen : Code
  seen = unchecked code ip

  seen_cell : seen ip ≡ (if code ip == 48 then 49 else 51)
  seen_cell = let here : (ip == ip) ≡ true = ground arith in rw here refl

  seen-branch : jumps (seen ip) ≡ true
  seen-branch = ground (arith, seen_cell)

  seen-unchecked : checked (seen ip) ≡ false
  seen-unchecked = ground (arith, seen_cell)

  seen-IsCode : IsCode starts size seen
  seen-IsCode = alike-IsCode starts size code seen c (unchecked-Alike starts size code ip c at h)

  seen-Follows : Follows starts code seen
  seen-Follows = alike-Follows starts size code seen c (unchecked-Alike starts size code ip c at h)

  seen-kept : (x : ℕ) → starts x ≡ true → jumps (code x) ≡ true → seen (x + 1) ≡ code (x + 1)
  seen-kept x s j = let other = not_operand starts size code ip x c at s j in rw other refl

  -- A place that was not checked is another one.
  elsewhere : (x : ℕ) → checked (code x) ≡ false → (ip == x) ≡ false
  elsewhere x no_check = elim (Bool-cases (ip == x)) [
    | inl same ↦
        let place : ip ≡ x = ground (arith, same) in
        let clash : true ≡ false = sym h ∙ ap (λ y. checked (code y)) place ∙ no_check in
        absurd (ground (arith, clash))
    | inr apart ↦ apart
  ]

  seen-there : (x : ℕ) → checked (code x) ≡ false → seen x ≡ code x
  seen-there x no_check = let other = elsewhere x no_check in rw other refl

  retarget-kept :
      (other_code : Code) (x target : ℕ)
      → checked (code x) ≡ false
      → retarget other_code ip target (x + 1) ≡ other_code (x + 1)
  retarget-kept other_code x target no_check =
      let apart = elsewhere x no_check in
      let other : (ip + 1 == x + 1) ≡ false = ground (arith, apart) in rw other refl

  stays-Pass :
      (fuel : ℕ) → always (seen (goes seen ip)) ≡ false → Pass starts size (suc fuel) code ip
  stays-Pass fuel other = record {
    done = seen;
    does = optimize-stays fuel code ip h other;
    follows = seen-Follows;
    sound = seen-IsCode;
    kept = λ x s j no_check. seen-kept x s j;
  }

  shortens-Pass :
      (fuel : ℕ)
      → (seen (goes seen ip) == 48) ≡ false
      → (seen (goes seen ip) == 49) ≡ true
      → Pass starts size (suc fuel) code ip
  shortens-Pass fuel first second =
      let further : always (seen (goes seen ip)) ≡ true = ground (arith, second) in
      record {
        done = retarget seen ip (goes seen ip);
        does = optimize-shortens fuel code ip h first second;
        follows =
            Follows-trans seen-Follows
              (short-Follows starts size seen ip seen-IsCode small at seen-branch further);
        sound = short-IsCode starts size seen ip seen-IsCode small at seen-branch further;
        kept = λ x s j no_check. retarget-kept seen x (goes seen ip) no_check ∙ seen-kept x s j;
      }

  deeper-Pass :
      (fuel : ℕ)
      → (seen (goes seen ip) == 48) ≡ true
      → Pass starts size fuel seen (goes seen ip)
      → Pass starts size (suc fuel) code ip
  deeper-Pass fuel first p =
      let target = seen-IsCode.target ip at seen-branch in
      let same_target : goes p.done ip ≡ goes seen ip =
        ap (λ (o : ℕ). (ip + 1 + o) % 2 ^ 61) (p.kept ip at seen-branch seen-unchecked) in
      let still : always (p.done (goes seen ip)) ≡ true =
        same_always (p.done (goes seen ip)) (seen (goes seen ip))
          (p.follows.kinds (goes seen ip) target)
        ∙ ground (arith, first) in
      let further : always (p.done (goes p.done ip)) ≡ true =
        ap (λ t. always (p.done t)) same_target ∙ still in
      let branch : jumps (p.done ip) ≡ true =
        same_jumps (p.done ip) (seen ip) (p.follows.kinds ip at) ∙ seen-branch in
      record {
        done = retarget p.done ip (goes p.done ip);
        does =
            optimize-deeper fuel code p.done ip h first p.does
            ∙ ap (λ t. some (retarget p.done ip t)) (sym same_target);
        follows = Follows-trans seen-Follows (
            Follows-trans p.follows
              (short-Follows starts size p.done ip p.sound small at branch further));
        sound = short-IsCode starts size p.done ip p.sound small at branch further;
        kept = λ x s j no_check.
            let there = seen-there x no_check in
            retarget-kept p.done x (goes p.done ip) no_check
            ∙ p.kept x s (ap jumps there ∙ j) (ap checked there ∙ no_check)
            ∙ seen-kept x s j;
      }

optimize-Pass :
    (fuel : ℕ) (starts : ℕ → Bool) (size : ℕ) (code : Code) (ip : ℕ)
    → IsCode starts size code
    → size ≤ 2 ^ 60
    → starts ip ≡ true
    → checks starts code size < fuel
    → Pass starts size fuel code ip
optimize-Pass zero starts size code ip c small at few = absurd (omega (arith, few))
optimize-Pass (suc fuel) starts size code ip c small at few =
    elim (Bool-cases (checked (code ip))) [
      | inr no_check ↦ record {
        done = code;
        does = optimize-plain fuel code ip no_check;
        follows = record { kinds = λ x s. refl; lands = λ x y s l. l; branches = λ x y s j l. l };
        sound = c;
        kept = λ x s j p. refl;
      }
      | inl h ↦
          let seen' = unchecked code ip in
          let sound = seen-IsCode starts size code ip c small at h in
          elim (Bool-cases (seen' (goes seen' ip) == 48)) [
            | inl first ↦
                let less = checks-unchecked starts code ip size at h (c.within ip at) in
                deeper-Pass starts size code ip c small at h fuel first (
                  optimize-Pass fuel starts size seen' (goes seen' ip) sound small
                    (sound.target ip at (seen-branch starts size code ip c small at h))
                    (omega (arith, less, few)))
            | inr first ↦ elim (Bool-cases (seen' (goes seen' ip) == 49)) [
              | inl second ↦ shortens-Pass starts size code ip c small at h fuel first second
              | inr second ↦
                  stays-Pass starts size code ip c small at h fuel (ground (arith, first, second))
            ]
          ]
    ]

-- With more rounds of fuel than there are branches that still have their check,
-- `ficlVmOptimizeJumpToJump` at an instruction ends, in code whose branches go to instructions and
-- whose operands are none, of at most 2 ^ 60 cells. A place from which the branches lead to some
-- instruction leads to the same one afterwards, so does the destination of any branch, each branch
-- keeps its kind, and the code has the same instructions and operands.
pub optimize-Lands :
    (fuel : ℕ) (starts : ℕ → Bool) (size : ℕ) (code : Code) (ip x y b z : ℕ)
    → IsCode starts size code
    → size ≤ 2 ^ 60
    → starts ip ≡ true
    → checks starts code size < fuel
    → starts x ≡ true
    → Lands code x y
    → starts b ≡ true
    → jumps (code b) ≡ true
    → Lands code (goes code b) z
    → (done : Code) × (optimize fuel code ip ≡ some done)
      × Lands done x y
      × Lands done (goes done b) z
      × (plain (done b) ≡ plain (code b))
      × IsCode starts size done
optimize-Lands fuel starts size code ip x y b z c small at few sx l sb j m =
    let p = optimize-Pass fuel starts size code ip c small at few in
    (
      p.done,
      p.does,
      p.follows.lands x y sx l,
      p.follows.branches b z sb j m,
      p.follows.kinds b sb,
      p.sound,
    )
