-- ===== src/Interpreter/Room.antt =====
-- Space that is taken through the checks of vm.c stays inside the dictionary.
use ficl.Common.{
  ℕ, ◌+◌, ◌-◌, ◌*◌, ◌%◌, ◌^◌, ◌≤◌, ◌<◌, ◌≡◌, ◌≢◌, refl, Bool, true, false, not, ◌&&◌, ◌||◌, ◌==◌,
  if◌then◌else◌, arith, Bool-cases, inl, inr, ◌⊎◌,
}
use mathlib.Core.Path.{subst}
use ficl.Cell.{add}
use ficl.Outcome.{Outcome, ok, thrown, >>=-eq-ok, ok-inj, dictionary_full, dictionary_underflow}
use ficl.Dictionary.{Dictionary, allot, allot_cells, cells_used, cells_available}
use ficl.Interpreter.{int_lt, int_is_negative, extend_int, simple_check, vm_allot, vm_allot_cells}

-- `here` is a cell boundary of the dictionary, which lies below 2 ^ 63 and has less than 2 ^ 28 cells.
pub record HasRoom (d : Dictionary) : Type 0 where
  pub from_base : d.base ≤ d.here
  pub to_end : d.here ≤ d.base + d.size * 8
  pub whole_cells : (d.here - d.base) % 8 ≡ 0
  pub small : d.size < 2 ^ 28
  pub low : d.base + d.size * 8 < 2 ^ 63

guards :
    (full under : Bool)
    → Path
        (Outcome (Unit {0}))
        (if full
          then thrown dictionary_full
          else if under
          then thrown dictionary_underflow
          else ok tt)
        (ok tt)
    → (full ≡ false) × (under ≡ false)
guards true under h = absurd cc
guards false true h = absurd cc
guards false false h = (refl, refl)

room : (n free : ℕ) → free < 2 ^ 31 → n < 2 ^ 31 → int_lt (free % 2 ^ 32) n ≡ false → n ≤ free
room n free h k g = ground arith

used :
    (n taken : ℕ)
    → taken < 2 ^ 31
    → 2 ^ 31 ≤ n
    → n < 2 ^ 32
    → int_lt (taken % 2 ^ 32) ((2 ^ 32 - n) % 2 ^ 32) ≡ false
    → (2 ^ 32 - n ≤ taken) ⊎ (n ≡ 2 ^ 31)
used n taken h k l g = ground arith

-- What the check lets through: a count of bytes that are free, or one that gives back bytes in use.
passed :
    (d : Dictionary) (n : ℕ)
    → HasRoom d
    → n < 2 ^ 32
    → n ≢ 2 ^ 31
    → simple_check d n ≡ ok tt
    → (int_is_negative n ≡ false → n + d.here ≤ d.base + d.size * 8)
      × (int_is_negative n ≡ true → 2 ^ 32 - n + d.base ≤ d.here)
unfolding simple_check cells_used cells_available
passed d n r fits apart h =
    let from = r.from_base in
    let to = r.to_end in
    let whole = r.whole_cells in
    let small = r.small in
    let (full, under) =
      guards (not (int_is_negative n) && int_lt (cells_available d * 8 % 2 ^ 32) n)
        ((int_is_negative n || n == 0)
          && int_lt (cells_used d * 8 % 2 ^ 32) ((2 ^ 32 - n) % 2 ^ 32))
        h in
    let taken : cells_used d * 8 ≡ d.here - d.base = omega arith in
    let free : cells_available d * 8 + d.here ≡ d.base + d.size * 8 = omega arith in
    (
      λ p.
          let some_free : int_lt (cells_available d * 8 % 2 ^ 32) n ≡ false = rw p at full in
          let bound =
            room n (cells_available d * 8) (omega (arith, free)) (ground (arith, p)) some_free in
          omega (arith, bound, free),
      λ p.
          let some_used : int_lt (cells_used d * 8 % 2 ^ 32) ((2 ^ 32 - n) % 2 ^ 32) ≡ false =
            rw p at under in
          elim (used n (cells_used d * 8) (omega (arith, taken)) (ground (arith, p)) fits
            some_used) [ inl bound ↦ omega (arith, bound, taken) | inr edge ↦ absurd (apart edge) ],
    )

moved_down :
    (here n : ℕ)
    → 2 ^ 31 ≤ n
    → n < 2 ^ 32
    → 2 ^ 32 - n ≤ here
    → here < 2 ^ 63
    → add here (extend_int n) ≡ here - (2 ^ 32 - n)
moved_down here n low fits bound cell = ground arith

moved_up : (here n : ℕ) → n < 2 ^ 31 → here + n < 2 ^ 63 → add here (extend_int n) ≡ here + n
moved_up here n low cell = ground arith

moved_cells : (here n : ℕ) → n < 2 ^ 28 → here < 2 ^ 63 → add here (extend_int n * 8) ≡ here + n * 8
moved_cells here n low cell = ground arith

has_room :
    (n free taken : ℕ)
    → free < 2 ^ 31
    → taken < 2 ^ 31
    → n < 2 ^ 28
    → n ≤ free
    → ((not (int_is_negative n) && int_lt (free % 2 ^ 32) n) ≡ false)
      × (((int_is_negative n || n == 0) && int_lt (taken % 2 ^ 32) ((2 ^ 32 - n) % 2 ^ 32)) ≡ false)
has_room n free taken h k l m = (ground arith, ground arith)

passes :
    (d : Dictionary) (n : ℕ)
    → HasRoom d
    → n < 2 ^ 28
    → d.here + n ≤ d.base + d.size * 8
    → simple_check d n ≡ ok tt
unfolding simple_check cells_used cells_available
passes d n r small bound =
    let from = r.from_base in
    let to = r.to_end in
    let whole = r.whole_cells in
    let cells = r.small in
    let taken : cells_used d * 8 ≡ d.here - d.base = omega arith in
    let free : cells_available d * 8 + d.here ≡ d.base + d.size * 8 = omega arith in
    let (full, under) =
      has_room n (cells_available d * 8) (cells_used d * 8) (omega (arith, free))
        (omega (arith, taken)) small (omega (arith, free)) in
    rw (full, under) refl

-- `ficlVmDictionaryAllot` of a number of bytes of either sign, a multiple of 8 and not the least
-- `int`, keeps the free space of a dictionary of less than 2 ^ 28 cells on a cell boundary inside
-- it whenever it succeeds.
pub vm_allot-HasRoom :
    (d e : Dictionary) (n : ℕ)
    → HasRoom d
    → n < 2 ^ 32
    → n ≢ 2 ^ 31
    → n % 8 ≡ 0
    → vm_allot d n ≡ ok e
    → HasRoom e
unfolding vm_allot allot
vm_allot-HasRoom d e n r fits apart whole h =
    let (u, checked, done) = >>=-eq-ok (simple_check d n) (λ u. ok (allot d (extend_int n))) h in
    let (up, down) = passed d n r fits apart checked in
    subst HasRoom (ok-inj done) (elim (Bool-cases (int_is_negative n)) [
      | inl minus ↦
          let bound = down minus in
          let moved =
            moved_down d.here n (ground (arith, minus)) fits (omega (arith, bound))
              (omega (arith, r.low, r.to_end)) in
          record {
            from_base = omega (arith, moved, bound);
            to_end = omega (arith, moved, r.to_end);
            whole_cells = omega (arith, moved, bound, r.whole_cells, r.from_base, whole, fits);
            small = r.small;
            low = r.low;
          }
      | inr plus ↦
          let bound = up plus in
          let moved = moved_up d.here n (ground (arith, plus)) (omega (arith, bound, r.low)) in
          record {
            from_base = omega (arith, moved, r.from_base);
            to_end = omega (arith, moved, bound);
            whole_cells = omega (arith, moved, r.whole_cells, r.from_base, whole);
            small = r.small;
            low = r.low;
          }
    ])

-- `ficlVmDictionaryAllotCells` of fewer than 2 ^ 28 cells succeeds, and takes eight bytes for each,
-- wherever the dictionary has as many bytes left.
pub vm_allot_cells_lem :
    (d : Dictionary) (n : ℕ)
    → HasRoom d
    → n < 2 ^ 28
    → d.here + n ≤ d.base + d.size * 8
    → vm_allot_cells d n ≡ ok (record d { here = d.here + n * 8 })
unfolding vm_allot_cells allot_cells
vm_allot_cells_lem d n r small free =
    let moved = moved_cells d.here n small (omega (arith, r.low, r.to_end)) in
    rw (passes d n r small free, moved) refl
