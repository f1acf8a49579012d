-- ===== src/Stack/Refinement.antt =====
-- The array implements the list of its cells, last pushed first.
use ficl.Common.{
  ℕ, zero, suc, ◌+◌, ◌-◌, ◌≤◌, ◌<◌, ◌≡◌, refl, sym, ap, ◌∙◌, true, false, List, [], ◌∷◌, length,
  get_elem?, none, some, ltb, ◌==◌, if◌then◌else◌, arith, lt_of_get_elem?,
}
use mathlib.Core.Path.{subst}
use ficl.Outcome.{access, ok}
use ficl.Vm.Check.{Which, check}
use ficl.Stack.{
  Stack, with_top, put_cell, read, write, lower, stack_check, stack_fetch, stack_push, stack_pop,
}

-- `n` cells from `base` up, the highest first.
abbrev pub cells_to : (ℕ → ℕ) → ℕ → List ℕ
cells_to cells zero = []
cells_to cells (suc n) = cells (4 + n) ∷ cells_to cells n

abbrev pub contents : Stack → List ℕ
contents s = cells_to s.cells (s.top - 3)

-- The top is not below the fence, and the stack is within its size.
pub record IsStack (s : Stack) : Type 0 where
  pub grounded : 3 ≤ s.top
  pub fits : s.top ≤ s.size + 3

-- A stack that holds these cells.
pub record Holds (s : Stack) (xs : List ℕ) : Type 0 where
  pub sound : IsStack s
  pub cells_are : contents s ≡ xs

pub length-cells_to : (cells : ℕ → ℕ) (n : ℕ) → length (cells_to cells n) ≡ n
length-cells_to cells zero = refl
length-cells_to cells (suc n) = ap suc (length-cells_to cells n)

pub get_elem?-cells_to :
    (cells : ℕ → ℕ) (n i : ℕ)
    → get_elem? (cells_to cells n) i ≡ (if ltb i n then some (cells (3 + n - i)) else none)
get_elem?-cells_to cells zero i = ground arith
get_elem?-cells_to cells (suc n) zero =
    let found : ltb 0 (suc n) ≡ true = ground arith in
    let same : 3 + suc n - 0 ≡ 4 + n = omega arith in rw (found, same) refl
get_elem?-cells_to cells (suc n) (suc i) =
    let found : ltb (suc i) (suc n) ≡ ltb i n = ground arith in
    let same : 3 + suc n - suc i ≡ 3 + n - i = omega arith in
    rw (found, same) (get_elem?-cells_to cells n i)

-- Two arrays with the same cells hold the same list.
pub cells_to_ext :
    (cells cells' : ℕ → ℕ) (n : ℕ)
    → ((i : ℕ) → 4 ≤ i → i < 4 + n → cells i ≡ cells' i)
    → cells_to cells n ≡ cells_to cells' n
cells_to_ext cells cells' zero same = refl
cells_to_ext cells cells' (suc n) same =
    let rest = cells_to_ext cells cells' n (λ i low high. same i low (omega arith)) in
    rw (same (4 + n) (omega arith) (omega arith), rest) refl

put_cell-above :
    (cells : ℕ → ℕ) (n c : ℕ) → cells_to (put_cell cells (4 + n) c) n ≡ cells_to cells n
put_cell-above cells n c =
    cells_to_ext (put_cell cells (4 + n) c) cells n
      (λ i low high. let other : (4 + n == i) ≡ false = ground arith in rw other refl)

put_cell-top :
    (cells : ℕ → ℕ) (n c : ℕ) → cells_to (put_cell cells (4 + n) c) (suc n) ≡ c ∷ cells_to cells n
put_cell-top cells n c =
    let here : (4 + n == 4 + n) ≡ true = ground arith in rw (here, put_cell-above cells n c) refl

-- How many cells a stack holds.
pub Holds-depth : (s : Stack) (xs : List ℕ) → Holds s xs → s.top ≡ 3 + length xs
Holds-depth s xs h =
    omega (arith, h.sound.grounded, ap length h.cells_are, length-cells_to s.cells (s.top - 3))

-- What a stack holds, from its depth and its cells.
pub Holds-intro :
    (s : Stack) (xs : List ℕ) (n : ℕ)
    → s.top ≡ 3 + n
    → n ≤ s.size
    → cells_to s.cells n ≡ xs
    → Holds s xs
Holds-intro s xs n e fits same = record {
  sound = record { grounded = omega arith; fits = omega arith };
  cells_are = let depth : s.top - 3 ≡ n = omega arith in rw depth same;
}

pub Holds-cells : (s : Stack) (xs : List ℕ) → Holds s xs → cells_to s.cells (length xs) ≡ xs
Holds-cells s xs h =
    let depth : length xs ≡ s.top - 3 = omega (arith, Holds-depth s xs h) in rw depth h.cells_are

-- `ficlStackPush` on a stack that holds some cells, fewer than its size, succeeds and gives a stack
-- of the same size that holds the new cell on top of them.
pub stack_push-Holds :
    (s : Stack) (xs : List ℕ) (c : ℕ)
    → Holds s xs
    → length xs < s.size
    → (t : Stack) × (stack_push s c ≡ ok t) × Holds t (c ∷ xs) × (t.size ≡ s.size)
unfolding stack_push write
stack_push-Holds s xs c h room =
    let depth = Holds-depth s xs h in
    let inside : ltb (s.top + 1) (s.size + 5) ≡ true = ground arith in
    let place : s.top + 1 ≡ 4 + length xs = omega arith in
    let t = record s { top = s.top + 1; cells = put_cell s.cells (s.top + 1) c } in
    let same : cells_to t.cells (suc (length xs)) ≡ c ∷ xs =
      subst
        (λ i. cells_to (put_cell s.cells i c) (suc (length xs)) ≡ c ∷ cells_to s.cells (length xs))
        (sym place) (put_cell-top s.cells (length xs) c)
      ∙ ap (λ ys. c ∷ ys) (Holds-cells s xs h) in
    (
      t,
      rw inside refl,
      Holds-intro t (c ∷ xs) (suc (length xs)) (omega arith) (omega arith) same,
      refl,
    )

pub stack_pop_sized :
    (s : Stack) (xs : List ℕ) (c : ℕ)
    → Holds s (c ∷ xs)
    → (t : Stack) × (stack_pop s ≡ ok (c, t)) × Holds t xs × (t.size ≡ s.size)
unfolding stack_pop read lower
stack_pop_sized s xs c h =
    let depth = Holds-depth s (c ∷ xs) h in
    let cells = Holds-cells s (c ∷ xs) h in
    let place : s.top ≡ 4 + length xs = omega arith in
    let head : s.cells s.top ≡ c = rw place cc in
    let tail : cells_to s.cells (length xs) ≡ xs = cc in
    let inside : ltb s.top (s.size + 5) ≡ true = ground (arith, h.sound.fits) in
    let above : ltb s.top 1 ≡ false = ground arith in
    let t = with_top s (s.top - 1) in
    (
      t,
      rw (inside, above, head) refl,
      Holds-intro t xs (length xs) (omega arith) (omega (arith, h.sound.fits)) tail,
      refl,
    )

pub stack_pop-Holds :
    (s : Stack) (xs : List ℕ) (c : ℕ)
    → Holds s (c ∷ xs)
    → (t : Stack) × (stack_pop s ≡ ok (c, t)) × Holds t xs
stack_pop-Holds s xs c h = let (t, e, k, same) = stack_pop_sized s xs c h in (t, e, k)

pub Holds-found :
    (s : Stack) (xs : List ℕ) (n : ℕ)
    → Holds s xs
    → n < length xs
    → get_elem? xs n ≡ some (s.cells (s.top - n))
Holds-found s xs n h low =
    let below : ltb n (length xs) ≡ true = ground arith in
    let place : s.top - n ≡ 3 + length xs - n = omega (arith, Holds-depth s xs h) in
    let cells = get_elem?-cells_to s.cells (length xs) n in
    ap (λ ys. get_elem? ys n) (sym (Holds-cells s xs h)) ∙ cells ∙ rw (below, place) refl

pub stack_fetch-Holds :
    (s : Stack) (xs : List ℕ) (n c : ℕ)
    → Holds s xs
    → get_elem? xs n ≡ some c
    → stack_fetch s n ≡ ok c
unfolding stack_fetch read lower
stack_fetch-Holds s xs n c h found =
    let depth = Holds-depth s xs h in
    let low = lt_of_get_elem? xs n found in
    let above : ltb s.top n ≡ false = ground arith in
    let inside : ltb (s.top - n) (s.size + 5) ≡ true = ground (arith, h.sound.fits) in
    rw (above, inside) (ap access (sym (Holds-found s xs n h low) ∙ found))

pub stack_check-Holds :
    (w : Which) (s : Stack) (xs : List ℕ) (pops pushes : ℕ)
    → Holds s xs
    → stack_check w s pops pushes ≡ check w s.size (length xs) pops pushes
unfolding stack_check check
stack_check-Holds w s xs pops pushes h =
    let depth = Holds-depth s xs h in
    let one : ltb s.top (3 + pops) ≡ ltb (length xs) pops = ground arith in
    let two : s.top - 3 ≡ length xs = omega arith in rw (one, two) refl
