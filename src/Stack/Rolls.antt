-- ===== src/Stack/Rolls.antt =====
-- `ficlStackRoll` moves the cells that the instructions `roll` and `-roll` move.
use mathlib.Core.Path.{subst}
use ficl.Common.{
  ℕ, zero, suc, ◌+◌, ◌-◌, ◌≤◌, ◌<◌, ◌≡◌, refl, sym, true, false, ◌&&◌, List, [], ◌∷◌, ◌++◌, length,
  get_elem?, take, drop, some, ltb, leb, ◌==◌, if◌then◌else◌, arith, get_elem?_ext,
}
use ficl.Common.Int.{pos, negsuc}
use ficl.Outcome.{ok-inj, ok}
use ficl.Vm.Shuffle.{roll_cells, minus_roll_cells}
use ficl.Vm.Check.{pop}
use ficl.Stack.{
  Stack, put_cell, read, write, lower, roll_up, roll_down, roll_to_top, roll_from_top, stack_roll,
}
use ficl.Stack.Refinement.{
  cells_to, Holds, Holds-depth, Holds-intro, Holds-cells, Holds-found, get_elem?-cells_to,
  length-cells_to,
}

roll_up_lem :
    (n i : ℕ) (s : Stack)
    → i + n < s.size + 5
    → (f : ℕ → ℕ) × (roll_up n s i ≡ ok (record s { cells = f }))
      × ((j : ℕ) → f j ≡ (if leb i j && ltb j (i + n) then s.cells (suc j) else s.cells j))
unfolding roll_up read write
roll_up_lem zero i s h = (s.cells, refl, λ j. ground arith)
roll_up_lem (suc n) i s h =
    let here : ltb i (s.size + 5) ≡ true = ground arith in
    let next : ltb (i + 1) (s.size + 5) ≡ true = ground arith in
    let s' = record s { cells = put_cell s.cells i (s.cells (i + 1)) } in
    let (f, e, same) = roll_up_lem n (i + 1) s' (omega arith) in
    (f, rw (roll_up, next, here) e, λ j. ground (arith, same j))

-- A list whose cell at `m` has gone to the top.
get_elem?-taken :
    (m : ℕ) (xs : List ℕ) (k : ℕ)
    → m < length xs
    → get_elem? (take m xs ++ drop (suc m) xs) k
      ≡ (if ltb k m then get_elem? xs k else get_elem? xs (suc k))
get_elem?-taken m [] k h = absurd (omega (arith, h))
get_elem?-taken zero (x ∷ xs) k h = ground arith
get_elem?-taken (suc m) (x ∷ xs) zero h = ground arith
get_elem?-taken (suc m) (x ∷ xs) (suc k) h =
    let rest = get_elem?-taken m xs k (omega arith) in
    let same : ltb (suc k) (suc m) ≡ ltb k m = ground arith in rw same rest

-- The array after a roll up from `m` cells below the top.
rolled_cells :
    (cells g : ℕ → ℕ) (d m : ℕ)
    → m < d
    → ((j : ℕ)
        → g j ≡ (
            if j == 3 + d
            then cells (3 + d - m)
            else if leb (3 + d - m) j && ltb j (3 + d)
            then cells (suc j)
            else cells j))
    → cells_to g d
      ≡ cells (3 + d - m) ∷ (take m (cells_to cells d) ++ drop (suc m) (cells_to cells d))
rolled_cells cells g d m h same =
    get_elem?_ext (cells_to g d)
      (cells (3 + d - m) ∷ (take m (cells_to cells d) ++ drop (suc m) (cells_to cells d))) at
  where
    at :
        (k : ℕ)
        → get_elem? (cells_to g d) k
          ≡ get_elem?
              (cells (3 + d - m) ∷ (take m (cells_to cells d) ++ drop (suc m) (cells_to cells d)))
              k
    at zero = ground (arith, get_elem?-cells_to g d 0, same (3 + d))
    at (suc k) = ground (
      arith,
      get_elem?-cells_to g d (suc k),
      same (3 + d - suc k),
      get_elem?-taken m (cells_to cells d) k,
      length-cells_to cells d,
      get_elem?-cells_to cells d k,
      get_elem?-cells_to cells d (suc k),
    )

roll_to_top-Holds :
    (s : Stack) (xs : List ℕ) (m : ℕ)
    → Holds s xs
    → m < length xs
    → (ys : List ℕ) × (t : Stack) × (roll_cells m xs ≡ ok ys)
      × (roll_to_top s m ≡ ok t)
      × Holds t ys
      × (t.size ≡ s.size)
unfolding roll_cells roll_to_top lower read write
roll_to_top-Holds s xs m h low =
    let depth = Holds-depth s xs h in
    let d = length xs in
    let i = s.top - m in
    let c = s.cells i in
    let above : ltb s.top m ≡ false = ground arith in
    let inside : ltb i (s.size + 5) ≡ true = ground (arith, h.sound.fits) in
    let inside_top : ltb s.top (s.size + 5) ≡ true = ground (arith, h.sound.fits) in
    let (f, e, same) = roll_up_lem m i s (omega (arith, h.sound.fits)) in
    let g = put_cell f s.top c in
    let rolled = rolled_cells s.cells g d m low (λ j. ground (arith, same j)) in
    let place : s.top - m ≡ 3 + d - m = omega arith in
    let cells = Holds-cells s xs h in
    let moved : cells_to g d ≡ c ∷ (take m xs ++ drop (suc m) xs) =
      subst (λ zs. cells_to g d ≡ s.cells (s.top - m) ∷ (take m zs ++ drop (suc m) zs)) cells
        (subst
          (λ k.
            cells_to g d
            ≡ s.cells k ∷ (take m (cells_to s.cells d) ++ drop (suc m) (cells_to s.cells d)))
          (sym place) rolled) in
    let t = record s { cells = g } in
    (
      c ∷ (take m xs ++ drop (suc m) xs),
      t,
      rw (roll_cells, Holds-found s xs m h low) refl,
      rw (above, inside, e, inside_top) refl,
      Holds-intro t (c ∷ (take m xs ++ drop (suc m) xs)) d depth (omega (arith, h.sound.fits))
          moved,
      refl,
    )

-- `ficlStackRoll` of the cells of the array, with a count that is not negative and below the depth,
-- agrees with the model of `roll` on the list of cells: both succeed and the array then holds that
-- list.
pub stack_roll-Holds :
    (s : Stack) (xs : List ℕ) (n : ℕ)
    → Holds s xs
    → n < length xs
    → (ys : List ℕ) × (t : Stack) × (roll_cells n xs ≡ ok ys)
      × (stack_roll s (pos n) ≡ ok t)
      × Holds t ys
unfolding stack_roll roll_cells
stack_roll-Holds s [] zero h low = absurd (omega (arith, low))
stack_roll-Holds s (x ∷ xs) zero h low = (x ∷ xs, s, refl, refl, h)
stack_roll-Holds s xs (suc n) h low =
    let (ys, t, e, f, k, same) = roll_to_top-Holds s xs (suc n) h low in (ys, t, e, f, k)

-- `ficlStackRoll` of 3.
pub stack_roll-three :
    (s : Stack) (xs : List ℕ) (a b c d : ℕ)
    → Holds s (a ∷ b ∷ c ∷ d ∷ xs)
    → (t : Stack) × (stack_roll s (pos 3) ≡ ok t) × Holds t (d ∷ a ∷ b ∷ c ∷ xs) × (t.size ≡ s.size)
unfolding stack_roll roll_cells
stack_roll-three s xs a b c d h =
    let (ys, t, e, f, k, same) = roll_to_top-Holds s (a ∷ b ∷ c ∷ d ∷ xs) 3 h (omega arith) in
    (t, f, subst (Holds t) (sym (ok-inj e)) k, same)

roll_down_lem :
    (n i : ℕ) (s : Stack)
    → n ≤ i
    → i < s.size + 5
    → (f : ℕ → ℕ) × (roll_down n s i ≡ ok (record s { cells = f }))
      × ((j : ℕ) → f j ≡ (if ltb (i - n) j && leb j i then s.cells (j - 1) else s.cells j))
unfolding roll_down read write
roll_down_lem zero i s low h = (s.cells, refl, λ j. ground arith)
roll_down_lem (suc n) i s low h =
    let positive : (i == 0) ≡ false = ground arith in
    let here : ltb i (s.size + 5) ≡ true = ground arith in
    let next : ltb (i - 1) (s.size + 5) ≡ true = ground arith in
    let s' = record s { cells = put_cell s.cells i (s.cells (i - 1)) } in
    let (f, e, same) = roll_down_lem n (i - 1) s' (omega arith) (omega arith) in
    (f, rw (roll_down, positive, next, here) e, λ j. ground (arith, same j))

-- A list whose first cell has gone to `m`.
get_elem?-put_back :
    (m c : ℕ) (r : List ℕ) (k : ℕ)
    → m ≤ length r
    → get_elem? (take m r ++ c ∷ drop m r) k ≡ (
        if ltb k m
        then get_elem? (c ∷ r) (suc k)
        else if k == m
        then some c
        else get_elem? (c ∷ r) k)
get_elem?-put_back zero c r zero h = ground arith
get_elem?-put_back zero c r (suc k) h = ground arith
get_elem?-put_back (suc m) c [] k h = absurd (omega (arith, h))
get_elem?-put_back (suc m) c (x ∷ r) zero h = ground arith
get_elem?-put_back (suc m) c (x ∷ r) (suc k) h = ground (arith, get_elem?-put_back m c r k)

lowered_cells :
    (cells g : ℕ → ℕ) (d m : ℕ)
    → m ≤ d
    → ((j : ℕ)
        → g j ≡ (
            if j == 4 + d - m
            then cells (4 + d)
            else if ltb (4 + d - m) j && leb j (4 + d)
            then cells (j - 1)
            else cells j))
    → cells_to g (suc d) ≡ take m (cells_to cells d) ++ cells (4 + d) ∷ drop m (cells_to cells d)
lowered_cells cells g d m h same =
    get_elem?_ext (cells_to g (suc d))
      (take m (cells_to cells d) ++ cells (4 + d) ∷ drop m (cells_to cells d)) at
  where
    at :
        (k : ℕ)
        → get_elem? (cells_to g (suc d)) k
          ≡ get_elem? (take m (cells_to cells d) ++ cells (4 + d) ∷ drop m (cells_to cells d)) k
    at k = ground (
      arith,
      get_elem?-cells_to g (suc d) k,
      same (3 + suc d - k),
      get_elem?-put_back m (cells (4 + d)) (cells_to cells d) k,
      length-cells_to cells d,
      get_elem?-cells_to cells (suc d) k,
      get_elem?-cells_to cells (suc d) (suc k),
    )

roll_from_top-Holds :
    (s : Stack) (c : ℕ) (r : List ℕ) (m : ℕ)
    → Holds s (c ∷ r)
    → m ≤ length r
    → (ys : List ℕ) × (t : Stack) × (minus_roll_cells m (c ∷ r) ≡ ok ys)
      × (roll_from_top s m ≡ ok t)
      × Holds t ys
unfolding minus_roll_cells roll_from_top lower read write pop
roll_from_top-Holds s c r m h low =
    let depth = Holds-depth s (c ∷ r) h in
    let d = length r in
    let place : s.top ≡ 4 + d = omega arith in
    let fits : ltb (length r) m ≡ false = ground arith in
    let above : ltb s.top m ≡ false = ground arith in
    let inside : ltb (s.top - m) (s.size + 5) ≡ true = ground (arith, h.sound.fits) in
    let inside_top : ltb s.top (s.size + 5) ≡ true = ground (arith, h.sound.fits) in
    let (f, e, same) = roll_down_lem m s.top s (omega arith) (omega (arith, h.sound.fits)) in
    let cells = Holds-cells s (c ∷ r) h in
    let rest : cells_to s.cells d ≡ r = cc in
    let head : s.cells (4 + d) ≡ c = cc in
    let last : s.cells s.top ≡ c = rw place head in
    let g = put_cell f (s.top - m) (s.cells s.top) in
    let lowered = lowered_cells s.cells g d m low (λ j. ground (arith, same j)) in
    let moved : cells_to g (suc d) ≡ take m r ++ c ∷ drop m r =
      subst (λ zs. cells_to g (suc d) ≡ take m zs ++ c ∷ drop m zs) rest
        (subst
          (λ x. cells_to g (suc d) ≡ take m (cells_to s.cells d) ++ x ∷ drop m (cells_to s.cells d))
          head lowered) in
    let t = record s { cells = g } in
    (
      take m r ++ c ∷ drop m r,
      t,
      rw fits refl,
      rw (inside_top, e, above, inside) refl,
      Holds-intro t (take m r ++ c ∷ drop m r) (suc d) (omega arith) (omega (arith, h.sound.fits))
          moved,
    )

pub stack_roll-Holds_down :
    (s : Stack) (xs : List ℕ) (n : ℕ)
    → Holds s xs
    → suc n < length xs
    → (ys : List ℕ) × (t : Stack) × (minus_roll_cells (suc n) xs ≡ ok ys)
      × (stack_roll s (negsuc n) ≡ ok t)
      × Holds t ys
unfolding stack_roll
stack_roll-Holds_down s [] n h low = absurd (omega (arith, low))
stack_roll-Holds_down s (c ∷ r) n h low = roll_from_top-Holds s c r (suc n) h (omega (arith, low))
