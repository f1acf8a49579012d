-- ===== src/Stack/Doubles.antt =====
-- Doubles on the stack, and two cells that are dropped.
use ficl.Common.{ℕ, ◌+◌, ◌-◌, ◌≤◌, ◌≡◌, refl, ◌∙◌, false, List, ◌∷◌, length, ltb, arith}
use ficl.Outcome.{ok}
use ficl.Double.{Double}
use ficl.Stack.{Stack, with_top, lower, stack_drop, stack_push_double, stack_pop_double}
use ficl.Stack.Refinement.{
  cells_to, Holds, Holds-depth, Holds-cells, Holds-intro, stack_push-Holds, stack_pop_sized,
}

-- A double is two cells, the high one on top.
pub stack_pop_double-Holds :
    (s : Stack) (xs : List ℕ) (u : Double)
    → Holds s (u.high ∷ u.low ∷ xs)
    → (t : Stack) × (stack_pop_double s ≡ ok (u, t)) × Holds t xs × (t.size ≡ s.size)
unfolding stack_pop_double
stack_pop_double-Holds s xs u h =
    let (t, e, k, same) = stack_pop_sized s (u.low ∷ xs) u.high h in
    let (v, f, l, again) = stack_pop_sized t xs u.low k in (v, rw (e, f) refl, l, again ∙ same)

pub stack_push_double-Holds :
    (s : Stack) (xs : List ℕ) (u : Double)
    → Holds s xs
    → length xs + 2 ≤ s.size
    → (t : Stack) × (stack_push_double s u ≡ ok t)
      × Holds t (u.high ∷ u.low ∷ xs)
      × (t.size ≡ s.size)
unfolding stack_push_double
stack_push_double-Holds s xs u h room =
    let (t, e, k, same) = stack_push-Holds s xs u.low h (omega arith) in
    let (v, f, l, again) = stack_push-Holds t (u.low ∷ xs) u.high k (omega (arith, room, same)) in
    (v, rw (e, f) refl, l, again ∙ same)

pub stack_drop-two :
    (s : Stack) (xs : List ℕ) (a b : ℕ)
    → Holds s (a ∷ b ∷ xs)
    → (t : Stack) × (stack_drop s 2 ≡ ok t) × Holds t xs × (t.size ≡ s.size)
unfolding stack_drop lower
stack_drop-two s xs a b h =
    let depth = Holds-depth s (a ∷ b ∷ xs) h in
    let cells = Holds-cells s (a ∷ b ∷ xs) h in
    let above : ltb s.top 2 ≡ false = ground arith in
    let tail : cells_to s.cells (length xs) ≡ xs = cc in
    let t = with_top s (s.top - 2) in
    (
      t,
      rw above refl,
      Holds-intro t xs (length xs) (omega arith) (omega (arith, h.sound.fits)) tail,
      refl,
    )
