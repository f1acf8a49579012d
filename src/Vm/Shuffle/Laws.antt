-- ===== src/Vm/Shuffle/Laws.antt =====
-- What the stack instructions do to a stack: its depth, its cells, and which of them undo others.
use ficl.Common.{
  ℕ, suc, ◌-◌, ◌^◌, ◌≤◌, ◌<◌, ◌≡◌, refl, List, [], ◌∷◌, ◌++◌, length, get_elem?, take, drop, ltb,
  none, some, arith, length-append, length-take, length-drop, Option, Bool-cases, lt_of_get_elem?,
  get_elem?_of_lt, inl, inr, ◌⊎◌,
}
use ficl.Outcome.{Outcome, ok, thrown, fault, ◌>>=◌, ◌>>◌, access}
use ficl.Vm.Check.{check_deep}
use ficl.Vm.Shuffle.{
  Shuffle, dup, question_dup, swap, drop_one, two_drop, two_dup, over, two_over, pick, rot, roll,
  minus_rot, minus_roll, two_swap, roll_cells, minus_roll_cells, roll_from, minus_roll_from,
  shuffle,
}

-- The depth of a result, at most `n`; anything else than a result is fine.
abbrev pub DepthAtMost : ℕ → Outcome (List ℕ) → Type 0
DepthAtMost n (ok s) = length s ≤ n
DepthAtMost n (thrown e) = Unit
DepthAtMost n fault = Unit

DepthAtMost-guard :
    (n : ℕ) (c : Outcome (Unit {0})) (m : Outcome (List ℕ))
    → DepthAtMost n m
    → DepthAtMost n (c >> m)
DepthAtMost-guard n (ok u) m h = h
DepthAtMost-guard n (thrown e) m h = tt
DepthAtMost-guard n fault m h = tt

roll_cells-depth : (i : ℕ) (s : List ℕ) → DepthAtMost (length s) (roll_cells i s)
unfolding roll_cells
roll_cells-depth i s = go (get_elem? s i) (λ c e. lt_of_get_elem? s i e)
  where
    go :
        (o : Option ℕ)
        → ((c : ℕ) → o ≡ some c → i < length s)
        → DepthAtMost (length s) (access o >>= λ c. ok (c ∷ (take i s ++ drop (suc i) s)))
    go none k = tt
    go (some c) k = omega (
      arith,
      k c refl,
      length-append (take i s) (drop (suc i) s),
      length-take i s,
      length-drop (suc i) s,
    )

minus_roll_cells-depth : (i : ℕ) (s : List ℕ) → DepthAtMost (length s) (minus_roll_cells i s)
unfolding minus_roll_cells
minus_roll_cells-depth i [] = tt
minus_roll_cells-depth i (c ∷ r) =
    ground (arith, length-append (take i r) (c ∷ drop i r), length-take i r, length-drop i r)

DepthAtMost-mono : (m n : ℕ) (o : Outcome (List ℕ)) → m ≤ n → DepthAtMost m o → DepthAtMost n o
DepthAtMost-mono m n (ok s) h d = omega (arith, h, d)
DepthAtMost-mono m n (thrown e) h d = tt
DepthAtMost-mono m n fault h d = tt

roll_from-depth :
    (size i : ℕ) (s : List ℕ) → length s ≤ size → DepthAtMost size (roll_from size i s)
unfolding roll_from
roll_from-depth size i s h =
    DepthAtMost-guard size _ _ (DepthAtMost-mono _ _ _ h (roll_cells-depth i s))

minus_roll_from-depth :
    (size i : ℕ) (s : List ℕ) → length s ≤ size → DepthAtMost size (minus_roll_from size i s)
unfolding minus_roll_from
minus_roll_from-depth size i s h =
    DepthAtMost-guard size _ _ (DepthAtMost-mono _ _ _ h (minus_roll_cells-depth i s))

-- On a data stack that is within its size, an instruction that only moves cells leaves a stack
-- within its size whenever it gives a result.
pub shuffle-fits :
    (size : ℕ) (i : Shuffle) (s : List ℕ) → length s ≤ size → DepthAtMost size (shuffle size i s)
unfolding shuffle
shuffle-fits size dup [] h = tt
shuffle-fits size dup (x ∷ s) h = ground arith
shuffle-fits size question_dup s h = ground arith
shuffle-fits size swap s h = ground arith
shuffle-fits size drop_one s h = ground arith
shuffle-fits size two_drop s h = ground arith
shuffle-fits size two_dup s h = ground arith
shuffle-fits size over s h = ground arith
shuffle-fits size two_over s h = ground arith
shuffle-fits size pick [] h = ground arith
shuffle-fits size pick (n ∷ r) h = ground arith
shuffle-fits size rot s h = roll_from-depth size 2 s h
shuffle-fits size roll [] h = ground arith
shuffle-fits size roll (n ∷ r) h = ground (arith, roll_from-depth size n r)
shuffle-fits size minus_rot s h = minus_roll_from-depth size 2 s h
shuffle-fits size minus_roll [] h = ground arith
shuffle-fits size minus_roll (n ∷ r) h = ground (arith, minus_roll_from-depth size n r)
shuffle-fits size two_swap s h = ground arith

-- An answer: a result or an error, never an access below the bottom of the stack.
abbrev pub IsAnswer {ℓ} : {A : Type ℓ} → Outcome A → Type 0
IsAnswer (ok a) = Unit
IsAnswer (thrown e) = Unit
IsAnswer fault = ⊥

-- What an instruction relies on without a check: `dup` on a cell to copy, and those that take a
-- count on one that survives the cut to an `int`.
abbrev pub Guarded : Shuffle → List ℕ → Type 0
Guarded dup s = 1 ≤ length s
Guarded pick (n ∷ r) = (n < 2 ^ 31 - 2) ⊎ (2 ^ 63 ≤ n)
Guarded roll (n ∷ r) = (n < 2 ^ 31 - 2) ⊎ (2 ^ 63 ≤ n)
Guarded minus_roll (n ∷ r) = (n < 2 ^ 31 - 2) ⊎ (2 ^ 63 ≤ n)
Guarded _ s = Unit

roll_from-IsAnswer : (size i : ℕ) (s : List ℕ) → i < 2 ^ 31 - 2 → IsAnswer (roll_from size i s)
unfolding roll_from roll_cells check_deep
roll_from-IsAnswer size i s h = elim (Bool-cases (ltb i (length s))) [
  | inl e ↦ let (c, f) = get_elem?_of_lt s i (ground arith) in ground arith
  | inr e ↦ ground arith
]

minus_roll_from-IsAnswer :
    (size i : ℕ) (s : List ℕ) → i < 2 ^ 31 - 2 → IsAnswer (minus_roll_from size i s)
unfolding minus_roll_from minus_roll_cells check_deep
minus_roll_from-IsAnswer size i [] h = ground arith
minus_roll_from-IsAnswer size i (x ∷ s) h = ground arith

-- An instruction that only moves cells of the data stack gives a result or throws an error and
-- never reaches below the bottom of the stack, where `dup` has a cell to copy and the count of
-- `pick`, `roll` or `-roll` is below 2 ^ 31 - 2 or negative; the other instructions need no
-- condition.
pub shuffle-IsAnswer :
    (size : ℕ) (i : Shuffle) (s : List ℕ) → Guarded i s → IsAnswer (shuffle size i s)
unfolding shuffle
shuffle-IsAnswer size dup [] g = absurd (omega (arith, g))
shuffle-IsAnswer size dup (x ∷ s) g = ground arith
shuffle-IsAnswer size question_dup s g = ground arith
shuffle-IsAnswer size swap s g = ground arith
shuffle-IsAnswer size drop_one s g = ground arith
shuffle-IsAnswer size two_drop s g = ground arith
shuffle-IsAnswer size two_dup s g = ground arith
shuffle-IsAnswer size over s g = ground arith
shuffle-IsAnswer size two_over [] g = ground arith
shuffle-IsAnswer size two_over (a ∷ []) g = ground arith
shuffle-IsAnswer size two_over (a ∷ b ∷ []) g = ground arith
shuffle-IsAnswer size two_over (a ∷ b ∷ c ∷ []) g = ground arith
shuffle-IsAnswer size two_over (a ∷ b ∷ c ∷ d ∷ s) g = ground arith
shuffle-IsAnswer size pick [] g = ground arith
shuffle-IsAnswer size pick (n ∷ r) g = elim (Bool-cases (ltb n (length r))) [
  | inl e ↦ let (c, f) = get_elem?_of_lt r n (ground arith) in ground arith
  | inr e ↦ ground arith
]
shuffle-IsAnswer size rot s g = roll_from-IsAnswer size 2 s (omega arith)
shuffle-IsAnswer size roll [] g = ground arith
shuffle-IsAnswer size roll (n ∷ r) g = ground (arith, roll_from-IsAnswer size n r)
shuffle-IsAnswer size minus_rot s g = minus_roll_from-IsAnswer size 2 s (omega arith)
shuffle-IsAnswer size minus_roll [] g = ground arith
shuffle-IsAnswer size minus_roll (n ∷ r) g = ground (arith, minus_roll_from-IsAnswer size n r)
shuffle-IsAnswer size two_swap s g = ground arith
