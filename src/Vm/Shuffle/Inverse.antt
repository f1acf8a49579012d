-- ===== src/Vm/Shuffle/Inverse.antt =====
-- `-roll` undoes `roll`, and rolling keeps every cell.
use mathlib.Core.List.{Perm, perm_middle}
use mathlib.Core.List.Perm
use mathlib.Core.Path.{subst}
use ficl.Common.{
  ℕ, suc, ◌+◌, ◌≡◌, refl, false, List, ◌∷◌, ◌++◌, length, get_elem?, take, drop, ltb, none, some,
  arith, length-append, length-take, length-drop, Option, Bool-cases, lt_of_get_elem?,
  take-append_take, drop-append_take, around, inl, inr,
}
use ficl.Outcome.{ok, ◌>>=◌, access, >>=-eq-ok}
use ficl.Vm.Check.{on_data, check, check_deep, pop}
use ficl.Vm.Shuffle.{
  roll, minus_roll, roll_cells, minus_roll_cells, roll_from, minus_roll_from, shuffle, below_one,
}

-- A successful roll took a cell out of the middle.
record Rolled (i : ℕ) (s t : List ℕ) : Type 0 where
  c : ℕ
  found : get_elem? s i ≡ some c
  moved : t ≡ c ∷ (take i s ++ drop (suc i) s)

roll_cells-Rolled : (i : ℕ) (s t : List ℕ) → roll_cells i s ≡ ok t → Rolled i s t
unfolding roll_cells
roll_cells-Rolled i s t h = go (get_elem? s i) refl h
  where
    go :
        (o : Option ℕ)
        → get_elem? s i ≡ o
        → (access o >>= λ c. ok (c ∷ (take i s ++ drop (suc i) s))) ≡ ok t
        → Rolled i s t
    go none e k = cc
    go (some c) e k = record { c = c; found = e; moved = cc }

length-Rolled : (i : ℕ) (s t : List ℕ) → Rolled i s t → length t ≡ length s
length-Rolled i s t r = rw r.moved (
    omega (
      arith,
      lt_of_get_elem? s i r.found,
      length-append (take i s) (drop (suc i) s),
      length-take i s,
      length-drop (suc i) s,
    ))

minus_roll_cells-roll_cells : (i : ℕ) (s t : List ℕ) → Rolled i s t → minus_roll_cells i t ≡ ok s
unfolding minus_roll_cells
minus_roll_cells-roll_cells i s t r =
    let room = lt_of_get_elem? s i r.found in
    let rest : List ℕ = take i s ++ drop (suc i) s in
    let fits : ltb (length rest) i ≡ false =
      ground (
        arith,
        length-append (take i s) (drop (suc i) s),
        length-take i s,
        length-drop (suc i) s,
      ) in
    rw (
      r.moved,
      pop,
      fits,
      take-append_take i s (drop (suc i) s) (omega arith),
      drop-append_take i s (drop (suc i) s) (omega arith),
      around i s r.found,
    )

Rolled-perm : (i : ℕ) (s t : List ℕ) → Rolled i s t → Perm t s
Rolled-perm i s t r = rw r.moved (
    subst (λ u. Perm (r.c ∷ (take i s ++ drop (suc i) s)) u) (around i s r.found)
      (Perm.symm (perm_middle (take i s) (drop (suc i) s))))

roll_from_undone :
    (size i : ℕ) (s t : List ℕ)
    → roll_from size i s ≡ ok t
    → (minus_roll_from size i t ≡ ok s) × (length t ≡ length s) × Perm t s
unfolding roll_from minus_roll_from
roll_from_undone size i s t h =
    let (u, passed, moved) = >>=-eq-ok (check_deep size (length s) (i + 1)) _ h in
    let r = roll_cells-Rolled i s t moved in
    let same = length-Rolled i s t r in
    (rw (same, passed) (minus_roll_cells-roll_cells i s t r), same, Rolled-perm i s t r)

-- Where `roll` with some count succeeds, `-roll` with the same count succeeds on its result and
-- gives the stack back, and the result holds the same cells.
pub minus_roll-roll :
    (size n : ℕ) (s t : List ℕ)
    → shuffle size roll (n ∷ s) ≡ ok t
    → (shuffle size minus_roll (n ∷ t) ≡ ok s) × Perm t s
unfolding shuffle
minus_roll-roll size n s t h =
    let (u, passed, moved) = >>=-eq-ok (check on_data size (suc (length s)) 1 0) _ h in
    elim (Bool-cases (below_one n)) [
      | inl e ↦
          let same : s ≡ t = ground (arith, moved) in
          (rw (← same, passed, e) refl, rw (← same) (Perm.refl s))
      | inr e ↦
          let (back, same, perm) = roll_from_undone size n s t (ground (arith, moved)) in
          let again : check on_data size (suc (length t)) 1 0 ≡ ok u = rw same passed in
          (rw (again, e) back, perm)
    ]
