-- ===== src/Primitives/Structures/Tests.antt =====
-- What `while` compiles.
use ficl.Common.{ℕ, ◌+◌, ◌^◌, ◌≤◌, ◌<◌, ◌≡◌, inl, refl, ◌∙◌, List, ◌∷◌, length, arith, some}
use ficl.Memory.{Memory, load}
use ficl.Outcome.{ok}
use ficl.Stack.{Stack, stack_check}
use ficl.Stack.Refinement.{Holds, stack_check-Holds}
use ficl.Stack.Rolls.{stack_roll-three}
use ficl.Vm.Check.{on_data, check}
use ficl.Dictionary.{Dictionary}
use ficl.Primitives.{session}
use ficl.Primitives.Structures.{Tag, dest_tag, orig_tag, while_co_im}
use ficl.Primitives.Structures.Cells.{
  IsMapped, Writes, Writes-widen, Writes-trans, Writes-IsMapped, IsMapped-within, load-Writes,
  placed, compile-Stores, mark_branch-Holds,
}

checked : (size depth : ℕ) → 2 ≤ depth → depth + 3 ≤ size → check on_data size depth 2 5 ≡ ok tt
unfolding check
checked size depth deep room = ground arith

module _ (address_of : Tag → ℕ) where
  -- `while` leaves its own mark under that of `begin`.
  pub record Tested (d : Dictionary) (s : Stack) (h start : ℕ) (m : Memory) (xs : List ℕ)
      : Type 0 where
    pub stack : Stack
    pub memory : Memory
    pub does :
        while_co_im address_of (session (placed d h m) s)
        ≡ ok (session (placed d (h + 16) memory) stack)
    pub holds : Holds stack (address_of dest_tag ∷ start ∷ address_of orig_tag ∷ (h + 8) ∷ xs)
    pub size : stack.size ≡ s.size
    pub writes : Writes m memory h 16
    pub reads : load memory 8 h ≡ some 50

  pub while_co_im-Tested :
      (d : Dictionary) (s : Stack) (h start : ℕ) (m : Memory) (xs : List ℕ)
      → Holds s (address_of dest_tag ∷ start ∷ xs)
      → length xs + 5 ≤ s.size
      → IsMapped m h 16
      → h + 16 < 2 ^ 63
      → Tested d s h start m xs
  unfolding while_co_im
  while_co_im-Tested d s h start m xs holds room mapped low =
      let marks = address_of dest_tag ∷ start ∷ xs in
      let passes : stack_check on_data s 2 5 ≡ ok tt =
        stack_check-Holds on_data s marks 2 5 holds
        ∙ checked s.size (length marks) (omega arith) (omega (arith, room)) in
      let (m', e, first) =
        compile-Stores d s h 50 m (IsMapped-within h 16 h 8 mapped (omega arith) (omega arith))
          (omega arith) (omega arith) in
      let (t, f, holds₁, same₁) =
        mark_branch-Holds address_of (placed d (h + 8) m') s marks orig_tag holds
          (omega (arith, room)) in
      let (u, g, holds₂, same₂) =
        stack_roll-three t xs (address_of orig_tag) (h + 8) (address_of dest_tag) start holds₁ in
      let (w, i, holds₃, same₃) =
        stack_roll-three u xs start (address_of orig_tag) (h + 8) (address_of dest_tag) holds₂ in
      let wide = Writes-widen h 16 first.writes (omega arith) (omega arith) in
      let (m'', j, second) =
        compile-Stores d w (h + 8) 1 m'
          (IsMapped-within h 16 (h + 8) 8 (Writes-IsMapped h 16 wide mapped) (omega arith)
            (omega arith))
          (omega arith) (omega arith) in
      let place : h + 8 + 8 ≡ h + 16 = omega arith in
      record {
        stack = w;
        memory = m'';
        does = rw (passes, e, f, g, i, j, place) refl;
        holds = holds₃;
        size = same₃ ∙ same₂ ∙ same₁;
        writes = Writes-trans wide (Writes-widen h 16 second.writes (omega arith) (omega arith));
        reads = load-Writes h second.writes (inl (omega arith)) ∙ first.reads;
      }
