-- ===== src/Primitives/Structures/Backward.antt =====
-- What the words do that compile backward branches, and `begin … until` as a whole.
use ficl.Common.{
  ℕ, ◌+◌, ◌-◌, ◌*◌, ◌/◌, ◌%◌, ◌^◌, ◌≤◌, ◌<◌, ◌≡◌, inl, refl, ap, ◌∙◌, true, List, ◌∷◌, length, ◌==◌,
  arith, some,
}
use ficl.Cell.{cell_mod, is_negative, sub, negate}
use ficl.Memory.{Memory, load}
use ficl.Outcome.{Outcome, ok, ◌>>=◌}
use ficl.Stack.{Stack, stack_check}
use ficl.Stack.Refinement.{Holds, Holds-depth, stack_check-Holds}
use ficl.Vm.Check.{on_data}
use ficl.Vm.Control.Turns.{pops-ok}
use ficl.Dictionary.{Dictionary}
use ficl.Primitives.{Session, session}
use ficl.Primitives.Structures.{
  Tag, dest_tag, begin_co_im, until_co_im, match_control_tag, pop_cell, compile, patch,
  resolve_back_branch, resolve_abs_branch, cells_from,
}
use ficl.Primitives.Structures.Cells.{
  IsMapped, Writes-widen, Writes-trans, Writes-IsMapped, IsMapped-within, load-Writes, Stores,
  store-Stores, placed, compile-Stores, pop_cell-Holds, one_cell, mark_branch-Holds,
  match_control_tag-Holds,
}
use ficl.Primitives.Structures.Conditional.{Compiled, IsPart}

-- A branch back over `k` cells, as it is compiled.
cells_back : (a h k : ℕ) → a + k * 8 ≡ h → h < 2 ^ 63 → 1 ≤ k → cells_from a h ≡ ok (negate k)
cells_back a h k behind low some_cells =
    let bytes : sub a h ≡ cell_mod - k * 8 = ground (arith, behind, low, some_cells) in
    let whole : ((cell_mod - k * 8) % 8 == 0) ≡ true = ground (arith, behind, low) in
    let back : is_negative (cell_mod - k * 8) ≡ true = ground (arith, behind, low) in
    let cells : negate (negate (cell_mod - k * 8) / 8) ≡ negate k = ground (arith, behind, low) in
    rw (bytes, whole, back, cells) refl

module _ (address_of : Tag → ℕ) where
  resolve_back_branch-does :
      (v w x z : Session) (tag : Tag) (a offset : ℕ)
      → match_control_tag address_of v tag ≡ ok w
      → stack_check on_data w.stack 1 0 ≡ ok tt
      → pop_cell w ≡ ok (a, x)
      → cells_from a x.dictionary.here ≡ ok offset
      → compile x offset ≡ ok z
      → resolve_back_branch address_of v tag ≡ ok z
  unfolding resolve_back_branch
  resolve_back_branch-does v w x z tag a offset matched checked popped cells compiled =
      rw (matched, checked, popped) (ap (λ o. o >>= compile x) cells ∙ compiled)

  pub record Returned (d : Dictionary) (s : Stack) (tag : Tag) (h k : ℕ) (m : Memory) (xs : List ℕ)
      : Type 0 where
    pub stack : Stack
    pub memory : Memory
    pub does :
        resolve_back_branch address_of (session (placed d h m) s) tag
        ≡ ok (session (placed d (h + 8) memory) stack)
    pub holds : Holds stack xs
    pub size : stack.size ≡ s.size
    pub stores : Stores m memory h (negate k)

  pub resolve_back_branch-Returned :
      (d : Dictionary) (s : Stack) (tag : Tag) (h a k : ℕ) (m : Memory) (xs : List ℕ)
      → Holds s (address_of tag ∷ a ∷ xs)
      → IsMapped m h 8
      → a + k * 8 ≡ h
      → h + 8 < 2 ^ 63
      → 1 ≤ k
      → Returned d s tag h k m xs
  resolve_back_branch-Returned d s tag h a k m xs holds mapped behind low some_cells =
      let (t, e, holds', same) =
        match_control_tag-Holds address_of (placed d h m) s (a ∷ xs) tag holds in
      let (u, f, holds'', again) = pop_cell-Holds (placed d h m) t xs a holds' in
      let offset = cells_back a h k behind (omega (arith, low)) some_cells in
      let (m', g, stores) =
        compile-Stores d u h (negate k) m mapped (omega (arith, low)) (omega arith) in
      record {
        stack = u;
        memory = m';
        does =
            resolve_back_branch-does (session (placed d h m) s) (session (placed d h m) t)
              (session (placed d h m) u) (session (placed d (h + 8) m') u) tag a (negate k) e
              (one_cell t xs a holds') f offset g;
        holds = holds'';
        size = again ∙ same;
        stores = stores;
      }

  -- A cell in which the address of `here` is left.
  pub record Left (d : Dictionary) (s : Stack) (tag : Tag) (h a : ℕ) (m : Memory) (xs : List ℕ)
      : Type 0 where
    pub stack : Stack
    pub memory : Memory
    pub does :
        resolve_abs_branch address_of (session (placed d h m) s) tag
        ≡ ok (session (placed d h memory) stack)
    pub holds : Holds stack xs
    pub size : stack.size ≡ s.size
    pub stores : Stores m memory a h

  pub resolve_abs_branch-Left :
      (d : Dictionary) (s : Stack) (tag : Tag) (h a : ℕ) (m : Memory) (xs : List ℕ)
      → Holds s (address_of tag ∷ a ∷ xs)
      → IsMapped m a 8
      → h < cell_mod
      → Left d s tag h a m xs
  unfolding resolve_abs_branch patch
  resolve_abs_branch-Left d s tag h a m xs holds mapped low =
      let depth = Holds-depth s (address_of tag ∷ a ∷ xs) holds in
      let checked : stack_check on_data s 2 0 ≡ ok tt =
        stack_check-Holds on_data s (address_of tag ∷ a ∷ xs) 2 0 holds
        ∙ pops-ok s.size (length (address_of tag ∷ a ∷ xs)) 2 (omega arith)
            (omega (arith, depth, holds.sound.fits)) in
      let (t, e, holds', same) = pop_cell-Holds (placed d h m) s (a ∷ xs) (address_of tag) holds in
      let (u, f, holds'', again) = pop_cell-Holds (placed d h m) t xs a holds' in
      let (m', g, stores) = store-Stores m a h mapped low in
      let found : (address_of tag == address_of tag) ≡ true = ground arith in
      record {
        stack = u;
        memory = m';
        does = rw (checked, e, found, f, g) refl;
        holds = holds'';
        size = again ∙ same;
        stores = stores;
      }

  abbrev pub indefinite : (Session → Outcome Session) → Session → Outcome Session
  indefinite f v = do w ← begin_co_im address_of v; x ← f w; until_co_im address_of x

  pub record RepeatedCode (f : Session → Outcome Session) (d : Dictionary) (s : Stack) (h : ℕ)
      (m : Memory) (xs : List ℕ) (n : ℕ) : Type 0 where
    pub whole : Compiled (indefinite f) d s h m xs (n + 2)
    pub test : load whole.memory 8 (h + n * 8) ≡ some 50
    pub test_operand : load whole.memory 8 (h + 8 + n * 8) ≡ some (negate (n + 1))

  indefinite-does :
      (f : Session → Outcome Session) (v w x y z : Session)
      → begin_co_im address_of v ≡ ok w
      → f w ≡ ok x
      → compile x 50 ≡ ok y
      → resolve_back_branch address_of y dest_tag ≡ ok z
      → indefinite f v ≡ ok z
  unfolding until_co_im
  indefinite-does f v w x y z a b c e = rw (a, b, c) e

  module _ (f : Session → Outcome Session) (n k : ℕ) (f_part : IsPart f n k) (d : Dictionary)
      (s : Stack) (h : ℕ) (m : Memory) (xs : List ℕ) (room : length xs + (k + 2) ≤ s.size)
      (mapped : IsMapped m h ((n + 2) * 8)) (low : h + (n + 2) * 8 < 2 ^ 63) where
    after_body :
        (t : Stack)
        → begin_co_im address_of (session (placed d h m) s) ≡ ok (session (placed d h m) t)
        → t.size ≡ s.size
        → Compiled f d t h m (address_of dest_tag ∷ h ∷ xs) n
        → RepeatedCode f d s h m xs n
    after_body t begins same b =
        let wide = Writes-widen h ((n + 2) * 8) b.writes (omega arith) (omega arith) in
        let test_place : h + 8 + n * 8 ≡ h + n * 8 + 8 = omega arith in
        let end_place : h + n * 8 + 8 + 8 ≡ h + (n + 2) * 8 = omega arith in
        let (m₁, e, first) =
          compile-Stores d b.stack (h + n * 8) 50 b.memory
            (IsMapped-within h ((n + 2) * 8) (h + n * 8) 8
              (Writes-IsMapped h ((n + 2) * 8) wide mapped) (omega arith) (omega arith))
            (omega (arith, low)) (omega arith) in
        let wider =
          Writes-trans wide
            (Writes-widen h ((n + 2) * 8) first.writes (omega arith) (omega arith)) in
        let c =
          resolve_back_branch-Returned d b.stack dest_tag (h + n * 8 + 8) h (n + 1) m₁ xs b.holds
            (IsMapped-within h ((n + 2) * 8) (h + n * 8 + 8) 8
              (Writes-IsMapped h ((n + 2) * 8) wider mapped) (omega arith) (omega arith))
            (omega arith) (omega (arith, low)) (omega arith) in
        record {
          whole = record {
            stack = c.stack;
            memory = c.memory;
            does =
                indefinite-does f (session (placed d h m) s) (session (placed d h m) t)
                  (session (placed d (h + n * 8) b.memory) b.stack)
                  (session (placed d (h + n * 8 + 8) m₁) b.stack)
                  (session (placed d (h + n * 8 + 8 + 8) c.memory) c.stack) begins b.does e c.does
                ∙ ap (λ x. ok (session (placed d x c.memory) c.stack)) end_place;
            holds = c.holds;
            size = c.size ∙ b.size ∙ same;
            writes =
                Writes-trans wider
                  (Writes-widen h ((n + 2) * 8) c.stores.writes (omega arith) (omega arith));
          };
          test = load-Writes (h + n * 8) c.stores.writes (inl (omega arith)) ∙ first.reads;
          test_operand = rw test_place c.stores.reads;
        }

    pub indefinite-RepeatedCode : Holds s xs → RepeatedCode f d s h m xs n
    unfolding begin_co_im
    indefinite-RepeatedCode holds =
        let (t, e, holds', same) =
          mark_branch-Holds address_of (placed d h m) s xs dest_tag holds (omega (arith, room)) in
        after_body t e same (
          f_part d t h m (address_of dest_tag ∷ h ∷ xs) holds' (omega (arith, room, same))
            (IsMapped-within h ((n + 2) * 8) h (n * 8) mapped (omega arith) (omega arith))
            (omega (arith, low)))
