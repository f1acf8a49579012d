-- ===== src/Primitives/Structures/Loops.antt =====
-- `do … loop` as a whole, and the two cells that its words leave for the inner interpreter.
use ficl.Common.{
  ℕ, ◌+◌, ◌*◌, ◌^◌, ◌≤◌, ◌<◌, ◌≡◌, inl, inr, refl, ap, ◌∙◌, List, ◌∷◌, length, arith, some,
}
use ficl.Cell.{negate}
use ficl.Memory.{Memory, load}
use ficl.Outcome.{Outcome, ok, ◌>>=◌}
use ficl.Stack.{Stack}
use ficl.Stack.Refinement.{Holds}
use ficl.Dictionary.{Dictionary}
use ficl.Primitives.{Session, session}
use ficl.Primitives.Structures.{
  Tag, do_tag, leave_tag, Instruction, code, do_co_im, loop_co_im, compile, resolve_back_branch,
  resolve_abs_branch,
}
use ficl.Primitives.Structures.Cells.{
  IsMapped, Writes, Writes-widen, Writes-trans, Writes-IsMapped, IsMapped-within, load-Writes,
  Stores, placed, compile-Stores, mark_branch-Holds,
}
use ficl.Primitives.Structures.Conditional.{Compiled, IsPart}
use ficl.Primitives.Structures.Backward.{
  Returned, resolve_back_branch-Returned, Left, resolve_abs_branch-Left,
}

code_fits : (i : Instruction) → code i < 2 ^ 64
code_fits Instruction.branch_with_check = omega arith
code_fits Instruction.branch_0_with_check = omega arith
code_fits Instruction.of_instruction = omega arith
code_fits Instruction.do_instruction = omega arith
code_fits Instruction.q_do_instruction = omega arith
code_fits Instruction.loop_instruction = omega arith
code_fits Instruction.plus_loop_instruction = omega arith
code_fits Instruction.drop_instruction = omega arith

module _ (address_of : Tag → ℕ) where
  -- What `do` leaves: the cell for the end of the loop, and the head of it.
  abbrev loop_marks : ℕ → List ℕ → List ℕ
  loop_marks h xs = address_of do_tag ∷ (h + 16) ∷ address_of leave_tag ∷ (h + 8) ∷ xs

  record Entered (i : Instruction) (d : Dictionary) (s : Stack) (h : ℕ) (m : Memory) (xs : List ℕ)
      : Type 0 where
    stack : Stack
    memory : Memory
    does :
        do_co_im address_of i (session (placed d h m) s)
        ≡ ok (session (placed d (h + 16) memory) stack)
    holds : Holds stack (loop_marks h xs)
    size : stack.size ≡ s.size
    writes : Writes m memory h 16
    reads : load memory 8 h ≡ some (code i)

  do_co_im-Entered :
      (i : Instruction) (d : Dictionary) (s : Stack) (h : ℕ) (m : Memory) (xs : List ℕ)
      → Holds s xs
      → length xs + 4 ≤ s.size
      → IsMapped m h 16
      → h + 16 < 2 ^ 63
      → Entered i d s h m xs
  unfolding do_co_im
  do_co_im-Entered i d s h m xs holds room mapped low =
      let (m', e, first) =
        compile-Stores d s h (code i) m
          (IsMapped-within h 16 h 8 mapped (omega arith) (omega arith)) (omega arith)
          (code_fits i) in
      let (t, f, holds', same) =
        mark_branch-Holds address_of (placed d (h + 8) m') s xs leave_tag holds
          (omega (arith, room)) in
      let wide = Writes-widen h 16 first.writes (omega arith) (omega arith) in
      let behind =
        IsMapped-within h 16 (h + 8) 8 (Writes-IsMapped h 16 wide mapped) (omega arith)
          (omega arith) in
      let (m'', g, second) = compile-Stores d t (h + 8) 0 m' behind (omega arith) (omega arith) in
      let place : h + 8 + 8 ≡ h + 16 = omega arith in
      let (u, j, holds'', again) =
        mark_branch-Holds address_of (placed d (h + 16) m'') t (address_of leave_tag ∷ (h + 8) ∷ xs)
          do_tag holds' (omega (arith, room, same)) in
      record {
        stack = u;
        memory = m'';
        does = rw (e, f, g, place, j) refl;
        holds = holds'';
        size = again ∙ same;
        writes = Writes-trans wide (Writes-widen h 16 second.writes (omega arith) (omega arith));
        reads = load-Writes h second.writes (inl (omega arith)) ∙ first.reads;
      }

  abbrev pub counted :
      Instruction → Instruction → (Session → Outcome Session) → Session → Outcome Session
  counted i j f v = do w ← do_co_im address_of i v; x ← f w; loop_co_im address_of j x

  -- The cell behind the first instruction has the address behind the loop; the cell behind the
  -- last one branches back over the body.
  pub record LoopCode (i j : Instruction) (f : Session → Outcome Session) (d : Dictionary)
      (s : Stack) (h : ℕ) (m : Memory) (xs : List ℕ) (n : ℕ) : Type 0 where
    pub whole : Compiled (counted i j f) d s h m xs (n + 4)
    pub first : load whole.memory 8 h ≡ some (code i)
    pub leave_to : load whole.memory 8 (h + 8) ≡ some (h + (n + 4) * 8)
    pub last : load whole.memory 8 (h + 16 + n * 8) ≡ some (code j)
    pub back : load whole.memory 8 (h + 24 + n * 8) ≡ some (negate (n + 1))

  counted-does :
      (i j : Instruction) (f : Session → Outcome Session) (v w x y z u : Session)
      → do_co_im address_of i v ≡ ok w
      → f w ≡ ok x
      → compile x (code j) ≡ ok y
      → resolve_back_branch address_of y do_tag ≡ ok z
      → resolve_abs_branch address_of z leave_tag ≡ ok u
      → counted i j f v ≡ ok u
  unfolding loop_co_im
  counted-does i j f v w x y z u a b c e g = rw (a, b, c, e) g

  module _ (i j : Instruction) (f : Session → Outcome Session) (n k : ℕ) (f_part : IsPart f n k)
      (d : Dictionary) (s : Stack) (h : ℕ) (m : Memory) (xs : List ℕ)
      (room : length xs + (k + 4) ≤ s.size) (mapped : IsMapped m h ((n + 4) * 8))
      (low : h + (n + 4) * 8 < 2 ^ 63) where
    abbrev AtDo : Type 0
    AtDo = Entered i d s h m xs

    abbrev AtBody : AtDo → Type 0
    AtBody a = Compiled f d a.stack (h + 16) a.memory (loop_marks h xs) n

    finish :
        (a : AtDo) (b : AtBody a) (m₁ : Memory)
        → compile (session (placed d (h + 16 + n * 8) b.memory) b.stack) (code j)
          ≡ ok (session (placed d (h + 24 + n * 8) m₁) b.stack)
        → Stores b.memory m₁ (h + 16 + n * 8) (code j)
        → (c : Returned address_of d b.stack do_tag
            (h + 24 + n * 8)
            (n + 1)
            m₁
            (address_of leave_tag ∷ (h + 8) ∷ xs))
        → (e : Left address_of d c.stack leave_tag (h + 24 + n * 8 + 8) (h + 8) c.memory xs)
        → Writes m c.memory h ((n + 4) * 8)
        → LoopCode i j f d s h m xs n
    finish a b m₁ compiled closes c e writes =
        let end_place : h + 24 + n * 8 + 8 ≡ h + (n + 4) * 8 = omega arith in
        record {
          whole = record {
            stack = e.stack;
            memory = e.memory;
            does =
                counted-does i j f (session (placed d h m) s)
                  (session (placed d (h + 16) a.memory) a.stack)
                  (session (placed d (h + 16 + n * 8) b.memory) b.stack)
                  (session (placed d (h + 24 + n * 8) m₁) b.stack)
                  (session (placed d (h + 24 + n * 8 + 8) c.memory) c.stack)
                  (session (placed d (h + 24 + n * 8 + 8) e.memory) e.stack) a.does b.does compiled
                  c.does e.does
                ∙ ap (λ x. ok (session (placed d x e.memory) e.stack)) end_place;
            holds = e.holds;
            size = e.size ∙ c.size ∙ b.size ∙ a.size;
            writes =
                Writes-trans writes
                  (Writes-widen h ((n + 4) * 8) e.stores.writes (omega arith) (omega arith));
          };
          first =
              load-Writes h e.stores.writes (inl (omega arith))
              ∙ load-Writes h c.stores.writes (inl (omega arith))
              ∙ load-Writes h closes.writes (inl (omega arith))
              ∙ load-Writes h b.writes (inl (omega arith))
              ∙ a.reads;
          leave_to = e.stores.reads ∙ ap some end_place;
          last =
              load-Writes (h + 16 + n * 8) e.stores.writes (inr (omega arith))
              ∙ load-Writes (h + 16 + n * 8) c.stores.writes (inl (omega arith))
              ∙ closes.reads;
          back = load-Writes (h + 24 + n * 8) e.stores.writes (inr (omega arith)) ∙ c.stores.reads;
        }

    after_body :
        (a : AtDo) (b : AtBody a) → Writes m b.memory h ((n + 4) * 8) → LoopCode i j f d s h m xs n
    after_body a b writes =
        let next : h + 16 + n * 8 + 8 ≡ h + 24 + n * 8 = omega arith in
        let (m₁, e, closes) =
          compile-Stores d b.stack (h + 16 + n * 8) (code j) b.memory
            (IsMapped-within h ((n + 4) * 8) (h + 16 + n * 8) 8
              (Writes-IsMapped h ((n + 4) * 8) writes mapped) (omega arith) (omega arith))
            (omega (arith, low)) (code_fits j) in
        let w₁ =
          Writes-trans writes
            (Writes-widen h ((n + 4) * 8) closes.writes (omega arith) (omega arith)) in
        let c =
          resolve_back_branch-Returned address_of d b.stack do_tag (h + 24 + n * 8) (h + 16) (n + 1)
            m₁ (address_of leave_tag ∷ (h + 8) ∷ xs) b.holds
            (IsMapped-within h ((n + 4) * 8) (h + 24 + n * 8) 8
              (Writes-IsMapped h ((n + 4) * 8) w₁ mapped) (omega arith) (omega arith))
            (omega arith) (omega (arith, low)) (omega arith) in
        let w₂ =
          Writes-trans w₁
            (Writes-widen h ((n + 4) * 8) c.stores.writes (omega arith) (omega arith)) in
        finish a b m₁ (e ∙ ap (λ x. ok (session (placed d x m₁) b.stack)) next) closes c
          (resolve_abs_branch-Left address_of d c.stack leave_tag (h + 24 + n * 8 + 8) (h + 8)
            c.memory xs c.holds
            (IsMapped-within h ((n + 4) * 8) (h + 8) 8 (Writes-IsMapped h ((n + 4) * 8) w₂ mapped)
              (omega arith) (omega arith))
            (omega (arith, low)))
          w₂

    after_do : AtDo → LoopCode i j f d s h m xs n
    after_do a =
        let writes = Writes-widen h ((n + 4) * 8) a.writes (omega arith) (omega arith) in
        let b =
          f_part d a.stack (h + 16) a.memory (loop_marks h xs) a.holds (omega (arith, room, a.size))
            (IsMapped-within h ((n + 4) * 8) (h + 16) (n * 8)
              (Writes-IsMapped h ((n + 4) * 8) writes mapped) (omega arith) (omega arith))
            (omega (arith, low)) in
        after_body a b
          (Writes-trans writes (Writes-widen h ((n + 4) * 8) b.writes (omega arith) (omega arith)))

    pub counted-LoopCode : Holds s xs → LoopCode i j f d s h m xs n
    counted-LoopCode holds = after_do (
        do_co_im-Entered i d s h m xs holds (omega (arith, room))
          (IsMapped-within h ((n + 4) * 8) h 16 mapped (omega arith) (omega arith))
          (omega (arith, low)))
