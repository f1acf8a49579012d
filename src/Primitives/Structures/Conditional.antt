-- ===== src/Primitives/Structures/Conditional.antt =====
-- `if … else … endif` as a whole, compiled and run.
use ficl.Common.{
  ℕ, ◌+◌, ◌*◌, ◌^◌, ◌≤◌, ◌<◌, ◌≡◌, inl, inr, refl, ap, ◌∙◌, List, ◌∷◌, length, arith, some,
}
use ficl.Cell.{cell_mod}
use ficl.Memory.{Memory, load}
use ficl.Outcome.{Outcome, ok, ◌>>=◌}
use ficl.Stack.{Stack}
use ficl.Stack.Refinement.{Holds}
use ficl.Dictionary.{Dictionary}
use ficl.Primitives.{Session, session}
use ficl.Primitives.Structures.{Tag, compile, if_co_im, else_co_im, endif_co_im}
use ficl.Primitives.Structures.Cells.{
  IsMapped, Writes, Writes-widen, Writes-trans, Writes-IsMapped, IsMapped-within, load-Writes,
  placed, compile-Stores,
}
use ficl.Primitives.Structures.Branches.{
  Opened, if_co_im-Opened, Resolved, endif_co_im-Resolved, Turned, else_co_im-Turned,
}

-- Code that compiles `n` cells behind `here`, on a stack that holds `xs`.
pub record Compiled (f : Session → Outcome Session) (d : Dictionary) (s : Stack) (h : ℕ)
    (m : Memory) (xs : List ℕ) (n : ℕ) : Type 0 where
  pub stack : Stack
  pub memory : Memory
  pub does : f (session (placed d h m) s) ≡ ok (session (placed d (h + n * 8) memory) stack)
  pub holds : Holds stack xs
  pub size : stack.size ≡ s.size
  pub writes : Writes m memory h (n * 8)

-- A part of a definition: wherever it is compiled it takes `n` cells, and `k` cells of stack.
abbrev pub IsPart : (Session → Outcome Session) → ℕ → ℕ → Type 0
IsPart f n k =
    (d : Dictionary) (s : Stack) (h : ℕ) (m : Memory) (xs : List ℕ)
    → Holds s xs
    → length xs + k ≤ s.size
    → IsMapped m h (n * 8)
    → h + n * 8 < 2 ^ 63
    → Compiled f d s h m xs n

module _ (address_of : Tag → ℕ) where
  -- The words of a definition, in their order.
  abbrev pub conditional :
      (Session → Outcome Session) → (Session → Outcome Session) → Session → Outcome Session
  conditional f g v = do
    w ← if_co_im address_of v
    x ← f w
    y ← else_co_im address_of x
    z ← g y
    endif_co_im address_of z

  conditional-does :
      (f g : Session → Outcome Session) (v w x y z u : Session)
      → if_co_im address_of v ≡ ok w
      → f w ≡ ok x
      → else_co_im address_of x ≡ ok y
      → g y ≡ ok z
      → endif_co_im address_of z ≡ ok u
      → conditional f g v ≡ ok u
  conditional-does f g v w x y z u a b c d e = rw (a, b, c, d, e) refl

  -- A conditional with its parts: `middle` is where the second branch stands.
  pub record ChosenCode (f g : Session → Outcome Session) (d : Dictionary) (s : Stack) (h : ℕ)
      (m : Memory) (xs : List ℕ) (n l : ℕ) : Type 0 where
    pub whole : Compiled (conditional f g) d s h m xs (n + l + 4)
    pub test : load whole.memory 8 h ≡ some 50
    pub test_operand : load whole.memory 8 (h + 8) ≡ some (n + 3)
    pub jump : load whole.memory 8 (h + 16 + n * 8) ≡ some 48
    pub jump_operand : load whole.memory 8 (h + 24 + n * 8) ≡ some (l + 1)

  module _ (f g : Session → Outcome Session) (n l k : ℕ) (f_part : IsPart f n k)
      (g_part : IsPart g l k) (d : Dictionary) (s : Stack) (h : ℕ) (m : Memory) (xs : List ℕ)
      (room : length xs + (k + 2) ≤ s.size) (mapped : IsMapped m h ((n + l + 4) * 8))
      (low : h + (n + l + 4) * 8 < 2 ^ 63) where
    -- The state behind each word, from the last one to the first.
    abbrev AtIf : Type 0
    AtIf = Opened address_of (if_co_im address_of) 50 d s h m xs

    abbrev AtThen : AtIf → Type 0
    AtThen a = Compiled f d a.stack (h + 16) a.memory (address_of Tag.orig_tag ∷ (h + 8) ∷ xs) n

    abbrev AtElse : (a : AtIf) → AtThen a → Type 0
    AtElse a b = Turned address_of d b.stack (h + 16 + n * 8) (h + 8) (n + 3) b.memory xs

    abbrev AtOtherwise : (a : AtIf) (b : AtThen a) → AtElse a b → Type 0
    AtOtherwise a b c =
        Compiled g d c.stack (h + 32 + n * 8) c.memory
          (address_of Tag.orig_tag ∷ (h + 16 + n * 8 + 8) ∷ xs) l

    abbrev AtEndif : (a : AtIf) (b : AtThen a) (c : AtElse a b) → AtOtherwise a b c → Type 0
    AtEndif a b c e =
        Resolved address_of (endif_co_im address_of) d e.stack (h + 32 + n * 8 + l * 8)
          (h + 16 + n * 8 + 8) (l + 1) e.memory xs

    finish :
        (a : AtIf) (b : AtThen a) (c : AtElse a b) (e : AtOtherwise a b c)
        → AtEndif a b c e
        → Writes m e.memory h ((n + l + 4) * 8)
        → ChosenCode f g d s h m xs n l
    finish a b c e r writes =
        let end_place : h + 32 + n * 8 + l * 8 ≡ h + (n + l + 4) * 8 = omega arith in
        let else_place : h + 16 + n * 8 + 16 ≡ h + 32 + n * 8 = omega arith in
        let operand_place : h + 24 + n * 8 ≡ h + 16 + n * 8 + 8 = omega arith in
        record {
          whole = record {
            stack = r.stack;
            memory = r.memory;
            does =
                conditional-does f g (session (placed d h m) s)
                  (session (placed d (h + 16) a.memory) a.stack)
                  (session (placed d (h + 16 + n * 8) b.memory) b.stack)
                  (session (placed d (h + 32 + n * 8) c.memory) c.stack)
                  (session (placed d (h + 32 + n * 8 + l * 8) e.memory) e.stack)
                  (session (placed d (h + 32 + n * 8 + l * 8) r.memory) r.stack) a.does b.does
                  (c.does ∙ ap (λ x. ok (session (placed d x c.memory) c.stack)) else_place) e.does
                  r.does
                ∙ ap (λ x. ok (session (placed d x r.memory) r.stack)) end_place;
            holds = r.holds;
            size = r.size ∙ e.size ∙ c.size ∙ b.size ∙ a.size;
            writes =
                Writes-trans writes
                  (Writes-widen h ((n + l + 4) * 8) r.stores.writes (omega arith) (omega arith));
          };
          test =
              load-Writes h r.stores.writes (inl (omega arith))
              ∙ load-Writes h e.writes (inl (omega arith))
              ∙ load-Writes h c.stores.writes (inl (omega arith))
              ∙ load-Writes h c.writes (inl (omega arith))
              ∙ load-Writes h b.writes (inl (omega arith))
              ∙ a.reads;
          test_operand =
              load-Writes (h + 8) r.stores.writes (inl (omega arith))
              ∙ load-Writes (h + 8) e.writes (inl (omega arith))
              ∙ c.stores.reads;
          jump =
              load-Writes (h + 16 + n * 8) r.stores.writes (inl (omega arith))
              ∙ load-Writes (h + 16 + n * 8) e.writes (inl (omega arith))
              ∙ load-Writes (h + 16 + n * 8) c.stores.writes (inr (omega arith))
              ∙ c.reads;
          jump_operand = rw operand_place r.stores.reads;
        }

    after_otherwise :
        (a : AtIf) (b : AtThen a) (c : AtElse a b) (e : AtOtherwise a b c)
        → Writes m e.memory h ((n + l + 4) * 8)
        → ChosenCode f g d s h m xs n l
    after_otherwise a b c e writes =
        finish a b c e
          (endif_co_im-Resolved address_of d e.stack (h + 32 + n * 8 + l * 8) (h + 16 + n * 8 + 8)
            (l + 1) e.memory xs e.holds
            (IsMapped-within h ((n + l + 4) * 8) (h + 16 + n * 8 + 8) 8
              (Writes-IsMapped h ((n + l + 4) * 8) writes mapped) (omega arith) (omega arith))
            (omega arith) (omega (arith, low)))
          writes

    after_else :
        (a : AtIf) (b : AtThen a) (c : AtElse a b)
        → Writes m c.memory h ((n + l + 4) * 8)
        → ChosenCode f g d s h m xs n l
    after_else a b c writes =
        let e =
          g_part d c.stack (h + 32 + n * 8) c.memory
            (address_of Tag.orig_tag ∷ (h + 16 + n * 8 + 8) ∷ xs) c.holds
            (omega (arith, room, a.size, b.size, c.size))
            (IsMapped-within h ((n + l + 4) * 8) (h + 32 + n * 8) (l * 8)
              (Writes-IsMapped h ((n + l + 4) * 8) writes mapped) (omega arith) (omega arith))
            (omega (arith, low)) in
        after_otherwise a b c e (
          Writes-trans writes
            (Writes-widen h ((n + l + 4) * 8) e.writes (omega arith) (omega arith)))

    after_then :
        (a : AtIf) (b : AtThen a)
        → Writes m b.memory h ((n + l + 4) * 8)
        → ChosenCode f g d s h m xs n l
    after_then a b writes =
        let still = Writes-IsMapped h ((n + l + 4) * 8) writes mapped in
        let c =
          else_co_im-Turned address_of d b.stack (h + 16 + n * 8) (h + 8) (n + 3) b.memory xs
            b.holds (omega (arith, room, a.size, b.size))
            (IsMapped-within h ((n + l + 4) * 8) (h + 16 + n * 8) 16 still (omega arith)
              (omega arith))
            (IsMapped-within h ((n + l + 4) * 8) (h + 8) 8 still (omega arith) (omega arith))
            (omega arith) (omega (arith, low)) in
        after_else a b c (
          Writes-trans
            (Writes-trans writes
              (Writes-widen h ((n + l + 4) * 8) c.writes (omega arith) (omega arith)))
            (Writes-widen h ((n + l + 4) * 8) c.stores.writes (omega arith) (omega arith)))

    after_if : AtIf → ChosenCode f g d s h m xs n l
    after_if a =
        let writes = Writes-widen h ((n + l + 4) * 8) a.writes (omega arith) (omega arith) in
        let b =
          f_part d a.stack (h + 16) a.memory (address_of Tag.orig_tag ∷ (h + 8) ∷ xs) a.holds
            (omega (arith, room, a.size))
            (IsMapped-within h ((n + l + 4) * 8) (h + 16) (n * 8)
              (Writes-IsMapped h ((n + l + 4) * 8) writes mapped) (omega arith) (omega arith))
            (omega (arith, low)) in
        after_then a b (
          Writes-trans writes
            (Writes-widen h ((n + l + 4) * 8) b.writes (omega arith) (omega arith)))

    pub conditional-ChosenCode : Holds s xs → ChosenCode f g d s h m xs n l
    conditional-ChosenCode holds = after_if (
        if_co_im-Opened address_of d s h m xs holds (omega (arith, room))
          (IsMapped-within h ((n + l + 4) * 8) h 16 mapped (omega arith) (omega arith))
          (omega (arith, low)))

-- One cell that is compiled is a part.
pub compile-IsPart : (u : ℕ) → u < cell_mod → IsPart (λ v. compile v u) 1 0
compile-IsPart u small d s h m xs holds room mapped low =
    let (m', e, stores) = compile-Stores d s h u m mapped (omega (arith, low)) small in
    record { stack = s; memory = m'; does = e; holds = holds; size = refl; writes = stores.writes }
