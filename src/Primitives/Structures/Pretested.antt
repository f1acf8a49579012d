-- ===== src/Primitives/Structures/Pretested.antt =====
-- `begin … while … repeat` as a whole.
use ficl.Common.{ℕ, ◌+◌, ◌*◌, ◌^◌, ◌≤◌, ◌<◌, ◌≡◌, inl, inr, ap, ◌∙◌, List, ◌∷◌, length, arith, some}
use ficl.Cell.{negate}
use ficl.Memory.{Memory, load}
use ficl.Outcome.{Outcome, ok, ◌>>=◌}
use ficl.Stack.{Stack}
use ficl.Stack.Refinement.{Holds}
use ficl.Dictionary.{Dictionary}
use ficl.Primitives.{Session, session}
use ficl.Primitives.Structures.{
  Tag, dest_tag, orig_tag, begin_co_im, while_co_im, repeat_co_im, compile, resolve_back_branch,
  resolve_forward_branch,
}
use ficl.Primitives.Structures.Cells.{
  IsMapped, Writes, Writes-widen, Writes-trans, Writes-IsMapped, IsMapped-within, load-Writes,
  Stores, placed, compile-Stores, mark_branch-Holds,
}
use ficl.Primitives.Structures.Tests.{Tested, while_co_im-Tested}
use ficl.Primitives.Structures.Branches.{Resolved, resolve_forward_branch-Resolved}
use ficl.Primitives.Structures.Backward.{Returned, resolve_back_branch-Returned}
use ficl.Primitives.Structures.Conditional.{Compiled, IsPart}

module _ (address_of : Tag → ℕ) where
  abbrev pub pretested :
      (Session → Outcome Session) → (Session → Outcome Session) → Session → Outcome Session
  pretested f g v = do
    w ← begin_co_im address_of v
    x ← f w
    y ← while_co_im address_of x
    z ← g y
    repeat_co_im address_of z

  pub record TestedCode (f g : Session → Outcome Session) (d : Dictionary) (s : Stack) (h : ℕ)
      (m : Memory) (xs : List ℕ) (n l : ℕ) : Type 0 where
    pub whole : Compiled (pretested f g) d s h m xs (n + l + 4)
    pub test : load whole.memory 8 (h + n * 8) ≡ some 50
    pub test_operand : load whole.memory 8 (h + 8 + n * 8) ≡ some (l + 3)
    pub jump : load whole.memory 8 (h + 16 + (n + l) * 8) ≡ some 48
    pub jump_operand : load whole.memory 8 (h + 24 + (n + l) * 8) ≡ some (negate (n + l + 3))

  pretested-does :
      (f g : Session → Outcome Session) (v w x y z p q r : Session)
      → begin_co_im address_of v ≡ ok w
      → f w ≡ ok x
      → while_co_im address_of x ≡ ok y
      → g y ≡ ok z
      → compile z 48 ≡ ok p
      → resolve_back_branch address_of p dest_tag ≡ ok q
      → resolve_forward_branch address_of q orig_tag ≡ ok r
      → pretested f g v ≡ ok r
  unfolding repeat_co_im
  pretested-does f g v w x y z p q r a b c e i j k = rw (a, b, c, e, i, j) k

  module _ (f g : Session → Outcome Session) (n l k : ℕ) (f_part : IsPart f n k)
      (g_part : IsPart g l k) (d : Dictionary) (s : Stack) (h : ℕ) (m : Memory) (xs : List ℕ)
      (room : length xs + (k + 5) ≤ s.size) (mapped : IsMapped m h ((n + l + 4) * 8))
      (low : h + (n + l + 4) * 8 < 2 ^ 63) where
    -- The state behind each word.
    record Begun : Type 0 where
      stack : Stack
      does : begin_co_im address_of (session (placed d h m) s) ≡ ok (session (placed d h m) stack)
      holds : Holds stack (address_of dest_tag ∷ h ∷ xs)
      size : stack.size ≡ s.size

    abbrev AtTest : Begun → Type 0
    AtTest a = Compiled f d a.stack h m (address_of dest_tag ∷ h ∷ xs) n

    abbrev AtWhile : (a : Begun) → AtTest a → Type 0
    AtWhile a b = Tested address_of d b.stack (h + n * 8) h b.memory xs

    abbrev AtBody : (a : Begun) (b : AtTest a) → AtWhile a b → Type 0
    AtBody a b c =
        Compiled g d c.stack (h + n * 8 + 16) c.memory
          (address_of dest_tag ∷ h ∷ address_of orig_tag ∷ (h + n * 8 + 8) ∷ xs) l

    finish :
        (a : Begun) (b : AtTest a) (c : AtWhile a b) (e : AtBody a b c) (m₁ : Memory)
        → compile (session (placed d (h + n * 8 + 16 + l * 8) e.memory) e.stack) 48
          ≡ ok (session (placed d (h + n * 8 + 16 + l * 8 + 8) m₁) e.stack)
        → Stores e.memory m₁ (h + n * 8 + 16 + l * 8) 48
        → (p : Returned address_of d e.stack dest_tag
            (h + n * 8 + 16 + l * 8 + 8)
            (n + l + 3)
            m₁
            (address_of orig_tag ∷ (h + n * 8 + 8) ∷ xs))
        → (q : Resolved address_of
            (λ v. resolve_forward_branch address_of v orig_tag)
            d
            p.stack
            (h + n * 8 + 16 + l * 8 + 8 + 8)
            (h + n * 8 + 8)
            (l + 3)
            p.memory
            xs)
        → Writes m p.memory h ((n + l + 4) * 8)
        → TestedCode f g d s h m xs n l
    finish a b c e m₁ compiled jumps p q writes =
        let end_place : h + n * 8 + 16 + l * 8 + 8 + 8 ≡ h + (n + l + 4) * 8 = omega arith in
        let test_place : h + 8 + n * 8 ≡ h + n * 8 + 8 = omega arith in
        let jump_place : h + 16 + (n + l) * 8 ≡ h + n * 8 + 16 + l * 8 = omega arith in
        let back_place : h + 24 + (n + l) * 8 ≡ h + n * 8 + 16 + l * 8 + 8 = omega arith in
        record {
          whole = record {
            stack = q.stack;
            memory = q.memory;
            does =
                pretested-does f g (session (placed d h m) s) (session (placed d h m) a.stack)
                  (session (placed d (h + n * 8) b.memory) b.stack)
                  (session (placed d (h + n * 8 + 16) c.memory) c.stack)
                  (session (placed d (h + n * 8 + 16 + l * 8) e.memory) e.stack)
                  (session (placed d (h + n * 8 + 16 + l * 8 + 8) m₁) e.stack)
                  (session (placed d (h + n * 8 + 16 + l * 8 + 8 + 8) p.memory) p.stack)
                  (session (placed d (h + n * 8 + 16 + l * 8 + 8 + 8) q.memory) q.stack) a.does
                  b.does c.does e.does compiled p.does q.does
                ∙ ap (λ x. ok (session (placed d x q.memory) q.stack)) end_place;
            holds = q.holds;
            size = q.size ∙ p.size ∙ e.size ∙ c.size ∙ b.size ∙ a.size;
            writes =
                Writes-trans writes
                  (Writes-widen h ((n + l + 4) * 8) q.stores.writes (omega arith) (omega arith));
          };
          test =
              load-Writes (h + n * 8) q.stores.writes (inl (omega arith))
              ∙ load-Writes (h + n * 8) p.stores.writes (inl (omega arith))
              ∙ load-Writes (h + n * 8) jumps.writes (inl (omega arith))
              ∙ load-Writes (h + n * 8) e.writes (inl (omega arith))
              ∙ c.reads;
          test_operand = rw test_place q.stores.reads;
          jump = rw jump_place (
              load-Writes (h + n * 8 + 16 + l * 8) q.stores.writes (inr (omega arith))
              ∙ load-Writes (h + n * 8 + 16 + l * 8) p.stores.writes (inl (omega arith))
              ∙ jumps.reads);
          jump_operand = rw back_place (
              load-Writes (h + n * 8 + 16 + l * 8 + 8) q.stores.writes (inr (omega arith))
              ∙ p.stores.reads);
        }

    after_body :
        (a : Begun) (b : AtTest a) (c : AtWhile a b) (e : AtBody a b c)
        → Writes m e.memory h ((n + l + 4) * 8)
        → TestedCode f g d s h m xs n l
    after_body a b c e writes =
        let (m₁, compiled, jumps) =
          compile-Stores d e.stack (h + n * 8 + 16 + l * 8) 48 e.memory
            (IsMapped-within h ((n + l + 4) * 8) (h + n * 8 + 16 + l * 8) 8
              (Writes-IsMapped h ((n + l + 4) * 8) writes mapped) (omega arith) (omega arith))
            (omega (arith, low)) (omega arith) in
        let w₁ =
          Writes-trans writes
            (Writes-widen h ((n + l + 4) * 8) jumps.writes (omega arith) (omega arith)) in
        let p =
          resolve_back_branch-Returned address_of d e.stack dest_tag (h + n * 8 + 16 + l * 8 + 8) h
            (n + l + 3) m₁ (address_of orig_tag ∷ (h + n * 8 + 8) ∷ xs) e.holds
            (IsMapped-within h ((n + l + 4) * 8) (h + n * 8 + 16 + l * 8 + 8) 8
              (Writes-IsMapped h ((n + l + 4) * 8) w₁ mapped) (omega arith) (omega arith))
            (omega arith) (omega (arith, low)) (omega arith) in
        let w₂ =
          Writes-trans w₁
            (Writes-widen h ((n + l + 4) * 8) p.stores.writes (omega arith) (omega arith)) in
        finish a b c e m₁ compiled jumps p
          (resolve_forward_branch-Resolved address_of d p.stack (h + n * 8 + 16 + l * 8 + 8 + 8)
            (h + n * 8 + 8) (l + 3) p.memory xs p.holds
            (IsMapped-within h ((n + l + 4) * 8) (h + n * 8 + 8) 8
              (Writes-IsMapped h ((n + l + 4) * 8) w₂ mapped) (omega arith) (omega arith))
            (omega arith) (omega (arith, low)))
          w₂

    after_while :
        (a : Begun) (b : AtTest a) (c : AtWhile a b)
        → Writes m c.memory h ((n + l + 4) * 8)
        → TestedCode f g d s h m xs n l
    after_while a b c writes =
        let e =
          g_part d c.stack (h + n * 8 + 16) c.memory
            (address_of dest_tag ∷ h ∷ address_of orig_tag ∷ (h + n * 8 + 8) ∷ xs) c.holds
            (omega (arith, room, a.size, b.size, c.size))
            (IsMapped-within h ((n + l + 4) * 8) (h + n * 8 + 16) (l * 8)
              (Writes-IsMapped h ((n + l + 4) * 8) writes mapped) (omega arith) (omega arith))
            (omega (arith, low)) in
        after_body a b c e (
          Writes-trans writes
            (Writes-widen h ((n + l + 4) * 8) e.writes (omega arith) (omega arith)))

    after_test : (a : Begun) → AtTest a → TestedCode f g d s h m xs n l
    after_test a b =
        let writes = Writes-widen h ((n + l + 4) * 8) b.writes (omega arith) (omega arith) in
        let c =
          while_co_im-Tested address_of d b.stack (h + n * 8) h b.memory xs b.holds
            (omega (arith, room, a.size, b.size))
            (IsMapped-within h ((n + l + 4) * 8) (h + n * 8) 16
              (Writes-IsMapped h ((n + l + 4) * 8) writes mapped) (omega arith) (omega arith))
            (omega (arith, low)) in
        after_while a b c (
          Writes-trans writes
            (Writes-widen h ((n + l + 4) * 8) c.writes (omega arith) (omega arith)))

    after_begin : Begun → TestedCode f g d s h m xs n l
    after_begin a = after_test a (
        f_part d a.stack h m (address_of dest_tag ∷ h ∷ xs) a.holds (omega (arith, room, a.size))
          (IsMapped-within h ((n + l + 4) * 8) h (n * 8) mapped (omega arith) (omega arith))
          (omega (arith, low)))

    pub pretested-TestedCode : Holds s xs → TestedCode f g d s h m xs n l
    unfolding begin_co_im
    pretested-TestedCode holds =
        let (t, e, holds', same) =
          mark_branch-Holds address_of (placed d h m) s xs dest_tag holds (omega (arith, room)) in
        after_begin (record { stack = t; does = e; holds = holds'; size = same })
