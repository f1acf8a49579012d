-- ===== src/Primitives/Structures/Branches.antt =====
-- What each word that compiles forward branches does.
use ficl.Common.{ℕ, ◌+◌, ◌*◌, ◌^◌, ◌≤◌, ◌<◌, ◌≡◌, inl, refl, ◌∙◌, List, ◌∷◌, length, arith, some}
use ficl.Memory.{Memory, load}
use ficl.Outcome.{Outcome, ok}
use ficl.Stack.{Stack}
use ficl.Stack.Refinement.{Holds}
use ficl.Dictionary.{Dictionary}
use ficl.Primitives.{Session, session}
use ficl.Primitives.Structures.{
  Tag, orig_tag, code, branch_with_check, branch_0_with_check, if_co_im, else_co_im, endif_co_im,
  resolve_forward_branch,
}
use ficl.Primitives.Structures.Cells.{
  IsMapped, Writes, Writes-widen, Writes-trans, Writes-IsMapped, IsMapped-within, load-Writes,
  Stores, placed, compile-Stores, patch_here-Stores, pop_cell-Holds, one_cell, mark_branch-Holds,
  match_control_tag-Holds,
}

module _ (address_of : Tag → ℕ) where
  -- An instruction with a branch that is resolved later: its operand stands 8 bytes further.
  pub record Opened (word : Session → Outcome Session) (instruction : ℕ) (d : Dictionary)
      (s : Stack) (h : ℕ) (m : Memory) (xs : List ℕ) : Type 0 where
    pub stack : Stack
    pub memory : Memory
    pub does : word (session (placed d h m) s) ≡ ok (session (placed d (h + 16) memory) stack)
    pub holds : Holds stack (address_of orig_tag ∷ (h + 8) ∷ xs)
    pub size : stack.size ≡ s.size
    pub writes : Writes m memory h 16
    pub reads : load memory 8 h ≡ some instruction

  pub if_co_im-Opened :
      (d : Dictionary) (s : Stack) (h : ℕ) (m : Memory) (xs : List ℕ)
      → Holds s xs
      → length xs + 2 ≤ s.size
      → IsMapped m h 16
      → h + 16 < 2 ^ 63
      → Opened (if_co_im address_of) (code branch_0_with_check) d s h m xs
  unfolding if_co_im
  if_co_im-Opened d s h m xs holds room mapped low =
      let (m', e, first) =
        compile-Stores d s h 50 m (IsMapped-within h 16 h 8 mapped (omega arith) (omega arith))
          (omega arith) (omega arith) in
      let (t, f, holds', same) =
        mark_branch-Holds address_of (placed d (h + 8) m') s xs orig_tag holds room in
      let wide = Writes-widen h 16 first.writes (omega arith) (omega arith) in
      let behind =
        IsMapped-within h 16 (h + 8) 8 (Writes-IsMapped h 16 wide mapped) (omega arith)
          (omega arith) in
      let (m'', g, second) = compile-Stores d t (h + 8) 1 m' behind (omega arith) (omega arith) in
      let place : h + 8 + 8 ≡ h + 16 = omega arith in
      record {
        stack = t;
        memory = m'';
        does = rw (e, f, g, place) refl;
        holds = holds';
        size = same;
        writes = Writes-trans wide (Writes-widen h 16 second.writes (omega arith) (omega arith));
        reads = load-Writes h second.writes (inl (omega arith)) ∙ first.reads;
      }

  -- An operand that is resolved to `here`, which is `k` cells behind it.
  pub record Resolved (word : Session → Outcome Session) (d : Dictionary) (s : Stack) (h a k : ℕ)
      (m : Memory) (xs : List ℕ) : Type 0 where
    pub stack : Stack
    pub memory : Memory
    pub does : word (session (placed d h m) s) ≡ ok (session (placed d h memory) stack)
    pub holds : Holds stack xs
    pub size : stack.size ≡ s.size
    pub stores : Stores m memory a k

  pub endif_co_im-Resolved :
      (d : Dictionary) (s : Stack) (h a k : ℕ) (m : Memory) (xs : List ℕ)
      → Holds s (address_of orig_tag ∷ a ∷ xs)
      → IsMapped m a 8
      → h ≡ a + k * 8
      → h < 2 ^ 63
      → Resolved (endif_co_im address_of) d s h a k m xs
  unfolding endif_co_im resolve_forward_branch
  endif_co_im-Resolved d s h a k m xs holds mapped behind low =
      let (t, e, holds', same) =
        match_control_tag-Holds address_of (placed d h m) s (a ∷ xs) orig_tag holds in
      let (u, f, holds'', again) = pop_cell-Holds (placed d h m) t xs a holds' in
      let (m', g, stores) = patch_here-Stores d u h a k m mapped behind low in
      record {
        stack = u;
        memory = m';
        does = rw (e, one_cell t xs a holds', f, g) refl;
        holds = holds'';
        size = again ∙ same;
        stores = stores;
      }

  -- `else`: a branch is opened, and the one before it is resolved behind it.
  pub record Turned (d : Dictionary) (s : Stack) (h a k : ℕ) (m : Memory) (xs : List ℕ)
      : Type 0 where
    pub stack : Stack
    pub middle : Memory
    pub memory : Memory
    pub does :
        else_co_im address_of (session (placed d h m) s)
        ≡ ok (session (placed d (h + 16) memory) stack)
    pub holds : Holds stack (address_of orig_tag ∷ (h + 8) ∷ xs)
    pub size : stack.size ≡ s.size
    pub writes : Writes m middle h 16
    pub reads : load middle 8 h ≡ some (code branch_with_check)
    pub stores : Stores middle memory a k

  pub else_co_im-Turned :
      (d : Dictionary) (s : Stack) (h a k : ℕ) (m : Memory) (xs : List ℕ)
      → Holds s (address_of orig_tag ∷ a ∷ xs)
      → length xs + 2 ≤ s.size
      → IsMapped m h 16
      → IsMapped m a 8
      → h + 16 ≡ a + k * 8
      → h + 16 < 2 ^ 63
      → Turned d s h a k m xs
  unfolding else_co_im
  else_co_im-Turned d s h a k m xs holds room mapped mapped_a behind low =
      let (m₁, e, first) =
        compile-Stores d s h 48 m (IsMapped-within h 16 h 8 mapped (omega arith) (omega arith))
          (omega arith) (omega arith) in
      let wide = Writes-widen h 16 first.writes (omega arith) (omega arith) in
      let e₁ = placed d (h + 8) m₁ in
      let (t, f, holds₁, same₁) = match_control_tag-Holds address_of e₁ s (a ∷ xs) orig_tag holds in
      let (u, g, holds₂, same₂) = pop_cell-Holds e₁ t xs a holds₁ in
      let (w, i, holds₃, same₃) =
        mark_branch-Holds address_of e₁ u xs orig_tag holds₂ (omega (arith, room, same₁, same₂)) in
      let operand =
        IsMapped-within h 16 (h + 8) 8 (Writes-IsMapped h 16 wide mapped) (omega arith)
          (omega arith) in
      let (m₂, j, second) = compile-Stores d w (h + 8) 1 m₁ operand (omega arith) (omega arith) in
      let all = Writes-trans wide (Writes-widen h 16 second.writes (omega arith) (omega arith)) in
      let place : h + 8 + 8 ≡ h + 16 = omega arith in
      let (m₃, l, stores) =
        patch_here-Stores d w (h + 16) a k m₂ (Writes-IsMapped a 8 all mapped_a) behind low in
      record {
        stack = w;
        middle = m₂;
        memory = m₃;
        does = rw (e, f, g, i, j, place, l) refl;
        holds = holds₃;
        size = same₃ ∙ same₂ ∙ same₁;
        writes = all;
        reads = load-Writes h second.writes (inl (omega arith)) ∙ first.reads;
        stores = stores;
      }

  pub resolve_forward_branch-Resolved :
      (d : Dictionary) (s : Stack) (h a k : ℕ) (m : Memory) (xs : List ℕ)
      → Holds s (address_of orig_tag ∷ a ∷ xs)
      → IsMapped m a 8
      → h ≡ a + k * 8
      → h < 2 ^ 63
      → Resolved (λ v. resolve_forward_branch address_of v orig_tag) d s h a k m xs
  unfolding endif_co_im
  resolve_forward_branch-Resolved = endif_co_im-Resolved
