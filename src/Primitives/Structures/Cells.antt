-- ===== src/Primitives/Structures/Cells.antt =====
-- Memory under the words that compile: what one cell changes, and what a stretch of code does.
use ficl.Common.{
  ℕ, zero, suc, ◌+◌, ◌*◌, ◌/◌, ◌%◌, ◌^◌, ◌≤◌, ◌<◌, ◌≡◌, ◌⊎◌, inl, inr, refl, sym, ◌∙◌, true, false,
  List, ◌∷◌, length, ◌==◌, arith, Bool-cases, Option, none, some,
}
use ficl.Cell.{cell_mod, is_negative, add, sub}
use ficl.Memory.{Memory, load, store, update}
use ficl.Memory.Laws.{load-store}
use ficl.Outcome.{ok}
use ficl.Stack.{Stack, stack_check}
use ficl.Stack.Refinement.{Holds, Holds-depth, stack_push-Holds, stack_pop_sized, stack_check-Holds}
use ficl.Vm.Check.{on_data}
use ficl.Vm.Control.Turns.{pops-ok}
use ficl.Dictionary.{Dictionary, append_unsigned}
use ficl.Primitives.{session}
use ficl.Primitives.Structures.{
  Tag, compile, patch, push_cell, pop_cell, match_control_tag, mark_branch, patch_here,
}

-- Bytes that are there.
abbrev pub IsMapped : Memory → ℕ → ℕ → Type 0
IsMapped m a n = (j : ℕ) → a ≤ j → j < a + n → (b : ℕ) × (m j ≡ some b)

-- A change of memory in `n` bytes from `a` on, which leaves every byte there.
pub record Writes (m m' : Memory) (a n : ℕ) : Type 0 where
  pub others : (j : ℕ) → (j < a) ⊎ (a + n ≤ j) → m' j ≡ m j
  pub keeps : (j b : ℕ) → m j ≡ some b → (c : ℕ) × (m' j ≡ some c)

pub Writes-widen :
    {m m' : Memory} {a n : ℕ} (b k : ℕ) → Writes m m' a n → b ≤ a → a + n ≤ b + k → Writes m m' b k
Writes-widen b k w low high = record {
  others = λ j out. w.others j (ground (arith, out));
  keeps = w.keeps;
}

pub Writes-trans :
    {m m' m'' : Memory} {a n : ℕ} → Writes m m' a n → Writes m' m'' a n → Writes m m'' a n
Writes-trans v w = record {
  others = λ j out. w.others j out ∙ v.others j out;
  keeps = λ j b e. let (c, f) = v.keeps j b e in w.keeps j c f;
}

pub Writes-IsMapped :
    {m m' : Memory} {a n : ℕ} (b k : ℕ) → Writes m m' a n → IsMapped m b k → IsMapped m' b k
Writes-IsMapped b k w mapped j low high = let (c, e) = mapped j low high in w.keeps j c e

pub IsMapped-within :
    {m : Memory} (a n b k : ℕ) → IsMapped m a n → a ≤ b → b + k ≤ a + n → IsMapped m b k
IsMapped-within a n b k mapped low high j from to =
    mapped j (omega (arith, low, from)) (omega (arith, high, to))

-- A byte in front of a number.
abbrev with_byte : Option ℕ → Option ℕ → Option ℕ
with_byte none r = none
with_byte (some b) none = none
with_byte (some b) (some r) = some (b + 256 * r)

load-suc : (m : Memory) (n a : ℕ) → load m (suc n) a ≡ with_byte (m a) (load m n (a + 1))
unfolding load
load-suc m n a = go (m a) (load m n (a + 1))
  where
    go :
        (o r : Option ℕ)
        → (elim o as (λ x. Option ℕ) [
          | none ↦ none
          | some b ↦ elim r as (λ x. Option ℕ) [ none ↦ none | some c ↦ some (b + 256 * c) ]
        ])
          ≡ with_byte o r
    go none r = refl
    go (some b) none = refl
    go (some b) (some c) = refl

pub load_agrees :
    (n : ℕ) (m m' : Memory) (a : ℕ)
    → ((j : ℕ) → a ≤ j → j < a + n → m' j ≡ m j)
    → load m' n a ≡ load m n a
unfolding load
load_agrees zero m m' a same = refl
load_agrees (suc n) m m' a same =
    let first = same a (omega arith) (omega arith) in
    let rest = load_agrees n m m' (a + 1) (λ j low high. same j (omega arith) (omega arith)) in
    load-suc m' n a ∙ rw (first, rest) (sym (load-suc m n a))

pub load-Writes :
    {m m' : Memory} {a n : ℕ} (b : ℕ)
    → Writes m m' a n
    → (b + 8 ≤ a) ⊎ (a + n ≤ b)
    → load m' 8 b ≡ load m 8 b
load-Writes {m = m} {m' = m'} b w out =
    load_agrees 8 m m' b (λ j low high. w.others j (ground (arith, out)))

store-Writes :
    (n : ℕ) (m : Memory) (a v : ℕ)
    → IsMapped m a n
    → (m' : Memory) × (store m n a v ≡ some m') × Writes m m' a n
unfolding store
store-Writes zero m a v mapped =
    (m, refl, record { others = λ j out. refl; keeps = λ j b e. (b, e) })
store-Writes (suc n) m a v mapped =
    let (b, e) = mapped a (omega arith) (omega arith) in
    let here : (a == a) ≡ true = ground arith in
    let first : Writes m (update m a (v % 256)) a (suc n) = record {
      others = λ j out. let apart : (a == j) ≡ false = ground (arith, out) in rw apart refl;
      keeps = λ j c f. elim (Bool-cases (a == j)) [
        | inl same ↦ (v % 256, rw same refl)
        | inr apart ↦ (c, rw apart f)
      ];
    } in
    let mapped' =
      Writes-IsMapped (a + 1) n first
        (IsMapped-within a (suc n) (a + 1) n mapped (omega arith) (omega arith)) in
    let (m', f, rest) = store-Writes n (update m a (v % 256)) (a + 1) (v / 256) mapped' in
    (
      m',
      rw (store, e) f,
      Writes-trans first (Writes-widen a (suc n) rest (omega arith) (omega arith)),
    )

-- A cell that is stored.
pub record Stores (m m' : Memory) (a v : ℕ) : Type 0 where
  pub writes : Writes m m' a 8
  pub reads : load m' 8 a ≡ some v

pub store-Stores :
    (m : Memory) (a v : ℕ)
    → IsMapped m a 8
    → v < cell_mod
    → (m' : Memory) × (store m 8 a v ≡ some m') × Stores m m' a v
store-Stores m a v mapped small =
    let (m', e, writes) = store-Writes 8 m a v mapped in
    (m', e, record { writes = writes; reads = load-store 8 m m' a v e small })

-- A dictionary with other free space and memory.
abbrev pub placed : Dictionary → ℕ → Memory → Dictionary
placed d h m = record d { here = h; memory = m }

pub compile-Stores :
    (d : Dictionary) (s : Stack) (h u : ℕ) (m : Memory)
    → IsMapped m h 8
    → h + 8 < cell_mod
    → u < cell_mod
    → (m' : Memory) × (compile (session (placed d h m) s) u ≡ ok (session (placed d (h + 8) m') s))
      × Stores m m' h u
unfolding compile append_unsigned
compile-Stores d s h u m mapped low small =
    let (m', e, stores) = store-Stores m h u mapped small in
    let next : add h 8 ≡ h + 8 = ground arith in (m', rw (e, next) refl, stores)

pub patch_here-Stores :
    (d : Dictionary) (s : Stack) (h a k : ℕ) (m : Memory)
    → IsMapped m a 8
    → h ≡ a + k * 8
    → h < 2 ^ 63
    → (m' : Memory) × (patch_here (session (placed d h m) s) a ≡ ok (session (placed d h m') s))
      × Stores m m' a k
unfolding patch_here patch
patch_here-Stores d s h a k m mapped behind low =
    let (m', e, stores) = store-Stores m a k mapped (omega arith) in
    let bytes : sub h a ≡ k * 8 = ground (arith, behind) in
    let whole : (k * 8 % 8 == 0) ≡ true = ground arith in
    let forward : is_negative (k * 8) ≡ false = ground (arith, behind) in
    let cells : k * 8 / 8 ≡ k = omega arith in
    (m', rw (bytes, whole, forward, cells, e) refl, stores)

pub push_cell-Holds :
    (d : Dictionary) (s : Stack) (xs : List ℕ) (c : ℕ)
    → Holds s xs
    → length xs < s.size
    → (t : Stack) × (push_cell (session d s) c ≡ ok (session d t))
      × Holds t (c ∷ xs)
      × (t.size ≡ s.size)
unfolding push_cell
push_cell-Holds d s xs c h room =
    let (t, e, k, same) = stack_push-Holds s xs c h room in (t, rw e refl, k, same)

pub pop_cell-Holds :
    (d : Dictionary) (s : Stack) (xs : List ℕ) (c : ℕ)
    → Holds s (c ∷ xs)
    → (t : Stack) × (pop_cell (session d s) ≡ ok (c, session d t)) × Holds t xs × (t.size ≡ s.size)
unfolding pop_cell
pop_cell-Holds d s xs c h =
    let (t, e, k, same) = stack_pop_sized s xs c h in (t, rw e refl, k, same)

pub one_cell :
    (s : Stack) (xs : List ℕ) (c : ℕ) → Holds s (c ∷ xs) → stack_check on_data s 1 0 ≡ ok tt
one_cell s xs c h =
    stack_check-Holds on_data s (c ∷ xs) 1 0 h
    ∙ pops-ok s.size (length (c ∷ xs)) 1 (omega arith)
        (omega (arith, Holds-depth s (c ∷ xs) h, h.sound.fits))

pub mark_branch-Holds :
    (address_of : Tag → ℕ) (d : Dictionary) (s : Stack) (xs : List ℕ) (tag : Tag)
    → Holds s xs
    → length xs + 2 ≤ s.size
    → (t : Stack) × (mark_branch address_of (session d s) tag ≡ ok (session d t))
      × Holds t (address_of tag ∷ d.here ∷ xs)
      × (t.size ≡ s.size)
unfolding mark_branch
mark_branch-Holds address_of d s xs tag h room =
    let (t, e, k, same) = push_cell-Holds d s xs d.here h (omega arith) in
    let (u, f, l, again) =
      push_cell-Holds d t (d.here ∷ xs) (address_of tag) k (omega (arith, room, same)) in
    (u, rw (e, f) refl, l, again ∙ same)

pub match_control_tag-Holds :
    (address_of : Tag → ℕ) (d : Dictionary) (s : Stack) (xs : List ℕ) (tag : Tag)
    → Holds s (address_of tag ∷ xs)
    → (t : Stack) × (match_control_tag address_of (session d s) tag ≡ ok (session d t))
      × Holds t xs
      × (t.size ≡ s.size)
unfolding match_control_tag
match_control_tag-Holds address_of d s xs tag h =
    let (t, e, k, same) = pop_cell-Holds d s xs (address_of tag) h in
    let found : (address_of tag == address_of tag) ≡ true = ground arith in
    (t, rw (one_cell s xs (address_of tag) h, e, found) refl, k, same)
