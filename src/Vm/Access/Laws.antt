-- ===== src/Vm/Access/Laws.antt =====
-- What is stored is what a fetch finds.
use ficl.Common.{ℕ, ◌+◌, ◌^◌, ◌≤◌, ◌<◌, ◌≡◌, ◌⊎◌, refl, List, ◌∷◌, length, arith}
use ficl.Cell.{add}
use ficl.Memory.{Memory, store}
use ficl.Memory.Laws.{load-store, store-elsewhere}
use ficl.Outcome.{ok, access, access-ok, >>=-eq-ok}
use ficl.Vm.Check.{on_data, check, pop}
use ficl.Vm.Access.{
  Store, with_stack, with_memory, Width, bytes, fetch, put, through, store_up, fetch_up,
}

-- The depth check of an instruction that pushes as much as it pops, or one cell more.
check-room :
    (size depth pops pushes : ℕ)
    → pops ≤ depth
    → depth + pushes ≤ size + pops
    → check on_data size depth pops pushes ≡ ok tt
unfolding check
check-room size depth pops pushes few room = ground arith

-- Where `!`, `q!`, `w!` or `c!` succeeds in storing a number that fits its width, on a stack with
-- room, the fetch of the same width finds that number at the same address, and a byte that lies
-- outside of the bytes written is what it was.
pub fetch-put :
    (size : ℕ) (w : Width) (s t : Store) (a x b : ℕ) (e : List ℕ)
    → x < 256 ^ bytes w
    → length e < size
    → (b < a) ⊎ (a + bytes w ≤ b)
    → put size w (with_stack s (a ∷ x ∷ e)) ≡ ok t
    → (t.data_stack ≡ e)
      × (fetch size w (with_stack t (a ∷ t.data_stack)) ≡ ok (with_stack t (x ∷ e)))
      × (t.memory b ≡ s.memory b)
unfolding put fetch pop
fetch-put size w s t a x b e fits room out h =
    let (u, c, h1) = >>=-eq-ok (check on_data size (length (a ∷ x ∷ e)) 2 0) _ h in
    let (m, k, h2) = >>=-eq-ok (access (store s.memory (bytes w) a x)) _ h1 in
    let stored = access-ok (store s.memory (bytes w) a x) m k in
    let same : with_memory s m e ≡ t = cc in
    let found = load-store (bytes w) s.memory m a x stored fits in
    let enough = check-room size (length (a ∷ e)) 1 1 (omega arith) (omega arith) in
    rw (← same)
      (refl, rw (enough, found) refl, store-elsewhere (bytes w) s.memory m a x b stored out)

-- Where `a!+` or `b!+` succeeds in storing a cell, on a stack with room, it takes the register up
-- by a cell, and `a@+` or `b@+`, with the register where it stood before, finds the cell that was
-- stored and leaves the register where the store did.
fetch_up-store_up :
    (size p q x : ℕ) (m m' : Memory) (d e : List ℕ)
    → x < 2 ^ 64
    → length d < size
    → through size store_up p m (x ∷ d) ≡ ok (q, m', e)
    → (e ≡ d) × (q ≡ add p 8) × (through size fetch_up p m' e ≡ ok (q, m', x ∷ d))
unfolding through pop
fetch_up-store_up size p q x m m' d e fits room h =
    let (u, c, h1) = >>=-eq-ok (check on_data size (length (x ∷ d)) 1 0) _ h in
    let (n, k, h2) = >>=-eq-ok (access (store m 8 p x)) _ h1 in
    let stored = access-ok (store m 8 p x) n k in
    let found = load-store 8 m n p x stored (omega arith) in
    let enough = check-room size (length d) 0 1 (omega arith) (omega arith) in
    let one : add p 8 ≡ q = cc in
    let two : d ≡ e = cc in
    let three : n ≡ m' = cc in rw (← one, ← two, ← three) (refl, refl, rw (enough, found) refl)
