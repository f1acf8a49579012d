-- ===== src/Vm/Access.antt =====
-- The instructions that fetch from memory and store to it, and those of the two address
-- registers (vm.c). The stacks lie outside of the memory that they reach.
pub mod Laws
use ficl.Common.{ℕ, ◌+◌, ◌*◌, ◌%◌, ◌^◌, List, [], ◌∷◌, length}
use ficl.Cell.{add, sub}
use ficl.Memory.{Memory, load, store}
use ficl.Outcome.{Outcome, ok, thrown, fault, ◌>>=◌, ◌>>◌, access}
use ficl.Vm.Check.{on_data, check, pop}

-- What these instructions work on. `areg` and `breg` are variables of the inner loop.
pub record Store : Type 0 where
  pub memory : Memory
  pub data_stack : List ℕ
  pub areg : ℕ
  pub breg : ℕ

abbrev pub with_stack : Store → List ℕ → Store
with_stack s d = record { memory = s.memory; data_stack = d; areg = s.areg; breg = s.breg }

abbrev pub with_memory : Store → Memory → List ℕ → Store
with_memory s m d = record { memory = m; data_stack = d; areg = s.areg; breg = s.breg }

-- How many bytes an access is wide.
pub data Width : Type 0 where
  byte half_word word cell : Width

unfoldable pub bytes : Width → ℕ
bytes byte = 1
bytes half_word = 2
bytes word = 4
bytes cell = 8

-- `@`, `q@`, `w@`, `c@`: the address gives way to what stands there.
unfoldable pub fetch : ℕ → Width → Store → Outcome Store
unfolding check pop bytes
fetch size w s = do
  check on_data size (length s.data_stack) 1 1
  (a, d) ← pop s.data_stack
  x ← access (load s.memory (bytes w) a)
  ok (with_stack s (x ∷ d))

-- `!`, `q!`, `w!`, `c!`: the address is on top, the cell under it loses what does not fit.
unfoldable pub put : ℕ → Width → Store → Outcome Store
unfolding check pop bytes
put size w s = do
  check on_data size (length s.data_stack) 2 0
  (a, d) ← pop s.data_stack
  (x, e) ← pop d
  m ← access (store s.memory (bytes w) a x)
  ok (with_memory s m e)

-- `+!` and `c+!`.
unfoldable pub add_put : ℕ → Width → Store → Outcome Store
unfolding check pop bytes
add_put size w s = do
  check on_data size (length s.data_stack) 2 0
  (a, d) ← pop s.data_stack
  (x, e) ← pop d
  y ← access (load s.memory (bytes w) a)
  m ← access (store s.memory (bytes w) a (add y x))
  ok (with_memory s m e)

-- `2@`.
unfoldable pub two_fetch : ℕ → Store → Outcome Store
unfolding check pop
two_fetch size s = do
  check on_data size (length s.data_stack) 1 2
  (a, d) ← pop s.data_stack
  y ← access (load s.memory 8 (add a 8))
  x ← access (load s.memory 8 a)
  ok (with_stack s (x ∷ y ∷ d))

-- `2!`.
unfoldable pub two_put : ℕ → Store → Outcome Store
unfolding check pop
two_put size s = do
  check on_data size (length s.data_stack) 3 0
  (a, d) ← pop s.data_stack
  (x, e) ← pop d
  (y, f) ← pop e
  m ← access (store s.memory 8 a x)
  m' ← access (store m 8 (add a 8) y)
  ok (with_memory s m' f)

-- `@+` and `c@+`.
unfoldable pub fetch_plus : ℕ → Width → Store → Outcome Store
unfolding check pop bytes
fetch_plus size w s = do
  check on_data size (length s.data_stack) 1 2
  (a, d) ← pop s.data_stack
  x ← access (load s.memory (bytes w) a)
  ok (with_stack s (x ∷ add a (bytes w) ∷ d))

-- `!+` and `c!+`.
unfoldable pub put_plus : ℕ → Width → Store → Outcome Store
unfolding check pop bytes
put_plus size w s = do
  check on_data size (length s.data_stack) 2 1
  (a, d) ← pop s.data_stack
  (x, e) ← pop d
  m ← access (store s.memory (bytes w) a x)
  ok (with_memory s m (add a (bytes w) ∷ e))

-- `+!+` and `c+!+`.
unfoldable pub add_put_plus : ℕ → Width → Store → Outcome Store
unfolding check pop bytes
add_put_plus size w s = do
  check on_data size (length s.data_stack) 2 1
  (a, d) ← pop s.data_stack
  (x, e) ← pop d
  y ← access (load s.memory (bytes w) a)
  m ← access (store s.memory (bytes w) a (add y x))
  ok (with_memory s m (add a (bytes w) ∷ e))

-- The instructions of one register.
pub data Pointer : Type 0 where
  to from fetch_at store_at fetch_up fetch_down store_up : Pointer

-- What they make of the register, the memory and the data stack.
unfoldable pub through : ℕ → Pointer → ℕ → Memory → List ℕ → Outcome (ℕ × Memory × List ℕ)
unfolding check pop
through size to p m d = do check on_data size (length d) 1 0; (x, e) ← pop d; ok (x, m, e)
through size from p m d = do check on_data size (length d) 0 1; ok (p, m, p ∷ d)
through size fetch_at p m d = do
  check on_data size (length d) 0 1
  x ← access (load m 8 p)
  ok (p, m, x ∷ d)
through size store_at p m d = do
  check on_data size (length d) 1 0
  (x, e) ← pop d
  m' ← access (store m 8 p x)
  ok (p, m', e)
through size fetch_up p m d = do
  check on_data size (length d) 0 1
  x ← access (load m 8 p)
  ok (add p 8, m, x ∷ d)
through size fetch_down p m d = do
  check on_data size (length d) 0 1
  x ← access (load m 8 p)
  ok (sub p 8, m, x ∷ d)
through size store_up p m d = do
  check on_data size (length d) 1 0
  (x, e) ← pop d
  m' ← access (store m 8 p x)
  ok (add p 8, m', e)

-- `>a`, `a>`, `a@`, `a!`, `a@+`, `a@-`, `a!+`.
unfoldable pub through_a : ℕ → Pointer → Store → Outcome Store
unfolding through
through_a size i s = do
  (p, m, d) ← through size i s.areg s.memory s.data_stack
  ok (record { memory = m; data_stack = d; areg = p; breg = s.breg })

-- The same for the other register.
unfoldable pub through_b : ℕ → Pointer → Store → Outcome Store
unfolding through
through_b size i s = do
  (p, m, d) ← through size i s.breg s.memory s.data_stack
  ok (record { memory = m; data_stack = d; areg = s.areg; breg = p })
