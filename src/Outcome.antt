-- ===== src/Outcome.antt =====
-- What a call of the virtual machine comes to. `ficlVmThrowError` leaves the inner loop by a
-- `longjmp`: the model returns `thrown` and the handler looks at it. An access that C leaves
-- undefined (below the bottom of a stack, through a pointer to no memory) is `fault`.
use ficl.Common.{◌≡◌, refl, Option, none, some}

-- The errors of vm.c, stack.c, search.c and primitives.c that the model reaches, by their messages,
-- and the status `FICL_VM_STATUS_RESTART`.
pub data Error : Type 0 where
  data_underflow data_overflow return_underflow return_overflow : Error
  division_by_zero null_instruction compile_only interpret_only : Error
  restart counted_string_too_long dictionary_full dictionary_underflow : Error
  search_order_overflow no_search_order too_many_wordlists unmatched_control : Error

pub data Outcome {ℓ} (A : Type ℓ) : Type ℓ where
  ok : A → Outcome A
  thrown : Error → Outcome A
  fault : Outcome A

infixl 5 ◌>>=◌ ◌>>◌
abbrev pub ◌>>=◌ {ℓ κ} : {A : Type ℓ} {B : Type κ} → Outcome A → (A → Outcome B) → Outcome B
ok a >>= f = f a
thrown e >>= f = thrown e
fault >>= f = fault

abbrev pub ◌>>◌ {ℓ} : {B : Type ℓ} → Outcome (Unit {0}) → Outcome B → Outcome B
m >> k = m >>= λ _. k

-- An access that may find nothing.
abbrev pub access {ℓ} : {A : Type ℓ} → Option A → Outcome A
access none = fault
access (some a) = ok a

-- A chain that succeeds has a first part that succeeds.
pub >>=-eq-ok {ℓ κ} :
    {A : Type ℓ} {B : Type κ} (first : Outcome A) (next : A → Outcome B) {r : B}
    → (first >>= next) ≡ ok r
    → (x : A) × (first ≡ ok x) × (next x ≡ ok r)
>>=-eq-ok fault next h = cc
>>=-eq-ok (thrown e) next h = cc
>>=-eq-ok (ok x) next h = (x, refl, h)

pub ok-inj {ℓ} : {A : Type ℓ} {x y : A} → ok x ≡ ok y → x ≡ y
ok-inj h = cc

pub access-ok {ℓ} : {A : Type ℓ} (o : Option A) (a : A) → access o ≡ ok a → o ≡ some a
access-ok none a h = cc
access-ok (some b) a h = cc
