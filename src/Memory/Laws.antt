-- ===== src/Memory/Laws.antt =====
-- A load after a store.
use native.Mathlib.Nat.{pow-suc}
use ficl.Common.{
  ℕ, zero, suc, ◌+◌, ◌/◌, ◌%◌, ◌^◌, ◌≤◌, ◌<◌, ◌≡◌, ◌⊎◌, inl, refl, ap, true, false, ◌∙◌, Option,
  none, some, ◌==◌, arith,
}
use ficl.Memory.{Memory, update, load, store}

-- A store that succeeds stores its first byte and then the others.
store-suc :
    (n : ℕ) (m m' : Memory) (a v : ℕ)
    → store m (suc n) a v ≡ some m'
    → store (update m a (v % 256)) n (a + 1) (v / 256) ≡ some m'
unfolding store
store-suc n m m' a v h = go (m a) h
  where
    go :
        (o : Option ℕ)
        → (elim o as (λ x. Option Memory) [
          | none ↦ none
          | some c ↦ store (update m a (v % 256)) n (a + 1) (v / 256)
        ])
          ≡ some m'
        → store (update m a (v % 256)) n (a + 1) (v / 256) ≡ some m'
    go none k = cc
    go (some c) k = k

-- A store leaves every byte alone that lies outside of the bytes it writes.
pub store-elsewhere :
    (n : ℕ) (m m' : Memory) (a v b : ℕ)
    → store m n a v ≡ some m'
    → (b < a) ⊎ (a + n ≤ b)
    → m' b ≡ m b
unfolding store
store-elsewhere zero m m' a v b h out = ground (arith, h)
store-elsewhere (suc n) m m' a v b h out =
    let k = store-suc n m m' a v h in
    let other : (b < a + 1) ⊎ (a + 1 + n ≤ b) = ground arith in
    let away : (a == b) ≡ false = ground arith in
    store-elsewhere n (update m a (v % 256)) m' (a + 1) (v / 256) b k other ∙ rw away refl

-- A load from where a number was stored that fits its bytes gives the number.
pub load-store :
    (n : ℕ) (m m' : Memory) (a v : ℕ) → store m n a v ≡ some m' → v < 256 ^ n → load m' n a ≡ some v
unfolding load
load-store zero m m' a v h fits = ap some (omega arith)
load-store (suc n) m m' a v h fits =
    let k = store-suc n m m' a v h in
    let found : (a == a) ≡ true = ground arith in
    let first : m' a ≡ some (v % 256) =
      store-elsewhere n (update m a (v % 256)) m' (a + 1) (v / 256) a k (inl (omega arith))
      ∙ rw found refl in
    let rest =
      load-store n (update m a (v % 256)) m' (a + 1) (v / 256) k (omega (arith, pow-suc 256 n)) in
    rw (load, first, rest) (ap some (omega arith))
