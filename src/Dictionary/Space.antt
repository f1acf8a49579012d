-- ===== src/Dictionary/Space.antt =====
-- What appending leaves alone.
use ficl.Common.{ℕ, ◌+◌, ◌≡◌, sym, ap, List, [], ◌∷◌, length}
use ficl.Memory.{Memory, store}
use ficl.Outcome.{ok, access, >>=-eq-ok, ok-inj}
use ficl.Dictionary.{Dictionary, align, align_pointer, append_data, store_all}

pub append_data-shape :
    (d e : Dictionary) (s : List ℕ) (n : ℕ)
    → append_data d s ≡ ok (n, e)
    → (h : ℕ) × (m : Memory) × (e ≡ record d { here = h; memory = m })
unfolding append_data align
append_data-shape d e [] n h = (align_pointer d.here, d.memory, cc)
append_data-shape d e (c ∷ s) n h =
    let (m, f, g) = >>=-eq-ok (store_all d.memory d.here (c ∷ s)) _ h in
    let (m', f', g') = >>=-eq-ok (access (store m 1 (d.here + length (c ∷ s)) 0)) _ g in
    (align_pointer (d.here + length (c ∷ s) + 1), m', cc)

-- The data goes where the free space began.
pub append_data-start :
    (d e : Dictionary) (c : ℕ) (s : List ℕ) (n : ℕ) → append_data d (c ∷ s) ≡ ok (n, e) → n ≡ d.here
unfolding append_data
append_data-start d e c s n h =
    let (m, f, g) = >>=-eq-ok (store_all d.memory d.here (c ∷ s)) _ h in
    let (m', f', g') = >>=-eq-ok (access (store m 1 (d.here + length (c ∷ s)) 0)) _ g in
    sym (ap (λ (p : ℕ × Dictionary). p.0) (ok-inj g'))
