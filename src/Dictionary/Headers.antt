-- ===== src/Dictionary/Headers.antt =====
-- What `ficlDictionaryAppendWord` makes of a dictionary.
use Prim.Native.Nat.{bit_or}
use mathlib.Core.Path.{subst}
use ficl.Common.{ℕ, ◌+◌, ◌/◌, ◌%◌, ◌≡◌, sym, ap, ◌∙◌, List, length, take, ◌==◌, if◌then◌else◌}
use ficl.Cell.{add}
use ficl.Memory.{Memory}
use ficl.Outcome.{ok, >>=-eq-ok, ok-inj}
use ficl.Hash.{Word, name_length, hash_code}
use ficl.Dictionary.{Dictionary, at, append_string, append_word, unsmudge, lock, unlock}
use ficl.Dictionary.Space.{append_data-shape}

-- The header that `ficlDictionaryAppendWord` fills in.
abbrev pub header : List ℕ → ℕ → ℕ → ℕ → Word
header s name_at code flags = record {
  name = take name_length s;
  name_at = name_at;
  word_length = length s % 256;
  word_hash = hash_code s;
  code = code;
  flags = bit_or flags 4 % 256;
}

-- What `ficlDictionaryAppendWord` makes of the dictionary once the name is copied.
abbrev pub finished : List ℕ → ℕ → ℕ → ℕ → ℕ → Dictionary → Dictionary
finished s code flags name_at w f =
    let g = record f {
      smudge = w;
      words = at f.words w (header s name_at code flags);
      here = add w 40;
    } in
    unlock (if flags / 4 % 2 == 1 then g else unsmudge g)

pub append_word-shape :
    (d e : Dictionary) (s : List ℕ) (code flags w : ℕ)
    → append_word d s code flags ≡ ok (w, e)
    → (name_at : ℕ) × (m : Memory) × (e
        ≡ finished s code flags name_at w (record d { memory = m; locks = d.locks + 1 }))
      × (f : Dictionary) × (append_string (lock d) s ≡ ok (name_at, f))
unfolding append_word append_string
append_word-shape d e s code flags w h =
    let ((name_at, f), g, k) = >>=-eq-ok (append_string (lock d) s) _ h in
    let (here, m, shape) = append_data-shape (lock d) f (take name_length s) name_at g in
    let pairs : Path (ℕ × Dictionary) (f.here, finished s code flags name_at f.here f) (w, e) =
      ok-inj k in
    let moved : Path (ℕ × Dictionary)
        (here, finished s code flags name_at here (record d { memory = m; locks = d.locks + 1 }))
        (w, e) =
      subst (λ z. Path (ℕ × Dictionary) (z.here, finished s code flags name_at z.here z) (w, e))
        shape pairs in
    let one : here ≡ w = ap (λ (p : ℕ × Dictionary). p.0) moved in
    let two : finished s code flags name_at here (record d { memory = m; locks = d.locks + 1 })
        ≡ e =
      ap (λ (p : ℕ × Dictionary). p.1) moved in
    (
      name_at,
      m,
      sym two
          ∙ ap (λ z. finished s code flags name_at z (record d { memory = m; locks = d.locks + 1 }))
              one,
      f,
      g,
    )
