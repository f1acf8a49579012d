-- ===== src/Dictionary/Abort.antt =====
-- A definition that is given up.
use mathlib.Core.Path.{subst}
use ficl.Common.{ℕ, ◌+◌, ◌-◌, ◌≡◌, refl, ap, ◌∙◌, true, List, ◌∷◌, take, ◌==◌, arith}
use ficl.Memory.{Memory}
use ficl.Outcome.{ok}
use ficl.Dictionary.{Dictionary, at, append_string, append_word, lock, abort_definition}
use ficl.Dictionary.Space.{append_data-start}
use ficl.Dictionary.Headers.{header, finished, append_word-shape}

-- Locking and unlocking, with nothing but these fields written between.
abort_shape :
    (d : Dictionary) (s : List ℕ) (code name_at w : ℕ) (m : Memory)
    → abort_definition (finished s code 4 name_at w (record d { memory = m; locks = d.locks + 1 }))
      ≡ record d {
        here = name_at;
        memory = m;
        words = at d.words w (header s name_at code 4);
        smudge = w;
      }
unfolding abort_definition
abort_shape d s code name_at w m =
    let here : (w == w) ≡ true = ground arith in
    let back : d.locks + 1 - 1 + 1 - 1 ≡ d.locks = omega arith in rw (here, back) refl

-- When a definition that `ficlDictionaryAppendWord` opened as smudged, with a name that is not
-- empty, is given up by `ficlDictionaryAbortDefinition`, the free space starts where it did before,
-- and nothing has changed but bytes of memory, the header at the address of the word and the
-- pointer to it.
pub abort_definition-append_word :
    (d e : Dictionary) (c : ℕ) (s : List ℕ) (code w : ℕ)
    → append_word d (c ∷ s) code 4 ≡ ok (w, e)
    → (m : Memory) × (abort_definition e
        ≡ record d { memory = m; words = at d.words w (header (c ∷ s) d.here code 4); smudge = w })
unfolding append_string
abort_definition-append_word d e c s code w h =
    let (name_at, m, shape, f, copied) = append_word-shape d e (c ∷ s) code 4 w h in
    let start = append_data-start (lock d) f c (take 30 s) name_at copied in
    (
      m,
      ap abort_definition shape
          ∙ subst
              (λ x.
                abort_definition
                  (finished (c ∷ s) code 4 name_at w (record d { memory = m; locks = d.locks + 1 }))
                ≡ record d {
                  here = x;
                  memory = m;
                  words = at d.words w (header (c ∷ s) x code 4);
                  smudge = w;
                })
              start (abort_shape d (c ∷ s) code name_at w m),
    )
