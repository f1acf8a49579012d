-- ===== src/Dictionary/Entries.antt =====
-- The entries that are made in one call: wordlists, primitives, instructions and constants.
use Prim.Native.Nat.{bit_or}
use ficl.Common.{ℕ, ◌+◌, ◌-◌, ◌*◌, ◌%◌, ◌||◌, List, [], ◌==◌, if◌then◌else◌, none, some}
use ficl.Double.{Double}
use ficl.Memory.{store}
use ficl.Outcome.{Outcome, ok, ◌>>=◌, access}
use ficl.Hash.{hash_reset}
use ficl.Dictionary.{
  Dictionary, at, align, allot, append_unsigned, append_word, lookup, reset_search_order,
}

-- A `ficlHash` takes 32 bytes with its first bucket.
unfoldable pub create_wordlist : Dictionary → ℕ → ℕ × Dictionary
unfolding align allot hash_reset
create_wordlist d buckets =
    let e = align d in
    let a = e.here in
    let empty_table = hash_reset (record { buckets = buckets; table = (e.hashes a).table }) in
    let f = allot e (32 + (buckets - 1) * 8) in
    (a, record f { hashes = at f.hashes a empty_table; inherited = at f.inherited a [] })

unfoldable pub make_empty : Dictionary → ℕ → Dictionary
unfolding create_wordlist reset_search_order
make_empty d buckets =
    let (a, e) = create_wordlist (record d { here = d.base }) buckets in
    reset_search_order (record e { forth_wordlist = a; smudge = 0 })

-- The named constants: `code` is the instruction that pushes the value.
unfoldable pub append_constant_instruction : Dictionary → List ℕ → ℕ → ℕ → Outcome (ℕ × Dictionary)
unfolding append_word append_unsigned
append_constant_instruction d s instruction value = do
  (w, e) ← append_word d s instruction 0
  f ← append_unsigned e value
  ok (w, f)

unfoldable pub append_2constant_instruction :
    Dictionary → List ℕ → ℕ → Double → Outcome (ℕ × Dictionary)
unfolding append_word append_unsigned
append_2constant_instruction d s instruction value = do
  (w, e) ← append_word d s instruction 0
  f ← append_unsigned e value.high
  g ← append_unsigned f value.low
  ok (w, g)

-- `word->code = code`, and the first parameter, 40 bytes behind the header.
abbrev with_code : Dictionary → ℕ → ℕ → Dictionary
with_code d w code = record d { words = at d.words w (record (d.words w) { code = code }) }

abbrev put_parameter : Dictionary → ℕ → ℕ → ℕ → Outcome Dictionary
put_parameter d w index value = do
  m ← access (store d.memory 8 (w + 40 + index * 8) value)
  ok (record d { memory = m })

unfoldable pub set_constant_instruction : Dictionary → List ℕ → ℕ → ℕ → Outcome (ℕ × Dictionary)
unfolding lookup append_constant_instruction
set_constant_instruction d s instruction value =
    let (found, e) = lookup d s in
    elim found [
      | none ↦ append_constant_instruction e s instruction value
      | some w ↦ put_parameter (with_code e w instruction) w 0 value >>= λ f. ok (w, f)
    ]

-- `two` and `two_float` are the tokens of the instructions whose words have room for two cells.
unfoldable pub set_2constant_instruction :
    ℕ → ℕ → Dictionary → List ℕ → ℕ → Double → Outcome (ℕ × Dictionary)
unfolding lookup append_2constant_instruction
set_2constant_instruction two two_float d s instruction value =
    let (found, e) = lookup d s in
    let fresh = append_2constant_instruction e s instruction value in
    elim found [
      | none ↦ fresh
      | some w ↦
          if (e.words w).code == two || (e.words w).code == two_float
          then (do
            f ← put_parameter (with_code e w instruction) w 0 value.high
            g ← put_parameter f w 1 value.low
            ok (w, g))
          else fresh
    ]

unfoldable pub set_primitive : Dictionary → List ℕ → ℕ → ℕ → Outcome (ℕ × Dictionary)
unfolding lookup append_word
set_primitive d s code flags =
    let (found, e) = lookup d s in
    elim found [
      | none ↦ append_word e s code flags
      | some w ↦
          ok (
            w,
            record e { words = at e.words w (record (e.words w) { code = code; flags = flags }) },
          )
    ]

-- `FICL_WORD_INSTRUCTION` is 16.
unfoldable pub set_instruction : Dictionary → List ℕ → ℕ → ℕ → Outcome (ℕ × Dictionary)
unfolding set_primitive
set_instruction d s instruction flags = set_primitive d s instruction (bit_or 16 flags % 256)

unfoldable pub append_instruction : Dictionary → List ℕ → ℕ → ℕ → Outcome (ℕ × Dictionary)
unfolding append_word
append_instruction d s instruction flags = append_word d s instruction (bit_or 16 flags % 256)
