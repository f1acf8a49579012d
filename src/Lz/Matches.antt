-- ===== src/Lz/Matches.antt =====
-- A match that `ficlLzCompareWindow` gives is one.
use ficl.Common.{
  ℕ, zero, suc, ◌+◌, ◌-◌, ◌≤◌, ◌<◌, ◌≡◌, refl, ◌&&◌, ltb, leb, ◌==◌, arith, Bool-cases, inl, inr,
  ◌⊎◌,
}
use ficl.Bits.{Bytes}
use ficl.Lz.{Match, match_length, window_loop, compare_window, minimum_useful_match}

pub match_length-below :
    (text : Bytes) (count end i j : ℕ) → match_length text count end i j ≤ count
unfolding match_length
match_length-below text zero end i j = omega arith
match_length-below text (suc count) end i j =
    ground (arith, match_length-below text count end (i + 1) (j + 1))

match_length-inside :
    (text : Bytes) (count end i j : ℕ) → i ≤ end → i + match_length text count end i j ≤ end
unfolding match_length
match_length-inside text zero end i j h = omega arith
match_length-inside text (suc count) end i j h = elim (Bool-cases (ltb i end && text i == text j)) [
  | inl go ↦
      rw (match_length, go)
        (let low : i + 1 ≤ end = ground (arith, go) in
          omega (arith, match_length-inside text count end (i + 1) (j + 1) low))
  | inr stop ↦ rw (match_length, stop) (omega arith)
]

match_length-same :
    (text : Bytes) (count end i j k : ℕ)
    → k < match_length text count end i j
    → text (i + k) ≡ text (j + k)
unfolding match_length
match_length-same text zero end i j k h = absurd (omega arith)
match_length-same text (suc count) end i j zero h =
    elim (Bool-cases (ltb i end && text i == text j)) [
      | inl go ↦
          let first : text i ≡ text j = ground (arith, go) in
          let one : i + 0 ≡ i = omega arith in
          let two : j + 0 ≡ j = omega arith in rw (one, two) first
      | inr stop ↦ let nothing : 0 < 0 = rw (match_length, stop) at h in absurd (omega arith)
    ]
match_length-same text (suc count) end i j (suc k) h =
    elim (Bool-cases (ltb i end && text i == text j)) [
      | inl go ↦
          let more : suc k < suc (match_length text count end (i + 1) (j + 1)) =
            rw (match_length, go) at h in
          let one : i + suc k ≡ i + 1 + k = omega arith in
          let two : j + suc k ≡ j + 1 + k = omega arith in
          rw (one, two) (match_length-same text count end (i + 1) (j + 1) k (omega (arith, more)))
      | inr stop ↦
          let nothing : suc k < 0 = rw (match_length, stop) at h in absurd (omega (arith, nothing))
    ]

-- A match of the text at `buffer` with a place of the window, of `limit` bytes at most.
pub record IsMatch (text : Bytes) (window size buffer limit : ℕ) (m : Match) : Type 0 where
  pub within : m.length ≤ limit
  pub next_is : m.next ≡ text (buffer + m.length)
  pub useful : (m.length ≡ 0) ⊎ (2 ≤ m.length)
  pub inside : m.offset + m.length ≤ size
  pub same : (k : ℕ) → k < m.length → text (window + m.offset + k) ≡ text (buffer + k)

window_loop-IsMatch :
    (text : Bytes) (window size buffer limit count trace : ℕ) (best : Match)
    → window ≤ trace
    → trace + count ≡ window + size
    → IsMatch text window size buffer limit best
    → IsMatch text window size buffer limit (window_loop text count window buffer limit trace best)
unfolding window_loop
window_loop-IsMatch text window size buffer limit zero trace best from all m = m
window_loop-IsMatch text window size buffer limit (suc count) trace best from all m =
    let end = trace + suc count in
    let length = match_length text limit end trace buffer in
    let better : Match = record {
      length = length;
      offset = trace - window;
      next = text (buffer + length);
    } in
    let taken =
      text trace == text buffer && ltb best.length length && leb minimum_useful_match length in
    let place : window + (trace - window) ≡ trace = omega arith in
    let inside : trace + length ≤ end =
      match_length-inside text limit end trace buffer (omega arith) in
    elim (Bool-cases taken) [
      | inl take ↦
          let good : IsMatch text window size buffer limit better = record {
            within = match_length-below text limit end trace buffer;
            next_is = refl;
            useful = inr (ground (arith, take));
            inside = omega (arith, inside);
            same = λ k low. rw place (match_length-same text limit end trace buffer k low);
          } in
          rw (window_loop, take)
            (window_loop-IsMatch text window size buffer limit count (trace + 1) better
              (omega arith) (omega arith) good)
      | inr leave ↦
          rw (window_loop, leave)
            (window_loop-IsMatch text window size buffer limit count (trace + 1) best (omega arith)
              (omega arith) m)
    ]

pub compare_window-IsMatch :
    (text : Bytes) (window size buffer buffer_size : ℕ)
    → IsMatch text window size buffer
        (buffer_size - 1)
        (compare_window text window buffer size buffer_size)
unfolding compare_window
compare_window-IsMatch text window size buffer buffer_size =
    window_loop-IsMatch text window size buffer (buffer_size - 1) size window
      (record { length = 0; offset = 0; next = text buffer }) (omega arith) (omega arith)
      (record {
        within = omega arith;
        next_is = let e : buffer + 0 ≡ buffer = omega arith in rw e refl;
        useful = inl refl;
        inside = omega arith;
        same = λ k low. absurd (omega arith);
      })
