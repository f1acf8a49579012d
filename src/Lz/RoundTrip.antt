-- ===== src/Lz/RoundTrip.antt =====
-- What was compressed is uncompressed to what it was.
use ficl.Common.{
  ℕ, zero, suc, ◌+◌, ◌-◌, ◌≤◌, ◌<◌, ◌≡◌, refl, sym, ap, ◌∙◌, true, false, ◌==◌, arith, Bool-cases,
  inl, inr, some,
}
use Prim.Native.Nat.{min}
use mathlib.Core.Path.{subst}
use ficl.Bits.{Bytes, bit_get}
use ficl.Bits.Places.{IsBytes}
use ficl.Lz.{
  Match, Stream, compare_window, token_of, put_token, slide, compress_loop, uncompress_loop,
  lz_window_size, lz_buffer_size,
}
use ficl.Lz.Matches.{IsMatch, compare_window-IsMatch}
use ficl.Lz.Tokens.{Fits, Reads, Extends, Extends-trans, put_token-Extends, put_token-Reads}
use ficl.Lz.Steps.{
  bytes_after, uncompress_loop-token, Agrees, bytes_after-Agrees, IsWindow, slide-IsWindow,
}

-- The match that a round of `ficlLzCompress` takes.
abbrev taken : Bytes → ℕ → ℕ → ℕ → ℕ → Match
taken text window size buffer remaining =
    compare_window text window buffer (min remaining size) (min remaining lz_buffer_size)

-- What that match has, in a round with bytes left.
record Taken (text : Bytes) (window size buffer remaining : ℕ) (m : Match) : Type 0 where
  match : IsMatch text window (min remaining size) buffer (min remaining lz_buffer_size - 1) m
  fits : Fits m
  shorter : m.length + 1 ≤ remaining
  short : m.length + 1 ≤ lz_window_size

taken-Taken :
    (text : Bytes) (window size buffer remaining : ℕ)
    → IsBytes text
    → IsWindow window size buffer
    → 1 ≤ remaining
    → Taken text window size buffer remaining (taken text window size buffer remaining)
taken-Taken text window size buffer remaining bytes w left =
    let m = taken text window size buffer remaining in
    let match =
      compare_window-IsMatch text window (min remaining size) buffer
        (min remaining lz_buffer_size) in
    let inside = match.inside in
    let within = match.within in
    let bounded = w.bounded in
    record {
      match = match;
      fits = record {
        offset_fits = omega (arith, inside, bounded);
        length_fits = omega (arith, within);
        next_fits = rw match.next_is (bytes (buffer + m.length));
        useful = match.useful;
      };
      shorter = omega (arith, within, left);
      short = omega (arith, within);
    }

-- Compressing goes on from what is written.
pub compress_loop-Extends :
    (fuel : ℕ) (text : Bytes) (window size buffer remaining : ℕ) (s : Stream)
    → IsBytes s.output
    → Extends s (compress_loop fuel text window size buffer remaining s)
unfolding compress_loop
compress_loop-Extends zero text window size buffer remaining s fits = record {
  fits = fits;
  further = omega arith;
  kept = λ j low. refl;
}
compress_loop-Extends (suc fuel) text window size buffer remaining s fits =
    elim (Bool-cases (remaining == 0)) [
      | inl done ↦
          rw (compress_loop, done)
            (record { fits = fits; further = omega arith; kept = λ j low. refl })
      | inr more ↦
          let m = taken text window size buffer remaining in
          let (token, count) = token_of m in
          let put = put_token-Extends s token count fits in
          let (window', size') = slide window size (m.length + 1) in
          rw (compress_loop, more)
            (Extends-trans put (
              compress_loop-Extends fuel text window' size' (buffer + (m.length + 1))
                (remaining - (m.length + 1)) (put_token s (token_of m)) put.fits))
    ]

compress_loop-more :
    (fuel : ℕ) (text : Bytes) (window size buffer remaining : ℕ) (s : Stream)
    → (remaining == 0) ≡ false
    → let m = taken text window size buffer remaining in
      let (window', size') = slide window size (m.length + 1) in
      compress_loop (suc fuel) text window size buffer remaining s
      ≡ compress_loop fuel text window' size'
          (buffer + (m.length + 1))
          (remaining - (m.length + 1))
          (put_token s (token_of m))
unfolding compress_loop
compress_loop-more fuel text window size buffer remaining s more = rw (compress_loop, more) refl

compress_loop-done :
    (fuel : ℕ) (text : Bytes) (window size buffer : ℕ) (s : Stream)
    → compress_loop fuel text window size buffer 0 s ≡ s
unfolding compress_loop
compress_loop-done zero text window size buffer s = refl
compress_loop-done (suc fuel) text window size buffer s = refl

uncompress_loop-done :
    (rounds : ℕ) (f : Bytes) (i window buffer : ℕ) (out : Bytes)
    → uncompress_loop rounds f i i window buffer out ≡ some out
unfolding uncompress_loop
uncompress_loop-done zero f i window buffer out =
    let e : (i == i) ≡ true = ground arith in rw e refl
uncompress_loop-done (suc rounds) f i window buffer out =
    let e : (i == i) ≡ true = ground arith in rw (uncompress_loop, e) refl

token_of-long : (m : Match) → 9 ≤ (token_of m).1
unfolding token_of
token_of-long m = ground arith

-- The two loops, from any state in which they agree on what is done, to the end `t` of the stream.
pub record Restored (n base rounds : ℕ) (text f out : Bytes) (window buffer : ℕ) (s t : Stream)
    : Type 0 where
  pub bytes : Bytes
  pub ends :
      uncompress_loop rounds f (base + t.position) (base + s.position) window buffer out
      ≡ some bytes
  pub agree : Agrees bytes text n

ends-Restored :
    (n base rounds : ℕ) (text f out : Bytes) (window buffer : ℕ) (s t : Stream)
    → s ≡ t
    → buffer ≡ n
    → Agrees out text buffer
    → Restored n base rounds text f out window buffer s t
ends-Restored n base rounds text f out window buffer s t e whole agrees = record {
  bytes = out;
  ends = rw e (uncompress_loop-done rounds f (base + t.position) window buffer out);
  agree = rw (sym whole) agrees;
}

put_position :
    (s : Stream) (m : Match) → (put_token s (token_of m)).position ≡ s.position + (token_of m).1
unfolding put_token
put_position s m = refl

round_Extends :
    (fuel : ℕ) (text : Bytes) (window size buffer left : ℕ) (s t : Stream)
    → IsBytes s.output
    → compress_loop (suc fuel) text window size buffer (suc left) s ≡ t
    → Extends (put_token s (token_of (taken text window size buffer (suc left)))) t
round_Extends fuel text window size buffer left s t fits e =
    let m = taken text window size buffer (suc left) in
    let slid = slide window size (m.length + 1) in
    let put = put_token-Extends s (token_of m).0 (token_of m).1 fits in
    subst (Extends (put_token s (token_of m)))
      (sym (compress_loop-more fuel text window size buffer (suc left) s (ground arith)) ∙ e)
      (compress_loop-Extends fuel text slid.0 slid.1 (buffer + (m.length + 1))
        (suc left - (m.length + 1)) (put_token s (token_of m)) put.fits)

known_window :
    (window size buffer remaining : ℕ)
    → IsWindow window size buffer
    → window + min remaining size ≤ buffer
known_window window size buffer remaining w = omega (arith, w.ends)

pub restored :
    (fuel rounds n base : ℕ) (text f out : Bytes) (window size buffer remaining : ℕ) (s t : Stream)
    → IsBytes text
    → IsBytes s.output
    → IsWindow window size buffer
    → remaining ≤ fuel
    → buffer + remaining ≡ n
    → compress_loop fuel text window size buffer remaining s ≡ t
    → ((j : ℕ) → j < t.position → bit_get f (base + j) ≡ bit_get t.output j)
    → t.position ≤ s.position + rounds
    → Agrees out text buffer
    → Restored n base rounds text f out window buffer s t
restored fuel rounds n base text f out window size buffer zero s t bytes fits w few all e same
      enough agrees =
    ends-Restored n base rounds text f out window buffer s t
      (sym (compress_loop-done fuel text window size buffer s) ∙ e) (omega (arith, all)) agrees
restored zero rounds n base text f out window size buffer (suc left) s t bytes fits w few all e same
      enough agrees =
    absurd (omega (arith, few))
restored (suc fuel) zero n base text f out window size buffer (suc left) s t bytes fits w few all e
      same enough agrees =
    let later = round_Extends fuel text window size buffer left s t fits e in
    absurd (
      omega (
        arith,
        later.further,
        enough,
        put_position s (taken text window size buffer (suc left)),
        token_of-long (taken text window size buffer (suc left)),
      ))
restored (suc fuel) (suc rounds) n base text f out window size buffer (suc left) s t bytes fits w
      few all e same enough agrees =
    let m = taken text window size buffer (suc left) in
    let k = taken-Taken text window size buffer (suc left) bytes w (omega arith) in
    let slid = slide window size (m.length + 1) in
    let put = put_token s (token_of m) in
    let later = round_Extends fuel text window size buffer left s t fits e in
    let place = put_position s m in
    let long = token_of-long m in
    let put_fits = (put_token-Extends s (token_of m).0 (token_of m).1 fits).fits in
    let reads : Reads f (base + s.position) m =
      put_token-Reads s m f (base + s.position) fits k.fits (λ j low.
        let whole : base + s.position + j ≡ base + (s.position + j) = omega arith in
        ap (bit_get f) whole
        ∙ same (s.position + j) (omega (arith, low, place, later.further))
        ∙ later.kept (s.position + j) (omega (arith, low, place))) in
    let more : (base + s.position == base + t.position) ≡ false =
      ground (arith, later.further, place, long) in
    let step =
      uncompress_loop-token rounds f (base + t.position) (base + s.position) window buffer out m
        k.fits reads more in
    let (w', window_is) =
      slide-IsWindow window size buffer (m.length + 1) (omega arith) k.short w in
    let known = known_window window size buffer (suc left) w in
    let agrees' =
      bytes_after-Agrees text out window (min (suc left) size) buffer
        (min (suc left) lz_buffer_size - 1) m k.match known agrees in
    let next : buffer + m.length + 1 ≡ buffer + (m.length + 1) = omega arith in
    let e' =
      sym (compress_loop-more fuel text window size buffer (suc left) s (ground arith)) ∙ e in
    let rest =
      restored fuel rounds n base text f (bytes_after out window buffer m) slid.0 slid.1
        (buffer + (m.length + 1)) (suc left - (m.length + 1)) put t bytes put_fits w'
        (omega (arith, few, k.shorter)) (omega (arith, all, k.shorter)) e' same
        (omega (arith, enough, place, long))
        (subst (Agrees (bytes_after out window buffer m) text) next agrees') in
    let position : base + s.position + (token_of m).1 ≡ base + put.position =
      omega (arith, place) in
    record {
      bytes = rest.bytes;
      ends = step ∙ rw (next, window_is, position) rest.ends;
      agree = rest.agree;
    }
