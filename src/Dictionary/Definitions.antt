-- ===== src/Dictionary/Definitions.antt =====
-- A word that `ficlDictionaryAppendWord` finishes: it is found.
use mathlib.Core.Path.{subst}
use ficl.Common.{
  ℕ, zero, suc, ◌+◌, ◌/◌, ◌%◌, ◌≤◌, ◌≡◌, ◌≢◌, refl, sym, ap, ◌∙◌, Bool, true, false, List, [], ◌∷◌,
  length, take, ltb, ◌==◌, arith, Bool-cases, inl, inr, some,
}
use ficl.Memory.{Memory}
use ficl.Text.Folding.{AreChars, fold}
use ficl.Outcome.{ok}
use ficl.Hash.{Word, name_length, is_named, hash_insert, find_in_chain}
use ficl.Hash.Names.{IsWord, is_named_lem}
use ficl.Hash.Views.{Each, Each-map, Each-zip, Represents, Represents-agree, hash_insert-Represents}
use ficl.Dictionary.{Dictionary, at, append_word, unsmudge, lookup}
use ficl.Dictionary.Search.{IsWordlist, all_added, lookup_loop_lem}
use ficl.Dictionary.Headers.{header, finished, append_word-shape}

take_all : (n : ℕ) (s : List ℕ) → length s ≤ n → take n s ≡ s
take_all zero [] h = refl
take_all zero (c ∷ s) h = absurd (omega (arith, h))
take_all (suc n) [] h = refl
take_all (suc n) (c ∷ s) h = ap (λ t. c ∷ t) (take_all n s (omega (arith, h)))

module _ (d : Dictionary) (added : ℕ → List ℕ) (s : List ℕ) (code flags name_at w : ℕ) (m : Memory)
    (letters : AreChars s) (named : 1 ≤ length s) (short : length s ≤ name_length)
    (plain : flags / 4 % 2 ≡ 0) where
  abbrev after : Dictionary
  after = finished s code flags name_at w (record d { memory = m; locks = d.locks + 1 })

  -- The words put into each wordlist, with the new one.
  abbrev added_after : ℕ → List ℕ
  added_after = at added d.compilation_wordlist (w ∷ added d.compilation_wordlist)

  header-IsWord : IsWord (header s name_at code flags)
  header-IsWord =
      let whole = take_all name_length s short in
      record {
        short = rw whole short;
        letters = rw whole letters;
        length_is = rw whole (omega (arith, short));
        hash_is = rw whole refl;
      }

  after_words : (b : ℕ) → b ≢ w → after.words b ≡ d.words b
  unfolding unsmudge
  after_words b other =
      let test : (flags / 4 % 2 == 1) ≡ false = ground arith in
      let apart : (w == b) ≡ false = ground arith in rw (test, unsmudge, apart) refl

  after_new : IsWord (after.words w)
  unfolding unsmudge
  after_new =
      let test : (flags / 4 % 2 == 1) ≡ false = ground arith in
      let here : (w == w) ≡ true = ground arith in
      let ok = header-IsWord in
      rw (test, unsmudge, here)
        (record {
          short = ok.short;
          letters = ok.letters;
          length_is = ok.length_is;
          hash_is = ok.hash_is;
        })

  after-Represents :
      (a : ℕ)
      → IsWordlist d added a
      → Each (λ b. b ≢ w) (added a)
      → Represents after.words (d.hashes a) (added a)
  after-Represents a l fresh =
      Represents-agree d.words after.words (d.hashes a) (added a)
        (Each-map (λ b. b ≢ w) (λ b. (d.words b).word_hash ≡ (after.words b).word_hash) (added a)
          (λ b other. ap (λ (x : Word). x.word_hash) (sym (after_words b other))) fresh)
        l.represents

  after-IsWord :
      (a : ℕ)
      → IsWordlist d added a
      → Each (λ b. b ≢ w) (added a)
      → Each (λ b. IsWord (after.words b)) (added a)
  after-IsWord a l fresh =
      Each-zip (λ b. IsWord (d.words b)) (λ b. b ≢ w) (λ b. IsWord (after.words b)) (added a)
        (λ b ok other. subst IsWord (sym (after_words b other)) ok) l.words_are fresh

  after_hashes :
      after.hashes d.compilation_wordlist
      ≡ hash_insert after.words (d.hashes d.compilation_wordlist) w
  unfolding unsmudge hash_insert
  after_hashes =
      let test : (flags / 4 % 2 == 1) ≡ false = ground arith in
      let here : (w == w) ≡ true = ground arith in
      let same : (d.compilation_wordlist == d.compilation_wordlist) ≡ true = ground arith in
      let long : ltb 0 (length s % 256) ≡ true = ground arith in
      rw (test, unsmudge, here, long, same) refl

  after_hashes_elsewhere :
      (a : ℕ) → (d.compilation_wordlist == a) ≡ false → after.hashes a ≡ d.hashes a
  unfolding unsmudge
  after_hashes_elsewhere a apart =
      let test : (flags / 4 % 2 == 1) ≡ false = ground arith in
      let here : (w == w) ≡ true = ground arith in
      let long : ltb 0 (length s % 256) ≡ true = ground arith in
      rw (test, unsmudge, here, long, apart) refl

  after_name : (after.words w).name ≡ s
  unfolding unsmudge
  after_name =
      let test : (flags / 4 % 2 == 1) ≡ false = ground arith in
      let here : (w == w) ≡ true = ground arith in
      rw (test, unsmudge, here) (take_all name_length s short)

  after_inherited : (a : ℕ) → after.inherited a ≡ d.inherited a
  unfolding unsmudge
  after_inherited a =
      let test : (flags / 4 % 2 == 1) ≡ false = ground arith in rw (test, unsmudge) refl

  after_search_order : after.search_order ≡ d.search_order
  unfolding unsmudge
  after_search_order =
      let test : (flags / 4 % 2 == 1) ≡ false = ground arith in rw (test, unsmudge) refl

  after-IsWordlist-here :
      IsWordlist d added d.compilation_wordlist
      → Each (λ b. b ≢ w) (added d.compilation_wordlist)
      → IsWordlist after added_after d.compilation_wordlist
  after-IsWordlist-here l fresh =
      let a = d.compilation_wordlist in
      let same : (a == a) ≡ true = ground arith in
      let old = after-Represents a l fresh in
      let new = hash_insert-Represents after.words (d.hashes a) (added a) w old in
      record {
        represents = rw (same, after_hashes) new;
        words_are = rw same (after_new, after-IsWord a l fresh);
        alone = after_inherited a ∙ l.alone;
      }

  after-IsWordlist-there :
      (a : ℕ)
      → (d.compilation_wordlist == a) ≡ false
      → IsWordlist d added a
      → Each (λ b. b ≢ w) (added a)
      → IsWordlist after added_after a
  after-IsWordlist-there a apart l fresh = record {
    represents = rw (apart, after_hashes_elsewhere a apart) (after-Represents a l fresh);
    words_are = rw apart (after-IsWord a l fresh);
    alone = after_inherited a ∙ l.alone;
  }

  after-IsWordlist :
      (a : ℕ) → IsWordlist d added a → Each (λ b. b ≢ w) (added a) → IsWordlist after added_after a
  after-IsWordlist a l fresh = elim (Bool-cases (d.compilation_wordlist == a)) [
    | inl same ↦
        let e : d.compilation_wordlist ≡ a = ground arith in
        subst (IsWordlist after added_after) e (
          after-IsWordlist-here (subst (IsWordlist d added) (sym e) l)
            (subst (λ b. Each (λ c. c ≢ w) (added b)) (sym e) fresh))
    | inr apart ↦ after-IsWordlist-there a apart l fresh
  ]

-- `ficlDictionaryAppendWord` of a word without the smudged flag, whose name has between 1 and 31
-- characters, keeps every wordlist that inherits from none well formed, with the new word put into
-- the compilation wordlist and into no other, where the new header is at no address of the words
-- that the wordlist holds.
pub append_word-IsWordlist :
    (d e : Dictionary) (added : ℕ → List ℕ) (s : List ℕ) (code flags w a : ℕ)
    → AreChars s
    → 1 ≤ length s
    → length s ≤ name_length
    → flags / 4 % 2 ≡ 0
    → append_word d s code flags ≡ ok (w, e)
    → IsWordlist d added a
    → Each (λ b. b ≢ w) (added a)
    → IsWordlist e (at added d.compilation_wordlist (w ∷ added d.compilation_wordlist)) a
append_word-IsWordlist d e added s code flags w a letters named short plain h l fresh =
    let (name_at, m, shape, f, copied) = append_word-shape d e s code flags w h in
    rw shape (after-IsWordlist d added s code flags name_at w m letters named short plain a l fresh)

first_is :
    (wanted : ℕ → Bool) (added : ℕ → List ℕ) (a w : ℕ) (rest others : List ℕ)
    → added a ≡ w ∷ rest
    → wanted w ≡ true
    → find_in_chain wanted (all_added added (a ∷ others)) ≡ some w
unfolding find_in_chain
first_is wanted added a w rest others e f = rw (e, f) refl

-- After `ficlDictionaryAppendWord` of a word without the smudged flag, whose name has between 1 and
-- 31 characters, `ficlDictionaryLookup` finds that word under its name in any case of its letters:
-- where the compilation wordlist is searched first, every wordlist of the search order holds known
-- words and inherits from none, and the new header is at no address of theirs.
pub lookup-append_word :
    (d e : Dictionary) (added : ℕ → List ℕ) (s t : List ℕ) (code flags w : ℕ) (others : List ℕ)
    → AreChars s
    → 1 ≤ length s
    → length s ≤ name_length
    → flags / 4 % 2 ≡ 0
    → append_word d s code flags ≡ ok (w, e)
    → d.search_order ≡ d.compilation_wordlist ∷ others
    → Each (IsWordlist d added) d.search_order
    → Each (λ a. Each (λ b. b ≢ w) (added a)) d.search_order
    → AreChars t
    → length t ≡ length s
    → fold t ≡ fold s
    → (lookup e t).0 ≡ some w
unfolding lookup
lookup-append_word d e added s t code flags w others letters named short plain h order all fresh
      chars len same =
    let (name_at, m, shape, f, copied) = append_word-shape d e s code flags w h in
    let added' : ℕ → List ℕ = at added d.compilation_wordlist (w ∷ added d.compilation_wordlist) in
    let e_order : e.search_order ≡ d.search_order =
      rw shape (after_search_order d added s code flags name_at w m letters named short plain) in
    let all_after : Each (IsWordlist e added') d.search_order =
      Each-zip (IsWordlist d added) (λ a. Each (λ b. b ≢ w) (added a)) (IsWordlist e added')
        d.search_order
        (λ a l f. append_word-IsWordlist d e added s code flags w a letters named short plain h l f)
        all fresh in
    let found =
      lookup_loop_lem e added' e.search_order t
        (subst (λ l. Each (IsWordlist e added') l) (sym e_order) all_after) chars
        (omega (arith, len, short)) in
    let current : IsWordlist d added d.compilation_wordlist × Each (IsWordlist d added) others =
      subst (Each (IsWordlist d added)) order all in
    let apart : Each (λ b. b ≢ w) (added d.compilation_wordlist)
        × Each (λ a. Each (λ b. b ≢ w) (added a)) others =
      subst (Each (λ a. Each (λ b. b ≢ w) (added a))) order fresh in
    let new : IsWord (e.words w) =
      subst (λ (x : Dictionary). IsWord (x.words w)) (sym shape)
        (after_new d added s code flags name_at w m letters named short plain) in
    let name_is : (e.words w).name ≡ s =
      subst (λ (x : Dictionary). (x.words w).name ≡ s) (sym shape)
        (after_name d added s code flags name_at w m letters named short plain) in
    let hit : is_named t (e.words w) ≡ true =
      (is_named_lem t (e.words w) new chars (omega (arith, len, short))).1
        (same ∙ ap fold (sym name_is)) in
    let eq : (d.compilation_wordlist == d.compilation_wordlist) ≡ true = ground arith in
    found
    ∙ ap (λ l. find_in_chain (λ b. is_named t (e.words b)) (all_added added' l)) (e_order ∙ order)
    ∙ first_is (λ b. is_named t (e.words b)) added' d.compilation_wordlist w
        (added d.compilation_wordlist) others (rw eq refl) hit
