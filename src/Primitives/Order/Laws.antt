-- ===== src/Primitives/Order/Laws.antt =====
-- The search order is saved and restored.
use ficl.Common.{
  ℕ, ◌+◌, ◌%◌, ◌^◌, ◌≤◌, ◌<◌, ◌≡◌, refl, ap, ◌∙◌, false, List, [], ◌∷◌, length, length-append, ltb,
  ◌==◌, arith,
}
use ficl.Outcome.{ok}
use ficl.Stack.{Stack}
use ficl.Stack.Refinement.{Holds, stack_push-Holds, stack_pop-Holds, stack_pop_sized, Holds-depth}
use ficl.Dictionary.{Dictionary, lock, unlock}
use ficl.Interpreter.{int_is_negative}
use ficl.Primitives.{Session, session}
use ficl.Primitives.Order.{
  max_wordlists, with_order, push_order, pop_order, get_order, set_order, search_pop, search_push,
}
use mathlib.Core.List.{◌++◌}

unlock-lock : (d : Dictionary) → unlock (lock d) ≡ d
unlock-lock d = ap (λ n. record d { locks = n }) (omega arith)

push_order-Holds :
    (order xs : List ℕ) (s : Stack)
    → Holds s xs
    → length xs + length order ≤ s.size
    → (t : Stack) × (push_order s order ≡ ok t) × Holds t (order ++ xs) × (t.size ≡ s.size)
unfolding push_order
push_order-Holds [] xs s h room = (s, refl, h, refl)
push_order-Holds (wid ∷ order) xs s h room =
    let (t, e, k, same) = push_order-Holds order xs s h (omega arith) in
    let (u, f, l, again) =
      stack_push-Holds t (order ++ xs) wid k (omega (arith, room, same, length-append order xs)) in
    (u, rw e f, l, again ∙ same)

pop_order-Holds :
    (order xs : List ℕ) (s : Stack)
    → Holds s (order ++ xs)
    → (t : Stack) × (pop_order (length order) s ≡ ok (order, t)) × Holds t xs
unfolding pop_order
pop_order-Holds [] xs s h = (s, refl, h)
pop_order-Holds (wid ∷ order) xs s h =
    let (t, e, k) = stack_pop-Holds s (order ++ xs) wid h in
    let (u, f, l) = pop_order-Holds order xs t k in (u, rw (e, f) refl, l)

-- With at most 16 wordlists in the search order and room for them and their count on the data
-- stack, `get-order` succeeds and leaves the dictionary as it was, and `set-order` on what it left
-- succeeds in any dictionary, gives it that search order and changes nothing else of it, and leaves
-- the stack as it was before `get-order`.
pub set_order-get_order :
    (v : Session) (xs : List ℕ) (d : Dictionary)
    → Holds v.stack xs
    → length v.dictionary.search_order ≤ max_wordlists
    → length xs + length v.dictionary.search_order < v.stack.size
    → (u w : Session) × (get_order v ≡ ok u)
      × (u.dictionary ≡ v.dictionary)
      × (set_order (session d u.stack) ≡ ok w)
      × (w.dictionary ≡ with_order d v.dictionary.search_order)
      × Holds w.stack xs
unfolding get_order set_order
set_order-get_order v xs d h few room =
    let order = v.dictionary.search_order in
    let (s, e, k, same) = push_order-Holds order xs v.stack h (omega arith) in
    let (t, f, l, again) =
      stack_push-Holds s (order ++ xs) (length order) k
        (omega (arith, room, same, length-append order xs)) in
    let (s', e', k') = stack_pop-Holds t (order ++ xs) (length order) l in
    let (t', f', l') = pop_order-Holds order xs s' k' in
    let small : length order % 2 ^ 32 ≡ length order = ground (arith, few) in
    let positive : int_is_negative (length order) ≡ false = ground (arith, few) in
    let fits : ltb max_wordlists (length order) ≡ false = ground (arith, few) in
    (
      session (unlock (lock v.dictionary)) t,
      session (unlock (with_order (lock d) order)) t',
      rw (e, f) refl,
      unlock-lock v.dictionary,
      rw (e', small, positive, fits, f') refl,
      unlock-lock (with_order d order),
      l',
    )

-- With fewer than 16 wordlists in the search order, `>search` succeeds and puts the wordlist on top
-- of the data stack in front of the search order, and `search>` then succeeds, restores the
-- dictionary and puts the wordlist back on the stack.
pub search_pop-search_push :
    (v : Session) (wid : ℕ) (xs : List ℕ)
    → Holds v.stack (wid ∷ xs)
    → length v.dictionary.search_order < max_wordlists
    → (u w : Session) × (search_push v ≡ ok u)
      × (u.dictionary ≡ with_order v.dictionary (wid ∷ v.dictionary.search_order))
      × (search_pop u ≡ ok w)
      × (w.dictionary ≡ v.dictionary)
      × Holds w.stack (wid ∷ xs)
unfolding search_push search_pop
search_pop-search_push v wid xs h few =
    let d = v.dictionary in
    let order = d.search_order in
    let (s, e, k, size) = stack_pop_sized v.stack xs wid h in
    let room : length xs < s.size =
      omega (arith, size, Holds-depth v.stack (wid ∷ xs) h, h.sound.fits) in
    let (t, f, l, same) = stack_push-Holds s xs wid k room in
    let fits : ltb max_wordlists (length order) ≡ false = ground (arith, few) in
    let free : (length order == max_wordlists) ≡ false = ground (arith, few) in
    (
      session (unlock (with_order (lock d) (wid ∷ order))) s,
      session (unlock (with_order (lock (unlock (with_order (lock d) (wid ∷ order)))) order)) t,
      rw (fits, free, e) refl,
      unlock-lock (with_order d (wid ∷ order)),
      rw f refl,
      ap (λ x. with_order x order) (unlock-lock (unlock (lock d))) ∙ unlock-lock d,
      l,
    )
