-- ===== src/Vm/Control/Transfers.antt =====
-- Moves between the stacks and back.
use ficl.Common.{ℕ, ◌+◌, ◌≤◌, ◌≡◌, List, ◌∷◌, length, arith}
use ficl.Outcome.{ok, ◌>>=◌}
use ficl.Vm.Check.{check}
use ficl.Vm.Control.{
  machine, Sizes, transfer, to_r_stack, from_r_stack, fetch_r_stack, two_to_r, two_r_from,
  two_r_fetch,
}

-- On stacks with room for two more cells, `>r` and `2>r` succeed and `r>` and `2r>` then restore
-- both stacks, while `r@` and `2r@` copy the moved cells back, in their order, and leave them on
-- the return stack.
pub transfers_undone :
    (z : Sizes) (ip x y : ℕ) (d r : List ℕ)
    → length d + 2 ≤ z.data_size
    → length r + 2 ≤ z.return_size
    → ((transfer z to_r_stack (machine ip (x ∷ y ∷ d) r) >>= transfer z from_r_stack)
        ≡ ok (machine ip (x ∷ y ∷ d) r))
      × ((transfer z two_to_r (machine ip (x ∷ y ∷ d) r) >>= transfer z two_r_from)
          ≡ ok (machine ip (x ∷ y ∷ d) r))
      × ((transfer z to_r_stack (machine ip (x ∷ y ∷ d) r) >>= transfer z fetch_r_stack)
          ≡ ok (machine ip (x ∷ y ∷ d) (x ∷ r)))
      × ((transfer z two_to_r (machine ip (x ∷ y ∷ d) r) >>= transfer z two_r_fetch)
          ≡ ok (machine ip (x ∷ y ∷ d) (x ∷ y ∷ r)))
unfolding transfer check
transfers_undone z ip x y d r hd hr = (ground arith, ground arith, ground arith, ground arith)
