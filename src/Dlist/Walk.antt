-- ===== src/Dlist/Walk.antt =====
-- The `list_for_each` loops of user/comm/gt_list.h. A loop takes fuel; `none` is a fault, or the
-- end of the fuel.
pub mod Read
pub mod Drain
use guitar_tea.Common.{ℕ, zero, suc, ◌+◌, ◌-◌, none, ◌==◌, if◌then◌else◌}
use guitar_tea.Common.State.{Cmd, pure, ◌>>=◌}
use guitar_tea.Dlist.{Ptr, ListMem, get_next, get_prev}

-- The body of a loop at an entry, with what the program carries from round to round.
abbrev pub Body : Type 0 → Type 0
Body A = Ptr → A → Cmd ListMem A

-- `container_of`, and the address of the member back, for a member at `offset` in its struct.
unfoldable pub container_of : (ptr offset : ℕ) → Ptr
container_of ptr offset = ptr - offset

unfoldable pub member_of : (pos offset : ℕ) → Ptr
member_of pos offset = pos + offset

module _ {A : Type 0} (head : Ptr) (body : Body A) where
  -- The test, the body and the step of the cursor, with what follows them.
  unfoldable pub for_each_round : (rest : Ptr → A → Cmd ListMem A) → Ptr → A → Cmd ListMem A
  unfolding get_next
  for_each_round rest pos acc =
      if pos == head then pure acc else do acc' ← body pos acc; pos' ← get_next pos; rest pos' acc'

  unfoldable pub for_each_loop : ℕ → Ptr → A → Cmd ListMem A
  for_each_loop zero pos acc = λ _. none
  for_each_loop (suc fuel) pos acc = for_each_round (for_each_loop fuel) pos acc

  unfoldable pub list_for_each : ℕ → A → Cmd ListMem A
  unfolding get_next
  list_for_each fuel acc = do for_each_loop fuel (← get_next head) acc

  unfoldable pub for_each_prev_loop : ℕ → Ptr → A → Cmd ListMem A
  unfolding get_prev
  for_each_prev_loop zero pos acc = λ _. none
  for_each_prev_loop (suc fuel) pos acc =
      if pos == head
      then pure acc
      else do acc' ← body pos acc; pos' ← get_prev pos; for_each_prev_loop fuel pos' acc'

  unfoldable pub list_for_each_prev : ℕ → A → Cmd ListMem A
  unfolding get_prev
  list_for_each_prev fuel acc = do for_each_prev_loop fuel (← get_prev head) acc

  -- `n` holds the entry after `pos`, read before the body runs.
  unfoldable pub for_each_safe_loop : ℕ → (pos n : Ptr) → A → Cmd ListMem A
  unfolding get_next
  for_each_safe_loop zero pos n acc = λ _. none
  for_each_safe_loop (suc fuel) pos n acc =
      if pos == head
      then pure acc
      else do acc' ← body pos acc; n' ← get_next n; for_each_safe_loop fuel n n' acc'

  unfoldable pub list_for_each_safe : ℕ → A → Cmd ListMem A
  unfolding get_next
  list_for_each_safe fuel acc = do
    pos ← get_next head
    n ← get_next pos
    for_each_safe_loop fuel pos n acc

-- `list_for_each_entry`: the cursor points to the struct that holds the member at `offset`.
module _ {A : Type 0} (offset : ℕ) (head : Ptr) (body : Body A) where
  unfoldable pub for_each_entry_loop : ℕ → Ptr → A → Cmd ListMem A
  unfolding get_next container_of member_of
  for_each_entry_loop zero pos acc = λ _. none
  for_each_entry_loop (suc fuel) pos acc = if member_of pos offset == head then pure acc else do
    acc' ← body pos acc
    next ← get_next (member_of pos offset)
    for_each_entry_loop fuel (container_of next offset) acc'

  unfoldable pub list_for_each_entry : ℕ → A → Cmd ListMem A
  unfolding get_next container_of
  list_for_each_entry fuel acc = do
    first ← get_next head
    for_each_entry_loop fuel (container_of first offset) acc
