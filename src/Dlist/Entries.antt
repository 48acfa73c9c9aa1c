-- ===== src/Dlist/Entries.antt =====
-- The macros of user/comm/gt_list.h on the structs that hold the list heads, beside
-- `list_for_each_entry`: the cursors point to structs that hold the member at `offset`. Fuel is as in
-- Walk.antt.
pub mod Read
pub mod Drain
pub mod DrainBack
mod Tests
use guitar_tea.Common.{ℕ, zero, suc, none, ◌==◌, if◌then◌else◌}
use guitar_tea.Common.State.{Cmd, pure, ◌>>=◌}
use guitar_tea.Dlist.{Ptr, ListMem, get_next, get_prev}
use guitar_tea.Dlist.Walk.{Body, container_of, member_of, for_each_entry_loop}

abbrev pub list_entry : (ptr offset : ℕ) → Ptr
list_entry ptr offset = container_of ptr offset

unfoldable pub list_first_entry : (ptr offset : ℕ) → Cmd ListMem Ptr
unfolding get_next container_of
list_first_entry ptr offset = do pure (list_entry (← get_next ptr) offset)

-- The steps of the cursors, `list_entry(pos->member.next, ...)` and the same with `prev`.
unfoldable pub list_next_entry : (pos offset : ℕ) → Cmd ListMem Ptr
unfolding get_next container_of member_of
list_next_entry pos offset = do pure (list_entry (← get_next (member_of pos offset)) offset)

unfoldable pub list_prev_entry : (pos offset : ℕ) → Cmd ListMem Ptr
unfolding get_prev container_of member_of
list_prev_entry pos offset = do pure (list_entry (← get_prev (member_of pos offset)) offset)

unfoldable pub list_prepare_entry : (pos head offset : ℕ) → Ptr
unfolding container_of
list_prepare_entry pos head offset = if pos == 0 then list_entry head offset else pos

module _ {A : Type 0} (offset : ℕ) (head : Ptr) (body : Body A) where
  unfoldable pub for_each_entry_reverse_loop : ℕ → Ptr → A → Cmd ListMem A
  unfolding list_prev_entry get_prev container_of member_of
  for_each_entry_reverse_loop zero pos acc = λ _. none
  for_each_entry_reverse_loop (suc fuel) pos acc =
      if member_of pos offset == head then pure acc else do
        acc' ← body pos acc
        pos' ← list_prev_entry pos offset
        for_each_entry_reverse_loop fuel pos' acc'

  unfoldable pub list_for_each_entry_reverse : ℕ → A → Cmd ListMem A
  unfolding get_prev container_of
  list_for_each_entry_reverse fuel acc = do
    last ← get_prev head
    for_each_entry_reverse_loop fuel (list_entry last offset) acc

  unfoldable pub list_for_each_entry_continue : ℕ → (pos : Ptr) → A → Cmd ListMem A
  unfolding list_next_entry get_next container_of member_of
  list_for_each_entry_continue fuel pos acc = do
    pos' ← list_next_entry pos offset
    for_each_entry_loop offset head body fuel pos' acc

  unfoldable pub list_for_each_entry_from : ℕ → (pos : Ptr) → A → Cmd ListMem A
  list_for_each_entry_from fuel pos acc = for_each_entry_loop offset head body fuel pos acc

  -- `n` holds the struct after `pos`, read before the body runs.
  unfoldable pub for_each_entry_safe_loop : ℕ → (pos n : Ptr) → A → Cmd ListMem A
  unfolding list_next_entry get_next container_of member_of
  for_each_entry_safe_loop zero pos n acc = λ _. none
  for_each_entry_safe_loop (suc fuel) pos n acc =
      if member_of pos offset == head then pure acc else do
        acc' ← body pos acc
        n' ← list_next_entry n offset
        for_each_entry_safe_loop fuel n n' acc'

  unfoldable pub list_for_each_entry_safe : ℕ → A → Cmd ListMem A
  unfolding list_first_entry list_next_entry get_next container_of member_of
  list_for_each_entry_safe fuel acc = do
    pos ← list_first_entry head offset
    n ← list_next_entry pos offset
    for_each_entry_safe_loop fuel pos n acc

  unfoldable pub list_for_each_entry_safe_continue : ℕ → (pos : Ptr) → A → Cmd ListMem A
  unfolding list_next_entry get_next container_of member_of
  list_for_each_entry_safe_continue fuel pos acc = do
    pos' ← list_next_entry pos offset
    n ← list_next_entry pos' offset
    for_each_entry_safe_loop fuel pos' n acc

  unfoldable pub list_for_each_entry_safe_from : ℕ → (pos : Ptr) → A → Cmd ListMem A
  unfolding list_next_entry get_next container_of member_of
  list_for_each_entry_safe_from fuel pos acc = do
    n ← list_next_entry pos offset
    for_each_entry_safe_loop fuel pos n acc

  unfoldable pub for_each_entry_safe_reverse_loop : ℕ → (pos n : Ptr) → A → Cmd ListMem A
  unfolding list_prev_entry get_prev container_of member_of
  for_each_entry_safe_reverse_loop zero pos n acc = λ _. none
  for_each_entry_safe_reverse_loop (suc fuel) pos n acc =
      if member_of pos offset == head then pure acc else do
        acc' ← body pos acc
        n' ← list_prev_entry n offset
        for_each_entry_safe_reverse_loop fuel n n' acc'

  unfoldable pub list_for_each_entry_safe_reverse : ℕ → A → Cmd ListMem A
  unfolding list_prev_entry get_prev container_of member_of
  list_for_each_entry_safe_reverse fuel acc = do
    last ← get_prev head
    n ← list_prev_entry (list_entry last offset) offset
    for_each_entry_safe_reverse_loop fuel (list_entry last offset) n acc
