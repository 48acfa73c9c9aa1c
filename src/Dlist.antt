-- ===== src/Dlist.antt =====
-- user/comm/gt_list.h: circular doubly linked lists, threaded through the objects that they hold.
pub mod Ring
pub mod Insert
pub mod Remove
pub mod Move
pub mod Replace
pub mod Chains
pub mod Joined
pub mod Splice
pub mod Query
pub mod RoundTrip
pub mod Walk
pub mod Entries
mod Tests
use guitar_tea.Common.{ℕ, Bool, false, none, some, ◌==◌, if◌then◌else◌}
use guitar_tea.Common.State.{Cmd, pure, ◌>>=◌, ◌>>◌}

abbrev pub Ptr : Type 0
Ptr = ℕ

-- LIST_POISON1 and LIST_POISON2.
abbrev pub list_poison1 : Ptr
list_poison1 = 0x00100100

abbrev pub list_poison2 : Ptr
list_poison2 = 0x00200200

-- The `struct list_head` objects of the process: which addresses hold one, and its two fields.
pub record ListMem : Type 0 where
  pub mapped : Ptr → Bool
  pub next : Ptr → Ptr
  pub prev : Ptr → Ptr

abbrev pub update : (Ptr → Ptr) → Ptr → Ptr → Ptr → Ptr
update f p v a = if a == p then v else f a

-- `p->next` and `p->prev`, read and written; a fault where `p` holds no list head.
unfoldable pub get_next : Ptr → Cmd ListMem Ptr
get_next p m = if m.mapped p then some (m.next p, m) else none

unfoldable pub get_prev : Ptr → Cmd ListMem Ptr
get_prev p m = if m.mapped p then some (m.prev p, m) else none

unfoldable pub set_next : Ptr → Ptr → Cmd ListMem (Unit {0})
set_next p v m = if m.mapped p then some (tt, record m { next = update m.next p v }) else none

unfoldable pub set_prev : Ptr → Ptr → Cmd ListMem (Unit {0})
set_prev p v m = if m.mapped p then some (tt, record m { prev = update m.prev p v }) else none

unfoldable pub init_list_head : Ptr → Cmd ListMem (Unit {0})
unfolding set_next set_prev
init_list_head list = do set_next list list; set_prev list list

-- `__list_add`
unfoldable pub list_add_between : (xnew prev next : Ptr) → Cmd ListMem (Unit {0})
unfolding set_next set_prev
list_add_between xnew prev next = do
  set_prev next xnew
  set_next xnew next
  set_prev xnew prev
  set_next prev xnew

unfoldable pub list_add : (xnew head : Ptr) → Cmd ListMem (Unit {0})
unfolding get_next
list_add xnew head = do list_add_between xnew head (← get_next head)

unfoldable pub list_add_tail : (xnew head : Ptr) → Cmd ListMem (Unit {0})
unfolding get_prev
list_add_tail xnew head = do list_add_between xnew (← get_prev head) head

-- `__list_del`
unfoldable pub list_del_between : (prev next : Ptr) → Cmd ListMem (Unit {0})
unfolding set_next set_prev
list_del_between prev next = do set_prev next prev; set_next prev next

unfoldable pub list_del : (entry : Ptr) → Cmd ListMem (Unit {0})
unfolding get_next get_prev list_del_between set_next set_prev
list_del entry = do
  list_del_between (← get_prev entry) (← get_next entry)
  set_next entry list_poison1
  set_prev entry list_poison2

unfoldable pub list_replace : (old xnew : Ptr) → Cmd ListMem (Unit {0})
unfolding get_next get_prev set_next set_prev
list_replace old xnew = do
  set_next xnew (← get_next old)
  set_prev (← get_next xnew) xnew
  set_prev xnew (← get_prev old)
  set_next (← get_prev xnew) xnew

unfoldable pub list_replace_init : (old xnew : Ptr) → Cmd ListMem (Unit {0})
list_replace_init old xnew = do list_replace old xnew; init_list_head old

unfoldable pub list_del_init : (entry : Ptr) → Cmd ListMem (Unit {0})
unfolding get_next get_prev list_del_between init_list_head
list_del_init entry = do
  list_del_between (← get_prev entry) (← get_next entry)
  init_list_head entry

unfoldable pub list_move : (list head : Ptr) → Cmd ListMem (Unit {0})
unfolding get_next get_prev list_del_between
list_move list head = do list_del_between (← get_prev list) (← get_next list); list_add list head

unfoldable pub list_move_tail : (list head : Ptr) → Cmd ListMem (Unit {0})
unfolding get_next get_prev list_del_between
list_move_tail list head = do
  list_del_between (← get_prev list) (← get_next list)
  list_add_tail list head

unfoldable pub list_is_last : (list head : Ptr) → Cmd ListMem Bool
unfolding get_next
list_is_last list head = do pure ((← get_next list) == head)

unfoldable pub list_empty : (head : Ptr) → Cmd ListMem Bool
unfolding get_next
list_empty head = do pure ((← get_next head) == head)

unfoldable pub list_empty_careful : (head : Ptr) → Cmd ListMem Bool
unfolding get_next get_prev
list_empty_careful head = do
  next ← get_next head
  if next == head then (do pure (next == (← get_prev head))) else pure false

-- `__list_splice`
unfoldable pub list_splice_between : (list prev next : Ptr) → Cmd ListMem (Unit {0})
unfolding get_next get_prev set_next set_prev
list_splice_between list prev next = do
  first ← get_next list
  last ← get_prev list
  set_prev first prev
  set_next prev first
  set_next last next
  set_prev next last

unfoldable pub list_splice : (list head : Ptr) → Cmd ListMem (Unit {0})
unfolding list_empty get_next
list_splice list head = do
  empty ← list_empty list
  if empty then pure tt else do list_splice_between list head (← get_next head)

unfoldable pub list_splice_tail : (list head : Ptr) → Cmd ListMem (Unit {0})
unfolding list_empty get_prev
list_splice_tail list head = do
  empty ← list_empty list
  if empty then pure tt else do list_splice_between list (← get_prev head) head

unfoldable pub list_splice_init : (list head : Ptr) → Cmd ListMem (Unit {0})
unfolding list_empty get_next
list_splice_init list head = do
  empty ← list_empty list
  if empty then pure tt else do list_splice_between list head (← get_next head); init_list_head list

unfoldable pub list_splice_tail_init : (list head : Ptr) → Cmd ListMem (Unit {0})
unfolding list_empty get_prev
list_splice_tail_init list head = do
  empty ← list_empty list
  if empty then pure tt else do list_splice_between list (← get_prev head) head; init_list_head list
