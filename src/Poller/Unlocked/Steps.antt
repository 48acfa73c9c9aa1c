-- ===== src/Poller/Unlocked/Steps.antt =====
-- The steps of `list_add` and `list_del` are those of user/comm/gt_list.h.
use guitar_tea.Common.{◌≡◌, refl, Bool-cases, inl, inr}
use guitar_tea.Dlist.{
  Ptr, ListMem, list_add, list_del, list_add_between, list_del_between, get_next, get_prev,
  set_next, set_prev,
}
use guitar_tea.Poller.Unlocked.{alone, list_add_steps, list_del_steps}

pub alone-list_add :
    (xnew head : Ptr) (m : ListMem) → alone (list_add_steps xnew head) m ≡ list_add xnew head m
unfolding alone list_add list_add_between get_next set_next set_prev
alone-list_add xnew head m = elim (Bool-cases (m.mapped head)) [
  | inr bad ↦ rw bad refl
  | inl h ↦ elim (Bool-cases (m.mapped (m.next head))) [
    | inr bad ↦ rw (h, bad) refl
    | inl n ↦ elim (Bool-cases (m.mapped xnew)) [
      | inr bad ↦ rw (h, n, bad) refl
      | inl x ↦ rw (h, n, x, x, h) refl
    ]
  ]
]

pub alone-list_del : (entry : Ptr) (m : ListMem) → alone (list_del_steps entry) m ≡ list_del entry m
unfolding alone list_del list_del_between get_next get_prev set_next set_prev
alone-list_del entry m = elim (Bool-cases (m.mapped entry)) [
  | inr bad ↦ rw bad refl
  | inl e ↦ elim (Bool-cases (m.mapped (m.next entry))) [
    | inr bad ↦ rw (e, e, bad) refl
    | inl n ↦ elim (Bool-cases (m.mapped (m.prev entry))) [
      | inr bad ↦ rw (e, e, n, bad) refl
      | inl p ↦ rw (e, e, n, p, e, e) refl
    ]
  ]
]
