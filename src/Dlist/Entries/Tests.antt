-- ===== src/Dlist/Entries/Tests.antt =====
-- The loops of user/comm/gt_list.h over the structs of the lists in the tests of Dlist.
use guitar_tea.Common.{◌≡◌, some, [], ◌∷◌, arith}
use guitar_tea.Common.State.{Ensures}
use guitar_tea.Dlist.Ring.{IsRing}
use guitar_tea.Dlist.Tests.{two_lists, ten, seen}
use guitar_tea.Dlist.Walk.{container_of}
use guitar_tea.Dlist.Walk.Read.{reader}
use guitar_tea.Dlist.Entries.{
  list_for_each_entry_from, list_for_each_entry_continue, list_for_each_entry_safe_from,
  list_for_each_entry_safe_continue,
}
use guitar_tea.Dlist.Entries.Read.{list_for_each_entry_from-foldl}
use guitar_tea.Dlist.Entries.Drain.{entry_deleter, list_for_each_entry_safe_from-drain}

list_for_each_entry_from-foldl_example :
    (list_for_each_entry_from 4 10 (reader seen) 4 8 [] two_lists ≡ some (9 ∷ 8 ∷ [], two_lists))
    × (list_for_each_entry_continue 4 10 (reader seen) 4 8 [] two_lists ≡ some (9 ∷ [], two_lists))
unfolding container_of
list_for_each_entry_from-foldl_example =
    list_for_each_entry_from-foldl seen 4 (11 ∷ []) 12 (13 ∷ []) ten (λ a i. ground arith) 4 []
      (omega arith)

list_for_each_entry_safe_from-drain_example :
    Ensures
      (list_for_each_entry_safe_from 4 10 (entry_deleter seen 4) 4 8 [] two_lists)
      (λ out g. (out ≡ 9 ∷ 8 ∷ []) × IsRing g 10 (11 ∷ []))
    × Ensures
        (list_for_each_entry_safe_continue 4 10 (entry_deleter seen 4) 4 8 [] two_lists)
        (λ out g. (out ≡ 9 ∷ []) × IsRing g 10 (11 ∷ 12 ∷ []))
unfolding container_of
list_for_each_entry_safe_from-drain_example =
    list_for_each_entry_safe_from-drain seen 4 (11 ∷ []) 12 (13 ∷ []) ten (λ a i. ground arith) 4 []
      (omega arith)
