-- ===== src/Dlist/Tests.antt =====
-- Two lists in one memory, and the theorems about user/comm/gt_list.h at them.
use guitar_tea.Common.{
  ℕ, ◌≡◌, refl, true, false, none, some, List, [], ◌∷◌, arith, ltb, ◌==◌, if◌then◌else◌,
}
use guitar_tea.Common.State.{pure, ◌>>◌, Ensures}
use guitar_tea.Dlist.{
  ListMem, list_add, list_add_tail, list_del, list_del_init, list_move, list_replace_init,
  list_splice_tail_init, list_empty, list_empty_careful, list_is_last, list_poison1, list_poison2,
}
use guitar_tea.Dlist.Ring.{IsRing, SameOutside}
use guitar_tea.Dlist.Insert.{Inserted, list_add-cons}
use guitar_tea.Dlist.Remove.{put, singleton-IsRing, list_del-remove}
use guitar_tea.Dlist.Move.{list_move-front}
use guitar_tea.Dlist.Replace.{list_replace_init-IsRing}
use guitar_tea.Dlist.Splice.{list_splice_tail_init-append}
use guitar_tea.Dlist.Walk.Drain.{two_rounds, list_for_each_fault}
use guitar_tea.Dlist.RoundTrip.{list_add-del_init}
use guitar_tea.Dlist.Query.{list_empty-is_nil, list_is_last-is_nil}

abbrev look : List (ℕ × ℕ) → ℕ → ℕ
look [] a = 0
look ((p, q) ∷ t) a = if a == p then q else look t a

-- The list of head 10 holds 11, 12 and 13, that of head 20 holds 21 and 22; 30 is unused.
abbrev pub two_lists : ListMem
two_lists = record {
  mapped = λ a. ltb a 100;
  next = look ((10, 11) ∷ (11, 12) ∷ (12, 13) ∷ (13, 10) ∷ (20, 21) ∷ (21, 22) ∷ (22, 20) ∷ []);
  prev = look ((11, 10) ∷ (12, 11) ∷ (13, 12) ∷ (10, 13) ∷ (21, 20) ∷ (22, 21) ∷ (20, 22) ∷ []);
}

pub ten : IsRing two_lists 10 (11 ∷ 12 ∷ 13 ∷ [])
ten = record { mapped = λ a i. ground arith; distinct = ground arith; chain = ground arith }

twenty : IsRing two_lists 20 (21 ∷ 22 ∷ [])
twenty = record { mapped = λ a i. ground arith; distinct = ground arith; chain = ground arith }

-- A list with no entry, beside them.
abbrev with_empty : ListMem
with_empty = put 40 40 40 two_lists

forty : IsRing with_empty 40 []
forty = singleton-IsRing two_lists 40 refl

list_add-cons_example :
    Ensures
      (list_add 30 10 two_lists)
      (Inserted two_lists 10 30 (11 ∷ 12 ∷ 13 ∷ []) (30 ∷ 11 ∷ 12 ∷ 13 ∷ []))
list_add-cons_example = list_add-cons 30 ten refl refl

list_del-remove_example : Ensures (list_del 12 two_lists) (λ _ g.
    IsRing g 10 (11 ∷ 13 ∷ [])
    × (g.next 12 ≡ list_poison1)
    × (g.prev 12 ≡ list_poison2)
    × SameOutside (10 ∷ 11 ∷ 12 ∷ 13 ∷ []) two_lists g)
list_del-remove_example = list_del-remove 12 (11 ∷ []) (13 ∷ []) ten

list_move-front_example :
    Ensures (list_move 12 10 two_lists) (λ _ g. IsRing g 10 (12 ∷ 11 ∷ 13 ∷ []))
list_move-front_example = list_move-front 12 (11 ∷ []) (13 ∷ []) ten

list_replace_init-IsRing_example :
    Ensures
      (list_replace_init 12 30 two_lists)
      (λ _ g. IsRing g 10 (11 ∷ 30 ∷ 13 ∷ []) × IsRing g 12 [])
list_replace_init-IsRing_example = list_replace_init-IsRing 12 (11 ∷ []) (13 ∷ []) ten 30 refl refl

list_splice_tail_init-append_example :
    Ensures
      (list_splice_tail_init 20 10 two_lists)
      (λ _ g. IsRing g 10 (11 ∷ 12 ∷ 13 ∷ 21 ∷ 22 ∷ []) × IsRing g 20 [])
list_splice_tail_init-append_example =
    list_splice_tail_init-append 21 (22 ∷ []) (11 ∷ 12 ∷ 13 ∷ []) ten twenty (λ a i. ground arith)

-- What the loops compute here: the addresses visited, the last one first.
abbrev pub seen : List ℕ → ℕ → List ℕ
seen acc p = p ∷ acc

list_for_each_fault_example : two_rounds seen 10 [] (λ pos acc. pure acc) two_lists ≡ none
list_for_each_fault_example = list_for_each_fault seen ten refl [] (λ pos acc. pure acc)

list_empty-is_nil_example :
    (list_empty 10 two_lists ≡ some (false, two_lists))
    × (list_empty_careful 10 two_lists ≡ some (false, two_lists))
list_empty-is_nil_example = list_empty-is_nil ten

list_is_last-is_nil_example : list_is_last 13 10 two_lists ≡ some (true, two_lists)
list_is_last-is_nil_example = list_is_last-is_nil 13 (11 ∷ 12 ∷ []) [] ten

ten' : IsRing with_empty 10 (11 ∷ 12 ∷ 13 ∷ [])
ten' = record { mapped = λ a i. ground arith; distinct = ground arith; chain = ground arith }

list_add-del_init_example :
    Ensures ((list_add 40 10 >> list_del_init 40) with_empty) (λ _ g. g ≡ with_empty)
    × Ensures ((list_add_tail 40 10 >> list_del_init 40) with_empty) (λ _ g. g ≡ with_empty)
list_add-del_init_example = list_add-del_init ten' 40 forty refl
