-- ===== src/Dlist/Replace.antt =====
-- `list_replace` and `list_replace_init` of user/comm/gt_list.h.
use guitar_tea.Common.{
  ◌≡◌, refl, true, false, some, List, [], ◌∷◌, ◌++◌, arith, has, last_or, first_or, has-append,
}
use guitar_tea.Common.State.{Ensures}
use guitar_tea.Dlist.{Ptr, ListMem, update, init_list_head, list_replace, list_replace_init}
use guitar_tea.Dlist.Ring.{IsRing, IsRing-frame, update_self}
use guitar_tea.Dlist.Insert.{linked, linked-IsRing, first_or-ne}
use guitar_tea.Dlist.Remove
use guitar_tea.Dlist.Remove.{put, put-SameOutside, singleton-IsRing}

pub init_list_head-run :
    (m : ListMem) (x : Ptr) → m.mapped x ≡ true → init_list_head x m ≡ some (tt, put x x x m)
unfolding init_list_head
init_list_head-run m x i = rw (i, i)

module _ {m : ListMem} {h : Ptr} (old : Ptr) (xs ys : List Ptr) (r : IsRing m h (xs ++ old ∷ ys))
    (xnew : Ptr) (here : m.mapped xnew ≡ true) (out : has xnew (h ∷ xs ++ old ∷ ys) ≡ false) where
  abbrev replaced : ListMem
  replaced = linked xnew (last_or h xs) (first_or ys h) m

  replaced-IsRing : IsRing replaced h (xs ++ xnew ∷ ys)
  replaced-IsRing =
      IsRing-frame {ys = []}
        (linked-IsRing xnew xs ys (Remove.unlinked-IsRing old xs ys r) here
          (ground (arith, has-append xnew xs ys, has-append xnew xs (old ∷ ys))))
        (record { mapped = λ a. refl; next = λ a i. ground arith; prev = λ a i. ground arith })
        (λ a i. refl)

  -- The write to the entry behind `old` leaves the field that is read next.
  prev-kept : update m.prev (first_or ys h) xnew old ≡ last_or h xs
  prev-kept = ground (
    arith,
    Remove.prev-eq-last_or old xs ys r,
    first_or-ne old ys h,
    Remove.not-mem-rest old (h ∷ xs) ys r.distinct,
    has-append old xs ys,
  )

  list_replace-run : list_replace old xnew m ≡ some (tt, replaced)
  unfolding list_replace
  list_replace-run = rw (
    Remove.entry-mapped old xs ys r,
    Remove.next-eq-first_or old xs ys r,
    here,
    here,
    update_self m.next xnew (first_or ys h),
    Remove.right-mapped old xs ys r,
    Remove.entry-mapped old xs ys r,
    prev-kept,
    here,
    here,
    update_self (update m.prev (first_or ys h) xnew) xnew (last_or h xs),
    Remove.left-mapped old xs ys r,
  )

  -- `list_replace` puts a fresh entry in the place of an old one.
  pub list_replace-IsRing : Ensures (list_replace old xnew m) (λ _ g. IsRing g h (xs ++ xnew ∷ ys))
  list_replace-IsRing = rw list_replace-run replaced-IsRing

  list_replace_init-run : list_replace_init old xnew m ≡ some (tt, put old old old replaced)
  unfolding list_replace_init
  list_replace_init-run =
      rw (list_replace-run, init_list_head-run replaced old (Remove.entry-mapped old xs ys r))

  -- `list_replace_init` puts a mapped entry that is not in the list in the place of an old one of a
  -- well-formed list, and leaves the old one as the head of an empty list.
  pub list_replace_init-IsRing :
      Ensures (list_replace_init old xnew m) (λ _ g. IsRing g h (xs ++ xnew ∷ ys) × IsRing g old [])
  list_replace_init-IsRing = rw list_replace_init-run (
    IsRing-frame replaced-IsRing (put-SameOutside replaced old old old) (λ a i. ground (
      arith,
      Remove.not-mem-rest old (h ∷ xs) ys r.distinct,
      out,
      has-append a xs (xnew ∷ ys),
      has-append a xs ys,
      has-append xnew xs (old ∷ ys),
    )),
    singleton-IsRing replaced old (Remove.entry-mapped old xs ys r),
  )
