-- ===== src/Dlist/Move.antt =====
-- `list_move` and `list_move_tail` of user/comm/gt_list.h.
use guitar_tea.Common.{◌≡◌, false, List, [], ◌∷◌, ◌++◌, arith, has, Disjoint, has-append}
use guitar_tea.Common.State.{Ensures, Ensures-mono}
use guitar_tea.Dlist.{Ptr, ListMem, list_add, list_add_tail, list_move, list_move_tail}
use guitar_tea.Dlist.Ring.{IsRing, SameOutside, IsRing-frame}
use guitar_tea.Dlist.Insert.{list_add-cons, list_add_tail-append}
use guitar_tea.Dlist.Remove

module _ {m : ListMem} {h : Ptr} (x : Ptr) (xs ys : List Ptr) (r : IsRing m h (xs ++ x ∷ ys)) where
  list_move-eq : (k : Ptr) → list_move x k m ≡ list_add x k (Remove.around x xs ys r)
  unfolding list_move
  list_move-eq k = rw (
    Remove.entry-mapped x xs ys r,
    Remove.prev-eq-last_or x xs ys r,
    Remove.entry-mapped x xs ys r,
    Remove.next-eq-first_or x xs ys r,
    Remove.right-mapped x xs ys r,
    Remove.left-mapped x xs ys r,
  )

  list_move_tail-eq : (k : Ptr) → list_move_tail x k m ≡ list_add_tail x k (Remove.around x xs ys r)
  unfolding list_move_tail
  list_move_tail-eq k = rw (
    Remove.entry-mapped x xs ys r,
    Remove.prev-eq-last_or x xs ys r,
    Remove.entry-mapped x xs ys r,
    Remove.next-eq-first_or x xs ys r,
    Remove.right-mapped x xs ys r,
    Remove.left-mapped x xs ys r,
  )

  out : has x (h ∷ xs ++ ys) ≡ false
  out = Remove.not-mem-rest x (h ∷ xs) ys r.distinct

  -- Within a list, `list_move` brings an entry to the front and leaves the order of the others.
  pub list_move-front : Ensures (list_move x h m) (λ _ g. IsRing g h (x ∷ xs ++ ys))
  list_move-front = rw (list_move-eq h) (
      Ensures-mono (list_add x h (Remove.around x xs ys r))
        (list_add-cons x (Remove.unlinked-IsRing x xs ys r) (Remove.entry-mapped x xs ys r) out)
        λ _ g done. done.0)

  -- `list_move_tail` brings it to the back.
  pub list_move_tail-back :
      Ensures (list_move_tail x h m) (λ _ g. IsRing g h ((xs ++ ys) ++ x ∷ []))
  list_move_tail-back = rw (list_move_tail-eq h) (
      Ensures-mono (list_add_tail x h (Remove.around x xs ys r))
        (list_add_tail-append x (Remove.unlinked-IsRing x xs ys r) (Remove.entry-mapped x xs ys r)
          out)
        λ _ g done. done.0)

  module _ {k : Ptr} {zs : List Ptr} (s : IsRing m k zs)
      (apart : Disjoint (k ∷ zs) (h ∷ xs ++ x ∷ ys)) where
    kept : IsRing (Remove.around x xs ys r) k zs
    kept = IsRing-frame s (Remove.unlinked-SameOutside x xs ys r) apart

    outside : has x (k ∷ zs) ≡ false
    outside = ground (arith, apart x, has-append x xs (x ∷ ys))

    still :
        {g : ListMem} → SameOutside (x ∷ k ∷ zs) (Remove.around x xs ys r) g → IsRing g h (xs ++ ys)
    still same =
        IsRing-frame (Remove.unlinked-IsRing x xs ys r) same
          (λ a i. ground (arith, apart a, out, has-append a xs ys, has-append a xs (x ∷ ys)))

    -- For two lists that share no list head, `list_move` takes an entry out of the one and puts it
    -- in front of the entries of the other.
    pub list_move-other :
        Ensures (list_move x k m) (λ _ g. IsRing g h (xs ++ ys) × IsRing g k (x ∷ zs))
    list_move-other = rw (list_move-eq k) (
        Ensures-mono (list_add x k (Remove.around x xs ys r))
          (list_add-cons x kept (Remove.entry-mapped x xs ys r) outside)
          λ _ g done. (still done.1, done.0))

    -- For two lists that share no list head, `list_move_tail` takes an entry out of the one and puts
    -- it behind the entries of the other.
    pub list_move_tail-other :
        Ensures (list_move_tail x k m) (λ _ g. IsRing g h (xs ++ ys) × IsRing g k (zs ++ x ∷ []))
    list_move_tail-other = rw (list_move_tail-eq k) (
        Ensures-mono (list_add_tail x k (Remove.around x xs ys r))
          (list_add_tail-append x kept (Remove.entry-mapped x xs ys r) outside)
          λ _ g done. (still done.1, done.0))
