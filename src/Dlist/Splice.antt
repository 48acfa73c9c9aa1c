-- ===== src/Dlist/Splice.antt =====
-- `list_splice` and its variants of user/comm/gt_list.h.
use guitar_tea.Common.{◌≡◌, true, some, List, [], ◌∷◌, ◌++◌, arith, Disjoint, ==_self}
use mathlib.Core.List.{append-nil}
use guitar_tea.Common.State.{Ensures}
use guitar_tea.Dlist.{
  Ptr, ListMem, list_splice, list_splice_tail, list_splice_init, list_splice_tail_init,
}
use guitar_tea.Dlist.Ring.{IsRing, Chain-next, Chain-prev}
use guitar_tea.Dlist.Replace.{init_list_head-run}
use guitar_tea.Dlist.Joined.{
  joined, joined-IsRing, joined-k-IsRing, not_empty, list_splice_between-run,
}

module _ {m : ListMem} {h k : Ptr} (z : Ptr) (zs ys : List Ptr) (r : IsRing m h ys)
    (s : IsRing m k (z ∷ zs)) (apart : Disjoint (h ∷ ys) (k ∷ z ∷ zs)) where
  abbrev r' : IsRing m h (ys ++ [])
  r' = rw append-nil r

  apart' : Disjoint (h ∷ ys ++ []) (k ∷ z ∷ zs)
  apart' = rw append-nil apart

  -- `list_splice` puts the entries of a list in front of those of another, in their order.
  pub list_splice-append : Ensures (list_splice k h m) (λ _ g. IsRing g h (z ∷ zs ++ ys))
  unfolding list_splice
  list_splice-append =
      rw
        (
          s.mapped k (ground arith),
          not_empty z zs [] ys r s apart,
          r.mapped h (ground arith),
          Chain-next m h ys h r.chain,
          list_splice_between-run z zs [] ys r s apart,
        )
        (joined-IsRing z zs [] ys r s apart)

  -- For two lists that share no list head, the first of which has an entry, `list_splice_init` puts
  -- the entries of the first, in order, in front of those of the second, and leaves the first empty.
  pub list_splice_init-append :
      Ensures (list_splice_init k h m) (λ _ g. IsRing g h (z ∷ zs ++ ys) × IsRing g k [])
  unfolding list_splice_init
  list_splice_init-append =
      rw
        (
          s.mapped k (ground arith),
          not_empty z zs [] ys r s apart,
          r.mapped h (ground arith),
          Chain-next m h ys h r.chain,
          list_splice_between-run z zs [] ys r s apart,
          init_list_head-run (joined z zs [] ys r s apart) k (s.mapped k (ground arith)),
        )
        (joined-k-IsRing z zs [] ys r s apart)

  -- `list_splice_tail` puts them behind.
  pub list_splice_tail-append : Ensures (list_splice_tail k h m) (λ _ g. IsRing g h (ys ++ z ∷ zs))
  unfolding list_splice_tail
  list_splice_tail-append =
      rw
        (
          s.mapped k (ground arith),
          not_empty z zs ys [] r' s apart',
          r.mapped h (ground arith),
          Chain-prev m h ys h r.chain,
          list_splice_between-run z zs ys [] r' s apart',
        )
        (rw (append-nil (z ∷ zs)) at (joined-IsRing z zs ys [] r' s apart'))

  -- For two lists that share no list head, the first of which has an entry, `list_splice_tail_init`
  -- puts the entries of the first, in order, behind those of the second, and leaves the first empty.
  pub list_splice_tail_init-append :
      Ensures (list_splice_tail_init k h m) (λ _ g. IsRing g h (ys ++ z ∷ zs) × IsRing g k [])
  unfolding list_splice_tail_init
  list_splice_tail_init-append =
      rw
        (
          s.mapped k (ground arith),
          not_empty z zs ys [] r' s apart',
          r.mapped h (ground arith),
          Chain-prev m h ys h r.chain,
          list_splice_between-run z zs ys [] r' s apart',
          init_list_head-run (joined z zs ys [] r' s apart') k (s.mapped k (ground arith)),
        )
        (rw (append-nil (z ∷ zs)) at (joined-k-IsRing z zs ys [] r' s apart'))

-- Joining an empty list to another ends with nothing written, in each
-- of the four variants.
pub splice_nil :
    {m : ListMem} {k : Ptr} (h : Ptr)
    → IsRing m k []
    → (list_splice k h m ≡ some (tt, m))
      × (list_splice_tail k h m ≡ some (tt, m))
      × (list_splice_init k h m ≡ some (tt, m))
      × (list_splice_tail_init k h m ≡ some (tt, m))
unfolding list_splice list_splice_tail list_splice_init list_splice_tail_init
splice_nil {m} {k} h s = (
  rw (here, s.chain.0, ==_self k),
  rw (here, s.chain.0, ==_self k),
  rw (here, s.chain.0, ==_self k),
  rw (here, s.chain.0, ==_self k),
)
  where
    here : m.mapped k ≡ true
    here = s.mapped k (ground arith)
