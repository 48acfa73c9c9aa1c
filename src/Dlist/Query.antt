-- ===== src/Dlist/Query.antt =====
-- `list_empty`, `list_empty_careful` and `list_is_last` of user/comm/gt_list.h.
use guitar_tea.Common.{
  ◌≡◌, Bool, true, false, some, List, [], ◌∷◌, ◌++◌, arith, has, first_or, has-append, ==_self,
  ◌==◌,
}
use guitar_tea.Dlist.{Ptr, ListMem, list_empty, list_empty_careful, list_is_last}
use guitar_tea.Dlist.Ring.{IsRing}
use guitar_tea.Dlist.Remove.{entry-mapped, next-eq-first_or}

abbrev pub is_nil {ℓ} : {A : Type ℓ} → List A → Bool
is_nil [] = true
is_nil (x ∷ xs) = false

first_or-eq : (xs : List Ptr) (h : Ptr) → has h xs ≡ false → (first_or xs h == h) ≡ is_nil xs
first_or-eq [] h out = ==_self h
first_or-eq (x ∷ xs) h out = ground arith

-- Both tests for emptiness answer whether the list has no entry, and write nothing.
pub list_empty-is_nil :
    {m : ListMem} {h : Ptr} {xs : List Ptr}
    → IsRing m h xs
    → (list_empty h m ≡ some (is_nil xs, m)) × (list_empty_careful h m ≡ some (is_nil xs, m))
unfolding list_empty list_empty_careful
list_empty-is_nil {m} {h} {xs = []} r = (
  rw (r.mapped h (ground arith), r.chain.0, ==_self h),
  rw (
    r.mapped h (ground arith),
    r.chain.0,
    ==_self h,
    r.mapped h (ground arith),
    r.chain.1,
    ==_self h,
  ),
)
list_empty-is_nil {m} {h} {xs = x ∷ xs} r =
    let other : (x == h) ≡ false = ground (arith, r.distinct.0) in
    (
      rw (r.mapped h (ground arith), r.chain.0, other),
      rw (r.mapped h (ground arith), r.chain.0, other),
    )

-- `list_is_last` answers whether no entry stands behind the given one, and writes nothing.
pub list_is_last-is_nil :
    {m : ListMem} {h : Ptr} (x : Ptr) (xs ys : List Ptr)
    → IsRing m h (xs ++ x ∷ ys)
    → list_is_last x h m ≡ some (is_nil ys, m)
unfolding list_is_last
list_is_last-is_nil {h} x xs ys r = rw (
  entry-mapped x xs ys r,
  next-eq-first_or x xs ys r,
  first_or-eq ys h (ground (arith, r.distinct.0, has-append h xs (x ∷ ys))),
)
