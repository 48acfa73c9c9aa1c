-- ===== src/Dlist/RoundTrip.antt =====
-- `list_add` and `list_add_tail` of user/comm/gt_list.h are undone by `list_del_init`.
use guitar_tea.Common.{
  ◌≡◌, refl, sym, ◌∙◌, inl, inr, Bool-cases, true, false, List, [], ◌∷◌, ◌++◌, arith, has,
  has-append, ◌==◌,
}
use mathlib.Core.List.{append-nil}
use guitar_tea.Common.State.{◌>>◌, Ensures, Ensures-bind, Ensures-mono}
use guitar_tea.Dlist.{Ptr, ListMem, list_add, list_add_tail, list_del_init}
use guitar_tea.Dlist.Ring.{Chain, IsRing, SameOutside, SameOutside-mono}
use guitar_tea.Dlist.Insert.{list_add-cons, list_add_tail-append}
use guitar_tea.Dlist.Remove.{list_del_init-remove}

-- A chain determines the links that it is made of.
Chain-next_unique :
    (m g : ListMem) (p : Ptr) (xs : List Ptr) (q : Ptr)
    → Chain m p xs q
    → Chain g p xs q
    → (a : Ptr) → has a (p ∷ xs) ≡ true
    → g.next a ≡ m.next a
Chain-next_unique m g p [] q c d a i = let same : a ≡ p = ground arith in rw same (d.0 ∙ sym c.0)
Chain-next_unique m g p (x ∷ xs) q c d a i = elim (Bool-cases (a == p)) [
  | inl here ↦ let same : a ≡ p = ground arith in rw same (d.0 ∙ sym c.0)
  | inr there ↦ Chain-next_unique m g x xs q c.2 d.2 a (ground (arith, there))
]

Chain-prev_unique :
    (m g : ListMem) (p : Ptr) (xs : List Ptr) (q : Ptr)
    → Chain m p xs q
    → Chain g p xs q
    → (a : Ptr) → has a (xs ++ q ∷ []) ≡ true
    → g.prev a ≡ m.prev a
Chain-prev_unique m g p [] q c d a i = let same : a ≡ q = ground arith in rw same (d.1 ∙ sym c.1)
Chain-prev_unique m g p (x ∷ xs) q c d a i = elim (Bool-cases (a == x)) [
  | inl here ↦ let same : a ≡ x = ground arith in rw same (d.1 ∙ sym c.1)
  | inr there ↦ Chain-prev_unique m g x xs q c.2 d.2 a (ground (arith, there))
]

memory_ext :
    (g m : ListMem)
    → ((a : Ptr) → g.mapped a ≡ m.mapped a)
    → ((a : Ptr) → g.next a ≡ m.next a)
    → ((a : Ptr) → g.prev a ≡ m.prev a)
    → g ≡ m
memory_ext g m mapped next prev =
    λ i. record { mapped = λ a. mapped a i; next = λ a. next a i; prev = λ a. prev a i }

SameOutside-trans :
    {m g k : ListMem} (xs : List Ptr) → SameOutside xs m g → SameOutside xs g k → SameOutside xs m k
SameOutside-trans xs s t = record {
  mapped = λ a. t.mapped a ∙ s.mapped a;
  next = λ a o. t.next a o ∙ s.next a o;
  prev = λ a o. t.prev a o ∙ s.prev a o;
}

module _ {m : ListMem} {h : Ptr} {xs : List Ptr} (r : IsRing m h xs) (x : Ptr)
    (alone : IsRing m x []) where
  -- Two memories that agree outside of `x` and the list, and hold both of them alike, are one.
  same_memory : (g : ListMem) → IsRing g h xs → IsRing g x [] → SameOutside (x ∷ h ∷ xs) m g → g ≡ m
  same_memory g rg ag same = memory_ext g m same.mapped next_same prev_same
    where
      next_same : (a : Ptr) → g.next a ≡ m.next a
      next_same a = elim (Bool-cases (has a (h ∷ xs))) [
        | inl inside ↦ Chain-next_unique m g h xs h r.chain rg.chain a inside
        | inr outside ↦ elim (Bool-cases (a == x)) [
          | inl here ↦ let is_x : a ≡ x = ground arith in rw is_x (ag.chain.0 ∙ sym alone.chain.0)
          | inr other ↦ same.next a (ground (arith, outside, other))
        ]
      ]

      prev_same : (a : Ptr) → g.prev a ≡ m.prev a
      prev_same a = elim (Bool-cases (has a (h ∷ xs))) [
        | inl inside ↦
            Chain-prev_unique m g h xs h r.chain rg.chain a
              (ground (arith, inside, has-append a xs (h ∷ [])))
        | inr outside ↦ elim (Bool-cases (a == x)) [
          | inl here ↦ let is_x : a ≡ x = ground arith in rw is_x (ag.chain.1 ∙ sym alone.chain.1)
          | inr other ↦ same.prev a (ground (arith, outside, other))
        ]
      ]

  -- With `old` or `new` around the entry, the second step restores the first.
  undo :
      (ys zs : List Ptr)
      → xs ≡ ys ++ zs
      → (g : ListMem) → IsRing g h (ys ++ x ∷ zs)
      → SameOutside (x ∷ h ∷ xs) m g
      → Ensures (list_del_init x g) (λ _ back. back ≡ m)
  undo ys zs split g rg same =
      Ensures-mono (list_del_init x g) (list_del_init-remove x ys zs rg) λ _ back done.
        same_memory back (rw split done.0) done.1 (
          SameOutside-trans (x ∷ h ∷ xs) same (
            SameOutside-mono (h ∷ ys ++ x ∷ zs) (x ∷ h ∷ xs) done.2
              (λ a i. rw split (ground (arith, has-append a ys (x ∷ zs), has-append a ys zs)))))

  -- An entry that stands on its own and outside of a well-formed list, put at the front or at the end
  -- of it by list_add or list_add_tail and taken out again by list_del_init, leaves every list head
  -- of the process as it was.
  pub list_add-del_init :
      has x (h ∷ xs) ≡ false
      → Ensures ((list_add x h >> list_del_init x) m) (λ _ g. g ≡ m)
        × Ensures ((list_add_tail x h >> list_del_init x) m) (λ _ g. g ≡ m)
  list_add-del_init out = (
    Ensures-bind _ _ (list_add x h m) (λ _. list_del_init x)
        (list_add-cons x r (alone.mapped x (ground arith)) out)
        (λ _ g done. undo [] xs refl g done.0 done.1),
    Ensures-bind _ _ (list_add_tail x h m) (λ _. list_del_init x)
        (list_add_tail-append x r (alone.mapped x (ground arith)) out)
        (λ _ g done. undo xs [] (sym (append-nil xs)) g done.0 done.1),
  )
