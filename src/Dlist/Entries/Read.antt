-- ===== src/Dlist/Entries/Read.antt =====
-- The loops of user/comm/gt_list.h that walk back or start inside the list, with a body that leaves the
-- lists alone.
use mathlib.Core.List.{foldl, reverse}
use guitar_tea.Common.{
  ℕ, zero, suc, ◌+◌, ◌-◌, ◌≤◌, ◌<◌, ◌≡◌, refl, true, false, some, List, [], ◌∷◌, ◌++◌, map, arith,
  has, first_or, length, inl, inr, Bool-cases, has-append, has-reverse_aux, length-reverse_aux,
  ==_self, ◌==◌,
}
use guitar_tea.Dlist.{Ptr, ListMem}
use guitar_tea.Dlist.Ring.{AllMapped, IsRing, Chain-split}
use guitar_tea.Dlist.Remove.{entry-mapped, next-eq-first_or}
use guitar_tea.Dlist.Walk.{Body, container_of, member_of, for_each_entry_loop, list_for_each_entry}
use guitar_tea.Dlist.Walk.Read.{reader, Back, Back-first, Ring-Back, for_each_entry_loop-foldl}
use guitar_tea.Dlist.Entries.{
  list_prev_entry, list_next_entry, list_prepare_entry, for_each_entry_reverse_loop,
  list_for_each_entry_reverse, list_for_each_entry_continue, list_for_each_entry_from,
}

abbrev pub Fits : ℕ → List Ptr → Type 0
Fits offset xs = (a : Ptr) → has a xs ≡ true → offset ≤ a

module _ {A : Type 0} (f : A → Ptr → A) (offset : ℕ) (m : ListMem) (h : Ptr) where
  for_each_entry_reverse_loop-foldl :
      (fuel : ℕ) (p : Ptr) (xs : List Ptr) (acc : A)
      → Back m h p xs
      → AllMapped m xs
      → has h xs ≡ false
      → Fits offset (h ∷ xs)
      → length xs < fuel
      → for_each_entry_reverse_loop offset h
          (reader f)
          fuel
          (container_of (first_or xs h) offset)
          acc
          m
        ≡ some (foldl f acc (map (λ x. container_of x offset) xs), m)
  unfolding for_each_entry_reverse_loop list_prev_entry container_of member_of
  for_each_entry_reverse_loop-foldl zero p xs acc b i o fits lt = absurd (omega arith)
  for_each_entry_reverse_loop-foldl (suc fuel) p [] acc b i o fits lt =
      let same : h - offset + offset ≡ h = ground (arith, fits h) in rw (same, ==_self h)
  for_each_entry_reverse_loop-foldl (suc fuel) p (x ∷ xs) acc b i o fits lt =
      let same : x - offset + offset ≡ x = ground (arith, fits x) in
      let other : (x == h) ≡ false = ground arith in
      rw (same, other, i x (ground arith), Back-first m h x xs b.1)
        (for_each_entry_reverse_loop-foldl fuel x xs (f acc (x - offset)) b.1
          (λ a j. i a (ground arith)) (ground arith) (λ a j. fits a (ground arith)) (omega arith))

module _ {A : Type 0} (f : A → Ptr → A) (offset : ℕ) where
  -- On a well-formed list, with a body that computes a function and writes no list head, with more
  -- fuel than entries, and where the head and every entry stand at least the offset above address 0,
  -- list_for_each_entry_reverse ends with the function folded over the addresses of the structs that
  -- hold the entries, in reverse order.
  pub list_for_each_entry_reverse-foldl :
      {m : ListMem} {h : Ptr} {xs : List Ptr}
      → IsRing m h xs
      → Fits offset (h ∷ xs)
      → (fuel : ℕ) (acc : A) → length xs < fuel
      → list_for_each_entry_reverse offset h (reader f) fuel acc m
        ≡ some (foldl f acc (map (λ x. container_of x offset) (reverse xs)), m)
  unfolding list_for_each_entry_reverse
  list_for_each_entry_reverse-foldl {m} {h} {xs} r fits fuel acc lt =
      let b = Ring-Back m h xs r.chain in
      rw (r.mapped h (ground arith), Back-first m h h (reverse xs) b)
        (for_each_entry_reverse_loop-foldl f offset m h fuel h (reverse xs) acc b
          (λ a j. r.mapped a (ground (arith, has-reverse_aux a xs [])))
          (ground (arith, has-reverse_aux h xs [], r.distinct.0))
          (λ a j. fits a (ground (arith, has-reverse_aux a xs [])))
          (omega (arith, length-reverse_aux xs [])))

  -- From an entry inside of the list.
  module _ {m : ListMem} {h : Ptr} (xs : List Ptr) (x : Ptr) (ys : List Ptr)
      (r : IsRing m h (xs ++ x ∷ ys)) where
    tail-foldl :
        Fits offset (h ∷ ys)
        → (fuel : ℕ) (acc : A) → length ys < fuel
        → for_each_entry_loop offset h (reader f) fuel (container_of (first_or ys h) offset) acc m
          ≡ some (foldl f acc (map (λ a. container_of a offset) ys), m)
    tail-foldl fits fuel acc lt =
        for_each_entry_loop-foldl f offset m h fuel x ys acc (Chain-split m h xs x ys h r.chain).1
          (λ a j. r.mapped a (ground (arith, has-append a xs (x ∷ ys))))
          (ground (arith, r.distinct.0, has-append h xs (x ∷ ys))) fits lt

    -- With the cursor at the struct that holds an entry of a well-formed list, with a body that
    -- computes a function and writes no list head, with more fuel than there are entries from that one
    -- on, and where the head and these entries stand at least the offset above address 0,
    -- list_for_each_entry_from ends with the function folded over the structs that hold that entry
    -- and those behind it, in order, and list_for_each_entry_continue over those behind it.
    pub list_for_each_entry_from-foldl :
        Fits offset (h ∷ x ∷ ys)
        → (fuel : ℕ) (acc : A) → suc (length ys) < fuel
        → (list_for_each_entry_from offset h (reader f) fuel (container_of x offset) acc m
            ≡ some (foldl f acc (map (λ a. container_of a offset) (x ∷ ys)), m))
          × (list_for_each_entry_continue offset h (reader f) fuel (container_of x offset) acc m
              ≡ some (foldl f acc (map (λ a. container_of a offset) ys), m))
    unfolding list_for_each_entry_from list_for_each_entry_continue for_each_entry_loop
        list_next_entry container_of member_of
    list_for_each_entry_from-foldl fits zero acc lt = absurd (omega arith)
    list_for_each_entry_from-foldl fits (suc fuel) acc lt =
        let same : x - offset + offset ≡ x = ground (arith, fits x) in
        let other : (x == h) ≡ false = ground (arith, r.distinct.0, has-append h xs (x ∷ ys)) in
        let behind : Fits offset (h ∷ ys) = λ a j. fits a (ground arith) in
        (
          rw (same, other, entry-mapped x xs ys r, next-eq-first_or x xs ys r)
              (tail-foldl behind fuel (f acc (x - offset)) (omega arith)),
          rw (same, entry-mapped x xs ys r, next-eq-first_or x xs ys r)
              (tail-foldl behind (suc fuel) acc (omega arith)),
        )

-- With no entry to begin at, and a head that stands at least the offset above address 0,
-- list_for_each_entry_continue from what list_prepare_entry returns is list_for_each_entry, whatever
-- the body, the fuel and the memory.
pub list_for_each_entry_continue-prepare :
    {A : Type 0} (offset : ℕ) (h : Ptr) (body : Body A)
    → offset ≤ h
    → (fuel : ℕ) (acc : A) (m : ListMem)
    → list_for_each_entry_continue offset h body fuel (list_prepare_entry 0 h offset) acc m
      ≡ list_for_each_entry offset h body fuel acc m
unfolding list_for_each_entry_continue list_prepare_entry list_for_each_entry
list_for_each_entry_continue-prepare offset h body fits fuel acc m =
    let same : h - offset + offset ≡ h = omega (arith, fits) in
    elim (Bool-cases (m.mapped h)) [
      | inl there ↦ rw (same, there) refl
      | inr gone ↦ rw (same, gone) refl
    ]
