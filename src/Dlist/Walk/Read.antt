-- ===== src/Dlist/Walk/Read.antt =====
-- The loops of user/comm/gt_list.h with a body that leaves the lists alone.
use mathlib.Core.List.{foldl, reverse, reverse_aux}
use guitar_tea.Common.{
  ℕ, zero, suc, ◌+◌, ◌-◌, ◌≤◌, ◌<◌, ◌≡◌, true, false, some, List, [], ◌∷◌, map, arith, has,
  first_or, length, has-reverse_aux, length-reverse_aux, ==_self, ◌==◌,
}
use guitar_tea.Dlist.{Ptr, ListMem}
use guitar_tea.Dlist.Ring.{Chain, AllMapped, IsRing, Chain-next}
use guitar_tea.Dlist.Walk.{
  Body, container_of, list_for_each, for_each_loop, for_each_round, list_for_each_prev,
  for_each_prev_loop, list_for_each_entry, for_each_entry_loop,
}

module _ (m : ListMem) (h : Ptr) where
  -- The `prev` links from `p` lead through `xs` to `h`.
  abbrev pub Back : Ptr → List Ptr → Type 0
  Back p [] = m.prev p ≡ h
  Back p (x ∷ xs) = (m.prev p ≡ x) × Back x xs

  Back-reverse :
      (p : Ptr) (xs : List Ptr) (q : Ptr) (ys : List Ptr)
      → Chain m p xs q
      → Back p ys
      → Back q (reverse_aux xs (p ∷ ys))
  Back-reverse p [] q ys c b = (c.1, b)
  Back-reverse p (x ∷ xs) q ys c b = Back-reverse x xs q (p ∷ ys) c.2 (c.1, b)

  pub Back-first : (p : Ptr) (xs : List Ptr) → Back p xs → m.prev p ≡ first_or xs h
  Back-first p [] b = b
  Back-first p (x ∷ xs) b = b.0

  pub Ring-Back : (xs : List Ptr) → Chain m h xs h → Back h (reverse xs)
  Ring-Back [] c = c.1
  Ring-Back (x ∷ xs) c = Back-reverse x xs h [] c.2 c.1

module _ {A : Type 0} (f : A → Ptr → A) where
  -- A body that computes `f` and writes no list head.
  abbrev pub reader : Body A
  reader pos acc m = some (f acc pos, m)

  module _ (m : ListMem) (h : Ptr) where
    for_each_loop-foldl :
        (fuel : ℕ) (p : Ptr) (xs : List Ptr) (acc : A)
        → Chain m p xs h
        → AllMapped m xs
        → has h xs ≡ false
        → length xs < fuel
        → for_each_loop h reader fuel (first_or xs h) acc m ≡ some (foldl f acc xs, m)
    unfolding for_each_loop for_each_round
    for_each_loop-foldl zero p xs acc c i o lt = absurd (omega arith)
    for_each_loop-foldl (suc fuel) p [] acc c i o lt = rw (==_self h)
    for_each_loop-foldl (suc fuel) p (x ∷ xs) acc c i o lt =
        let other : (x == h) ≡ false = ground arith in
        rw (other, i x (ground arith), Chain-next m x xs h c.2)
          (for_each_loop-foldl fuel x xs (f acc x) c.2 (λ a j. i a (ground arith)) (ground arith)
            (omega arith))

    for_each_prev_loop-foldl :
        (fuel : ℕ) (p : Ptr) (xs : List Ptr) (acc : A)
        → Back m h p xs
        → AllMapped m xs
        → has h xs ≡ false
        → length xs < fuel
        → for_each_prev_loop h reader fuel (first_or xs h) acc m ≡ some (foldl f acc xs, m)
    unfolding for_each_prev_loop
    for_each_prev_loop-foldl zero p xs acc b i o lt = absurd (omega arith)
    for_each_prev_loop-foldl (suc fuel) p [] acc b i o lt = rw (==_self h)
    for_each_prev_loop-foldl (suc fuel) p (x ∷ xs) acc b i o lt =
        let other : (x == h) ≡ false = ground arith in
        rw (other, i x (ground arith), Back-first m h x xs b.1)
          (for_each_prev_loop-foldl fuel x xs (f acc x) b.1 (λ a j. i a (ground arith))
            (ground arith) (omega arith))

  module _ {m : ListMem} {h : Ptr} {xs : List Ptr} (r : IsRing m h xs) where
    -- On a well-formed list, with a body that computes a function and writes no list head, and with
    -- more fuel than entries, `list_for_each` ends with the function folded over the entries in
    -- order.
    pub list_for_each-foldl :
        (fuel : ℕ) (acc : A)
        → length xs < fuel
        → list_for_each h reader fuel acc m ≡ some (foldl f acc xs, m)
    unfolding list_for_each
    list_for_each-foldl fuel acc lt =
        rw (r.mapped h (ground arith), Chain-next m h xs h r.chain)
          (for_each_loop-foldl m h fuel h xs acc r.chain (λ a j. r.mapped a (ground arith))
            r.distinct.0 lt)

    -- On a well-formed list, with a body that computes a function and writes no list head, and with
    -- more fuel than entries, `list_for_each_prev` ends with the function folded over the entries
    -- in reverse order.
    pub list_for_each_prev-foldl :
        (fuel : ℕ) (acc : A)
        → length xs < fuel
        → list_for_each_prev h reader fuel acc m ≡ some (foldl f acc (reverse xs), m)
    unfolding list_for_each_prev
    list_for_each_prev-foldl fuel acc lt =
        let b = Ring-Back m h xs r.chain in
        rw (r.mapped h (ground arith), Back-first m h h (reverse xs) b)
          (for_each_prev_loop-foldl m h fuel h (reverse xs) acc b
            (λ a j. r.mapped a (ground (arith, has-reverse_aux a xs [])))
            (ground (arith, has-reverse_aux h xs [], r.distinct.0))
            (omega (arith, length-reverse_aux xs [])))

module _ {A : Type 0} (f : A → Ptr → A) (offset : ℕ) (m : ListMem) (h : Ptr) where
  pub for_each_entry_loop-foldl :
      (fuel : ℕ) (p : Ptr) (xs : List Ptr) (acc : A)
      → Chain m p xs h
      → AllMapped m xs
      → has h xs ≡ false
      → ((a : Ptr) → has a (h ∷ xs) ≡ true → offset ≤ a)
      → length xs < fuel
      → for_each_entry_loop offset h (reader f) fuel (container_of (first_or xs h) offset) acc m
        ≡ some (foldl f acc (map (λ x. container_of x offset) xs), m)
  unfolding for_each_entry_loop
  for_each_entry_loop-foldl zero p xs acc c i o fits lt = absurd (omega arith)
  for_each_entry_loop-foldl (suc fuel) p [] acc c i o fits lt =
      let same : h - offset + offset ≡ h = ground (arith, fits h) in rw (same, ==_self h)
  for_each_entry_loop-foldl (suc fuel) p (x ∷ xs) acc c i o fits lt =
      let same : x - offset + offset ≡ x = ground (arith, fits x) in
      let other : (x == h) ≡ false = ground arith in
      rw (same, other, i x (ground arith), Chain-next m x xs h c.2)
        (for_each_entry_loop-foldl fuel x xs (f acc (x - offset)) c.2 (λ a j. i a (ground arith))
          (ground arith) (λ a j. fits a (ground arith)) (omega arith))

-- On a well-formed list, with a body that computes a function and writes no list head, with more
-- fuel than entries, and where the head and every entry stand at least the offset above
-- address 0, `list_for_each_entry` ends with the function folded over the addresses of the structs
-- that hold the entries, in order.
pub list_for_each_entry-foldl :
    {A : Type 0} (f : A → Ptr → A) (offset : ℕ) {m : ListMem} {h : Ptr} {xs : List Ptr}
    → IsRing m h xs
    → ((a : Ptr) → has a (h ∷ xs) ≡ true → offset ≤ a)
    → (fuel : ℕ) (acc : A) → length xs < fuel
    → list_for_each_entry offset h (reader f) fuel acc m
      ≡ some (foldl f acc (map (λ x. container_of x offset) xs), m)
unfolding list_for_each_entry
list_for_each_entry-foldl f offset {m} {h} {xs} r fits fuel acc lt =
    rw (r.mapped h (ground arith), Chain-next m h xs h r.chain)
      (for_each_entry_loop-foldl f offset m h fuel h xs acc r.chain
        (λ a j. r.mapped a (ground arith)) r.distinct.0 fits lt)
