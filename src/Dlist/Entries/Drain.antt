-- ===== src/Dlist/Entries/Drain.antt =====
-- The safe loops of user/comm/gt_list.h on the structs that hold the list heads, with a body that takes
-- the entry out.
use mathlib.Core.List.{foldl, append-nil, append_assoc}
use guitar_tea.Common.{
  ℕ, zero, suc, ◌+◌, ◌-◌, ◌≤◌, ◌<◌, ◌≡◌, refl, sym, ◌∙◌, false, List, [], ◌∷◌, ◌++◌, map, arith,
  first_or, length, has-append, ==_self, ◌==◌,
}
use guitar_tea.Common.State.{pure, ◌>>=◌, ◌>>◌, Ensures, Ensures-bind}
use guitar_tea.Dlist.{Ptr, ListMem, list_del}
use guitar_tea.Dlist.Ring.{IsRing, Chain-next, has-first_or}
use guitar_tea.Dlist.Remove.{list_del-remove, entry-mapped, next-eq-first_or}
use guitar_tea.Dlist.Walk.{Body, container_of, member_of}
use guitar_tea.Dlist.Entries.{
  list_next_entry, for_each_entry_safe_loop, list_for_each_entry_safe,
  list_for_each_entry_safe_continue, list_for_each_entry_safe_from,
}
use guitar_tea.Dlist.Entries.Read.{Fits}

abbrev pub containers : ℕ → List Ptr → List Ptr
containers offset xs = map (λ x. container_of x offset) xs

module _ {A : Type 0} (f : A → Ptr → A) (offset : ℕ) where
  -- A body that takes the entry out of its list and computes `f`.
  unfoldable pub entry_deleter : Body A
  unfolding member_of
  entry_deleter pos acc = do list_del (member_of pos offset); pure (f acc pos)

  -- The result, and what is left.
  unfoldable pub Left : Ptr → List Ptr → A → A → ListMem → Type 0
  Left h xs acc out g = (out ≡ acc) × IsRing g h xs

  pub entry_deleter-remove :
      {m : ListMem} {h : Ptr} (xs : List Ptr) (x : Ptr) (ys : List Ptr) (acc : A)
      → IsRing m h (xs ++ x ∷ ys)
      → offset ≤ x
      → Ensures (entry_deleter (x - offset) acc m) (Left h (xs ++ ys) (f acc (x - offset)))
  unfolding entry_deleter Left
  entry_deleter-remove {m} xs x ys acc r fits =
      let same : x - offset + offset ≡ x = omega (arith, fits) in
      rw same (
        Ensures-bind _ _ (list_del x m) (λ _. pure (f acc (x - offset))) (list_del-remove x xs ys r)
          λ _ g done. (refl, done.0))

  -- The cursor is at the first of `ys`, and `xs` is before it.
  for_each_entry_safe_loop-drain :
      (fuel : ℕ) (m : ListMem) (h : Ptr) (xs ys : List Ptr) (acc : A) (n : Ptr)
      → IsRing m h (xs ++ ys)
      → n ≡ m.next (first_or ys h)
      → Fits offset (h ∷ ys)
      → length ys < fuel
      → Ensures
          (for_each_entry_safe_loop offset h entry_deleter fuel
            (first_or ys h - offset)
            (n - offset)
            acc
            m)
          (Left h xs (foldl f acc (containers offset ys)))
  unfolding for_each_entry_safe_loop Left container_of
  for_each_entry_safe_loop-drain zero m h xs ys acc n r e fits lt = absurd (omega arith)
  for_each_entry_safe_loop-drain (suc fuel) m h xs [] acc n r e fits lt =
      let same : h - offset + offset ≡ h = omega (arith, fits h (ground arith)) in
      rw (same, ==_self h) (refl, rw (sym (append-nil xs)) r)
  for_each_entry_safe_loop-drain (suc fuel) m h xs (y ∷ ys) acc n r e fits lt =
      let same : y - offset + offset ≡ y = omega (arith, fits y (ground arith)) in
      let other : (y == h) ≡ false = ground (arith, r.distinct.0, has-append h xs (y ∷ ys)) in
      let ahead : n ≡ first_or ys h = e ∙ next-eq-first_or y xs ys r in
      let there : offset ≤ first_or ys h =
        fits (first_or ys h) (ground (arith, has-first_or ys h)) in
      let back : first_or ys h - offset + offset ≡ first_or ys h = omega (arith, there) in
      rw (same, other)
        (Ensures-bind (Left h (xs ++ ys) (f acc (y - offset)))
          (Left h xs (foldl f acc (containers offset (y ∷ ys)))) (entry_deleter (y - offset) acc m)
          (λ acc'. do
            n' ← list_next_entry (n - offset) offset
            for_each_entry_safe_loop offset h entry_deleter fuel (n - offset) n' acc')
          (entry_deleter-remove xs y ys acc r (fits y (ground arith)))
          λ acc' g done.
            rw
              (
                ahead,
                back,
                done.1.mapped (first_or ys h)
                    (ground (arith, has-first_or ys h, has-append (first_or ys h) xs ys)),
                done.0,
              )
              (for_each_entry_safe_loop-drain fuel g h xs ys (f acc (y - offset))
                (g.next (first_or ys h)) done.1 refl (λ a j. fits a (ground arith)) (omega arith)))

  -- On a well-formed list, with a body that takes the entry out, with more fuel than entries, and
  -- where the head and every entry stand at least the offset above address 0,
  -- list_for_each_entry_safe visits the structs of all entries, in order, ends, and leaves the list
  -- empty.
  pub list_for_each_entry_safe-drain :
      {m : ListMem} {h : Ptr} {xs : List Ptr}
      → IsRing m h xs
      → Fits offset (h ∷ xs)
      → (fuel : ℕ) (acc : A) → length xs < fuel
      → Ensures
          (list_for_each_entry_safe offset h entry_deleter fuel acc m)
          (λ out g. (out ≡ foldl f acc (containers offset xs)) × IsRing g h [])
  unfolding list_for_each_entry_safe Left
  list_for_each_entry_safe-drain {m} {h} {xs} r fits fuel acc lt =
      let there : offset ≤ first_or xs h = fits (first_or xs h) (has-first_or xs h) in
      let back : first_or xs h - offset + offset ≡ first_or xs h = omega (arith, there) in
      rw
        (
          r.mapped h (ground arith),
          Chain-next m h xs h r.chain,
          back,
          r.mapped (first_or xs h) (has-first_or xs h),
        )
        (for_each_entry_safe_loop-drain fuel m h [] xs acc (m.next (first_or xs h)) r refl fits lt)

  -- With the cursor at the struct that holds an entry of a well-formed list, with a body that takes
  -- the entry out, with more fuel than there are entries from that one on, and where the head and
  -- these entries stand at least the offset above address 0, list_for_each_entry_safe_from visits
  -- that entry and those behind it, in order, and leaves the entries before it, and
  -- list_for_each_entry_safe_continue visits those behind it and leaves the others.
  pub list_for_each_entry_safe_from-drain :
      {m : ListMem} {h : Ptr} (xs : List Ptr) (x : Ptr) (ys : List Ptr)
      → IsRing m h (xs ++ x ∷ ys)
      → Fits offset (h ∷ x ∷ ys)
      → (fuel : ℕ) (acc : A) → suc (length ys) < fuel
      → Ensures
          (list_for_each_entry_safe_from offset h entry_deleter fuel (container_of x offset) acc m)
          (λ out g. (out ≡ foldl f acc (containers offset (x ∷ ys))) × IsRing g h xs)
        × Ensures
            (list_for_each_entry_safe_continue offset h entry_deleter fuel
              (container_of x offset)
              acc
              m)
            (λ out g. (out ≡ foldl f acc (containers offset ys)) × IsRing g h (xs ++ x ∷ []))
  unfolding list_for_each_entry_safe_from list_for_each_entry_safe_continue Left
  list_for_each_entry_safe_from-drain {m} {h} xs x ys r fits fuel acc lt =
      let same : x - offset + offset ≡ x = omega (arith, fits x (ground arith)) in
      let first = first_or ys h in
      let there : offset ≤ first = fits first (ground (arith, has-first_or ys h)) in
      let back : first - offset + offset ≡ first = omega (arith, there) in
      let next : m.next x ≡ first = next-eq-first_or x xs ys r in
      (
        rw (same, entry-mapped x xs ys r)
            (for_each_entry_safe_loop-drain fuel m h xs (x ∷ ys) acc (m.next x) r refl fits
              (omega arith)),
        rw
            (
              same,
              entry-mapped x xs ys r,
              next,
              back,
              r.mapped first (ground (arith, has-first_or ys h, has-append first xs (x ∷ ys))),
            )
            (for_each_entry_safe_loop-drain fuel m h (xs ++ x ∷ []) ys acc (m.next first)
              (rw (append_assoc xs (x ∷ []) ys) r) refl (λ a j. fits a (ground arith))
              (omega arith)),
      )
