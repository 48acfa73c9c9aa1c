-- ===== src/Dlist/Entries/DrainBack.antt =====
-- `list_for_each_entry_safe_reverse` of user/comm/gt_list.h, with a body that takes the entry out.
use mathlib.Core.List.{foldl, append-nil, reverse, reverse-cons, reverse-reverse}
use guitar_tea.Common.{
  ℕ, zero, suc, ◌+◌, ◌-◌, ◌≤◌, ◌<◌, ◌≡◌, refl, sym, ap, ◌∙◌, false, List, [], ◌∷◌, ◌++◌, arith,
  first_or, last_or, length, has-append, has-reverse_aux, length-reverse_aux, ==_self, ◌==◌,
}
use guitar_tea.Common.State.{◌>>=◌, Ensures, Ensures-bind}
use guitar_tea.Dlist.{Ptr, ListMem}
use guitar_tea.Dlist.Ring.{IsRing, Chain-prev, has-first_or}
use guitar_tea.Dlist.Remove.{prev-eq-last_or}
use guitar_tea.Dlist.Walk.{container_of}
use guitar_tea.Dlist.Entries.{
  list_prev_entry, for_each_entry_safe_reverse_loop, list_for_each_entry_safe_reverse,
}
use guitar_tea.Dlist.Entries.Read.{Fits}
use guitar_tea.Dlist.Entries.Drain.{containers, entry_deleter, Left, entry_deleter-remove}

last_or-append : (p : ℕ) (xs : List ℕ) (x : ℕ) → last_or p (xs ++ x ∷ []) ≡ x
last_or-append p [] x = refl
last_or-append p (y ∷ xs) x = last_or-append y xs x

last_or-reverse : (p : ℕ) (xs : List ℕ) → last_or p (reverse xs) ≡ first_or xs p
last_or-reverse p [] = refl
last_or-reverse p (x ∷ xs) = ap (last_or p) (reverse-cons x xs) ∙ last_or-append p (reverse xs) x

module _ {A : Type 0} (f : A → Ptr → A) (offset : ℕ) where
  -- The entries from the cursor back are `zs`.
  for_each_entry_safe_reverse_loop-drain :
      (fuel : ℕ) (m : ListMem) (h : Ptr) (zs : List Ptr) (acc : A) (n : Ptr)
      → IsRing m h (reverse zs)
      → n ≡ m.prev (first_or zs h)
      → Fits offset (h ∷ zs)
      → length zs < fuel
      → Ensures
          (for_each_entry_safe_reverse_loop offset h
            (entry_deleter f offset)
            fuel
            (first_or zs h - offset)
            (n - offset)
            acc
            m)
          (Left f offset h [] (foldl f acc (containers offset zs)))
  unfolding for_each_entry_safe_reverse_loop Left container_of
  for_each_entry_safe_reverse_loop-drain zero m h zs acc n r e fits lt = absurd (omega arith)
  for_each_entry_safe_reverse_loop-drain (suc fuel) m h [] acc n r e fits lt =
      let same : h - offset + offset ≡ h = omega (arith, fits h (ground arith)) in
      rw (same, ==_self h) (refl, r)
  for_each_entry_safe_reverse_loop-drain (suc fuel) m h (z ∷ zs) acc n r e fits lt =
      let r' : IsRing m h (reverse zs ++ z ∷ []) = rw (sym (reverse-cons z zs)) r in
      let same : z - offset + offset ≡ z = omega (arith, fits z (ground arith)) in
      let other : (z == h) ≡ false =
        ground (arith, r'.distinct.0, has-append h (reverse zs) (z ∷ [])) in
      let first = first_or zs h in
      let ahead : n ≡ first = e ∙ prev-eq-last_or z (reverse zs) [] r' ∙ last_or-reverse h zs in
      let there : offset ≤ first = fits first (ground (arith, has-first_or zs h)) in
      let back : first - offset + offset ≡ first = omega (arith, there) in
      rw (same, other)
        (Ensures-bind (Left f offset h (reverse zs ++ []) (f acc (z - offset)))
          (Left f offset h [] (foldl f acc (containers offset (z ∷ zs))))
          (entry_deleter f offset (z - offset) acc m)
          (λ acc'. do
            n' ← list_prev_entry (n - offset) offset
            for_each_entry_safe_reverse_loop offset h (entry_deleter f offset) fuel (n - offset) n'
                acc')
          (entry_deleter-remove f offset (reverse zs) z [] acc r' (fits z (ground arith)))
          λ acc' g done.
            let left : IsRing g h (reverse zs) = rw (sym (append-nil (reverse zs))) done.1 in
            rw
              (
                ahead,
                back,
                left.mapped first (ground (arith, has-first_or zs h, has-reverse_aux first zs [])),
                done.0,
              )
              (for_each_entry_safe_reverse_loop-drain fuel g h zs (f acc (z - offset))
                (g.prev first) left refl (λ a j. fits a (ground arith)) (omega arith)))

  -- On a well-formed list, with a body that takes the entry out, with more fuel than entries, and
  -- where the head and every entry stand at least the offset above address 0,
  -- list_for_each_entry_safe_reverse visits the structs of all entries, in reverse order, ends, and
  -- leaves the list empty.
  pub list_for_each_entry_safe_reverse-drain :
      {m : ListMem} {h : Ptr} {xs : List Ptr}
      → IsRing m h xs
      → Fits offset (h ∷ xs)
      → (fuel : ℕ) (acc : A) → length xs < fuel
      → Ensures
          (list_for_each_entry_safe_reverse offset h (entry_deleter f offset) fuel acc m)
          (λ out g. (out ≡ foldl f acc (containers offset (reverse xs))) × IsRing g h [])
  unfolding list_for_each_entry_safe_reverse Left
  list_for_each_entry_safe_reverse-drain {m} {h} {xs} r fits fuel acc lt =
      let zs = reverse xs in
      let whole : IsRing m h (reverse zs) = rw (reverse-reverse xs) r in
      let first = first_or zs h in
      let last : m.prev h ≡ first =
        Chain-prev m h (reverse zs) h whole.chain ∙ last_or-reverse h zs in
      let fits' : Fits offset (h ∷ zs) = λ a j. fits a (ground (arith, has-reverse_aux a xs [])) in
      let there : offset ≤ first = fits' first (has-first_or zs h) in
      let back : first - offset + offset ≡ first = omega (arith, there) in
      rw
        (
          r.mapped h (ground arith),
          last,
          back,
          whole.mapped first (ground (arith, has-first_or zs h, has-reverse_aux first zs [])),
        )
        (for_each_entry_safe_reverse_loop-drain fuel m h zs acc (m.prev first) whole refl fits'
          (omega (arith, length-reverse_aux xs [])))
