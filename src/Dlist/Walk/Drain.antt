-- ===== src/Dlist/Walk/Drain.antt =====
-- The loops of user/comm/gt_list.h with a body that deletes the entry.
use mathlib.Core.List.{foldl}
use guitar_tea.Common.{
  ℕ, zero, suc, ◌<◌, ◌≡◌, refl, true, false, none, List, [], ◌∷◌, arith, first_or, length, fun_ext,
  ◌∙◌, ==_self, ◌==◌,
}
use guitar_tea.Common.State.{Cmd, pure, ◌>>=◌, ◌>>◌, Ensures, Ensures-bind, and_then-none}
use guitar_tea.Dlist.{Ptr, ListMem, get_next, list_del, list_poison1}
use guitar_tea.Dlist.Ring.{IsRing, Chain-next, has-first_or}
use guitar_tea.Dlist.Remove.{list_del-remove}
use guitar_tea.Dlist.Walk.{
  Body, list_for_each, for_each_loop, for_each_round, list_for_each_safe, for_each_safe_loop,
}

module _ {A : Type 0} (f : A → Ptr → A) where
  -- A body that deletes the entry and computes `f`.
  unfoldable pub deleter : Body A
  deleter pos acc = do list_del pos; pure (f acc pos)

  Removed : Ptr → List Ptr → A → A → ListMem → Type 0
  Removed h xs acc out g = (out ≡ acc) × IsRing g h xs

  deleter-remove :
      {m : ListMem} {h : Ptr} (x : Ptr) (xs : List Ptr) (acc : A)
      → IsRing m h (x ∷ xs)
      → Ensures (deleter x acc m) (Removed h xs (f acc x))
  unfolding deleter Removed
  deleter-remove {m} x xs acc r =
      Ensures-bind _ _ (list_del x m) (λ _. pure (f acc x)) (list_del-remove x [] xs r)
        λ _ g done. (refl, done.0)

  for_each_safe_loop-drain :
      (fuel : ℕ) (m : ListMem) (h : Ptr) (xs : List Ptr) (acc : A) (n : Ptr)
      → IsRing m h xs
      → n ≡ m.next (first_or xs h)
      → length xs < fuel
      → Ensures
          (for_each_safe_loop h deleter fuel (first_or xs h) n acc m)
          (Removed h [] (foldl f acc xs))
  unfolding for_each_safe_loop Removed
  for_each_safe_loop-drain zero m h xs acc n r e lt = absurd (omega arith)
  for_each_safe_loop-drain (suc fuel) m h [] acc n r e lt = rw (==_self h) (refl, r)
  for_each_safe_loop-drain (suc fuel) m h (x ∷ xs) acc n r e lt =
      let other : (x == h) ≡ false = ground (arith, r.distinct.0) in
      let ahead : n ≡ first_or xs h = e ∙ Chain-next m x xs h r.chain.2 in
      rw other (
        Ensures-bind (Removed h xs (f acc x)) (Removed h [] (foldl f acc (x ∷ xs)))
          (deleter x acc m)
          (λ acc'. do n' ← get_next n; for_each_safe_loop h deleter fuel n n' acc')
          (deleter-remove x xs acc r)
          λ acc' g done.
            rw (ahead, done.1.mapped (first_or xs h) (has-first_or xs h), done.0)
              (for_each_safe_loop-drain fuel g h xs (f acc x) (g.next (first_or xs h)) done.1 refl
                (omega arith)))

  -- On a well-formed list, with a body that deletes the entry it is given, and with more fuel than
  -- entries, `list_for_each_safe` visits all of them, in order, ends, and leaves the list empty.
  pub list_for_each_safe-drain :
      {m : ListMem} {h : Ptr} {xs : List Ptr}
      → IsRing m h xs
      → (fuel : ℕ) (acc : A) → length xs < fuel
      → Ensures
          (list_for_each_safe h deleter fuel acc m)
          (λ out g. (out ≡ foldl f acc xs) × IsRing g h [])
  unfolding list_for_each_safe Removed
  list_for_each_safe-drain {m} {h} {xs} r fuel acc lt =
      rw
        (
          r.mapped h (ground arith),
          Chain-next m h xs h r.chain,
          r.mapped (first_or xs h) (has-first_or xs h),
        )
        (for_each_safe_loop-drain fuel m h xs acc (m.next (first_or xs h)) r refl lt)

  Poisoned : ListMem → Ptr → A → ListMem → Type 0
  Poisoned m x out g = (g.mapped ≡ m.mapped) × (g.next x ≡ list_poison1)

  deleter-poison :
      {m : ListMem} {h : Ptr} (x : Ptr) (xs : List Ptr) (acc : A)
      → IsRing m h (x ∷ xs)
      → Ensures (deleter x acc m) (Poisoned m x)
  unfolding deleter Poisoned
  deleter-poison {m} x xs acc r =
      Ensures-bind _ _ (list_del x m) (λ _. pure (f acc x)) (list_del-remove x [] xs r)
        λ _ g done. (fun_ext done.3.mapped, done.1)

  -- A cursor that has been led to the poison.
  poison_round-fault :
      (rest : Ptr → A → Cmd ListMem A) (g : ListMem) (h : Ptr) (acc : A)
      → g.mapped h ≡ true
      → g.mapped list_poison1 ≡ false
      → for_each_round h deleter rest list_poison1 acc g ≡ none
  unfolding for_each_round deleter list_del
  poison_round-fault rest g h acc i bad =
      let other : (list_poison1 == h) ≡ false = ground arith in rw (other, bad)

  -- The first two rounds of `list_for_each`, and then anything.
  abbrev pub two_rounds : Ptr → A → (rest : Ptr → A → Cmd ListMem A) → Cmd ListMem A
  two_rounds h acc rest = do
    first ← get_next h
    for_each_round h deleter (for_each_round h deleter rest) first acc

  -- With a body that deletes the entry it is given, `list_for_each` on a well-formed list with an
  -- entry faults in one of its first two rounds, whatever would follow them, where no list head is
  -- mapped at LIST_POISON1.
  pub list_for_each_fault :
      {m : ListMem} {h : Ptr} {x : Ptr} {xs : List Ptr}
      → IsRing m h (x ∷ xs)
      → m.mapped list_poison1 ≡ false
      → (acc : A) (rest : Ptr → A → Cmd ListMem A) → two_rounds h acc rest m ≡ none
  unfolding for_each_round Poisoned
  list_for_each_fault {m} {h} {x} {xs} r bad acc rest =
      let other : (x == h) ≡ false = ground (arith, r.distinct.0) in
      rw (r.mapped h (ground arith), r.chain.0, other)
        (and_then-none (Poisoned m x) (deleter x acc m)
          (λ acc'. do pos' ← get_next x; for_each_round h deleter rest pos' acc')
          (deleter-poison x xs acc r)
          λ acc' g done.
            let i : g.mapped x ≡ true = rw done.0 (r.mapped x (ground arith)) in
            rw (i, done.1)
              (poison_round-fault rest g h acc' (rw done.0 (r.mapped h (ground arith)))
                (rw done.0 bad)))

  -- `list_for_each` with fuel for them makes these rounds.
  list_for_each-two_rounds :
      (h : Ptr) (fuel : ℕ) (acc : A)
      → list_for_each h deleter (suc (suc fuel)) acc
        ≡ two_rounds h acc (for_each_loop h deleter fuel)
  unfolding list_for_each for_each_loop for_each_round
  list_for_each-two_rounds h fuel acc = refl
