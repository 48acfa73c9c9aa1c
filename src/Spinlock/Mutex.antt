-- ===== src/Spinlock/Mutex.antt =====
-- Mutual exclusion under the lock of user/core/gt_spinlock.h.
use guitar_tea.Common.{
  ℕ, zero, suc, ◌≡◌, ◌≢◌, refl, inl, inr, Bool-cases, true, false, arith, ◌==◌, if◌then◌else◌,
}
use guitar_tea.Spinlock.{
  Shared, Pc, store, at_round, Move, wait, take, read_count, write_count, unlock, System, Step,
  pick, update_pc, Reach, here, later, holds, gt_spinlock_trylock, gt_spinlock_unlock, unlocked,
  try_lock_with_val, try_unlock_with_val,
}

-- At most one thread holds the lock, none while it is 0, and the local copy of the count is what
-- the memory holds.
pub record Inv (m : Shared) (pc : ℕ → Pc) : Type 0 where
  pub unique : (i j : ℕ) → holds (pc i) ≡ true → holds (pc j) ≡ true → i ≡ j
  pub free : (i : ℕ) → m.locked ≡ 0 → holds (pc i) ≡ false
  pub fresh : (i n c : ℕ) → pc i ≡ store n c → m.total_count ≡ c

holds-at_round : (n : ℕ) → holds (at_round n) ≡ false
holds-at_round zero = refl
holds-at_round (suc n) = refl

at_round-ne-store : (r n c : ℕ) → at_round r ≡ store n c → ⊥
at_round-ne-store zero n c e = cc
at_round-ne-store (suc r) n c e = cc

module _ {m : Shared} {pc : ℕ → Pc} (inv : Inv m pc) (i : ℕ) where
  open inv use {unique, free, fresh}

  Move-unique :
      {p p' : Pc} {m' : Shared}
      → Move m p m' p'
      → pc i ≡ p
      → (a b : ℕ) → holds (update_pc pc i p' a) ≡ true
      → holds (update_pc pc i p' b) ≡ true
      → a ≡ b
  unfolding gt_spinlock_trylock
  Move-unique (wait g) e a b ha hb = ground (arith, unique a b)
  Move-unique (take g) e a b ha hb = ground (arith, free a, free b)
  Move-unique read_count e a b ha hb = ground (arith, unique a b, unique i b, unique a i)
  Move-unique write_count e a b ha hb = ground (arith, unique a b, unique i b, unique a i)
  Move-unique (unlock {n}) e a b ha hb = ground (arith, unique a b, holds-at_round n)

  Move-free :
      {p p' : Pc} {m' : Shared}
      → Move m p m' p'
      → pc i ≡ p
      → (a : ℕ) → m'.locked ≡ 0
      → holds (update_pc pc i p' a) ≡ false
  unfolding gt_spinlock_trylock gt_spinlock_unlock
  Move-free (wait g) e a z = ground (arith, free a)
  Move-free (take g) e a z = ground arith
  Move-free read_count e a z = ground (arith, free a, free i)
  Move-free write_count e a z = ground (arith, free a, free i)
  Move-free (unlock {n}) e a z = ground (arith, holds-at_round n, unique a i)

  Move-fresh :
      {p p' : Pc} {m' : Shared}
      → Move m p m' p'
      → pc i ≡ p
      → (a n c : ℕ) → update_pc pc i p' a ≡ store n c
      → m'.total_count ≡ c
  Move-fresh (wait g) e a n c q = ground (arith, fresh a n c)
  Move-fresh (take g) e a n c q = ground (arith, fresh a n c)
  Move-fresh read_count e a n c q = ground (arith, fresh a n c)
  Move-fresh write_count e a n c q = ground (arith, fresh a n c, unique a i)
  Move-fresh (unlock {n = r}) e a n c q = ground (arith, fresh a n c, at_round-ne-store r n c)

  pub Move-Inv : {p' : Pc} {m' : Shared} → Move m (pc i) m' p' → Inv m' (update_pc pc i p')
  Move-Inv mv = record {
    unique = Move-unique mv refl;
    free = Move-free mv refl;
    fresh = Move-fresh mv refl;
  }

pub Step-Inv : {n : ℕ} {s t : System} → Step n s t → Inv s.shared s.pc → Inv t.shared t.pc
Step-Inv (pick i lt mv) inv = Move-Inv inv i mv

pub Reach-Inv : {n r : ℕ} {s : System} → Reach n r s → Inv s.shared s.pc
Reach-Inv {r} here = record {
  unique = λ i j a b. ground (arith, holds-at_round r);
  free = λ i z. holds-at_round r;
  fresh = λ i n c q. absurd (at_round-ne-store r n c q);
}
Reach-Inv (later r st) = Step-Inv st (Reach-Inv r)

-- Whatever the number of threads and of rounds, and in any interleaving, while one thread is
-- between the lock and the unlock no other thread is.
pub mutual_exclusion :
    {n r : ℕ} {s : System}
    → Reach n r s
    → (i j : ℕ) → i ≢ j
    → holds (s.pc i) ≡ true
    → holds (s.pc j) ≡ false
mutual_exclusion {s} reach i j ne held = elim (Bool-cases (holds (s.pc j))) [
  | inl both ↦ absurd (ne ((Reach-Inv reach).unique i j held both))
  | inr no_hold ↦ no_hold
]

-- A lock that was taken with a value other than 0 is released by that value and by no other: the
-- loop of `gt_spinlock_unlock_with_val` ends with the lock free, or goes on with the lock as it was.
pub with_val_owner :
    (val other : ℕ)
    → val ≢ 0
    → try_unlock_with_val other (try_lock_with_val val unlocked).1
      ≡ (other == val, if other == val then 0 else val)
unfolding try_lock_with_val try_unlock_with_val
with_val_owner val other ne = ground arith
