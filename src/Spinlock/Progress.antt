-- ===== src/Spinlock/Progress.antt =====
-- The threads of test/spinlock_test.c get on with their work under the lock of user/core/gt_spinlock.h.
use guitar_tea.Common.{ℕ, zero, suc, ◌+◌, ◌*◌, ◌≤◌, ◌<◌, ◌≡◌, refl, ◌⊎◌, inl, inr, true, arith}
use native.Mathlib.Decide.{ℕ_discrete}
use guitar_tea.Common.Sums.{total, total-update}
use guitar_tea.Spinlock.{
  Shared, Pc, spin, load, store, release, done, at_round, Move, wait, take, read_count, write_count,
  unlock, System, update_pc, start, holds, gt_spinlock_trylock, gt_spinlock_unlock,
}

-- A failed try of the lock is no progress; every other step is.
abbrev pub gain : {m m' : Shared} {p p' : Pc} → Move m p m' p' → ℕ
gain (wait g) = 0
gain (take g) = 1
gain read_count = 1
gain write_count = 1
gain unlock = 1

-- A run from the start in which so many steps were progress.
pub data Run (threads rounds : ℕ) : ℕ → System → Type 0 where
  begin : Run threads rounds zero (start rounds)
  next :
      {k i : ℕ} {s : System} {m : Shared} {p : Pc}
      → Run threads rounds k s
      → i < threads
      → (mv : Move s.shared (s.pc i) m p)
      → Run threads rounds (k + gain mv) (record { shared = m; pc = update_pc s.pc i p })

-- The steps that a thread still has to make.
abbrev work : Pc → ℕ
work (spin n) = 4 * n + 4
work (load n) = 4 * n + 3
work (store n c) = 4 * n + 2
work (release n) = 4 * n + 1
work done = 0

work-at_round : (r : ℕ) → work (at_round r) ≡ 4 * r
work-at_round zero = refl
work-at_round (suc r) = omega arith

Move-work : {m m' : Shared} {p p' : Pc} → (mv : Move m p m' p') → work p' + gain mv ≡ work p
Move-work (wait g) = omega arith
Move-work (take g) = omega arith
Move-work read_count = omega arith
Move-work write_count = omega arith
Move-work (unlock {n}) = omega (arith, work-at_round n)

all_work : ℕ → (ℕ → Pc) → ℕ
all_work n pc = total (λ i. work (pc i)) n

all_work-start : (n r : ℕ) → all_work n (λ i. at_round r) ≡ n * r * 4
unfolding all_work total
all_work-start zero r = omega arith
all_work-start (suc n) r = grind (arith, all_work-start n r, work-at_round r)

-- The progress made and the work left add up.
Run-work : {n r k : ℕ} {s : System} → Run n r k s → k + all_work n s.pc ≡ n * r * 4
unfolding all_work
Run-work {n} {r} begin = omega (arith, all_work-start n r)
Run-work {n} {r} (next {i} {s} {p} before lt mv) =
    let sum =
      total-update (λ j. work (s.pc j)) (λ j. work (update_pc s.pc i p j)) n i lt
        (λ j ne. ground arith) in
    let mine : work (update_pc s.pc i p i) ≡ work p = ground arith in
    omega (arith, Run-work before, sum, mine, Move-work mv)

-- The lock is free, or one of the threads holds it.
abbrev Owned : ℕ → Shared → (ℕ → Pc) → Type 0
Owned n m pc = (m.locked ≡ 0) ⊎ ((i : ℕ) × (i < n) × (holds (pc i) ≡ true))

module _ (n : ℕ) (m : Shared) (pc : ℕ → Pc) (i : ℕ) (lt : i < n) where
  -- A thread that holds the lock before another one moves holds it still.
  still_held :
      (p' : Pc)
      → Owned n m pc
      → (holds (pc i) ≡ true → holds p' ≡ true)
      → Owned n m (update_pc pc i p')
  still_held p' (inl free) keeps = inl free
  still_held p' (inr (j, below, held)) keeps = inr (elim (ℕ_discrete j i) [
    | yes e ↦ (i, lt, ground (arith, keeps))
    | no ne ↦ (j, below, ground arith)
  ])

  Move-Owned :
      {m' : Shared} {p p' : Pc}
      → Move m p m' p'
      → pc i ≡ p
      → Owned n m pc
      → Owned n m' (update_pc pc i p')
  unfolding gt_spinlock_unlock
  Move-Owned {p'} (wait g) e o = still_held p' o (λ h. ground arith)
  Move-Owned (take g) e o = inr (i, lt, ground arith)
  Move-Owned read_count e o = inr (i, lt, ground arith)
  Move-Owned write_count e o = inr (i, lt, ground arith)
  Move-Owned unlock e o = inl refl

Run-Owned : {n r k : ℕ} {s : System} → Run n r k s → Owned n s.shared s.pc
Run-Owned begin = inl refl
Run-Owned {n} (next {i} {s} before lt mv) =
    Move-Owned n s.shared s.pc i lt mv refl (Run-Owned before)

-- Some thread can make a step of progress.
abbrev pub CanGain : ℕ → System → Type 0
CanGain n s =
    (i : ℕ) × (i < n)
    × (p : Pc) × (s.pc i ≡ p)
    × (m : Shared) × (p' : Pc) × (mv : Move s.shared p m p') × (gain mv ≡ 1)

abbrev pub AllDone : ℕ → System → Type 0
AllDone n s = (i : ℕ) → i < n → s.pc i ≡ done

module _ (n : ℕ) (s : System) (owned : Owned n s.shared s.pc) where
  -- The thread that holds the lock can always move.
  holder_gains : (i : ℕ) (p : Pc) → i < n → s.pc i ≡ p → holds p ≡ true → CanGain n s
  holder_gains i (load k) lt e h = (i, lt, load k, e, _, _, read_count, refl)
  holder_gains i (store k c) lt e h = (i, lt, store k c, e, _, _, write_count, refl)
  holder_gains i (release k) lt e h = (i, lt, release k, e, _, _, unlock, refl)
  holder_gains i (spin k) lt e h = cc
  holder_gains i done lt e h = cc

  spinner_gains : (i k : ℕ) → i < n → s.pc i ≡ spin k → CanGain n s
  unfolding gt_spinlock_trylock
  spinner_gains i k lt e = elim owned [
    | inl free ↦ (i, lt, spin k, e, _, _, take (ground arith), refl)
    | inr holder ↦ holder_gains holder.0 (s.pc holder.0) holder.1 refl holder.2
  ]

  thread_gains : (i : ℕ) (p : Pc) → i < n → s.pc i ≡ p → (s.pc i ≡ done) ⊎ CanGain n s
  thread_gains i (spin k) lt e = inr (spinner_gains i k lt e)
  thread_gains i (load k) lt e = inr (holder_gains i (load k) lt e refl)
  thread_gains i (store k c) lt e = inr (holder_gains i (store k c) lt e refl)
  thread_gains i (release k) lt e = inr (holder_gains i (release k) lt e refl)
  thread_gains i done lt e = inl e

  done_or_gain : (b : ℕ) → b ≤ n → AllDone b s ⊎ CanGain n s
  done_or_gain zero le = inl (λ i lt. absurd (omega arith))
  done_or_gain (suc b) le = elim (done_or_gain b (omega arith)) [
    | inr gains ↦ inr gains
    | inl below ↦ elim (thread_gains b (s.pc b) (omega arith) refl) [
      | inl now ↦
          inl (λ i lt. elim (ℕ_discrete i b) [ yes e ↦ rw e now | no ne ↦ below i (omega arith) ])
      | inr gains ↦ inr gains
    ]
  ]

all_work-done : (n : ℕ) (pc : ℕ → Pc) → ((i : ℕ) → i < n → pc i ≡ done) → all_work n pc ≡ 0
unfolding all_work total
all_work-done zero pc h = refl
all_work-done (suc n) pc h =
    let last : work (pc n) ≡ 0 = rw (h n (omega arith)) refl in
    omega (arith, all_work-done n pc (λ i lt. h i (omega arith)), last)

-- In every run of the threads, failed tries of the lock not counted, at most four steps are made for
-- each round of each thread; and either all threads are at their end and have made all of these
-- steps, or some thread can make one more: no interleaving leads to a deadlock.
pub spinlock_progress :
    {n r k : ℕ} {s : System}
    → Run n r k s
    → (k ≤ n * r * 4) × ((AllDone n s × (k ≡ n * r * 4)) ⊎ CanGain n s)
spinlock_progress {n} {r} {k} {s} run =
    let sum = Run-work run in
    (
      omega (arith, sum),
      elim (done_or_gain n s (Run-Owned run) n (omega arith)) [
        | inl finished ↦ inl (finished, omega (arith, sum, all_work-done n s.pc finished))
        | inr gains ↦ inr gains
      ],
    )
