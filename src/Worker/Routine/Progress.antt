-- ===== src/Worker/Routine/Progress.antt =====
-- The threads of user/core/gt_worker.c that the broadcast of `gt_wakeup_pthread` reaches get to
-- their loops.
use guitar_tea.Common.{
  ℕ, zero, suc, ◌+◌, ◌*◌, ◌≤◌, ◌<◌, ◌≡◌, refl, ◌⊎◌, inl, inr, Bool, true, false, Bool-cases, arith,
}
use native.Mathlib.Decide.{ℕ_discrete}
use guitar_tea.Common.Sums.{total, total-update, total-le}
use guitar_tea.Worker.Routine.{
  Routine, gt_network_pthread_routine, gt_business_pthread_routine, gt_datanet_pthread_routine, Pc,
  starting, locked, waiting, woken, relocked, setup, looping, exited, after_unlock, Move,
  mutex_lock, cond_wait, cond_return, mutex_unlock, poller_ready, poller_failed, System, set_pc,
  Group, Step, pick, wake_up, wake_spuriously, Steps, here, later, created,
}
use guitar_tea.Worker.Routine.Mutex.{Inv, Steps-Inv, created-Inv, holds}
use guitar_tea.Worker.Routine.Wakeup.{is_early}

-- In its loop, or behind `pthread_exit`.
abbrev pub is_settled : Pc → Bool
is_settled starting = false
is_settled locked = false
is_settled waiting = false
is_settled woken = false
is_settled relocked = false
is_settled setup = false
is_settled looping = true
is_settled exited = true

-- The steps that a thread may still have to make, once it is unblocked.
abbrev work : Pc → ℕ
work starting = 0
work locked = 0
work waiting = 0
work woken = 3
work relocked = 2
work setup = 1
work looping = 0
work exited = 0

-- The broadcast has been, and every thread was unblocked.
pub record AllWoken (g : Group) (s : System) : Type 0 where
  pub done : s.broadcast ≡ true
  pub late : (i : ℕ) → i < g.threads → is_early (s.pc i) ≡ false

abbrev pub AllSettled : Group → System → Type 0
AllSettled g s = (i : ℕ) → i < g.threads → is_settled (s.pc i) ≡ true

work-le : (p : Pc) → work p ≤ 3
work-le starting = omega arith
work-le locked = omega arith
work-le waiting = omega arith
work-le woken = omega arith
work-le relocked = omega arith
work-le setup = omega arith
work-le looping = omega arith
work-le exited = omega arith

after_unlock_late :
    (r : Routine) → (is_early (after_unlock r) ≡ false) × (work (after_unlock r) < 2)
after_unlock_late gt_network_pthread_routine = (refl, omega arith)
after_unlock_late gt_business_pthread_routine = (refl, omega arith)
after_unlock_late gt_datanet_pthread_routine = (refl, omega arith)

-- A step of an unblocked thread leaves it unblocked, with less work.
Move-work :
    {r : Routine} {m m' : Bool} {p p' : Pc}
    → Move r m p m' p'
    → is_early p ≡ false
    → (is_early p' ≡ false) × (work p' < work p)
Move-work (mutex_lock free) h = cc
Move-work cond_wait h = cc
Move-work (cond_return free) h = (refl, omega arith)
Move-work {r} mutex_unlock h = after_unlock_late r
Move-work poller_ready h = (refl, omega arith)
Move-work poller_failed h = (refl, omega arith)

abbrev all_work : Group → System → ℕ
all_work g s = total (λ i. work (s.pc i)) g.threads

Step-work :
    {g : Group} {s t : System}
    → Step g s t
    → AllWoken g s
    → AllWoken g t × (all_work g t < all_work g s)
Step-work {g} {s} (pick i {p} lt mv) w =
    let m = Move-work mv (w.late i lt) in
    let pc = set_pc s.pc i p in
    let sum =
      total-update (λ j. work (s.pc j)) (λ j. work (pc j)) g.threads i lt (λ j ne. ground arith) in
    let new : work (pc i) ≡ work p = ground arith in
    (record { done = w.done; late = λ j h. ground (arith, w.late j) }, omega (arith, sum, new, m.1))
Step-work (wake_up first) w = let e = w.done in cc
Step-work (wake_spuriously i lt allowed blocked) w = let e = w.late i lt in absurd (ground arith)

Steps-work :
    {g : Group} {s t : System} {k : ℕ}
    → Steps g s k t
    → AllWoken g s
    → AllWoken g t × (k + all_work g t ≤ all_work g s)
Steps-work here w = (w, omega arith)
Steps-work (later before st) w =
    let r = Steps-work before w in let n = Step-work st r.0 in (n.0, omega (arith, r.1, n.1))

abbrev CanStep : Group → System → Type 0
CanStep g s = (u : System) × Step g s u

-- A thread with work left can make a step, or else the one that has the mutex can.
module _ {g : Group} {s : System} (inv : Inv g s) (w : AllWoken g s) where
  move_step :
      (i : ℕ) {m : Bool} {p p' : Pc}
      → i < g.threads
      → s.pc i ≡ p
      → Move (g.routine i) s.mutex p m p'
      → CanStep g s
  move_step i {m} {p} {p'} lt e mv =
      (record s { mutex = m; pc = set_pc s.pc i p' }, pick i lt (rw e mv))

  owner_step :
      (i : ℕ) (p : Pc)
      → i < g.threads
      → s.pc i ≡ p
      → is_early p ≡ false
      → holds p ≡ true
      → CanStep g s
  owner_step i relocked lt e late held = move_step i lt e mutex_unlock
  owner_step i starting lt e late held = cc
  owner_step i locked lt e late held = cc
  owner_step i waiting lt e late held = cc
  owner_step i woken lt e late held = cc
  owner_step i setup lt e late held = cc
  owner_step i looping lt e late held = cc
  owner_step i exited lt e late held = cc

  thread_step :
      (i : ℕ) (p : Pc)
      → i < g.threads
      → s.pc i ≡ p
      → is_early p ≡ false
      → is_settled p ≡ false
      → CanStep g s
  thread_step i woken lt e late busy = elim (Bool-cases s.mutex) [
    | inl taken ↦
        owner_step inv.owner (s.pc inv.owner) (inv.owner-lt taken) refl
          (w.late inv.owner (inv.owner-lt taken)) (inv.owner_holds taken)
    | inr free ↦ move_step i lt e (cond_return free)
  ]
  thread_step i relocked lt e late busy = move_step i lt e mutex_unlock
  thread_step i setup lt e late busy = move_step i lt e poller_ready
  thread_step i starting lt e late busy = cc
  thread_step i locked lt e late busy = cc
  thread_step i waiting lt e late busy = cc
  thread_step i looping lt e late busy = cc
  thread_step i exited lt e late busy = cc

  settled_or_step :
      (n : ℕ) → n ≤ g.threads → ((i : ℕ) → i < n → is_settled (s.pc i) ≡ true) ⊎ CanStep g s
  settled_or_step zero le = inl (λ i lt. absurd (omega arith))
  settled_or_step (suc n) le = elim (settled_or_step n (omega arith)) [
    | inr step ↦ inr step
    | inl below ↦ elim (Bool-cases (is_settled (s.pc n))) [
      | inl now ↦
          inl (λ i lt. elim (ℕ_discrete i n) [ yes e ↦ rw e now | no ne ↦ below i (omega arith) ])
      | inr busy ↦ inr (thread_step n (s.pc n) (omega arith) refl (w.late n (omega arith)) busy)
    ]
  ]

-- Once the broadcast has been and every thread was unblocked, the threads make at most three steps
-- each on their way, in any interleaving; and however far they have come, every thread is in its
-- loop or behind `pthread_exit`, or some step is possible: there is no deadlock.
pub woken_threads_settle :
    {g : Group} {s t : System} {j k : ℕ}
    → Steps g created j s
    → AllWoken g s
    → Steps g s k t
    → (k ≤ g.threads * 3) × (AllSettled g t ⊎ ((u : System) × Step g t u))
woken_threads_settle {g} {s} before w run =
    let inv = Steps-Inv run (Steps-Inv before (created-Inv g)) in
    let r = Steps-work run w in
    let most = total-le (λ i. work (s.pc i)) g.threads 3 (λ i. work-le (s.pc i)) in
    (omega (arith, r.1, most), settled_or_step inv r.0 g.threads (omega arith))
