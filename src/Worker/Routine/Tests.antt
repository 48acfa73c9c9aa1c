-- ===== src/Worker/Routine/Tests.antt =====
-- Runs of a business thread and a datanet thread, and the theorems about user/core/gt_worker.c at
-- them.
use guitar_tea.Common.{ℕ, zero, suc, ◌*◌, ◌≤◌, ◌<◌, ◌≡◌, ◌⊎◌, refl, true, false, arith}
use guitar_tea.Worker.Routine.{
  Routine, gt_business_pthread_routine, gt_datanet_pthread_routine, waiting, mutex_lock, cond_wait,
  cond_return, System, Group, Step, pick, wake_up, Steps, here, later, created,
}
use guitar_tea.Worker.Routine.Mutex.{holds, mutex_exclusion}
use guitar_tea.Worker.Routine.Wakeup.{is_early, lost_wakeup}
use guitar_tea.Worker.Routine.Progress.{AllWoken, AllSettled, woken_threads_settle}

abbrev routine_of : ℕ → Routine
routine_of zero = gt_business_pthread_routine
routine_of (suc i) = gt_datanet_pthread_routine

abbrev two : Group
two = record { threads = 2; routine = routine_of; spurious = false }

-- Thread 1 waits, the broadcast comes, and thread 0 waits only then.
late_thread :
    (s : System) × Steps two created 3 s × (s.broadcast ≡ true) × (is_early (s.pc 0) ≡ true)
late_thread = (
  _,
  later
      (later (later here (pick 1 (omega arith) (mutex_lock refl))) (pick 1 (omega arith) cond_wait))
      (wake_up refl),
  refl,
  refl,
)

late_thread_waits : (t : System) × Steps two late_thread.0 2 t × (t.pc 0 ≡ waiting)
unfolding late_thread
late_thread_waits = (
  _,
  later (later here (pick 0 (omega arith) (mutex_lock refl))) (pick 0 (omega arith) cond_wait),
  refl,
)

-- Both threads wait when the broadcast comes.
both_wait : (s : System) × Steps two created 5 s × (s.broadcast ≡ true)
both_wait = (
  _,
  later
      (later
        (later
          (later (later here (pick 1 (omega arith) (mutex_lock refl)))
            (pick 1 (omega arith) cond_wait))
          (pick 0 (omega arith) (mutex_lock refl)))
        (pick 0 (omega arith) cond_wait))
      (wake_up refl),
  refl,
)

both_wait-AllWoken : AllWoken two both_wait.0
unfolding both_wait
both_wait-AllWoken = record { done = refl; late = λ i lt. late i lt }
  where
    late : (i : ℕ) → i < 2 → is_early (both_wait.0.pc i) ≡ false
    late zero lt = refl
    late (suc zero) lt = refl
    late (suc (suc i)) lt = absurd (omega arith)

one_returns : (t : System) × Steps two both_wait.0 1 t × (holds (t.pc 1) ≡ true)
unfolding both_wait
one_returns = (_, later here (pick 1 (omega arith) (cond_return refl)), refl)

one_locks : (s : System) × Steps two created 1 s × (holds (s.pc 0) ≡ true)
one_locks = (_, later here (pick 0 (omega arith) (mutex_lock refl)), refl)

mutex_exclusion_example : holds (one_locks.0.pc 1) ≡ false
mutex_exclusion_example = mutex_exclusion one_locks.1 0 1 (omega arith) one_locks.2

lost_wakeup_example : is_early (late_thread_waits.0.pc 0) ≡ true
lost_wakeup_example = lost_wakeup 0 refl late_thread.2 late_thread.3 late_thread_waits.1

woken_threads_settle_example :
    (1 ≤ 2 * 3) × (AllSettled two one_returns.0 ⊎ ((u : System) × Step two one_returns.0 u))
woken_threads_settle_example = woken_threads_settle both_wait.1 both_wait-AllWoken one_returns.1
