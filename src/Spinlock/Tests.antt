-- ===== src/Spinlock/Tests.antt =====
-- Runs of test/spinlock_test.c, and the theorems about user/core/gt_spinlock.h at them.
use guitar_tea.Common.{ℕ, zero, suc, ◌*◌, ◌%◌, ◌^◌, ◌<◌, ◌≤◌, ◌⊎◌, ◌≡◌, refl, true, false, arith}
use guitar_tea.Spinlock.{
  done, take, wait, read_count, write_count, unlock, System, pick, Reach, here, later, holds,
  gt_spinlock_trylock, gt_spinlock_unlock,
}
use guitar_tea.Spinlock.Mutex.{mutual_exclusion}
use guitar_tea.Spinlock.Progress.{Run, begin, next, CanGain, AllDone, spinlock_progress}
use guitar_tea.Spinlock.Count.{total_count_exact}

-- Two threads with one round each: thread 0 takes the lock, and thread 1 waits for it.
contended : (s : System) × Reach 2 1 s × (holds (s.pc 0) ≡ true) × (s.shared.locked ≡ 1)
unfolding gt_spinlock_trylock
contended = (
  _,
  later (later here (pick 0 (omega arith) (take refl))) (pick 1 (omega arith) (wait refl)),
  refl,
  refl,
)

-- One thread with one round, to its end.
finished : (s : System) × Reach 1 1 s × (s.pc 0 ≡ done) × (s.shared.total_count ≡ 1)
unfolding gt_spinlock_trylock gt_spinlock_unlock
finished = (
  _,
  later
      (later
        (later (later here (pick 0 (omega arith) (take refl))) (pick 0 (omega arith) read_count))
        (pick 0 (omega arith) write_count))
      (pick 0 (omega arith) unlock),
  refl,
  refl,
)

only_done : (i : ℕ) → i < 1 → finished.0.pc i ≡ done
only_done zero lt = finished.2
only_done (suc i) lt = absurd (omega arith)

mutual_exclusion_example : holds (contended.0.pc 1) ≡ false
mutual_exclusion_example = mutual_exclusion contended.1 0 1 (omega arith) contended.2

total_count_exact_example : finished.0.shared.total_count ≡ 1 * 1 % 2 ^ 32
total_count_exact_example = total_count_exact finished.1 only_done

-- Thread 0 takes the lock, and the try of thread 1 is no progress.
one_gain : (s : System) × Run 2 1 1 s
unfolding gt_spinlock_trylock
one_gain =
    (_, next {i = 1} (next {i = 0} begin (omega arith) (take refl)) (omega arith) (wait refl))

spinlock_progress_example :
    (1 ≤ 2 * 1 * 4) × ((AllDone 2 one_gain.0 × (1 ≡ 2 * 1 * 4)) ⊎ CanGain 2 one_gain.0)
spinlock_progress_example = spinlock_progress one_gain.1
