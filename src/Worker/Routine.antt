-- ===== src/Worker/Routine.antt =====
-- The routines of the threads of user/core/gt_worker.c, as interleavings: how each thread waits for
-- `gt_pthread_cond` under `gt_pthread_mutex`, and how the main thread wakes them up. A routine starts
-- behind its test for NULL, which ends the thread: pthread_create passes it an entry of a table.
pub mod Mutex
pub mod Wakeup
pub mod Progress
mod Tests
use guitar_tea.Common.{ℕ, zero, suc, ◌<◌, ◌≡◌, Bool, true, false, ◌==◌, if◌then◌else◌}

-- The three routines.
pub data Routine : Type 0 where
  gt_network_pthread_routine gt_business_pthread_routine gt_datanet_pthread_routine : Routine

-- Where a thread stands: before `pthread_mutex_lock`, before `pthread_cond_wait`, blocked in it,
-- unblocked and waiting for the mutex, before `pthread_mutex_unlock`, before `gt_poller_init`, in the
-- endless loop, and behind `pthread_exit`.
pub data Pc : Type 0 where
  starting locked waiting woken relocked setup looping exited : Pc

-- Behind `pthread_mutex_unlock`: only the datanet threads set their poller up here.
abbrev pub after_unlock : Routine → Pc
after_unlock gt_network_pthread_routine = looping
after_unlock gt_business_pthread_routine = looping
after_unlock gt_datanet_pthread_routine = setup

-- A step of one thread; the mutex is `true` while a thread has it. `pthread_cond_wait` gives the
-- mutex back and blocks in one step, and takes the mutex again before it returns.
pub data Move (r : Routine) (mutex : Bool) : Pc → Bool → Pc → Type 0 where
  mutex_lock : mutex ≡ false → Move r mutex starting true locked
  cond_wait : Move r mutex locked false waiting
  cond_return : mutex ≡ false → Move r mutex woken true relocked
  mutex_unlock : Move r mutex relocked false (after_unlock r)
  poller_ready : Move r mutex setup mutex looping
  poller_failed : Move r mutex setup mutex exited

-- The threads by number, and whether the main thread is behind `gt_wakeup_pthread`.
pub record System : Type 0 where
  pub mutex : Bool
  pub broadcast : Bool
  pub pc : ℕ → Pc

abbrev pub set_pc : (ℕ → Pc) → ℕ → Pc → ℕ → Pc
set_pc pc i p j = if j == i then p else pc j

-- `pthread_cond_broadcast` unblocks the threads that are blocked at that time.
abbrev pub unblock : Pc → Pc
unblock waiting = woken
unblock p = p

-- The threads that are created. POSIX lets `pthread_cond_wait` return with no broadcast, too:
-- `spurious` says whether this happens.
pub record Group : Type 0 where
  pub threads : ℕ
  pub routine : ℕ → Routine
  pub spurious : Bool

-- A round of the endless loop changes nothing here, and is no step.
pub data Step (g : Group) (s : System) : System → Type 0 where
  pick :
      (i : ℕ) {mutex : Bool} {p : Pc}
      → i < g.threads
      → Move (g.routine i) s.mutex (s.pc i) mutex p
      → Step g s (record s { mutex = mutex; pc = set_pc s.pc i p })
  wake_up :
      s.broadcast ≡ false → Step g s (record s { broadcast = true; pc = λ j. unblock (s.pc j) })
  wake_spuriously :
      (i : ℕ)
      → i < g.threads
      → g.spurious ≡ true
      → s.pc i ≡ waiting
      → Step g s (record s { pc = set_pc s.pc i woken })

-- A number of steps.
pub data Steps (g : Group) (s : System) : ℕ → System → Type 0 where
  here : Steps g s zero s
  later : {k : ℕ} {t u : System} → Steps g s k t → Step g t u → Steps g s (suc k) u

-- All threads are created, and none has run.
abbrev pub created : System
created = record { mutex = false; broadcast = false; pc = λ i. starting }
