-- ===== src/Worker/Routine/Wakeup.antt =====
-- Which threads of user/core/gt_worker.c the broadcast of `gt_wakeup_pthread` does not reach.
use guitar_tea.Common.{ℕ, ◌≡◌, refl, Bool, true, false, arith}
use guitar_tea.Worker.Routine.{
  Routine, Pc, starting, locked, waiting, woken, relocked, setup, looping, exited, Move, mutex_lock,
  cond_wait, cond_return, mutex_unlock, poller_ready, poller_failed, System, Group, Step, pick,
  wake_up, wake_spuriously, Steps, here, later,
}

-- Not yet unblocked.
abbrev pub is_early : Pc → Bool
is_early starting = true
is_early locked = true
is_early waiting = true
is_early woken = false
is_early relocked = false
is_early setup = false
is_early looping = false
is_early exited = false

Move-is_early :
    {r : Routine} {m m' : Bool} {p p' : Pc}
    → Move r m p m' p'
    → is_early p ≡ true
    → is_early p' ≡ true
Move-is_early (mutex_lock free) h = refl
Move-is_early cond_wait h = refl
Move-is_early (cond_return free) h = cc
Move-is_early mutex_unlock h = cc
Move-is_early poller_ready h = cc
Move-is_early poller_failed h = cc

Step-is_early :
    {g : Group} {s t : System} (i : ℕ)
    → Step g s t
    → g.spurious ≡ false
    → s.broadcast ≡ true
    → is_early (s.pc i) ≡ true
    → (t.broadcast ≡ true) × (is_early (t.pc i) ≡ true)
Step-is_early {s} i (pick j lt mv) calm woke h = (woke, ground (arith, Move-is_early mv))
Step-is_early i (wake_up first) calm woke h = cc
Step-is_early i (wake_spuriously j lt allowed blocked) calm woke h = cc

Steps-is_early :
    {g : Group} {s t : System} {k : ℕ} (i : ℕ)
    → Steps g s k t
    → g.spurious ≡ false
    → s.broadcast ≡ true
    → is_early (s.pc i) ≡ true
    → (t.broadcast ≡ true) × (is_early (t.pc i) ≡ true)
Steps-is_early i here calm woke h = (woke, h)
Steps-is_early i (later before st) calm woke h =
    let r = Steps-is_early i before calm woke h in Step-is_early i st calm r.0 r.1

-- A thread that has not been unblocked by the time that the main thread is behind
-- gt_wakeup_pthread, because it did not wait yet, is never unblocked in any run that follows: where
-- `pthread_cond_wait` does not return spuriously, the thread never reaches its loop.
pub lost_wakeup :
    {g : Group} {s t : System} {k : ℕ} (i : ℕ)
    → g.spurious ≡ false
    → s.broadcast ≡ true
    → is_early (s.pc i) ≡ true
    → Steps g s k t
    → is_early (t.pc i) ≡ true
lost_wakeup i calm woke h run = (Steps-is_early i run calm woke h).1
