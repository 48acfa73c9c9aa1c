-- ===== src/Signal.antt =====
-- user/core/gt_signal.c, user/core/gt_signal.h: the pipe through which a signal handler tells the
-- core poller of a signal, and the handlers that are set. The log lines are left out; the
-- call trace is in Signal/Backtrace.antt.
pub mod Numbers
pub mod Tables
pub mod Delivery
pub mod Pipe
pub mod Backtrace
pub mod Routine
mod Tests
use guitar_tea.Common.{
  ℕ, zero, suc, ◌+◌, ◌*◌, ◌/◌, ◌%◌, ◌^◌, Bool, true, false, not, Option, none, some, List, [], ◌∷◌,
  ◌==◌, ◌||◌, if◌then◌else◌,
}
use guitar_tea.Common.State.{Cmd, pure, ◌>>=◌, ◌>>◌}
use guitar_tea.Common.Int.{ℤ, pos, negsuc, gt_ok, gt_error, is_ok}
use guitar_tea.Dlist.{Ptr}
use guitar_tea.Log.{Buffer, zeroed}
use guitar_tea.Signal.Backtrace.{gt_backtrace_print}
use guitar_tea.Signal.Numbers.{
  number, numbers, gt_sighup, gt_sigint, gt_sigquit, gt_sigill, gt_sigabrt, gt_sigbus, gt_sigfpe,
  gt_sigusr1, gt_sigsegv, gt_sigusr2, gt_sigpipe, gt_sigalrm, gt_sigstkflt, gt_sigcld, gt_sigchld,
  gt_sigcont, gt_sigtstp, gt_sigttin, gt_sigttou, gt_sigxcpu, gt_sigxfsz, gt_sigvtalrm, gt_sigprof,
  gt_sigwinch, gt_sigio, gt_sigpwr, gt_sigsys,
}
use guitar_tea.Os.{
  Os, World, GtEvent, signal_ops_read, Notice, snap, dump, close, write, sigaction, sigprocmask,
  pthread_sigmask, load_event, store_event, call, errno, set_errno, read,
}
use guitar_tea.Poller.{epollin, gt_poller_event_start, gt_poller_gevent_create}
use guitar_tea.Network.{gt_create_pipefd, gt_set_nonblock, gt_set_cloexec, with_read}

abbrev pub g_gt_sig_ignore : List ℕ
g_gt_sig_ignore = numbers (
    gt_sigint ∷ gt_sigpipe ∷ gt_sigalrm ∷ gt_sigstkflt ∷ gt_sigcld ∷ gt_sigchld ∷ gt_sigcont
    ∷ gt_sigtstp ∷ gt_sigttin ∷ gt_sigttou ∷ gt_sigxcpu ∷ gt_sigxfsz ∷ gt_sigvtalrm ∷ gt_sigprof
    ∷ gt_sigwinch ∷ gt_sigio ∷ gt_sigpwr ∷ [])

abbrev pub g_gt_sig_core : List ℕ
g_gt_sig_core =
    numbers (gt_sigill ∷ gt_sigabrt ∷ gt_sigbus ∷ gt_sigfpe ∷ gt_sigsegv ∷ gt_sigsys ∷ [])

abbrev pub g_gt_sig_custom : List ℕ
g_gt_sig_custom = numbers (gt_sighup ∷ gt_sigquit ∷ gt_sigusr1 ∷ gt_sigusr2 ∷ [])

-- The four bytes of an `int32_t` that is not negative, the lowest first.
abbrev pub int_bytes : ℕ → List ℕ
int_bytes n = n % 256 ∷ n / 256 % 256 ∷ n / 65536 % 256 ∷ n / 16777216 % 256 ∷ []

abbrev pub first_byte : List ℕ → ℕ
first_byte [] = 0
first_byte (b ∷ bytes) = b

-- The two groups of labels of `switch (sig)`.
abbrev pub is_custom : ℕ → Bool
is_custom sig =
    sig == number gt_sighup
    || (sig == number gt_sigquit || (sig == number gt_sigusr1 || (sig == number gt_sigusr2)))

abbrev pub is_core : ℕ → Bool
is_core sig =
    sig == number gt_sigill
    || (sig == number gt_sigabrt
        || (sig == number gt_sigbus
            || (sig == number gt_sigfpe
                || (sig == number gt_sigsegv || (sig == number gt_sigsys)))))

module _ (os : Os) where
  open os use {Kernel}

  abbrev notify : Notice → Cmd (World Kernel) (Unit {0})
  notify n w = some (tt, record w { notices = n ∷ w.notices })

  unfoldable pub gt_process_dump : (sig : ℕ) → Cmd (World Kernel) (Unit {0})
  gt_process_dump sig = notify (dump sig)

  unfoldable pub gt_process_snap : (sig : ℕ) → Cmd (World Kernel) (Unit {0})
  gt_process_snap sig = notify (snap sig)

  unfoldable pub gt_set_pthread_sigmask : (sig : ℕ) → Cmd (World Kernel) ℤ
  unfolding call
  gt_set_pthread_sigmask sig = do
    ret ← call os (pthread_sigmask (sig ∷ []))
    if not (is_ok ret) then pure ret else pure gt_ok

  -- The ends of the pipe, as `gt_create_pipefd` leaves them where it succeeds.
  unfoldable pub set_pipefd : (fd0 fd1 : ℤ) → Cmd (World Kernel) (Unit {0})
  set_pipefd fd0 fd1 w = some (tt, record w { pipefd_read = fd0; pipefd_write = fd1 })

  -- `close(g_signal_pipefd[0]); close(g_signal_pipefd[1]); return ret;`
  unfoldable pub close_pipefd : (fd0 fd1 ret : ℤ) → Cmd (World Kernel) ℤ
  unfolding call
  close_pipefd fd0 fd1 ret = do _ ← call os (close fd0); _ ← call os (close fd1); pure ret

  unfoldable pub gt_signal_create_pipefd : Cmd (World Kernel) ℤ
  unfolding set_pipefd
  gt_signal_create_pipefd = do
    (ret, fd0, fd1) ← gt_create_pipefd os
    if not (is_ok ret) then pure ret else do
      set_pipefd fd0 fd1
      nonblock ← gt_set_nonblock os fd1
      if not (is_ok nonblock) then close_pipefd fd0 fd1 nonblock else do
        cloexec ← gt_set_cloexec os fd1
        if not (is_ok cloexec) then close_pipefd fd0 fd1 cloexec else pure gt_ok

  unfoldable pub gt_signal_deliver : (sig : ℕ) → Cmd (World Kernel) (Unit {0})
  gt_signal_deliver sig w = (do _ ← call os (write w.pipefd_write (int_bytes sig)); pure tt) w

  -- The switch on a signal that was read.
  unfoldable pub handle_signal : (sig : ℕ) → Cmd (World Kernel) (Unit {0})
  unfolding gt_process_snap gt_process_dump
  handle_signal sig =
      if is_custom sig
      then gt_process_snap sig
      else if is_core sig
      then gt_process_dump sig
      else pure tt

  -- Only the lowest byte of `sig` is read; `stack` is what the three others hold, since `sig` is
  -- not initialised.
  unfoldable pub after_read : (stack : ℕ) → ℤ × List ℕ → Cmd (World Kernel) ℤ
  unfolding handle_signal
  after_read stack (pos zero, bytes) = pure gt_ok
  after_read stack (pos (suc zero), bytes) = do
    handle_signal (first_byte bytes + 256 * stack)
    pure gt_ok
  after_read stack (pos (suc (suc n)), bytes) = pure gt_error
  after_read stack (negsuc n, bytes) = pure gt_error

  unfoldable pub gt_signal_ops_read : (stack : ℕ) (ge : Ptr) → Cmd (World Kernel) ℤ
  unfolding load_event read
  gt_signal_ops_read stack ge = do
    g ← load_event ge
    result ← read os g.efd 1
    after_read stack result

  -- The call trace that is logged first for the core signals, of the symbols `strings`: what it
  -- prints is output only, but a fault in it ends the process.
  abbrev pub traced : Option (List (List ℕ) × Buffer) → Cmd (World Kernel) (Unit {0})
  traced none w = none
  traced (some (lines, frame)) w = some (tt, w)

  unfoldable pub gt_signal_routine :
      (strings : List (List ℕ)) (sig : ℕ) → Cmd (World Kernel) (Unit {0})
  unfolding errno set_errno
  gt_signal_routine strings sig = do
    save_errno ← errno os
    if is_core sig then traced (gt_backtrace_print strings zeroed) else pure tt
    gt_signal_deliver sig
    set_errno os save_errno

  unfoldable pub gt_add_signal_handler : (sig : ℕ) → Cmd (World Kernel) ℤ
  unfolding call
  gt_add_signal_handler sig = do
    ret ← call os (sigaction sig)
    if not (is_ok ret) then pure ret else pure gt_ok

  -- The loop of `gt_signal_register_custom` and of `gt_signal_register_core`, over the signals.
  unfoldable pub register_loop : List ℕ → Cmd (World Kernel) ℤ
  register_loop [] = pure gt_ok
  register_loop (sig ∷ rest) = do
    ret ← gt_add_signal_handler sig
    if not (is_ok ret) then pure ret else register_loop rest

  unfoldable pub gt_signal_register_custom : Cmd (World Kernel) ℤ
  gt_signal_register_custom = register_loop g_gt_sig_custom

  unfoldable pub gt_signal_register_core : Cmd (World Kernel) ℤ
  gt_signal_register_core = register_loop g_gt_sig_core

  -- `sigaddset` does not fail for these signals.
  unfoldable pub gt_signal_register_ignore : Cmd (World Kernel) ℤ
  unfolding call
  gt_signal_register_ignore = do
    ret ← call os (sigprocmask g_gt_sig_ignore)
    if not (is_ok ret) then pure ret else pure gt_ok

  unfoldable pub gt_signal_phase1_func : (core_poller : Ptr) → Cmd (World Kernel) ℤ
  unfolding load_event store_event
  gt_signal_phase1_func core_poller w =
      (do
        ge ← gt_poller_gevent_create os w.pipefd_read core_poller
        if ge == 0 then pure gt_error else do
          g ← load_event ge
          store_event ge (with_read signal_ops_read g)
          ret ← gt_poller_event_start os epollin ge
          if not (is_ok ret) then pure ret else pure gt_ok)
        w
