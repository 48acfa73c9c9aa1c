-- ===== src/Main.antt =====
-- user/core/main.c is the program: the parameters, the daemon, the start of the system, and the main
-- loop. `gt_init_system` runs the parts of Boot.antt and Worker.antt and the table of Phase.antt.
pub mod Embedded
pub mod Phases
pub mod Sequence
pub mod Daemon
pub mod Rounds
mod Tests
use guitar_tea.Common.{ℕ, zero, suc, ◌-◌, ◌%◌, ◌^◌, not, Option, none, some, ltb, if◌then◌else◌}
use guitar_tea.Common.State.{Cmd, pure, ◌>>=◌, ◌>>◌}
use guitar_tea.Common.Int.{ℤ, pos, negsuc, gt_ok, gt_error, is_ok, is_neg}
use guitar_tea.Dlist.{Ptr}
use guitar_tea.Log.{gt_log_init}
use guitar_tea.Phase.{Core, gt_phase_run}
use guitar_tea.Os.{
  Os, World, call, open_log, open_null, fork, setsid, umask, chdir_root, dup2, sleep, close,
}
use guitar_tea.Poller.{gt_poller_epoll_wait}
use guitar_tea.Network.{gt_network_phase1_func}
use guitar_tea.Signal.{gt_signal_phase1_func}
use guitar_tea.Worker.{gt_create_pthread, gt_wakeup_pthread, gt_network_phase2_func}
use guitar_tea.Boot.{
  PhaseFn, gt_core_phase0, gt_signal_phase1, gt_network_phase1, gt_network_phase2, or_return,
  in_world, gt_core_phase0_func, gt_signals_init, gt_core_init, gt_network_init, run_ops,
}

-- `g_gt_server_ip` and `g_gt_server_port`.
pub record Server : Type 0 where
  pub ip : ℕ
  pub port : ℕ

-- Where the global objects stand: the pollers, the tables of threads, and the poller of each datanet
-- thread.
pub record Places : Type 0 where
  pub core_poller : Ptr
  pub network_poller : Ptr
  pub data_of : ℕ → Ptr
  pub business : Ptr
  pub datanet : Ptr

-- An `int` that becomes a `uint16_t`.
abbrev pub uint16_of : ℤ → ℕ
uint16_of (pos n) = n % 2 ^ 16
uint16_of (negsuc n) = 2 ^ 16 - 1 - n % 2 ^ 16

-- `argc` is the number of arguments; `inet_aton` gives the address in the byte order of the machine,
-- where the text is one, and `atoi` a number: both are what the library makes of the arguments.
unfoldable pub gt_parse_parameters :
    (argc : ℕ) (inet_aton : Option ℕ) (atoi : ℤ) → Server → ℤ × Server
gt_parse_parameters argc none atoi s = (gt_error, s)
gt_parse_parameters argc (some addr) atoi s =
    if ltb argc 3 then (gt_error, s) else (gt_ok, record { ip = addr; port = uint16_of atoi })

-- A function returns, the process ends by `_exit(0)`, or it has run so many rounds of its main loop.
pub data Outcome : Type 0 where
  returns : ℤ → Outcome
  exits looping : Outcome

-- What `fork` returns: in the parent, which exits, in the child, or on failure.
abbrev pub after_fork : {S : Type 0} → ℤ → Cmd S Outcome → Cmd S Outcome
after_fork (pos (suc pid)) child = pure exits
after_fork (negsuc n) child = pure (returns gt_error)
after_fork (pos zero) child = child

module _ (os : Os) where
  open os use {Kernel}

  -- From the second child on.
  unfoldable pub detach : Cmd (World Kernel) Outcome
  unfolding call
  detach = do
    _ ← call os chdir_root
    _ ← call os (close (pos 0))
    _ ← call os (close (pos 1))
    _ ← call os (close (pos 2))
    fd0 ← call os open_null
    _ ← call os (dup2 fd0 (pos 1))
    _ ← call os (dup2 fd0 (pos 2))
    pure (returns gt_ok)

  unfoldable pub gt_daemonize_process : Cmd (World Kernel) Outcome
  unfolding call
  gt_daemonize_process = do
    _ ← call os (umask 0)
    pid ← call os fork
    after_fork pid (do _ ← call os setsid; pid' ← call os fork; after_fork pid' detach)

  module _ (at : Places) (server : Server) where
    unfoldable pub run_phase : PhaseFn → Cmd (World Kernel) ℤ
    run_phase gt_core_phase0 = gt_core_phase0_func os at.core_poller
    run_phase gt_signal_phase1 = gt_signal_phase1_func os at.core_poller
    run_phase gt_network_phase1 =
        gt_network_phase1_func os at.network_poller at.data_of server.ip server.port
    run_phase gt_network_phase2 = gt_network_phase2_func os at.datanet

    -- The call of a registered function by `gt_phase_run`. A fault leaves no process behind, and
    -- ends the run.
    abbrev pub outcome : Option (ℤ × World Kernel) → ℤ × Option (World Kernel)
    outcome none = (gt_error, none)
    outcome (some (ret, w)) = (ret, some w)

    abbrev pub run_in : Option (World Kernel) → PhaseFn → ℤ × Option (World Kernel)
    run_in none fn = (gt_error, none)
    run_in (some w) fn = outcome (run_phase fn w)

    unfoldable pub call_phase :
        PhaseFn → Core PhaseFn (Option (World Kernel)) → ℤ × Core PhaseFn (Option (World Kernel))
    call_phase fn s = let (ret, w) = run_in s.world fn in (ret, record s { world = w })

    abbrev pub still_there : ℤ → Option (World Kernel) → Cmd (Core PhaseFn (World Kernel)) ℤ
    still_there ret none s = none
    still_there ret (some w) s = some (ret, record s { world = w })

    -- `gt_phase_run` over the functions of the program.
    unfoldable pub phase_run : Cmd (Core PhaseFn (World Kernel)) ℤ
    unfolding call_phase
    phase_run s =
        let (ret, t) = gt_phase_run call_phase (record { table = s.table; world = some s.world }) in
        still_there ret t.world (record s { table = t.table })

    unfoldable pub gt_init_system : Cmd (Core PhaseFn (World Kernel)) ℤ
    unfolding call
    gt_init_system = do
      log ← in_world (call os open_log)
      or_return (gt_log_init log).0 (do
        signals ← gt_signals_init os
        or_return signals (do
          core ← gt_core_init
          or_return core (do
            network ← gt_network_init
            or_return network (do
              pthread ← in_world (gt_create_pthread os at.business)
              or_return pthread (do
                phase ← phase_run
                or_return phase (do
                  _ ← in_world (call os (sleep 2))
                  wakeup ← in_world (gt_wakeup_pthread os)
                  or_return wakeup (pure gt_ok)))))))

    -- `rounds` rounds of the endless loop of `gt_do_run`; `stack` is as in `run_ops`.
    unfoldable pub gt_do_run : (stack rounds : ℕ) → Cmd (World Kernel) (Unit {0})
    gt_do_run stack zero = pure tt
    gt_do_run stack (suc rounds) = do
      gt_poller_epoll_wait os (run_ops os at.network_poller at.data_of stack) at.core_poller
      gt_do_run stack rounds

    -- `main` once the parameters are parsed and the process is a daemon.
    unfoldable pub start_system : (stack rounds : ℕ) → Cmd (Core PhaseFn (World Kernel)) Outcome
    start_system stack rounds = do
      ret ← gt_init_system
      if not (is_ok ret)
          then pure (returns ret)
          else do in_world (gt_do_run stack rounds); pure looping

    abbrev pub after_daemonize :
        Outcome
        → Cmd (Core PhaseFn (World Kernel)) Outcome
        → Cmd (Core PhaseFn (World Kernel)) Outcome
    after_daemonize exits rest = pure exits
    after_daemonize looping rest = pure looping
    after_daemonize (returns ret) rest = if not (is_ok ret) then pure (returns ret) else rest

  -- `stack` and `rounds` are as in `gt_do_run`.
  unfoldable pub main :
      Places
      → (argc : ℕ) (inet_aton : Option ℕ) (atoi : ℤ) (stack rounds : ℕ) → Server
      → Cmd (Core PhaseFn (World Kernel)) Outcome
  main at argc inet_aton atoi stack rounds s =
      let (ret, server) = gt_parse_parameters argc inet_aton atoi s in
      if not (is_ok ret) then pure (returns ret) else do
        daemon ← in_world gt_daemonize_process
        after_daemonize at server daemon (start_system at server stack rounds)
