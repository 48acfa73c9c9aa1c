-- ===== src/Main/Sequence.antt =====
-- What `gt_init_system` of user/core/main.c does, as one sequence of calls: the registration of the
-- modules, the table of the phases and its run are gone.
use guitar_tea.Common.{◌≡◌, refl, ◌∙◌, some}
use guitar_tea.Common.State.{Cmd, and_then, pure, ◌>>=◌}
use guitar_tea.Common.Int.{ℤ, gt_ok}
use guitar_tea.Log.{gt_log_init}
use guitar_tea.Phase.{
  phase_0, phase_1, phase_2, cmod_core, cmod_signal, cmod_network, Core, PhaseTable, no_phases,
  set_fn, gt_phase_register,
}
use guitar_tea.Phase.Order.{schedule, row, registered}
use guitar_tea.Os.{Os, World, call, open_log, sleep}
use guitar_tea.Signal.{
  gt_signal_create_pipefd, gt_signal_register_core, gt_signal_register_custom,
  gt_signal_register_ignore, gt_signal_phase1_func,
}
use guitar_tea.Network.{gt_network_phase1_func}
use guitar_tea.Worker.{gt_create_pthread, gt_wakeup_pthread, gt_network_phase2_func}
use guitar_tea.Boot.{
  PhaseFn, gt_core_phase0, gt_signal_phase1, gt_network_phase1, gt_network_phase2, or_return,
  in_world, gt_core_phase0_func, gt_signals_init, gt_core_init, gt_signal_handle_phase,
  gt_network_init,
}
use guitar_tea.Main.{Server, Places, run_phase, phase_run, gt_init_system}
use guitar_tea.Main.Embedded.{world_of, in_world-bind, in_world-nested, or_return-world}
use guitar_tea.Main.Phases.{run_each, then_phases, phase_run-in_world, run_each-then}

module _ (os : Os) (at : Places) (server : Server) where
  open os use {Kernel}

  -- The calls of `gt_init_system`, each but those of gt_signals_init up to the first that does not
  -- return GT_OK.
  unfoldable pub boot_sequence : Cmd (World Kernel) ℤ
  boot_sequence = do
    log ← call os open_log
    or_return (gt_log_init log).0 (do
      _ ← gt_signal_create_pipefd os
      _ ← gt_signal_register_custom os
      _ ← gt_signal_register_core os
      _ ← gt_signal_register_ignore os
      pthread ← gt_create_pthread os at.business
      or_return pthread (do
        core ← gt_core_phase0_func os at.core_poller
        or_return core (do
          signal ← gt_signal_phase1_func os at.core_poller
          or_return signal (do
            network ← gt_network_phase1_func os at.network_poller at.data_of server.ip server.port
            or_return network (do
              datanet ← gt_network_phase2_func os at.datanet
              or_return datanet (do
                _ ← call os (sleep 2)
                wakeup ← gt_wakeup_pthread os
                or_return wakeup (pure gt_ok)))))))

module _ (os : Os) (at : Places) (server : Server) where
  open os use {Kernel}

  -- The table once the modules have registered.
  abbrev booted : PhaseTable PhaseFn
  booted =
      set_fn
        (set_fn
          (set_fn (set_fn no_phases phase_1 cmod_signal (some gt_signal_phase1)) phase_0 cmod_core
            (some gt_core_phase0))
          phase_1 cmod_network (some gt_network_phase1))
        phase_2 cmod_network (some gt_network_phase2)

  abbrev wake : Cmd (World Kernel) ℤ
  wake = do _ ← call os (sleep 2); wakeup ← gt_wakeup_pthread os; or_return wakeup (pure gt_ok)

  abbrev wake_in : Cmd (Core PhaseFn (World Kernel)) ℤ
  wake_in = do
    _ ← in_world (call os (sleep 2))
    wakeup ← in_world (gt_wakeup_pthread os)
    or_return wakeup (pure gt_ok)

  wake-world :
      (t : PhaseTable PhaseFn) (w : World Kernel)
      → world_of (wake_in (record { table = t; world = w })) ≡ wake w
  wake-world t w = in_world-bind (call os (sleep 2)) _ _ t w (λ _ v.
      in_world-bind (gt_wakeup_pthread os) _ _ t v
        (λ ret u. or_return-world ret (pure gt_ok) (pure gt_ok) t u refl))

  -- From the run of the phases on.
  phases-world :
      (w : World Kernel)
      → world_of (
          (phase_run os at server >>= (λ phase. or_return phase wake_in))
            (record { table = booted; world = w }))
        ≡ then_phases os at server (schedule booted) wake w
  phases-world w = rw (phase_run-in_world os at server booted w) (
      in_world-bind (run_each os at server (schedule booted)) (λ phase. or_return phase wake_in)
        (λ phase. or_return phase wake) booted w
        (λ phase v. or_return-world phase wake_in wake booted v (wake-world booted v))
      ∙ run_each-then os at server (schedule booted) wake w)

  -- From the creation of the threads on.
  threads-world :
      (w : World Kernel)
      → world_of (
          (do
            pthread ← in_world (gt_create_pthread os at.business)
            or_return pthread (phase_run os at server >>= (λ phase. or_return phase wake_in)))
            (record { table = booted; world = w }))
        ≡ (do
          pthread ← gt_create_pthread os at.business
          or_return pthread (then_phases os at server (schedule booted) wake))
            w
  threads-world w = in_world-bind (gt_create_pthread os at.business) _ _ booted w (λ ret v.
      or_return-world ret _ (then_phases os at server (schedule booted) wake) booted v
        (phases-world v))

  -- The remainders of `gt_signals_init` after its first calls, and what follows it.
  abbrev from_ignore : Cmd (Core PhaseFn (World Kernel)) ℤ
  from_ignore = do
    _ ← in_world (gt_signal_register_ignore os)
    _ ← gt_signal_handle_phase
    pure gt_ok

  abbrev from_core : Cmd (Core PhaseFn (World Kernel)) ℤ
  from_core = do _ ← in_world (gt_signal_register_core os); from_ignore

  abbrev from_custom : Cmd (Core PhaseFn (World Kernel)) ℤ
  from_custom = do _ ← in_world (gt_signal_register_custom os); from_core

  abbrev after_signals : ℤ → Cmd (Core PhaseFn (World Kernel)) ℤ
  after_signals signals = or_return signals (do
    core ← gt_core_init
    or_return core (do
      network ← gt_network_init
      or_return network (do
        pthread ← in_world (gt_create_pthread os at.business)
        or_return pthread (phase_run os at server >>= (λ phase. or_return phase wake_in)))))

  abbrev threads : Cmd (World Kernel) ℤ
  threads = do
    pthread ← gt_create_pthread os at.business
    or_return pthread (then_phases os at server (schedule booted) wake)

  abbrev signals_and_threads : Cmd (World Kernel) ℤ
  signals_and_threads = do
    _ ← gt_signal_create_pipefd os
    _ ← gt_signal_register_custom os
    _ ← gt_signal_register_core os
    _ ← gt_signal_register_ignore os
    threads

  -- The registrations make the table `booted`.
  registered-world :
      (w : World Kernel)
      → world_of (
          and_then
            ((gt_signal_handle_phase >>= (λ _. pure gt_ok))
              (record { table = no_phases; world = w }))
            after_signals)
        ≡ threads w
  unfolding gt_signal_handle_phase gt_core_init gt_network_init gt_phase_register
  registered-world w = threads-world w

  signals-world :
      (w : World Kernel)
      → world_of
          (and_then (gt_signals_init os (record { table = no_phases; world = w })) after_signals)
        ≡ signals_and_threads w
  unfolding gt_signals_init
  signals-world w =
      in_world-nested (gt_signal_create_pipefd os) (λ _. from_custom) after_signals _ no_phases w
        (λ _ w2.
          in_world-nested (gt_signal_register_custom os) (λ _. from_core) after_signals _ no_phases
            w2
            (λ _ w3.
              in_world-nested (gt_signal_register_core os) (λ _. from_ignore) after_signals _
                no_phases w3
                (λ _ w4.
                  in_world-nested (gt_signal_register_ignore os)
                    (λ _. gt_signal_handle_phase >>= (λ _. pure gt_ok)) after_signals _ no_phases w4
                    (λ _ w5. registered-world w5))))

  -- Started with an empty table, gt_init_system opens the log, calls the functions of gt_signals_init
  -- whatever they return, creates the threads, runs the functions of the phases of the core, of the
  -- signals, and the two of the network, waits, and wakes the threads up, in this order and up to the
  -- first that does not return GT_OK; it returns what that one returned, or GT_OK, and faults where
  -- one of them does.
  pub gt_init_system-boot_sequence :
      (w : World Kernel)
      → world_of (gt_init_system os at server (record { table = no_phases; world = w }))
        ≡ boot_sequence os at server w
  unfolding gt_init_system boot_sequence then_phases run_phase schedule row registered
  gt_init_system-boot_sequence w =
      in_world-bind (call os open_log)
        (λ log. or_return (gt_log_init log).0 (gt_signals_init os >>= after_signals)) _ no_phases w
        (λ log w1.
          or_return-world (gt_log_init log).0 (gt_signals_init os >>= after_signals)
            signals_and_threads no_phases w1 (signals-world w1))
