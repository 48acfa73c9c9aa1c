-- ===== src/Boot.antt =====
-- The part of `gt_init_system` of user/core/main.c that the modules of the core take part in:
-- gt_signals_init (user/core/gt_signal.c), gt_core_init (user/core/gt_core.c) and gt_network_init
-- (user/core/gt_network.c), which register their functions for the phases.
pub mod Registered
use guitar_tea.Common.{ℕ, not, Option, none, some, if◌then◌else◌}
use guitar_tea.Common.State.{Cmd, pure, ◌>>=◌, ◌>>◌}
use guitar_tea.Common.Int.{ℤ, gt_ok, is_ok}
use guitar_tea.Dlist.{Ptr}
use guitar_tea.Phase.{
  Core, cmod_core, cmod_network, cmod_signal, phase_0, phase_1, phase_2, gt_phase_register,
}
use guitar_tea.Os.{Os, World, ReadFn, signal_ops_read, network_ops_read, datanet_ops_read}
use guitar_tea.Poller.{gt_poller_init}
use guitar_tea.Network.{gt_network_ops_read, gt_datanet_ops_read}
use guitar_tea.Signal.{
  gt_signal_ops_read, gt_signal_create_pipefd, gt_signal_register_core, gt_signal_register_custom,
  gt_signal_register_ignore,
}

abbrev pub core_maxevent : ℕ
core_maxevent = 32

abbrev pub core_epwait_timeout : ℕ
core_epwait_timeout = 50

-- The functions of type `phase_fn` that the program has.
pub data PhaseFn : Type 0 where
  gt_core_phase0 gt_signal_phase1 gt_network_phase1 gt_network_phase2 : PhaseFn

-- `if (GT_OK != ret) return ret;` between two calls.
abbrev pub or_return : {S : Type 0} → ℤ → Cmd S ℤ → Cmd S ℤ
or_return ret rest = if not (is_ok ret) then pure ret else rest

module _ {W : Type 0} where
  unfoldable pub gt_core_init : Cmd (Core PhaseFn W) ℤ
  gt_core_init = do
    ret ← gt_phase_register cmod_core phase_0 (some gt_core_phase0)
    or_return ret (pure gt_ok)

  unfoldable pub gt_signal_handle_phase : Cmd (Core PhaseFn W) ℤ
  gt_signal_handle_phase = do
    ret ← gt_phase_register cmod_signal phase_1 (some gt_signal_phase1)
    or_return ret (pure gt_ok)

  unfoldable pub gt_network_init : Cmd (Core PhaseFn W) ℤ
  gt_network_init = do
    ret ← gt_phase_register cmod_network phase_1 (some gt_network_phase1)
    or_return ret (do
      ret' ← gt_phase_register cmod_network phase_2 (some gt_network_phase2)
      or_return ret' (pure gt_ok))

  abbrev pub put_world : {A : Type 0} → Option (A × W) → Cmd (Core PhaseFn W) A
  put_world none s = none
  put_world (some (a, w)) s = some (a, record s { world = w })

  -- A function that leaves the table of the phases alone.
  unfoldable pub in_world : {A : Type 0} → Cmd W A → Cmd (Core PhaseFn W) A
  in_world c s = put_world (c s.world) s

module _ (os : Os) where
  open os use {Kernel}

  unfoldable pub gt_core_phase0_func : (core_poller : Ptr) → Cmd (World Kernel) ℤ
  gt_core_phase0_func core_poller = do
    ret ← gt_poller_init os core_maxevent core_epwait_timeout core_poller
    or_return ret (pure gt_ok)

  -- The results of the calls are dropped.
  unfoldable pub gt_signals_init : Cmd (Core PhaseFn (World Kernel)) ℤ
  unfolding in_world
  gt_signals_init = do
    _ ← in_world (gt_signal_create_pipefd os)
    _ ← in_world (gt_signal_register_custom os)
    _ ← in_world (gt_signal_register_core os)
    _ ← in_world (gt_signal_register_ignore os)
    _ ← gt_signal_handle_phase
    pure gt_ok

  -- From `gt_signals_init` to `gt_network_init`.
  unfoldable pub init_modules : Cmd (Core PhaseFn (World Kernel)) ℤ
  init_modules = do
    signals ← gt_signals_init
    or_return signals (do
      core ← gt_core_init
      or_return core (do network ← gt_network_init; or_return network (pure gt_ok)))

  -- The calls through `ge->ops.read` and `ge->ops.write`; `stack` is what the uninitialised
  -- variable of `gt_signal_ops_read` holds.
  abbrev pub run_ops :
      (network_poller : Ptr) (data_of : ℕ → Ptr) (stack : ℕ) → ReadFn → Ptr → Cmd (World Kernel) ℤ
  run_ops network_poller data_of stack signal_ops_read ge = gt_signal_ops_read os stack ge
  run_ops network_poller data_of stack network_ops_read ge =
      gt_network_ops_read os network_poller data_of ge
  run_ops network_poller data_of stack datanet_ops_read ge = gt_datanet_ops_read os ge
