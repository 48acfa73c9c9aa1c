-- ===== src/Boot/Registered.antt =====
-- What the calls of `gt_init_system` of user/core/main.c leave in the table of the phases.
use guitar_tea.Common.{
  ℕ, ◌≡◌, refl, Bool, true, false, not, Option, none, some, List, [], ◌∷◌, if◌then◌else◌,
}
use guitar_tea.Common.State.{Cmd, Ensures, Ensures-bind, pure, ◌>>=◌}
use guitar_tea.Common.Int.{ℤ, gt_ok, is_ok}
use guitar_tea.Phase.{Core, PhaseTable, no_phases, set_fn, phase_1, cmod_signal, gt_phase_register}
use guitar_tea.Phase.Order.{schedule, row, registered}
use guitar_tea.Os.{
  Os, World, call, Call, sigaction, sigprocmask, fcntl_getfl, fcntl_setfl, fcntl_getfd, fcntl_setfd,
  socketpair,
}
use guitar_tea.Network.{
  int_or, o_nonblock, fd_cloexec, gt_create_pipefd, gt_set_nonblock, gt_set_cloexec,
}
use guitar_tea.Signal.{
  register_loop, gt_add_signal_handler, gt_signal_create_pipefd, gt_signal_register_core,
  gt_signal_register_custom, gt_signal_register_ignore, set_pipefd, close_pipefd, g_gt_sig_core,
  g_gt_sig_custom, g_gt_sig_ignore,
}
use guitar_tea.Boot.{
  PhaseFn, gt_core_phase0, gt_signal_phase1, gt_network_phase1, gt_network_phase2, in_world,
  put_world, gt_core_init, gt_signal_handle_phase, gt_network_init, gt_signals_init, init_modules,
}

-- The command never faults.
abbrev Total : {S A : Type 0} → Cmd S A → Type 0
Total {S} c = (s : S) → Ensures (c s) (λ a t. Unit {0})

Total-bind :
    {S A B : Type 0} (c : Cmd S A) (f : A → Cmd S B)
    → Total c
    → ((a : A) → Total (f a))
    → Total (c >>= f)
Total-bind c f total next s =
    Ensures-bind (λ a t. Unit {0}) (λ a t. Unit {0}) (c s) f (total s) (λ a t _. next a t)

Total-if :
    {S A : Type 0} (b : Bool) (c d : Cmd S A) → Total c → Total d → Total (if b then c else d)
Total-if true c d total _ = total
Total-if false c d _ total = total

-- `if (GT_OK != ret) return ret; return GT_OK;` after a command.
Total-ret :
    {S : Type 0} (c : Cmd S ℤ)
    → Total c
    → Total (c >>= (λ ret. if not (is_ok ret) then pure ret else pure gt_ok))
Total-ret c total =
    Total-bind c _ total
      (λ ret. Total-if (not (is_ok ret)) (pure ret) (pure gt_ok) (λ s. tt) (λ s. tt))

module _ (os : Os) where
  call-Total : (c : Call) → Total (call os c)
  unfolding call
  call-Total c w = tt

  socketpair-Total : Total (socketpair os)
  unfolding socketpair
  socketpair-Total w = tt

  set_pipefd-Total : (fd0 fd1 : ℤ) → Total (set_pipefd os fd0 fd1)
  unfolding set_pipefd
  set_pipefd-Total fd0 fd1 w = tt

  register_loop-Total : (sigs : List ℕ) → Total (register_loop os sigs)
  unfolding register_loop gt_add_signal_handler
  register_loop-Total [] = λ w. tt
  register_loop-Total (sig ∷ sigs) =
      Total-bind (gt_add_signal_handler os sig) _
        (Total-ret (call os (sigaction sig)) (call-Total (sigaction sig)))
        (λ ret.
          Total-if (not (is_ok ret)) (pure ret) (register_loop os sigs) (λ s. tt)
            (register_loop-Total sigs))

  gt_set_nonblock-Total : (fd : ℤ) → Total (gt_set_nonblock os fd)
  unfolding gt_set_nonblock
  gt_set_nonblock-Total fd =
      Total-bind (call os (fcntl_getfl fd)) _ (call-Total (fcntl_getfl fd)) (λ flag.
        Total-ret (call os (fcntl_setfl fd (int_or flag o_nonblock)))
          (call-Total (fcntl_setfl fd (int_or flag o_nonblock))))

  gt_set_cloexec-Total : (fd : ℤ) → Total (gt_set_cloexec os fd)
  unfolding gt_set_cloexec
  gt_set_cloexec-Total fd =
      Total-bind (call os (fcntl_getfd fd)) _ (call-Total (fcntl_getfd fd)) (λ flag.
        Total-ret (call os (fcntl_setfd fd (int_or flag fd_cloexec)))
          (call-Total (fcntl_setfd fd (int_or flag fd_cloexec))))

  close_pipefd-Total : (fd0 fd1 ret : ℤ) → Total (close_pipefd os fd0 fd1 ret)
  unfolding close_pipefd call
  close_pipefd-Total fd0 fd1 ret w = tt

  gt_create_pipefd-Total : Total (gt_create_pipefd os)
  unfolding gt_create_pipefd
  gt_create_pipefd-Total = Total-bind (socketpair os) _ socketpair-Total (λ (ret, fd0, fd1).
      Total-if (not (is_ok ret)) (pure (ret, fd0, fd1)) (pure (gt_ok, fd0, fd1)) (λ s. tt)
        (λ s. tt))

  gt_signal_create_pipefd-Total : Total (gt_signal_create_pipefd os)
  unfolding gt_signal_create_pipefd
  gt_signal_create_pipefd-Total =
      Total-bind (gt_create_pipefd os) _ gt_create_pipefd-Total (λ (ret, fd0, fd1).
        Total-if (not (is_ok ret)) (pure ret) _ (λ s. tt)
          (Total-bind (set_pipefd os fd0 fd1) _ (set_pipefd-Total fd0 fd1) (λ _.
            (Total-bind (gt_set_nonblock os fd1) _ (gt_set_nonblock-Total fd1) (λ nonblock.
              Total-if (not (is_ok nonblock)) (close_pipefd os fd0 fd1 nonblock) _
                (close_pipefd-Total fd0 fd1 nonblock)
                (Total-bind (gt_set_cloexec os fd1) _ (gt_set_cloexec-Total fd1) (λ cloexec.
                  Total-if (not (is_ok cloexec)) (close_pipefd os fd0 fd1 cloexec) (pure gt_ok)
                    (close_pipefd-Total fd0 fd1 cloexec) (λ s. tt))))))))

  gt_signal_register_ignore-Total : Total (gt_signal_register_ignore os)
  unfolding gt_signal_register_ignore
  gt_signal_register_ignore-Total =
      Total-ret (call os (sigprocmask g_gt_sig_ignore)) (call-Total (sigprocmask g_gt_sig_ignore))

-- Such a command leaves the table of the phases alone.
abbrev Table : {W A : Type 0} → PhaseTable PhaseFn → A → Core PhaseFn W → Type 0
Table t _ s = s.table ≡ t

put_world-Table :
    {W A : Type 0} (o : Option (A × W)) (t : PhaseTable PhaseFn) (s : Core PhaseFn W)
    → Ensures o (λ a w. Unit {0})
    → s.table ≡ t
    → Ensures (put_world o s) (Table t)
put_world-Table none t s absent e = absurd absent
put_world-Table (some (a, w)) t s _ e = e

after :
    {W A : Type 0} (c : Cmd W A) (s : Core PhaseFn W)
    → Total c
    → s.table ≡ no_phases
    → Ensures (in_world c s) (Table no_phases)
unfolding in_world
after c s total e = put_world-Table (c s.world) no_phases s (total s.world) e

-- The functions that the modules have registered, from an empty table.
abbrev pub Booted : {W : Type 0} → ℤ → Core PhaseFn W → Type 0
Booted ret s =
    (ret ≡ gt_ok)
    × (schedule s.table
        ≡ gt_core_phase0 ∷ gt_signal_phase1 ∷ gt_network_phase1 ∷ gt_network_phase2 ∷ [])

-- The table once `gt_signals_init` is done.
abbrev with_signals : PhaseTable PhaseFn
with_signals = set_fn no_phases phase_1 cmod_signal (some gt_signal_phase1)

abbrev Signalled : {W : Type 0} → ℤ → Core PhaseFn W → Type 0
Signalled ret s = (ret ≡ gt_ok) × (s.table ≡ with_signals)

module _ (os : Os) where
  handle_phase-Signalled :
      (s : Core PhaseFn (World os.Kernel))
      → s.table ≡ no_phases
      → Ensures (gt_signal_handle_phase s) Signalled
  unfolding gt_signal_handle_phase gt_phase_register
  handle_phase-Signalled s e = rw e (refl, refl)

  gt_signals_init-Signalled :
      (s : Core PhaseFn (World os.Kernel))
      → s.table ≡ no_phases
      → Ensures (gt_signals_init os s) Signalled
  unfolding gt_signals_init gt_signal_register_custom gt_signal_register_core
  gt_signals_init-Signalled s e =
      let P = Table {W = World os.Kernel} {A = ℤ} no_phases in
      Ensures-bind P Signalled (in_world (gt_signal_create_pipefd os) s) _
        (after (gt_signal_create_pipefd os) s (gt_signal_create_pipefd-Total os) e)
        (λ _ s1 e1.
          Ensures-bind P Signalled (in_world (gt_signal_register_custom os) s1) _
            (after (gt_signal_register_custom os) s1 (register_loop-Total os g_gt_sig_custom) e1)
            (λ _ s2 e2.
              Ensures-bind P Signalled (in_world (gt_signal_register_core os) s2) _
                (after (gt_signal_register_core os) s2 (register_loop-Total os g_gt_sig_core) e2)
                (λ _ s3 e3.
                  Ensures-bind P Signalled (in_world (gt_signal_register_ignore os) s3) _
                    (after (gt_signal_register_ignore os) s3 (gt_signal_register_ignore-Total os)
                      e3)
                    (λ _ s4 e4.
                      Ensures-bind Signalled Signalled (gt_signal_handle_phase s4) _
                        (handle_phase-Signalled s4 e4) (λ _ s5 f. (refl, f.1))))))

  -- Started with an empty table, and whatever the kernel answers, the calls from gt_signals_init
  -- to gt_network_init return GT_OK without a fault, and the functions that gt_phase_run will call
  -- are those of the core, of the signals, and the two of the network, in this order.
  pub init_modules-Booted :
      (w : World os.Kernel)
      → Ensures (init_modules os (record { table = no_phases; world = w })) Booted
  unfolding init_modules gt_core_init gt_network_init gt_phase_register schedule row registered
  init_modules-Booted w =
      let s : Core PhaseFn (World os.Kernel) = record { table = no_phases; world = w } in
      Ensures-bind Signalled Booted (gt_signals_init os s) _ (gt_signals_init-Signalled s refl)
        (λ ret t e. rw (e.0, e.1) (refl, refl))
