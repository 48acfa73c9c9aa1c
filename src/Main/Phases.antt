-- ===== src/Main/Phases.antt =====
-- The run of the phases by `gt_init_system` of user/core/main.c: the functions of the table, one after
-- the other.
use guitar_tea.Common.{
  ◌≡◌, refl, ap, ◌∙◌, inl, inr, Bool-cases, Option, none, some, List, [], ◌∷◌, if◌then◌else◌,
}
use guitar_tea.Common.State.{Cmd, and_then, pure, ◌>>=◌}
use guitar_tea.Common.Int.{ℤ, gt_ok, is_ok}
use guitar_tea.Phase.{Core, PhaseTable}
use guitar_tea.Phase.Order.{schedule, run_until, gt_phase_run-schedule}
use guitar_tea.Os.{Os, World}
use guitar_tea.Boot.{PhaseFn, or_return, in_world, put_world}
use guitar_tea.Main.{Server, Places, run_phase, call_phase, outcome, still_there, phase_run}

module _ (os : Os) (at : Places) (server : Server) where
  open os use {Kernel}

  -- The run of some functions, on the world.
  unfoldable pub run_each : List PhaseFn → Cmd (World Kernel) ℤ
  run_each [] = pure gt_ok
  run_each (fn ∷ fns) = do ret ← run_phase os at server fn; or_return ret (run_each fns)

  abbrev unpack :
      ℤ × Core PhaseFn (Option (World Kernel))
      → World Kernel
      → Option (ℤ × Core PhaseFn (World Kernel))
  unpack (ret, s) base =
      still_there os at server ret s.world (record { table = s.table; world = base })

  -- The functions that follow a call with this outcome.
  abbrev then_until :
      PhaseTable PhaseFn
      → List PhaseFn
      → ℤ × Option (World Kernel)
      → ℤ × Core PhaseFn (Option (World Kernel))
  then_until t fns (ret, v) =
      let s : Core PhaseFn (Option (World Kernel)) = record { table = t; world = v } in
      if is_ok ret then run_until (call_phase os at server) fns s else (ret, s)

  -- The run of functions that leave the table alone.
  unpack-run_until :
      (fns : List PhaseFn) (t : PhaseTable PhaseFn) (w base : World Kernel)
      → unpack (run_until (call_phase os at server) fns (record { table = t; world = some w })) base
        ≡ put_world (run_each fns w) (record { table = t; world = base })
  unfolding run_until run_each call_phase
  unpack-run_until [] t w base = refl
  unpack-run_until (fn ∷ fns) t w base =
      by_result (run_phase os at server fn w) (λ v. unpack-run_until fns t v base)
    where
      by_result :
          (o : Option (ℤ × World Kernel))
          → ((v : World Kernel)
              → unpack
                  (run_until (call_phase os at server) fns (record { table = t; world = some v }))
                  base
                ≡ put_world (run_each fns v) (record { table = t; world = base }))
          → unpack (then_until t fns (outcome os at server o)) base
            ≡ put_world
                (and_then o (λ ret. or_return ret (run_each fns)))
                (record { table = t; world = base })
      by_result none ih = refl
      by_result (some (ret, v)) ih = elim (Bool-cases (is_ok ret)) [
        | inl done ↦ rw done (ih v)
        | inr failed ↦ rw failed refl
      ]

  pub phase_run-in_world :
      (t : PhaseTable PhaseFn) (w : World Kernel)
      → phase_run os at server (record { table = t; world = w })
        ≡ in_world (run_each (schedule t)) (record { table = t; world = w })
  unfolding phase_run in_world call_phase
  phase_run-in_world t w =
      ap (λ r. unpack r w)
        (gt_phase_run-schedule (call_phase os at server) (λ fn s. refl)
          (record { table = t; world = some w }))
      ∙ unpack-run_until (schedule t) t w w

  -- Functions one after the other, up to the first that does not return GT_OK, and then the rest.
  unfoldable pub then_phases : List PhaseFn → Cmd (World Kernel) ℤ → Cmd (World Kernel) ℤ
  then_phases [] rest = rest
  then_phases (fn ∷ fns) rest = do
    ret ← run_phase os at server fn
    or_return ret (then_phases fns rest)

  pub run_each-then :
      (fns : List PhaseFn) (rest : Cmd (World Kernel) ℤ) (w : World Kernel)
      → (run_each fns >>= (λ phase. or_return phase rest)) w ≡ then_phases fns rest w
  unfolding run_each then_phases
  run_each-then [] rest w = refl
  run_each-then (fn ∷ fns) rest w = by_result (run_phase os at server fn w) (run_each-then fns rest)
    where
      by_result :
          (o : Option (ℤ × World Kernel))
          → ((v : World Kernel)
              → (run_each fns >>= (λ phase. or_return phase rest)) v ≡ then_phases fns rest v)
          → and_then
              (and_then o (λ ret. or_return ret (run_each fns)))
              (λ phase. or_return phase rest)
            ≡ and_then o (λ ret. or_return ret (then_phases fns rest))
      by_result none ih = refl
      by_result (some (ret, v)) ih = elim (Bool-cases (is_ok ret)) [
        | inl done ↦ rw done (ih v)
        | inr failed ↦ rw (failed, failed) refl
      ]
