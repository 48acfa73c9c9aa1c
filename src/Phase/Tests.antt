-- ===== src/Phase/Tests.antt =====
-- A table with three functions, and the theorems about user/core/gt_core.c at it.
use mathlib.Core.List.{map}
use guitar_tea.Common.{ℕ, ◌≡◌, refl, true, false, some, List, [], ◌∷◌, arith, ◌==◌, if◌then◌else◌}
use guitar_tea.Common.State.{Ensures}
use guitar_tea.Common.Int.{ℤ, gt_ok, gt_error, is_ok}
use guitar_tea.Phase.{Core, no_phases, set_fn, gt_phase_run, phase_loop, cmod_loop, run_fn}
use guitar_tea.Phase.Order.{run_until, schedule, gt_phase_run-schedule}
use guitar_tea.Phase.Table.{
  Registration, register_all, first_come, first_registered, register_all-first_registered,
}

-- Functions are numbers; each writes its number, and 9 fails.
abbrev log_call : ℕ → Core ℕ (List ℕ) → ℤ × Core ℕ (List ℕ)
log_call fn s = (if fn == 9 then gt_error else gt_ok, record s { world = fn ∷ s.world })

abbrev three : Core ℕ (List ℕ)
three = record {
  table = set_fn (set_fn (set_fn no_phases 2 4 (some 7)) 1 4 (some 6)) 1 2 (some 5);
  world = [];
}

three-schedule : schedule three.table ≡ 5 ∷ 6 ∷ 7 ∷ []
unfolding schedule
three-schedule = refl

three_run : (gt_phase_run log_call three).1.world ≡ 7 ∷ 6 ∷ 5 ∷ []
unfolding gt_phase_run phase_loop cmod_loop run_fn
three_run = refl

gt_phase_run-schedule_example :
    gt_phase_run log_call three ≡ run_until log_call (schedule three.table) three
gt_phase_run-schedule_example = gt_phase_run-schedule log_call (λ fn s. refl) three

abbrev empty : Core ℕ (List ℕ)
empty = record { table = no_phases; world = [] }

-- Three registrations for two slots; the third finds its slot taken.
abbrev some_registrations : List (Registration ℕ)
some_registrations =
    record { cmod = 2; gphase = 1; fn = some 5 }
    ∷ record { cmod = 5; gphase = 3; fn = some 6 }
    ∷ record { cmod = 2; gphase = 1; fn = some 7 }
    ∷ []

third_refused : first_come [] some_registrations ≡ true ∷ true ∷ false ∷ []
unfolding first_come
third_refused = refl

first_kept : first_registered some_registrations 1 2 ≡ some 5
unfolding first_registered
first_kept = refl

register_all-first_registered_example : Ensures (register_all some_registrations empty) (λ rets t.
    (map is_ok rets ≡ first_come [] some_registrations)
    × (t.world ≡ [])
    × ((p c : ℕ) → t.table p c ≡ first_registered some_registrations p c))
register_all-first_registered_example =
    register_all-first_registered some_registrations empty refl
      (omega arith, omega arith, (omega arith, omega arith, (omega arith, omega arith, tt)))
