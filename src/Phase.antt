-- ===== src/Phase.antt =====
-- user/core/gt_core.c, user/core/gt_core.h: the table of functions that the modules of the core
-- register, and the run of the table, phase by phase.
pub mod Order
pub mod Table
mod Tests
use guitar_tea.Common.{
  ℕ, zero, suc, ◌+◌, Bool, true, false, Option, none, some, ltb, ◌==◌, ◌&&◌, if◌then◌else◌,
}
use guitar_tea.Common.Int.{ℤ, gt_ok, gt_error, is_ok}

-- `gt_phase_e`; the last is the number of phases, `DIM(g_gt_phase)`.
abbrev pub phase_0 : ℕ
phase_0 = 0

abbrev pub phase_1 : ℕ
phase_1 = 1

abbrev pub phase_2 : ℕ
phase_2 = 2

abbrev pub phase_3 : ℕ
phase_3 = 3

abbrev pub phase_max : ℕ
phase_max = 4

-- `gt_cmod_e`.
abbrev pub cmod_core : ℕ
cmod_core = 0

abbrev pub cmod_mem : ℕ
cmod_mem = 1

abbrev pub cmod_signal : ℕ
cmod_signal = 2

abbrev pub cmod_poller : ℕ
cmod_poller = 3

abbrev pub cmod_network : ℕ
cmod_network = 4

abbrev pub cmod_pthread : ℕ
cmod_pthread = 5

abbrev pub cmod_max : ℕ
cmod_max = 6

-- `g_gt_phase[gphase].fn[cmod]`, where `none` is NULL and `Fn` are the functions of type
-- `phase_fn`.
abbrev pub PhaseTable : Type 0 → Type 0
PhaseTable Fn = (gphase cmod : ℕ) → Option Fn

abbrev pub no_phases : {Fn : Type 0} → PhaseTable Fn
no_phases gphase cmod = none

-- The table, and what else the registered functions work on.
pub record Core (Fn W : Type 0) : Type 0 where
  pub table : PhaseTable Fn
  pub world : W

abbrev pub is_some : {A : Type 0} → Option A → Bool
is_some none = false
is_some (some a) = true

abbrev pub set_fn : {Fn : Type 0} → PhaseTable Fn → (gphase cmod : ℕ) → Option Fn → PhaseTable Fn
set_fn t p c fn gphase cmod = if gphase == p && cmod == c then fn else t gphase cmod

-- A fault where an index lies outside of its array.
unfoldable pub gt_phase_register :
    {Fn W : Type 0} → (cmod gphase : ℕ) → Option Fn → Core Fn W → Option (ℤ × Core Fn W)
gt_phase_register cmod gphase fn s =
    if ltb gphase phase_max && ltb cmod cmod_max
    then if is_some (s.table gphase cmod)
      then some (gt_error, s)
      else some (gt_ok, record s { table = set_fn s.table gphase cmod fn })
    else none

-- What a part of a function does: go on, or return from it.
pub data Flow (S : Type 0) : Type 0 where
  next : S → Flow S
  return : ℤ → S → Flow S

abbrev pub then_flow : {S : Type 0} → Flow S → (S → Flow S) → Flow S
then_flow (next s) k = k s
then_flow (return ret s) k = return ret s

abbrev pub finish : {S : Type 0} → Flow S → ℤ × S
finish (next s) = (gt_ok, s)
finish (return ret s) = (ret, s)

-- `call` runs a registered function.
module _ {Fn W : Type 0} (call : Fn → Core Fn W → ℤ × Core Fn W) where
  unfoldable pub run_fn : Fn → Core Fn W → Flow (Core Fn W)
  run_fn fn s = let (ret, s') = call fn s in if is_ok ret then next s' else return ret s'

  unfoldable pub run_slot : Option Fn → Core Fn W → Flow (Core Fn W)
  run_slot none s = next s
  run_slot (some fn) s = run_fn fn s

  -- The inner and the outer loop of `gt_phase_run`, by the rounds that are left.
  unfoldable pub cmod_loop : (left phase cmod : ℕ) → Core Fn W → Flow (Core Fn W)
  unfolding run_slot
  cmod_loop zero phase cmod s = next s
  cmod_loop (suc left) phase cmod s =
      then_flow (run_slot (s.table phase cmod) s) (cmod_loop left phase (cmod + 1))

  unfoldable pub phase_loop : (left phase : ℕ) → Core Fn W → Flow (Core Fn W)
  phase_loop zero phase s = next s
  phase_loop (suc left) phase s =
      then_flow (cmod_loop cmod_max phase 0 s) (phase_loop left (phase + 1))

  unfoldable pub gt_phase_run : Core Fn W → ℤ × Core Fn W
  gt_phase_run s = finish (phase_loop phase_max 0 s)
