-- ===== src/Phase/Order.antt =====
-- The order in which `gt_phase_run` of user/core/gt_core.c calls the registered functions.
use guitar_tea.Common.{
  ℕ, zero, suc, ◌+◌, ◌≡◌, refl, sym, ap, fun_ext, ◌∙◌, inl, inr, if◌then◌else◌, Bool-cases, Option,
  none, some, List, [], ◌∷◌, ◌++◌,
}
use guitar_tea.Common.Int.{ℤ, is_ok, gt_ok}
use mathlib.Core.Path.{◌≡⟨◌⟩◌, ◌∎}
use guitar_tea.Phase.{
  PhaseTable, Core, Flow, next, return, then_flow, run_fn, run_slot, cmod_loop, phase_loop, finish,
  cmod_max, phase_max, gt_phase_run,
}

module _ {Fn : Type 0} where
  abbrev pub slot : Option Fn → List Fn
  slot none = []
  slot (some fn) = fn ∷ []

  -- The functions that the loops are to call in their last rounds.
  unfoldable cmods_from : PhaseTable Fn → (left phase cmod : ℕ) → List Fn
  cmods_from t zero phase cmod = []
  cmods_from t (suc left) phase cmod = slot (t phase cmod) ++ cmods_from t left phase (cmod + 1)

  unfoldable phases_from : PhaseTable Fn → (left phase : ℕ) → List Fn
  unfolding cmods_from
  phases_from t zero phase = []
  phases_from t (suc left) phase = cmods_from t cmod_max phase 0 ++ phases_from t left (phase + 1)

  unfoldable pub registered : List (Option Fn) → List Fn
  registered [] = []
  registered (o ∷ os) = slot o ++ registered os

  -- The functions of the six modules in one phase, and those of the four phases.
  unfoldable pub row : PhaseTable Fn → (phase : ℕ) → List Fn
  unfolding registered
  row t p = registered (t p 0 ∷ t p 1 ∷ t p 2 ∷ t p 3 ∷ t p 4 ∷ t p 5 ∷ [])

  unfoldable pub schedule : PhaseTable Fn → List Fn
  unfolding row
  schedule t = row t 0 ++ (row t 1 ++ (row t 2 ++ (row t 3 ++ [])))

  phases_from-schedule : (t : PhaseTable Fn) → phases_from t phase_max 0 ≡ schedule t
  unfolding phases_from cmods_from schedule row registered
  phases_from-schedule t = refl

then_flow_assoc :
    {S : Type 0} (f : Flow S) (k l : S → Flow S)
    → then_flow (then_flow f k) l ≡ then_flow f (λ s. then_flow (k s) l)
then_flow_assoc (next s) k l = refl
then_flow_assoc (return ret s) k l = refl

then_flow-next : {S : Type 0} (f : Flow S) → then_flow f next ≡ f
then_flow-next (next s) = refl
then_flow-next (return ret s) = refl

module _ {Fn W : Type 0} (call : Fn → Core Fn W → ℤ × Core Fn W) where
  -- The functions of a list one after the other, up to the first that does not return GT_OK.
  unfoldable run_all : List Fn → Core Fn W → Flow (Core Fn W)
  run_all [] s = next s
  run_all (fn ∷ fns) s = then_flow (run_fn call fn s) (run_all fns)

  run_all-append :
      (xs ys : List Fn) (s : Core Fn W)
      → run_all (xs ++ ys) s ≡ then_flow (run_all xs s) (run_all ys)
  unfolding run_all
  run_all-append [] ys s = refl
  run_all-append (x ∷ xs) ys s =
      ap (then_flow (run_fn call x s)) (fun_ext (run_all-append xs ys))
      ∙ sym (then_flow_assoc (run_fn call x s) (run_all xs) (run_all ys))

  run_all-slot : (o : Option Fn) (s : Core Fn W) → run_all (slot o) s ≡ run_slot call o s
  unfolding run_all run_slot
  run_all-slot none s = refl
  run_all-slot (some fn) s = then_flow-next (run_fn call fn s)

  module _ (t : PhaseTable Fn)
      (keeps : (fn : Fn) (s : Core Fn W) → (call fn s).1.table ≡ s.table) where
    Keeps : Flow (Core Fn W) → Type 0
    Keeps (next s) = s.table ≡ t
    Keeps (return ret s) = Unit

    then_flow-cong :
        (f : Flow (Core Fn W)) (k l : Core Fn W → Flow (Core Fn W))
        → Keeps f
        → ((s : Core Fn W) → s.table ≡ t → k s ≡ l s)
        → then_flow f k ≡ then_flow f l
    unfolding Keeps
    then_flow-cong (next s) k l e same = same s e
    then_flow-cong (return ret s) k l e same = refl

    then_flow-Keeps :
        (f : Flow (Core Fn W)) (k : Core Fn W → Flow (Core Fn W))
        → Keeps f
        → ((s : Core Fn W) → s.table ≡ t → Keeps (k s))
        → Keeps (then_flow f k)
    unfolding Keeps
    then_flow-Keeps (next s) k e keep = keep s e
    then_flow-Keeps (return ret s) k e keep = tt

    run_slot-Keeps : (o : Option Fn) (s : Core Fn W) → s.table ≡ t → Keeps (run_slot call o s)
    unfolding run_slot run_fn Keeps
    run_slot-Keeps none s e = e
    run_slot-Keeps (some fn) s e = elim (Bool-cases (is_ok (call fn s).0)) [
      | inl ok ↦ rw ok (keeps fn s ∙ e)
      | inr bad ↦ rw bad tt
    ]

    cmod_loop-run_all :
        (left phase cmod : ℕ) (s : Core Fn W)
        → s.table ≡ t
        → cmod_loop call left phase cmod s ≡ run_all (cmods_from t left phase cmod) s
    unfolding cmod_loop cmods_from run_all
    cmod_loop-run_all zero phase cmod s e = refl
    cmod_loop-run_all (suc left) phase cmod s e =
        let o = t phase cmod in
        let rest = cmods_from t left phase (cmod + 1) in
        then_flow (run_slot call (s.table phase cmod) s) (cmod_loop call left phase (cmod + 1))
        ≡⟨ ap
            (λ (u : PhaseTable Fn).
              then_flow (run_slot call (u phase cmod) s) (cmod_loop call left phase (cmod + 1)))
            e ⟩
          then_flow (run_slot call o s) (cmod_loop call left phase (cmod + 1))
        ≡⟨ then_flow-cong (run_slot call o s) _ _ (run_slot-Keeps o s e)
            (cmod_loop-run_all left phase (cmod + 1)) ⟩
          then_flow (run_slot call o s) (run_all rest)
        ≡⟨ ap (λ f. then_flow f (run_all rest)) (sym (run_all-slot o s)) ⟩
          then_flow (run_all (slot o) s) (run_all rest)
        ≡⟨ sym (run_all-append (slot o) rest s) ⟩ run_all (slot o ++ rest) s ∎

    run_all-Keeps : (fns : List Fn) (s : Core Fn W) → s.table ≡ t → Keeps (run_all fns s)
    unfolding run_all Keeps run_fn run_slot
    run_all-Keeps [] s e = e
    run_all-Keeps (fn ∷ fns) s e =
        then_flow-Keeps (run_fn call fn s) (run_all fns) (run_slot-Keeps (some fn) s e)
          (run_all-Keeps fns)

    phase_loop-run_all :
        (left phase : ℕ) (s : Core Fn W)
        → s.table ≡ t
        → phase_loop call left phase s ≡ run_all (phases_from t left phase) s
    unfolding phase_loop phases_from run_all
    phase_loop-run_all zero phase s e = refl
    phase_loop-run_all (suc left) phase s e =
        let here = cmods_from t cmod_max phase 0 in
        let rest = phases_from t left (phase + 1) in
        then_flow (cmod_loop call cmod_max phase 0 s) (phase_loop call left (phase + 1))
        ≡⟨ ap (λ f. then_flow f (phase_loop call left (phase + 1)))
            (cmod_loop-run_all cmod_max phase 0 s e) ⟩
          then_flow (run_all here s) (phase_loop call left (phase + 1))
        ≡⟨ then_flow-cong (run_all here s) _ _ (run_all-Keeps here s e)
            (phase_loop-run_all left (phase + 1)) ⟩
          then_flow (run_all here s) (run_all rest)
        ≡⟨ sym (run_all-append here rest s) ⟩ run_all (here ++ rest) s ∎

  -- The functions of a list called in turn, up to the first that does not return GT_OK: what that
  -- one returns, or GT_OK, and what the last call has left.
  unfoldable pub run_until : List Fn → Core Fn W → ℤ × Core Fn W
  run_until [] s = (gt_ok, s)
  run_until (fn ∷ fns) s =
      let (ret, s') = call fn s in
      let rest = run_until fns s' in if is_ok ret then rest else (ret, s')

  run_all-run_until : (fns : List Fn) (s : Core Fn W) → finish (run_all fns s) ≡ run_until fns s
  unfolding run_all run_until run_fn
  run_all-run_until [] s = refl
  run_all-run_until (fn ∷ fns) s = elim (Bool-cases (is_ok (call fn s).0)) [
    | inl ok ↦ rw ok (run_all-run_until fns (call fn s).1)
    | inr bad ↦ rw bad refl
  ]

  -- Where the registered functions leave the table alone, `gt_phase_run` calls the functions of
  -- the four phases in turn, within a phase those of the six modules in turn, up to the first that
  -- does not return GT_OK, and returns what that one returned, or GT_OK.
  pub gt_phase_run-schedule :
      ((fn : Fn) (s : Core Fn W) → (call fn s).1.table ≡ s.table)
      → (s : Core Fn W) → gt_phase_run call s ≡ run_until (schedule s.table) s
  unfolding gt_phase_run
  gt_phase_run-schedule keeps s =
      ap finish (phase_loop-run_all s.table keeps phase_max 0 s refl)
      ∙ (ap (λ fns. finish (run_all fns s)) (phases_from-schedule s.table)
          ∙ run_all-run_until (schedule s.table) s)
