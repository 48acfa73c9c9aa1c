-- ===== src/Main/Embedded.antt =====
-- Commands that `gt_init_system` of user/core/main.c runs in the process with its table of phases, seen
-- without the table.
use guitar_tea.Common.{◌≡◌, refl, inl, inr, Bool-cases, Option, none, some}
use guitar_tea.Common.State.{Cmd, and_then, ◌>>=◌}
use guitar_tea.Common.Int.{ℤ, is_ok}
use guitar_tea.Phase.{Core, PhaseTable}
use guitar_tea.Boot.{PhaseFn, or_return, in_world, put_world}

-- A result without the table.
abbrev pub world_of : {W A : Type 0} → Option (A × Core PhaseFn W) → Option (A × W)
world_of none = none
world_of (some (a, s)) = some (a, s.world)

module _ {W A B : Type 0} where
  -- A command on the world, in the process with its table.
  pub in_world-bind :
      (c : Cmd W A) (f : A → Cmd (Core PhaseFn W) B) (g : A → Cmd W B) (t : PhaseTable PhaseFn)
      (w : W)
      → ((a : A) (v : W) → world_of (f a (record { table = t; world = v })) ≡ g a v)
      → world_of ((in_world c >>= f) (record { table = t; world = w })) ≡ (c >>= g) w
  unfolding in_world
  in_world-bind c f g t w same = by_result (c w)
    where
      by_result :
          (o : Option (A × W))
          → world_of (and_then (put_world o (record { table = t; world = w })) f) ≡ and_then o g
      by_result none = refl
      by_result (some (a, v)) = same a v

  -- The same in front of what follows a function that begins with such a command.
  pub in_world-nested :
      {C : Type 0} (c : Cmd W A) (f : A → Cmd (Core PhaseFn W) C) (k : C → Cmd (Core PhaseFn W) B)
      (g : A → Cmd W B) (t : PhaseTable PhaseFn) (w : W)
      → ((a : A) (v : W) → world_of (and_then (f a (record { table = t; world = v })) k) ≡ g a v)
      → world_of (and_then ((in_world c >>= f) (record { table = t; world = w })) k) ≡ (c >>= g) w
  unfolding in_world
  in_world-nested c f k g t w same = by_result (c w)
    where
      by_result :
          (o : Option (A × W))
          → world_of (and_then (and_then (put_world o (record { table = t; world = w })) f) k)
            ≡ and_then o g
      by_result none = refl
      by_result (some (a, v)) = same a v

pub or_return-world :
    {W : Type 0} (ret : ℤ) (rest : Cmd (Core PhaseFn W) ℤ) (rest' : Cmd W ℤ)
    (t : PhaseTable PhaseFn) (w : W)
    → world_of (rest (record { table = t; world = w })) ≡ rest' w
    → world_of (or_return ret rest (record { table = t; world = w })) ≡ or_return ret rest' w
or_return-world ret rest rest' t w same = elim (Bool-cases (is_ok ret)) [
  | inl done ↦ rw done same
  | inr failed ↦ rw failed refl
]
