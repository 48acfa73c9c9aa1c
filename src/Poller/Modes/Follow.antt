-- ===== src/Poller/Modes/Follow.antt =====
-- The event sources of user/core/gt_poller.c follow the automaton of Modes.antt.
use guitar_tea.Common.{◌≡◌, refl, true, false, none, some, List, [], ◌∷◌}
use mathlib.Core.Path.{ap₂}
use guitar_tea.Common.State.{Ensures, Ensures-bind}
use guitar_tea.Common.Int.{ℤ}
use guitar_tea.Dlist.{Ptr}
use guitar_tea.Os.{Os, World}
use guitar_tea.Poller.Modes.{
  Flag, input, output, Mode, fresh, watching, deaf, wanted, heard, Op, start, stop, step_mode,
  run_modes, call_op, call_ops,
}
use guitar_tea.Poller.Modes.Calls.{
  EpollEvents, Source, start_keep, start_add, start_exists, start_mod, stop_keep, stop_mod,
}

module _ (os : Os) (set : EpollEvents os) (ge : Ptr) (epfd efd : ℤ) where
  -- The source is in the mode.
  abbrev pub InMode : Mode → World os.Kernel → Type 0
  InMode mode w = Source os set ge epfd efd (wanted mode) (heard mode) w

  -- A call returns what the automaton says, and leaves the source in the mode that it says.
  abbrev pub Follows : Op → Mode → ℤ → World os.Kernel → Type 0
  Follows op mode ret t = (ret ≡ (step_mode op mode).0) × InMode (step_mode op mode).1 t

  start-Follows :
      (f : Flag) (mode : Mode) (w : World os.Kernel)
      → InMode mode w
      → Ensures (call_op os ge (start f) w) (Follows (start f) mode)
  start-Follows input fresh w s = start_add os set ge epfd efd 0 none w s 1 refl refl
  start-Follows input (watching true true) w s = start_keep os set ge epfd efd 5 (some 5) w s 1 refl
  start-Follows input (watching true false) w s =
      start_keep os set ge epfd efd 1 (some 1) w s 1 refl
  start-Follows input (watching false true) w s =
      start_mod os set ge epfd efd 4 (some 4) w s 1 4 refl refl refl
  start-Follows input (watching false false) w s =
      start_exists os set ge epfd efd 0 (some 0) w s 1 0 refl refl
  start-Follows input (deaf input) w s = start_keep os set ge epfd efd 1 (some 0) w s 1 refl
  start-Follows input (deaf output) w s =
      start_mod os set ge epfd efd 4 (some 0) w s 1 0 refl refl refl
  start-Follows output fresh w s = start_add os set ge epfd efd 0 none w s 4 refl refl
  start-Follows output (watching true true) w s =
      start_keep os set ge epfd efd 5 (some 5) w s 4 refl
  start-Follows output (watching true false) w s =
      start_mod os set ge epfd efd 1 (some 1) w s 4 1 refl refl refl
  start-Follows output (watching false true) w s =
      start_keep os set ge epfd efd 4 (some 4) w s 4 refl
  start-Follows output (watching false false) w s =
      start_exists os set ge epfd efd 0 (some 0) w s 4 0 refl refl
  start-Follows output (deaf input) w s =
      start_mod os set ge epfd efd 1 (some 0) w s 4 0 refl refl refl
  start-Follows output (deaf output) w s = start_keep os set ge epfd efd 4 (some 0) w s 4 refl

  stop-Follows :
      (f : Flag) (mode : Mode) (w : World os.Kernel)
      → InMode mode w
      → Ensures (call_op os ge (stop f) w) (Follows (stop f) mode)
  stop-Follows input fresh w s = stop_keep os set ge epfd efd 0 none w s 1 refl
  stop-Follows input (watching true true) w s =
      stop_mod os set ge epfd efd 5 (some 5) w s 1 5 refl refl
  stop-Follows input (watching true false) w s =
      stop_mod os set ge epfd efd 1 (some 1) w s 1 1 refl refl
  stop-Follows input (watching false true) w s = stop_keep os set ge epfd efd 4 (some 4) w s 1 refl
  stop-Follows input (watching false false) w s = stop_keep os set ge epfd efd 0 (some 0) w s 1 refl
  stop-Follows input (deaf input) w s = stop_mod os set ge epfd efd 1 (some 0) w s 1 0 refl refl
  stop-Follows input (deaf output) w s = stop_keep os set ge epfd efd 4 (some 0) w s 1 refl
  stop-Follows output fresh w s = stop_keep os set ge epfd efd 0 none w s 4 refl
  stop-Follows output (watching true true) w s =
      stop_mod os set ge epfd efd 5 (some 5) w s 4 5 refl refl
  stop-Follows output (watching true false) w s = stop_keep os set ge epfd efd 1 (some 1) w s 4 refl
  stop-Follows output (watching false true) w s =
      stop_mod os set ge epfd efd 4 (some 4) w s 4 4 refl refl
  stop-Follows output (watching false false) w s =
      stop_keep os set ge epfd efd 0 (some 0) w s 4 refl
  stop-Follows output (deaf input) w s = stop_keep os set ge epfd efd 1 (some 0) w s 4 refl
  stop-Follows output (deaf output) w s = stop_mod os set ge epfd efd 4 (some 0) w s 4 0 refl refl

  op-Follows :
      (op : Op) (mode : Mode) (w : World os.Kernel)
      → InMode mode w
      → Ensures (call_op os ge op w) (Follows op mode)
  op-Follows (start f) mode w s = start-Follows f mode w s
  op-Follows (stop f) mode w s = stop-Follows f mode w s

  -- On an epoll instance that does what epoll_ctl(2) says, whatever starts and stops for EPOLLIN and
  -- EPOLLOUT are called of a source that is in a mode of the automaton, none of them faults, they
  -- return what the automaton says, and the source and the epoll set are then in the mode that it says.
  pub call_ops-run_modes :
      (ops : List Op) (mode : Mode) (w : World os.Kernel)
      → InMode mode w
      → Ensures
          (call_ops os ge ops w)
          (λ rets t. (rets ≡ (run_modes ops mode).0) × InMode (run_modes ops mode).1 t)
  call_ops-run_modes [] mode w s = (refl, s)
  call_ops-run_modes (op ∷ ops) mode w s =
      let next = (step_mode op mode).1 in
      let Rest = λ (rets : List ℤ) (t : World os.Kernel).
        (rets ≡ (run_modes ops next).0) × InMode (run_modes ops next).1 t in
      let All = λ (rets : List ℤ) (t : World os.Kernel).
        (rets ≡ (run_modes (op ∷ ops) mode).0) × InMode (run_modes (op ∷ ops) mode).1 t in
      Ensures-bind (Follows op mode) All (call_op os ge op w) _ (op-Follows op mode w s)
        (λ ret t one.
          Ensures-bind Rest All (call_ops os ge ops t) _ (call_ops-run_modes ops next t one.1)
            (λ rets u rest. (ap₂ ◌∷◌ one.0 rest.0, rest.1)))
