-- ===== src/Poller/Modes.antt =====
-- What a caller of `gt_poller_event_start` and `gt_poller_event_stop` (user/core/gt_poller.c) sees of
-- one event source: an automaton over the events that are asked for and those that the kernel knows.
pub mod Calls
pub mod Follow
mod Tests
use guitar_tea.Common.{ℕ, Bool, true, false, Option, none, some, List, [], ◌∷◌, if◌then◌else◌}
use guitar_tea.Common.State.{Cmd, pure, ◌>>=◌}
use guitar_tea.Common.Int.{ℤ, gt_ok, gt_error}
use guitar_tea.Dlist.{Ptr}
use guitar_tea.Os.{Os, World}
use guitar_tea.Poller.{epollin, epollout, gt_poller_event_start, gt_poller_event_stop}

pub data Flag : Type 0 where
  input output : Flag

abbrev pub flag_mask : Flag → ℕ
flag_mask input = epollin
flag_mask output = epollout

-- The epoll set does not have the source; or it has it with the events that are asked for, of which
-- there may be none; or it has it with no event, although one is asked for.
pub data Mode : Type 0 where
  fresh : Mode
  watching : (reads writes : Bool) → Mode
  deaf : Flag → Mode

abbrev pub pair_mask : (reads writes : Bool) → ℕ
pair_mask false false = 0
pair_mask true false = 1
pair_mask false true = 4
pair_mask true true = 5

-- The events that are recorded in the source, and those of the epoll set.
abbrev pub wanted : Mode → ℕ
wanted fresh = 0
wanted (watching reads writes) = pair_mask reads writes
wanted (deaf f) = flag_mask f

abbrev pub heard : Mode → Option ℕ
heard fresh = none
heard (watching reads writes) = some (pair_mask reads writes)
heard (deaf f) = some 0

pub data Op : Type 0 where
  start stop : Flag → Op

-- What a call returns, and the mode behind it.
abbrev pub start_mode : Flag → Mode → ℤ × Mode
start_mode input fresh = (gt_ok, watching true false)
start_mode output fresh = (gt_ok, watching false true)
start_mode input (watching true writes) = (gt_ok, watching true writes)
start_mode input (watching false true) = (gt_ok, watching true true)
start_mode input (watching false false) = (gt_error, deaf input)
start_mode output (watching reads true) = (gt_ok, watching reads true)
start_mode output (watching true false) = (gt_ok, watching true true)
start_mode output (watching false false) = (gt_error, deaf output)
start_mode input (deaf input) = (gt_ok, deaf input)
start_mode input (deaf output) = (gt_ok, watching true true)
start_mode output (deaf input) = (gt_ok, watching true true)
start_mode output (deaf output) = (gt_ok, deaf output)

abbrev pub stop_mode : Flag → Mode → ℤ × Mode
stop_mode f fresh = (gt_ok, fresh)
stop_mode input (watching reads writes) = (gt_ok, watching false writes)
stop_mode output (watching reads writes) = (gt_ok, watching reads false)
stop_mode input (deaf input) = (gt_ok, watching false false)
stop_mode input (deaf output) = (gt_ok, deaf output)
stop_mode output (deaf input) = (gt_ok, deaf input)
stop_mode output (deaf output) = (gt_ok, watching false false)

abbrev pub step_mode : Op → Mode → ℤ × Mode
step_mode (start f) mode = start_mode f mode
step_mode (stop f) mode = stop_mode f mode

abbrev pub run_modes : List Op → Mode → List ℤ × Mode
run_modes [] mode = ([], mode)
run_modes (op ∷ ops) mode =
    let (ret, next) = step_mode op mode in
    let (rets, last) = run_modes ops next in (ret ∷ rets, last)

module _ (os : Os) (ge : Ptr) where
  open os use {Kernel}

  abbrev pub call_op : Op → Cmd (World Kernel) ℤ
  call_op (start f) = gt_poller_event_start os (flag_mask f) ge
  call_op (stop f) = gt_poller_event_stop os (flag_mask f) ge

  abbrev pub call_ops : List Op → Cmd (World Kernel) (List ℤ)
  call_ops [] = pure []
  call_ops (op ∷ ops) = do ret ← call_op op; rets ← call_ops ops; pure (ret ∷ rets)
