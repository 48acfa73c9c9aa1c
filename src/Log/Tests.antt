-- ===== src/Log/Tests.antt =====
-- Lines of several lengths, and the theorems about user/core/gt_log.c at them.
use guitar_tea.Common.{ℕ, zero, suc, refl, true, false, List, [], ◌∷◌, arith}
use guitar_tea.Common.Int.{ℤ, pos}
use guitar_tea.Log.{LogCall, info}
use guitar_tea.Log.Macros.{
  LogMacro, gt_std_info_log, gt_std_warn_log, gt_std_error_log, gt_std_debug_log, gt_info_log,
  gt_warn_log, gt_error_log, gt_debug_log, info_name, warn_name, error_name, debug_name, Writes,
  macros-lines,
}

abbrev copies : ℕ → List ℕ
copies zero = []
copies (suc n) = b'x' ∷ copies n

-- A call at 20 bytes of time, with the tag "[INFO] " of 7.
abbrev saying : List ℕ → LogCall
saying text = record {
  stdfd_flag = false;
  level = info;
  clock_read = true;
  time = copies 20;
  tag_printed = true;
  message_printed = true;
  message = text;
  end_printed = true;
}

-- The macros in line 42 of a function `f`, with the message "hi", on a log with the descriptor 5.
abbrev Says : LogMacro → ℤ → (name : List ℕ) → Type 0
Says = Writes (pos 5) (b'f' ∷ []) (b'4' ∷ b'2' ∷ []) (b'h' ∷ b'i' ∷ []) (saying [])

macros-lines_example :
    Says gt_std_info_log (pos 1) info_name
    × Says gt_std_warn_log (pos 1) warn_name
    × Says gt_std_error_log (pos 1) error_name
    × Says gt_std_debug_log (pos 1) debug_name
    × Says gt_info_log (pos 5) info_name
    × Says gt_warn_log (pos 5) warn_name
    × Says gt_error_log (pos 5) error_name
    × Says gt_debug_log (pos 5) debug_name
macros-lines_example =
    macros-lines (pos 5) (b'f' ∷ []) (b'4' ∷ b'2' ∷ []) (b'h' ∷ b'i' ∷ []) (saying []) refl refl
      refl refl (omega arith)
