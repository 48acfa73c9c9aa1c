-- ===== src/Log/Macros.antt =====
-- The logging macros of user/core/gt_log.h.
use guitar_tea.Common.{
  ℕ, ◌+◌, ◌<◌, ◌≤◌, ◌≡◌, Bool, true, false, some, List, [], ◌∷◌, ◌++◌, arith, length, length-append,
  if◌then◌else◌,
}
use guitar_tea.Common.State.{Ensures}
use guitar_tea.Common.Int.{ℤ, pos}
use guitar_tea.Log.{
  LogCall, LogLevel, info, warn, error, debug, level_tag, zeroed, std_output_fd, gt_log_print,
}
use guitar_tea.Log.Line.{Answers, newline, gt_log_print-newline}

pub data LogMacro : Type 0 where
  gt_std_info_log gt_std_warn_log gt_std_error_log gt_std_debug_log : LogMacro
  gt_info_log gt_warn_log gt_error_log gt_debug_log : LogMacro

-- What a macro passes for `stdfd_flag` and for `level`.
unfoldable pub flag_of : LogMacro → Bool
flag_of gt_std_info_log = true
flag_of gt_std_warn_log = true
flag_of gt_std_error_log = true
flag_of gt_std_debug_log = true
flag_of gt_info_log = false
flag_of gt_warn_log = false
flag_of gt_error_log = false
flag_of gt_debug_log = false

unfoldable pub level_of : LogMacro → LogLevel
level_of gt_std_info_log = info
level_of gt_std_warn_log = warn
level_of gt_std_error_log = error
level_of gt_std_debug_log = debug
level_of gt_info_log = info
level_of gt_warn_log = warn
level_of gt_error_log = error
level_of gt_debug_log = debug

-- `"[%s:%d] " fmt` once it is formatted: `__FUNCTION__`, `__LINE__` and the message as texts.
unfoldable pub place_message : (function line text : List ℕ) → List ℕ
place_message function line text = b'[' ∷ (function ++ (b':' ∷ (line ++ (b']' ∷ b' ' ∷ text))))

-- The call that a macro stands for; `c` is what the library functions answer in it.
unfoldable pub expand : LogMacro → (function line text : List ℕ) → LogCall → LogCall
unfolding place_message
expand m function line text c = record c {
  stdfd_flag = flag_of m;
  level = level_of m;
  message = place_message function line text;
}

expand-newline :
    (log_fd : ℤ) (m : LogMacro) (function line text : List ℕ) (c : LogCall)
    → Answers (expand m function line text c)
    → length c.time
        + length (level_tag (level_of m))
        + (length function + length line + length text + 4)
      < 1022
    → Ensures (gt_log_print log_fd (expand m function line text c) zeroed) (λ out buf.
      out
      ≡ some (
        if flag_of m then std_output_fd else log_fd,
        ((c.time ++ level_tag (level_of m)) ++ place_message function line text) ++ newline,
      ))
unfolding expand place_message
expand-newline log_fd m function line text c answers small =
    gt_log_print-newline log_fd (expand m function line text c) answers (
      omega (
        arith,
        small,
        length-append function (b':' ∷ (line ++ (b']' ∷ b' ' ∷ text))),
        length-append line (b']' ∷ b' ' ∷ text),
      ))

-- A line of the log, with the name of its level.
abbrev pub log_line : (time name function line text : List ℕ) → List ℕ
log_line time name function line text =
    (time ++ (b'[' ∷ (name ++ (b']' ∷ b' ' ∷ []))))
    ++ (b'[' ∷ (function ++ (b':' ∷ (line ++ (b']' ∷ b' ' ∷ text)))))
    ++ (b'\n' ∷ [])

abbrev pub info_name : List ℕ
info_name = b'I' ∷ b'N' ∷ b'F' ∷ b'O' ∷ []

abbrev pub warn_name : List ℕ
warn_name = b'W' ∷ b'A' ∷ b'R' ∷ b'N' ∷ []

abbrev pub error_name : List ℕ
error_name = b'E' ∷ b'R' ∷ b'R' ∷ b'O' ∷ b'R' ∷ []

abbrev pub debug_name : List ℕ
debug_name = b'D' ∷ b'E' ∷ b'B' ∷ b'U' ∷ b'G' ∷ []

module _ (log_fd : ℤ) (function line text : List ℕ) (c : LogCall) where
  -- The macro writes one line with the name of this level to this descriptor, and nothing else.
  abbrev pub Writes : LogMacro → ℤ → (name : List ℕ) → Type 0
  Writes m fd name =
      Ensures (gt_log_print log_fd (expand m function line text c) zeroed)
        (λ out buf. out ≡ some (fd, log_line c.time name function line text))

  -- Where the library functions succeed, and the time, the function, the line number and the message
  -- are together below 1010 bytes: GT_STD_INFO_LOG, GT_STD_WARN_LOG, GT_STD_ERROR_LOG and
  -- GT_STD_DEBUG_LOG write to the descriptor 1, and GT_INFO_LOG, GT_WARN_LOG, GT_ERROR_LOG and
  -- GT_DEBUG_LOG to the log, one line with the time, the level's name INFO, WARN, ERROR or DEBUG, the
  -- function, the line number and the message, and a newline behind it.
  pub macros-lines :
      c.clock_read ≡ true
      → c.tag_printed ≡ true
      → c.message_printed ≡ true
      → c.end_printed ≡ true
      → length c.time + length function + length line + length text < 1010
      → Writes gt_std_info_log (pos 1) info_name
        × Writes gt_std_warn_log (pos 1) warn_name
        × Writes gt_std_error_log (pos 1) error_name
        × Writes gt_std_debug_log (pos 1) debug_name
        × Writes gt_info_log log_fd info_name
        × Writes gt_warn_log log_fd warn_name
        × Writes gt_error_log log_fd error_name
        × Writes gt_debug_log log_fd debug_name
  unfolding flag_of level_of level_tag place_message expand
  macros-lines clock tag message end small =
      let answers : (m : LogMacro)
          → length (level_tag (level_of m)) ≤ 8
          → Answers (expand m function line text c) =
        λ m tagged. record {
          clock = clock;
          tag = tag;
          message = message;
          end = end;
          short = omega arith;
        } in
      let writes = λ (m : LogMacro) (tagged : length (level_tag (level_of m)) ≤ 8).
        expand-newline log_fd m function line text c (answers m tagged) (omega arith) in
      (
        writes gt_std_info_log (omega arith),
        writes gt_std_warn_log (omega arith),
        writes gt_std_error_log (omega arith),
        writes gt_std_debug_log (omega arith),
        writes gt_info_log (omega arith),
        writes gt_warn_log (omega arith),
        writes gt_error_log (omega arith),
        writes gt_debug_log (omega arith),
      )
