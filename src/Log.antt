-- ===== src/Log.antt =====
-- user/core/gt_log.c, user/core/gt_log.h: the line that `gt_log_print` builds in a buffer on its
-- stack, and where it goes.
pub mod Buffer
pub mod Line
pub mod Macros
mod Tests
use guitar_tea.Common.{
  ℕ, zero, suc, ◌+◌, ◌-◌, ◌%◌, ◌^◌, Bool, true, false, not, Option, none, some, List, [], ◌∷◌, ◌++◌,
  leb, ltb, ◌==◌, if◌then◌else◌, length, take,
}
use guitar_tea.Common.State.{Cmd, pure, ◌>>=◌}
use guitar_tea.Common.Int.{ℤ, pos, gt_ok, gt_error, is_neg}

-- GT_LOG_BUF_MAX_LEN and GT_STD_OUTPUT_FD.
abbrev pub log_buf_max_len : ℕ
log_buf_max_len = 1024

abbrev pub std_output_fd : ℤ
std_output_fd = pos 1

-- `gt_log_level_e`.
pub data LogLevel : Type 0 where
  info warn error debug : LogLevel

-- `g_log_level_str`, in the format "[%s] ".
unfoldable pub level_tag : LogLevel → List ℕ
level_tag info = b'[' ∷ b'I' ∷ b'N' ∷ b'F' ∷ b'O' ∷ b']' ∷ b' ' ∷ []
level_tag warn = b'[' ∷ b'W' ∷ b'A' ∷ b'R' ∷ b'N' ∷ b']' ∷ b' ' ∷ []
level_tag error = b'[' ∷ b'E' ∷ b'R' ∷ b'R' ∷ b'O' ∷ b'R' ∷ b']' ∷ b' ' ∷ []
level_tag debug = b'[' ∷ b'D' ∷ b'E' ∷ b'B' ∷ b'U' ∷ b'G' ∷ b']' ∷ b' ' ∷ []

-- `char buf[GT_LOG_BUF_MAX_LEN]`, by the byte at each index.
abbrev pub Buffer : Type 0
Buffer = ℕ → ℕ

unfoldable pub store : (at : ℕ) → List ℕ → Buffer → Buffer
store at [] buf = buf
store at (c ∷ text) buf = store (at + 1) text (λ i. if i == at then c else buf i)

unfoldable pub read_from : (at n : ℕ) → Buffer → List ℕ
read_from at zero buf = []
read_from at (suc n) buf = buf at ∷ read_from (at + 1) n buf

-- A difference of two `int`s, neither over 2^31, where it is passed as a `size_t`.
abbrev pub size_of_diff : ℕ → ℕ → ℕ
size_of_diff a b = (a + 2 ^ 64 - b) % 2 ^ 64

-- `snprintf(buf + at, size, ...)` of a text: what fits into the size, with a NUL behind it, or
-- nothing where the size is 0. It returns the length of the text. A fault where it writes beyond
-- the end of the buffer.
unfoldable pub print_at : (at size : ℕ) → List ℕ → Cmd Buffer ℕ
print_at at zero text buf = some (length text, buf)
print_at at (suc room) text buf =
    let out = take room text ++ 0 ∷ [] in
    if leb (at + length out) log_buf_max_len then some (length text, store at out buf) else none

-- `write(fd, buf, n)`: the bytes that leave the process, and a fault where it reads beyond the end.
unfoldable pub write_out : ℤ → ℕ → Cmd Buffer (ℤ × List ℕ)
write_out fd n buf = if leb n log_buf_max_len then some ((fd, read_from 0 n buf), buf) else none

-- `strftime(buf, max, ...)`: it writes a text that fits with its NUL, and returns 0 for any other.
unfoldable pub strftime_at : (max : ℕ) → List ℕ → Cmd Buffer ℕ
strftime_at max text buf =
    if ltb (length text) max
    then some (length text, store 0 (text ++ 0 ∷ []) buf)
    else some (0, buf)

-- A call of `gt_log_print`, and what the library functions answer: whether the clock is read, the
-- time as text, whether each print succeeds, and the text of the message after formatting.
pub record LogCall : Type 0 where
  pub stdfd_flag : Bool
  pub level : LogLevel
  pub clock_read : Bool
  pub time : List ℕ
  pub tag_printed : Bool
  pub message_printed : Bool
  pub message : List ℕ
  pub end_printed : Bool

-- Where the "\n" goes, given the lengths that the three prints returned.
unfoldable pub log_length : (time_len level_len log_len : ℕ) → ℕ
log_length t l m = if ltb m (log_buf_max_len - t - l - 1) then t + l + m else t + l + m - 1

-- The rest of the function once the message is printed: the end of the line, and the write.
unfoldable pub end_line : (log_fd : ℤ) → LogCall → (length : ℕ) → Cmd Buffer (Option (ℤ × List ℕ))
unfolding print_at write_out
end_line log_fd c n = if not c.end_printed then pure none else do
  end_len ← print_at n (size_of_diff log_buf_max_len (n + 1)) (b'\n' ∷ [])
  written ← write_out (if c.stdfd_flag then std_output_fd else log_fd) (n + end_len)
  pure (some written)

-- What is written and where; `none` where the function returns before that.
unfoldable pub gt_log_print : (log_fd : ℤ) → LogCall → Cmd Buffer (Option (ℤ × List ℕ))
unfolding strftime_at print_at end_line log_length
gt_log_print log_fd c = if not c.clock_read then pure none else do
  t ← strftime_at (log_buf_max_len - 1) c.time
  if not c.tag_printed then pure none else do
    l ← print_at t (size_of_diff log_buf_max_len (t + 1)) (level_tag c.level)
    if not c.message_printed then pure none else do
      m ← print_at (t + l) (size_of_diff log_buf_max_len (t + l + 1)) c.message
      end_line log_fd c (log_length t l m)

-- `char buf[...] = {0}`.
abbrev pub zeroed : Buffer
zeroed i = 0

-- `gt_log_init`: what `open` returns becomes the descriptor of the log.
unfoldable pub gt_log_init : (opened : ℤ) → ℤ × ℤ
gt_log_init fd = if is_neg fd then (gt_error, fd) else (gt_ok, fd)
