-- ===== src/Signal/Backtrace.antt =====
-- `gt_strcut` and `gt_backtrace_print` of user/core/gt_signal.c: the call trace that is written to
-- the log when a signal of g_gt_sig_core comes. A text of C is the list of its bytes, with no NUL.
pub mod Cut
pub mod Line
pub mod Print
pub mod Tests
use guitar_tea.Common.{
  ℕ, zero, suc, ◌+◌, ◌-◌, Bool, true, false, Option, none, some, List, [], ◌∷◌, ◌++◌, ltb, leb,
  ◌==◌, if◌then◌else◌, length, take, drop,
}
use guitar_tea.Common.State.{Cmd, pure, ◌>>=◌, ◌>>◌}
use guitar_tea.Log.{Buffer, store}

-- GT_BACKTRACE_BUF_SIZE, the size of `frame`.
abbrev pub backtrace_buf_size : ℕ
backtrace_buf_size = 128

-- `strrchr(src, c)`: where the last such byte stands, if there is one.
abbrev later_or : Option ℕ → Bool → Option ℕ
later_or (some i) here = some (i + 1)
later_or none true = some 0
later_or none false = none

unfoldable pub strrchr : List ℕ → (c : ℕ) → Option ℕ
strrchr [] c = none
strrchr (x ∷ src) c = later_or (strrchr src c) (x == c)

-- `n` bytes of a text, with a NUL for each that it does not have.
unfoldable pub padded : ℕ → List ℕ → List ℕ
padded zero src = []
padded (suc n) [] = 0 ∷ padded n []
padded (suc n) (c ∷ src) = c ∷ padded n src

-- `strncpy(frame + at, src, n)` and `frame[at] = c`: faults where they write beyond the frame.
unfoldable pub strncpy_at : (at n : ℕ) → List ℕ → Cmd Buffer (Unit {0})
strncpy_at at n src frame =
    if leb (at + n) backtrace_buf_size then some (tt, store at (padded n src) frame) else none

unfoldable pub set_byte : (at c : ℕ) → Cmd Buffer (Unit {0})
set_byte at c frame = if ltb at backtrace_buf_size then some (tt, store at (c ∷ []) frame) else none

-- From `begin` to `end`. A negative length is passed to `strncpy` as a huge `size_t`, which faults.
unfoldable pub cut_between : (at : ℕ) → List ℕ → (begin end : ℕ) (flag : Bool) → Cmd Buffer ℕ
cut_between at src begin end flag = if ltb (end + 1) begin then (λ _. none) else do
  let sub_len = end + 1 - begin
  strncpy_at at sub_len (drop (if flag then begin else begin + 1) src)
  set_byte (at + sub_len) 0
  pure sub_len

-- A byte that is not in the text makes one of the pointers NULL, and their difference is undefined.
unfoldable pub cut_found : (at : ℕ) → List ℕ → (begin end : Option ℕ) (flag : Bool) → Cmd Buffer ℕ
unfolding cut_between
cut_found at src (some begin) (some end) flag = cut_between at src begin end flag
cut_found at src (some begin) none flag = λ _. none
cut_found at src none end flag = λ _. none

-- `dst` is `frame + at`.
unfoldable pub gt_strcut : (at : ℕ) → List ℕ → (cstart cend : ℕ) (flag : Bool) → Cmd Buffer ℕ
unfolding cut_found
gt_strcut at src cstart cend flag = cut_found at src (strrchr src cstart) (strrchr src cend) flag

-- The text that starts at `at`, of at most `left` bytes with its NUL.
abbrev cons_text : ℕ → Option (List ℕ) → Option (List ℕ)
cons_text c none = none
cons_text c (some text) = some (c ∷ text)

unfoldable pub text_at : (left at : ℕ) → Buffer → Option (List ℕ)
text_at zero at frame = none
text_at (suc left) at frame =
    if frame at == 0 then some [] else cons_text (frame at) (text_at left (at + 1) frame)

abbrev printed : Option (List ℕ) → Cmd Buffer (List ℕ)
printed none frame = none
printed (some text) frame = some (text ++ b'\n' ∷ [], frame)

-- One round of the loop, for one entry of `strings`: the line that is printed.
unfoldable pub backtrace_line : List ℕ → Cmd Buffer (List ℕ)
backtrace_line symbol = do
  strnum ← gt_strcut 0 symbol b'[' b']' true
  _ ← gt_strcut strnum symbol b'(' b')' true
  λ frame. printed (text_at backtrace_buf_size 0 frame) frame

-- The lines behind the first, for the symbols that `backtrace_symbols` gives.
unfoldable pub gt_backtrace_print : List (List ℕ) → Cmd Buffer (List (List ℕ))
gt_backtrace_print [] = pure []
gt_backtrace_print (symbol ∷ strings) = do
  line ← backtrace_line symbol
  lines ← gt_backtrace_print strings
  pure (line ∷ lines)
