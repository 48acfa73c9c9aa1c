-- ===== src/Signal/Backtrace/Print.antt =====
-- The whole call trace of `gt_backtrace_print` of user/core/gt_signal.c.
use guitar_tea.Common.{ℕ, ◌+◌, ◌<◌, ◌≡◌, refl, false, List, [], ◌∷◌, ◌++◌, length, has, map}
use mathlib.Core.Path.{ap₂}
use guitar_tea.Common.State.{Ensures, Ensures-bind}
use guitar_tea.Log.{Buffer}
use guitar_tea.Signal.Backtrace.{backtrace_line, gt_backtrace_print}
use guitar_tea.Signal.Backtrace.Cut.{piece}
use guitar_tea.Signal.Backtrace.Line.{symbol, trace, backtrace_line-trace}

-- A symbol of backtrace_symbols(3), "program(function)middle[address]", by its parts.
pub record Symbol : Type 0 where
  pub program : List ℕ
  pub function : List ℕ
  pub middle : List ℕ
  pub address : List ℕ

abbrev pub text_of : Symbol → List ℕ
text_of s = symbol s.program s.function s.middle s.address

abbrev pub line_of : Symbol → List ℕ
line_of s = trace s.program s.function s.middle s.address ++ b'\n' ∷ []

-- The brackets around the function and the address are the last of their kind, there is no NUL, and
-- both parts with their brackets and a NUL fit into the frame.
pub record IsPlain (s : Symbol) : Type 0 where
  pub open_last : has b'(' (s.function ++ b')' ∷ (s.middle ++ piece s.address b'[' b']')) ≡ false
  pub close_last : has b')' (s.middle ++ piece s.address b'[' b']') ≡ false
  pub bracket_last : has b'[' (s.address ++ b']' ∷ []) ≡ false
  pub clean_address : has 0 s.address ≡ false
  pub clean_function : has 0 s.function ≡ false
  pub short : length s.address + length s.function < 124

abbrev pub AllPlain : List Symbol → Type 0
AllPlain [] = Unit
AllPlain (s ∷ symbols) = IsPlain s × AllPlain symbols

-- For symbols with no NUL, of which the last brackets stand around the address and the function, and
-- with both short enough, gt_backtrace_print prints one line for each, in order, with its address and
-- its function in their brackets, and stays inside its frame of 128 bytes, whatever that held before.
pub gt_backtrace_print-lines :
    (symbols : List Symbol) (frame : Buffer)
    → AllPlain symbols
    → Ensures
        (gt_backtrace_print (map text_of symbols) frame)
        (λ lines _. lines ≡ map line_of symbols)
unfolding gt_backtrace_print
gt_backtrace_print-lines [] frame plain = refl
gt_backtrace_print-lines (s ∷ symbols) frame (p, plain) =
    let Rest = λ (lines : List (List ℕ)) (t : Buffer). lines ≡ map line_of symbols in
    let All = λ (lines : List (List ℕ)) (t : Buffer). lines ≡ map line_of (s ∷ symbols) in
    Ensures-bind (λ (line : List ℕ) (t : Buffer). line ≡ line_of s) All
      (backtrace_line (text_of s) frame) _
      (backtrace_line-trace s.program s.function s.middle s.address p.open_last p.close_last
        p.bracket_last frame p.clean_address p.clean_function p.short)
      (λ line t e.
        Ensures-bind Rest All (gt_backtrace_print (map text_of symbols) t) _
          (gt_backtrace_print-lines symbols t plain) (λ lines u es. ap₂ ◌∷◌ e es))
