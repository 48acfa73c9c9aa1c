-- ===== src/Signal/Backtrace/Tests.antt =====
-- A call trace, and the theorems about it.
use guitar_tea.Common.{ℕ, zero, suc, ◌≡◌, refl, List, [], ◌∷◌, map, arith}
use guitar_tea.Common.State.{Ensures}
use guitar_tea.Log.{zeroed}
use guitar_tea.Signal.Backtrace.{gt_backtrace_print}
use guitar_tea.Signal.Backtrace.Print.{Symbol, IsPlain, text_of, line_of, gt_backtrace_print-lines}

-- "gt(main) [0x4]"
abbrev pub in_main : Symbol
in_main = record {
  program = b'g' ∷ b't' ∷ [];
  function = b'm' ∷ b'a' ∷ b'i' ∷ b'n' ∷ [];
  middle = b' ' ∷ [];
  address = b'0' ∷ b'x' ∷ b'4' ∷ [];
}

pub in_main-IsPlain : IsPlain in_main
in_main-IsPlain = record {
  open_last = refl;
  close_last = refl;
  bracket_last = refl;
  clean_address = refl;
  clean_function = refl;
  short = omega arith;
}

gt_backtrace_print-lines_example :
    Ensures
      (gt_backtrace_print (map text_of (in_main ∷ in_main ∷ [])) zeroed)
      (λ lines _. lines ≡ map line_of (in_main ∷ in_main ∷ []))
gt_backtrace_print-lines_example =
    gt_backtrace_print-lines (in_main ∷ in_main ∷ []) zeroed
      (in_main-IsPlain, (in_main-IsPlain, tt))

abbrev pub letters : ℕ → List ℕ
letters zero = []
letters (suc n) = b'f' ∷ letters n
