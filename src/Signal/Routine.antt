-- ===== src/Signal/Routine.antt =====
-- The handler `gt_signal_routine` of user/core/gt_signal.c, with the call trace that it prints first.
use guitar_tea.Common.{
  ℕ, Option, ◌+◌, ◌≤◌, ◌≡◌, refl, true, false, none, some, inl, inr, Bool-cases, List, [], ◌∷◌,
  ◌++◌, map, length, has,
}
use guitar_tea.Common.State.{Ensures}
use guitar_tea.Log.{Buffer, zeroed}
use guitar_tea.Os.{Os, World, write, call, errno, set_errno}
use guitar_tea.Signal.{int_bytes, is_core, traced, gt_signal_deliver, gt_signal_routine}
use guitar_tea.Signal.Backtrace.{gt_backtrace_print}
use guitar_tea.Signal.Backtrace.Cut.{piece}
use guitar_tea.Signal.Backtrace.Line.{symbol, backtrace_line-overflow}
use guitar_tea.Signal.Backtrace.Print.{Symbol, text_of, line_of, AllPlain, gt_backtrace_print-lines}

module _ (os : Os) where
  -- The kernel behind the handler: the signal is in the pipe, and errno is set again.
  abbrev pub delivered : ℕ → World os.Kernel → os.Kernel
  delivered sig w =
      os.set_errno (os.errno w.kernel) (os.answer (write w.pipefd_write (int_bytes sig)) w.kernel).1

  traced-Ensures :
      (P : List (List ℕ) → Buffer → Type 0) (o : Option (List (List ℕ) × Buffer))
      (w : World os.Kernel)
      → Ensures o P
      → traced os o w ≡ some (tt, w)
  traced-Ensures P none w e = absurd e
  traced-Ensures P (some (lines, frame)) w e = refl

  -- Where the symbols of the call trace have no NUL, the last brackets of each stand around its address
  -- and its function, and both are short enough for the frame, and where errno is what it was set to,
  -- gt_signal_routine writes the signal into the pipe, whatever the kernel answers, does nothing else
  -- and leaves errno as it was.
  pub gt_signal_routine-delivered :
      (symbols : List Symbol) (sig : ℕ) (w : World os.Kernel)
      → AllPlain symbols
      → ((e : ℕ) (k : os.Kernel) → os.errno (os.set_errno e k) ≡ e)
      → (gt_signal_routine os (map text_of symbols) sig w
          ≡ some (tt, record w { kernel = delivered sig w }))
        × (os.errno (delivered sig w) ≡ os.errno w.kernel)
  unfolding gt_signal_routine gt_signal_deliver errno set_errno call
  gt_signal_routine-delivered symbols sig w plain law = (
    elim (Bool-cases (is_core sig)) [
      | inl core ↦
          rw
            (
              core,
              traced-Ensures (λ lines _. lines ≡ map line_of symbols)
                  (gt_backtrace_print (map text_of symbols) zeroed) w
                  (gt_backtrace_print-lines symbols zeroed plain),
            )
            refl
      | inr other ↦ rw other refl
    ],
    law _ _,
  )

  -- Where the first symbol of the call trace has its last brackets around its address and its
  -- function, and these leave no place for the NUL in the frame of 128 bytes, gt_signal_routine writes
  -- beyond the frame for a signal that is_core accepts, and does not deliver it.
  pub gt_signal_routine-overflow :
      (program function middle address : List ℕ) (strings : List (List ℕ)) (sig : ℕ)
      (w : World os.Kernel)
      → is_core sig ≡ true
      → has b'(' (function ++ b')' ∷ (middle ++ piece address b'[' b']')) ≡ false
      → has b')' (middle ++ piece address b'[' b']') ≡ false
      → has b'[' (address ++ b']' ∷ []) ≡ false
      → 124 ≤ length address + length function
      → gt_signal_routine os (symbol program function middle address ∷ strings) sig w ≡ none
  unfolding gt_signal_routine gt_backtrace_print errno
  gt_signal_routine-overflow program function middle address strings sig w core open_last close_last
        bracket_last long =
      rw
        (
          core,
          backtrace_line-overflow program function middle address open_last close_last bracket_last
              zeroed long,
        )
        refl
