-- ===== src/Signal/Backtrace/Line.antt =====
-- The lines of the call trace of `gt_backtrace_print` of user/core/gt_signal.c, for symbols such as
-- backtrace_symbols(3) writes them: "program(function) [address]".
use guitar_tea.Common.{
  ℕ, zero, suc, ◌+◌, ◌≤◌, ◌<◌, ◌≡◌, refl, inl, inr, Bool-cases, true, false, none, some, List, [],
  ◌∷◌, ◌++◌, arith, ltb, ◌==◌, if◌then◌else◌, length, has, has-append, length-append,
}
use mathlib.Core.List.{append_assoc}
use native.Mathlib.Nat.{add-zero}
use guitar_tea.Common.State.{Ensures}
use guitar_tea.Log.{Buffer, store, read_from}
use guitar_tea.Log.Buffer.{store-append, read-store-text}
use guitar_tea.Signal.Backtrace.{backtrace_buf_size, gt_strcut, text_at, backtrace_line}
use guitar_tea.Signal.Backtrace.Cut.{whole, piece, length-piece, gt_strcut-piece}

-- A text with no NUL in the frame, with a NUL behind it, is read back.
text_at-read :
    (left at : ℕ) (text : List ℕ) (frame : Buffer)
    → read_from at (length text) frame ≡ text
    → frame (at + length text) ≡ 0
    → has 0 text ≡ false
    → length text < left
    → text_at left at frame ≡ some text
unfolding text_at read_from
text_at-read zero at text frame same end clean room = absurd (omega arith)
text_at-read (suc left) at [] frame same end clean room =
    let zeroth : frame at ≡ 0 = rw (add-zero at) at end in rw zeroth
text_at-read (suc left) at (c ∷ text) frame same end clean room =
    let first : frame at ≡ c = cc in
    let others : read_from (at + 1) (length text) frame ≡ text = cc in
    let next : at + suc (length text) ≡ at + 1 + length text = omega arith in
    let last : frame (at + 1 + length text) ≡ 0 = rw next at end in
    let nonzero : (c == 0) ≡ false = ground arith in
    let more = text_at-read left (at + 1) text frame others last (ground arith) (omega arith) in
    rw (first, nonzero, more)

read-store_front :
    (text rest : List ℕ) (frame : Buffer)
    → read_from 0 (length text) (store 0 (text ++ rest) frame) ≡ text
unfolding read_from
read-store_front text rest frame =
    let e : 0 + length text ≡ length text = omega arith in
    rw e at (read-store-text 0 text rest frame)

store_end :
    (at : ℕ) (text : List ℕ) (frame : Buffer)
    → store at (text ++ 0 ∷ []) frame (at + length text) ≡ 0
unfolding store
store_end at text frame = rw (store-append at text (0 ∷ []) frame) (ground arith)

module _ (program function middle address : List ℕ) where
  -- A symbol, and what is printed for it.
  abbrev pub symbol : List ℕ
  symbol = whole program function (middle ++ piece address b'[' b']') b'(' b')'

  abbrev pub trace : List ℕ
  trace = piece address b'[' b']' ++ piece function b'(' b')'

  symbol-whole : symbol ≡ whole (program ++ (b'(' ∷ function ++ b')' ∷ middle)) address [] b'[' b']'
  symbol-whole = simp append_assoc

  module _ (open_last : has b'(' (function ++ b')' ∷ (middle ++ piece address b'[' b']')) ≡ false)
      (close_last : has b')' (middle ++ piece address b'[' b']') ≡ false)
      (bracket_last : has b'[' (address ++ b']' ∷ []) ≡ false) where
    first_cut :
        (frame : Buffer)
        → let text = piece address b'[' b']' in
          gt_strcut 0 symbol b'[' b']' true frame ≡ (
            if ltb (0 + length text) backtrace_buf_size
            then some (length text, store 0 (text ++ 0 ∷ []) frame)
            else none)
    first_cut frame = rw symbol-whole (
        gt_strcut-piece (program ++ (b'(' ∷ function ++ b')' ∷ middle)) address [] b'[' b']' 0 frame
          bracket_last refl)

    second_cut :
        (at : ℕ) (frame : Buffer)
        → let text = piece function b'(' b')' in
          gt_strcut at symbol b'(' b')' true frame ≡ (
            if ltb (at + length text) backtrace_buf_size
            then some (length text, store at (text ++ 0 ∷ []) frame)
            else none)
    second_cut at frame =
        gt_strcut-piece program function (middle ++ piece address b'[' b']') b'(' b')' at frame
          open_last close_last

    -- Where the last brackets stand around the address and the function, and these leave no place for
    -- the NUL in the frame of 128 bytes, the line of the symbol is written beyond the end of the frame.
    pub backtrace_line-overflow :
        (frame : Buffer)
        → 124 ≤ length address + length function
        → backtrace_line symbol frame ≡ none
    unfolding backtrace_line
    backtrace_line-overflow frame long =
        let n = length-piece address b'[' b']' in
        let k = length-piece function b'(' b')' in
        let text = piece address b'[' b']' in
        elim (Bool-cases (ltb (0 + length text) backtrace_buf_size)) [
          | inl fits ↦
              let full : ltb (length text + length (piece function b'(' b')')) backtrace_buf_size
                  ≡ false =
                ground arith in
              rw (
                first_cut frame,
                fits,
                second_cut (length text) (store 0 (text ++ 0 ∷ []) frame),
                full,
              )
          | inr full ↦ rw (first_cut frame, full)
        ]

    -- Where they do, the line is the address and the function, in their brackets.
    pub backtrace_line-trace :
        (frame : Buffer)
        → has 0 address ≡ false
        → has 0 function ≡ false
        → length address + length function < 124
        → Ensures (backtrace_line symbol frame) (λ line _. line ≡ trace ++ b'\n' ∷ [])
    unfolding backtrace_line
    backtrace_line-trace frame clean_address clean_function short =
        let one = piece address b'[' b']' in
        let two = piece function b'(' b')' in
        let n = length-piece address b'[' b']' in
        let k = length-piece function b'(' b')' in
        let f1 = store 0 (one ++ 0 ∷ []) frame in
        let f2 = store (length one) (two ++ 0 ∷ []) f1 in
        let fits1 : ltb (0 + length one) backtrace_buf_size ≡ true = ground arith in
        let fits2 : ltb (length one + length two) backtrace_buf_size ≡ true = ground arith in
        let clean : has 0 trace ≡ false = ground (
          arith,
          has-append 0 one two,
          has-append 0 address (b']' ∷ []),
          has-append 0 function (b')' ∷ []),
        ) in
        let all = length-append one two in
        let size : 0 + length trace ≡ length one + length two = omega (arith, all) in
        let same : read_from 0 (length trace) f2 ≡ trace =
          rw
            (all, read-store-text (length one) two (0 ∷ []) f1, read-store_front one (0 ∷ []) frame)
            refl in
        let end : f2 (0 + length trace) ≡ 0 = rw size (store_end (length one) two f1) in
        rw
          (
            first_cut frame,
            fits1,
            second_cut (length one) f1,
            fits2,
            text_at-read 128 0 trace f2 same end clean (omega arith),
          )
          refl
