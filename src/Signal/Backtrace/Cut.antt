-- ===== src/Signal/Backtrace/Cut.antt =====
-- What `gt_strcut` of user/core/gt_signal.c cuts out of a text, and when it leaves its buffer.
use guitar_tea.Common.{
  ℕ, suc, ◌+◌, ◌-◌, ◌≡◌, refl, ap, sym, true, false, none, some, List, [], ◌∷◌, ◌++◌, arith, inl,
  inr, Bool-cases, ltb, leb, if◌then◌else◌, length, has, length-append, drop-append,
}
use mathlib.Core.List.{append_assoc}
use guitar_tea.Common.State.{pure, ◌>>◌}
use guitar_tea.Log.{Buffer, store}
use guitar_tea.Log.Buffer.{store-append}
use guitar_tea.Signal.Backtrace.{
  backtrace_buf_size, strrchr, padded, strncpy_at, set_byte, gt_strcut,
}

strrchr-none : (src : List ℕ) (c : ℕ) → has c src ≡ false → strrchr src c ≡ none
unfolding strrchr
strrchr-none [] c out = refl
strrchr-none (x ∷ src) c out = ground (arith, strrchr-none src c)

-- The last such byte is the one that none follows.
strrchr-append :
    (before after : List ℕ) (c : ℕ)
    → has c after ≡ false
    → strrchr (before ++ c ∷ after) c ≡ some (length before)
unfolding strrchr
strrchr-append [] after c out = ground (arith, strrchr-none after c)
strrchr-append (x ∷ before) after c out =
    let e : suc (length before) ≡ length before + 1 = omega arith in
    rw (strrchr-append before after c out, e)

padded-append : (text rest : List ℕ) → padded (length text) (text ++ rest) ≡ text
unfolding padded
padded-append [] rest = refl
padded-append (x ∷ text) rest = ap (λ t. x ∷ t) (padded-append text rest)

-- A text with `inside` between the two bytes, and what is to be cut out of it.
abbrev pub whole : (before inside after : List ℕ) (cstart cend : ℕ) → List ℕ
whole before inside after cstart cend = before ++ (cstart ∷ inside ++ cend ∷ after)

abbrev pub piece : (inside : List ℕ) (cstart cend : ℕ) → List ℕ
piece inside cstart cend = cstart ∷ inside ++ cend ∷ []

pub length-piece :
    (inside : List ℕ) (cstart cend : ℕ) → length (piece inside cstart cend) ≡ length inside + 2
length-piece inside cstart cend = omega (arith, length-append inside (cend ∷ []))

-- The copy of a piece and the NUL behind it.
copy_piece :
    (at : ℕ) (text rest : List ℕ) (frame : Buffer)
    → (strncpy_at at (length text) (text ++ rest)
          >> (set_byte (at + length text) 0 >> pure (length text)))
        frame
      ≡ (if ltb (at + length text) backtrace_buf_size
          then some (length text, store at (text ++ 0 ∷ []) frame)
          else none)
unfolding strncpy_at set_byte
copy_piece at text rest frame = elim (Bool-cases (ltb (at + length text) backtrace_buf_size)) [
  | inl fits ↦
      let room : leb (at + length text) backtrace_buf_size ≡ true = ground arith in
      rw (room, fits, padded-append text rest, store-append at text (0 ∷ []) frame)
  | inr full ↦ elim (Bool-cases (leb (at + length text) backtrace_buf_size)) [
    | inl room ↦ rw (room, full)
    | inr none_left ↦ rw (none_left, full)
  ]
]

module _ (before inside after : List ℕ) (cstart cend : ℕ) where
  -- Where `cstart` stands last in front of `inside`, and `cend` last behind it, gt_strcut copies
  -- `inside` with the two bytes around it and a NUL behind, and returns the length without the NUL;
  -- it writes beyond the frame exactly where the NUL has no place in it any more.
  pub gt_strcut-piece :
      (at : ℕ) (frame : Buffer)
      → has cstart (inside ++ cend ∷ after) ≡ false
      → has cend after ≡ false
      → let text = piece inside cstart cend in
        gt_strcut at (whole before inside after cstart cend) cstart cend true frame ≡ (
          if ltb (at + length text) backtrace_buf_size
          then some (length text, store at (text ++ 0 ∷ []) frame)
          else none)
  unfolding gt_strcut
  gt_strcut-piece at frame last_start last_end =
      let text = piece inside cstart cend in
      let rest = cstart ∷ inside ++ cend ∷ after in
      let begin = strrchr-append before (inside ++ cend ∷ after) cstart last_start in
      let end : strrchr (before ++ rest) cend ≡ some (length (before ++ cstart ∷ inside)) =
        rw (append_assoc before (cstart ∷ inside) (cend ∷ after)) at
          (strrchr-append (before ++ cstart ∷ inside) after cend last_end) in
      let stop : length (before ++ cstart ∷ inside) ≡ length before + length inside + 1 =
        omega (arith, length-append before (cstart ∷ inside)) in
      let ordered : ltb (length before + length inside + 1 + 1) (length before) ≡ false =
        ground arith in
      let n : length before + length inside + 1 + 1 - length before ≡ length text =
        omega (arith, length-piece inside cstart cend) in
      let split : rest ≡ text ++ after =
        ap (λ t. cstart ∷ t) (sym (append_assoc inside (cend ∷ []) after)) in
      rw (begin, end, stop, ordered, n, drop-append before rest, split)
        (copy_piece at text after frame)
