-- ===== src/Log/Buffer.antt =====
-- What the buffer of user/core/gt_log.c holds after the writes.
use mathlib.Core.Path.{ap₂}
use guitar_tea.Common.{
  ℕ, zero, suc, ◌+◌, ◌-◌, ◌^◌, ◌≤◌, ◌<◌, ◌≡◌, refl, ap, ◌∙◌, true, false, none, some, List, [], ◌∷◌,
  ◌++◌, arith, leb, length, take, take-of_le, length-take-le, length-append,
}
use guitar_tea.Log.{Buffer, store, read_from, print_at, size_of_diff, log_buf_max_len}

pub store-below :
    (at : ℕ) (text : List ℕ) (buf : Buffer) (i : ℕ) → i < at → store at text buf i ≡ buf i
unfolding store
store-below at [] buf i lt = refl
store-below at (c ∷ text) buf i lt = store-below (at + 1) text _ i (omega arith) ∙ ground arith

read-store-below :
    (from n at : ℕ) (text : List ℕ) (buf : Buffer)
    → from + n ≤ at
    → read_from from n (store at text buf) ≡ read_from from n buf
unfolding read_from
read-store-below from zero at text buf le = refl
read-store-below from (suc n) at text buf le =
    ap₂ ◌∷◌ (store-below at text buf from (omega arith))
      (read-store-below (from + 1) n at text buf (omega arith))

read-store :
    (at : ℕ) (text : List ℕ) (buf : Buffer) → read_from at (length text) (store at text buf) ≡ text
unfolding read_from store
read-store at [] buf = refl
read-store at (c ∷ text) buf =
    ap₂ ◌∷◌ (store-below (at + 1) text _ at (omega arith) ∙ ground arith)
      (read-store (at + 1) text _)

read_from-add :
    (from n k : ℕ) (buf : Buffer)
    → read_from from (n + k) buf ≡ read_from from n buf ++ read_from (from + n) k buf
unfolding read_from
read_from-add from zero k buf =
    let e : 0 + k ≡ k = omega arith in let f : from + 0 ≡ from = omega arith in rw (e, f)
read_from-add from (suc n) k buf =
    let e : suc n + k ≡ suc (n + k) = omega arith in
    let f : from + suc n ≡ from + 1 + n = omega arith in
    rw (e, f) (ap (λ t. buf from ∷ t) (read_from-add (from + 1) n k buf))

pub store-append :
    (at : ℕ) (xs ys : List ℕ) (buf : Buffer)
    → store at (xs ++ ys) buf ≡ store (at + length xs) ys (store at xs buf)
unfolding store
store-append at [] ys buf = let e : at + 0 ≡ at = omega arith in rw e
store-append at (x ∷ xs) ys buf =
    let e : at + suc (length xs) ≡ at + 1 + length xs = omega arith in
    rw e (store-append (at + 1) xs ys _)

-- A text stored behind what the buffer already holds comes to stand behind it.
pub read-store-text :
    (at : ℕ) (text rest : List ℕ) (buf : Buffer)
    → read_from 0 (at + length text) (store at (text ++ rest) buf) ≡ read_from 0 at buf ++ text
read-store-text at text rest buf =
    let e : 0 + at ≡ at = omega arith in
    read_from-add 0 at (length text) (store at (text ++ rest) buf)
    ∙ ap₂ ◌++◌ (read-store-below 0 at at (text ++ rest) buf (omega arith)) (
        rw (e, store-append at text rest buf)
          (read-store-below at (length text) (at + length text) rest (store at text buf)
              (omega arith)
            ∙ read-store at text buf))

-- A print inside of the buffer stores what fits into its room, with a NUL behind it.
pub print_at-room :
    (at room : ℕ) (text : List ℕ) (buf : Buffer)
    → at + room < log_buf_max_len
    → print_at at (suc room) text buf ≡ some (length text, store at (take room text ++ 0 ∷ []) buf)
unfolding print_at
print_at-room at room text buf inside =
    let here : leb (at + length (take room text ++ 0 ∷ [])) log_buf_max_len ≡ true =
      ground (arith, length-append (take room text) (0 ∷ []), length-take-le room text) in
    rw here

-- A print whose text would pass the end of the buffer faults.
pub print_at-fault :
    (at room : ℕ) (text : List ℕ) (buf : Buffer)
    → length text ≤ room
    → log_buf_max_len ≤ at + length text
    → print_at at (suc room) text buf ≡ none
unfolding print_at
print_at-fault at room text buf fits outside =
    let there : leb (at + length (text ++ 0 ∷ [])) log_buf_max_len ≡ false =
      ground (arith, length-append text (0 ∷ [])) in
    rw (take-of_le room text fits, there)

-- The room that is left behind `n` bytes, in the size that is passed for it.
pub size-room : (n : ℕ) → n < 1023 → size_of_diff log_buf_max_len (n + 1) ≡ suc (1022 - n)
size-room n lt = omega arith

-- Where the difference is below 0 the size is as good as unbounded.
pub size-huge :
    (n : ℕ) → 1023 < n → n < 2 ^ 32 → size_of_diff log_buf_max_len (n + 1) ≡ suc (2 ^ 64 + 1022 - n)
size-huge n lt small = omega arith
