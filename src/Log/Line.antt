-- ===== src/Log/Line.antt =====
-- What `gt_log_print` of user/core/gt_log.c writes, by the length of the line.
use guitar_tea.Common.{
  ℕ, ◌+◌, ◌-◌, ◌≤◌, ◌<◌, ◌≡◌, ap, ◌∙◌, true, Option, some, List, [], ◌∷◌, ◌++◌, arith, length, take,
  take-of_le, length-take, if◌then◌else◌, ltb, leb,
}
use guitar_tea.Common.State.{Ensures}
use guitar_tea.Common.Int.{ℤ}
use guitar_tea.Log.{
  LogCall, Buffer, zeroed, store, read_from, write_out, level_tag, log_length, end_line,
  gt_log_print, log_buf_max_len, std_output_fd,
}
use guitar_tea.Log.Buffer.{read-store-text, print_at-room, size-room}

abbrev pub newline : List ℕ
newline = b'\n' ∷ []

-- Every library function succeeds, and the time and the tag leave room in the buffer.
pub record Answers (c : LogCall) : Type 0 where
  pub clock : c.clock_read ≡ true
  pub tag : c.tag_printed ≡ true
  pub message : c.message_printed ≡ true
  pub end : c.end_printed ≡ true
  pub short : length c.time + length (level_tag c.level) < 1022

-- Standard output if the caller asks for it, and the log otherwise.
abbrev pub target : ℤ → LogCall → ℤ
target log_fd c = if c.stdfd_flag then std_output_fd else log_fd

-- The function has written the line, and nothing else.
abbrev pub Wrote : ℤ → LogCall → List ℕ → Option (ℤ × List ℕ) → Buffer → Type 0
Wrote log_fd c line out buf = out ≡ some (target log_fd c, line)

module _ (log_fd : ℤ) (c : LogCall) (answers : Answers c) where
  open answers use {clock, tag, message, end, short}

  abbrev t : ℕ
  t = length c.time

  abbrev l : ℕ
  l = length (level_tag c.level)

  abbrev m : ℕ
  m = length c.message

  -- What the third print stores of the message.
  abbrev shown : List ℕ
  shown = take (1022 - (t + l)) c.message

  abbrev printed : Buffer
  printed =
      store (t + l) (shown ++ 0 ∷ [])
        (store t (level_tag c.level ++ 0 ∷ []) (store 0 (c.time ++ 0 ∷ []) zeroed))

  gt_log_print-end_line :
      gt_log_print log_fd c zeroed ≡ end_line log_fd c (log_length t l m) printed
  unfolding gt_log_print
  gt_log_print-end_line =
      let fits : ltb t 1023 ≡ true = ground arith in
      rw (
        clock,
        fits,
        tag,
        size-room t (omega arith),
        print_at-room t (1022 - t) (level_tag c.level) (store 0 (c.time ++ 0 ∷ []) zeroed)
            (omega arith),
        message,
        take-of_le (1022 - t) (level_tag c.level) (omega arith),
        size-room (t + l) (omega arith),
        print_at-room (t + l) (1022 - (t + l)) c.message
            (store t (level_tag c.level ++ 0 ∷ []) (store 0 (c.time ++ 0 ∷ []) zeroed))
            (omega arith),
      )

  time-stored : read_from 0 t (store 0 (c.time ++ 0 ∷ []) zeroed) ≡ c.time
  unfolding read_from
  time-stored =
      let e : 0 + t ≡ t = omega arith in rw e at (read-store-text 0 c.time (0 ∷ []) zeroed)

  content : read_from 0 (t + l + length shown) printed ≡ (c.time ++ level_tag c.level) ++ shown
  content =
      read-store-text (t + l) shown (0 ∷ [])
        (store t (level_tag c.level ++ 0 ∷ []) (store 0 (c.time ++ 0 ∷ []) zeroed))
      ∙ ap (λ x. x ++ shown)
          (read-store-text t (level_tag c.level) (0 ∷ []) (store 0 (c.time ++ 0 ∷ []) zeroed)
            ∙ ap (λ x. x ++ level_tag c.level) time-stored)

  end_line-newline :
      (n : ℕ) (buf : Buffer)
      → n < 1022
      → Ensures (end_line log_fd c n buf) (Wrote log_fd c (read_from 0 n buf ++ newline))
  unfolding end_line write_out
  end_line-newline n buf lt =
      let whole : take (1022 - n) newline ≡ newline = take-of_le (1022 - n) newline (omega arith) in
      let inside : leb (n + 1) log_buf_max_len ≡ true = ground arith in
      rw
        (
          end,
          size-room n (omega arith),
          print_at-room n (1022 - n) newline buf (omega arith),
          whole,
          inside,
        )
        (ap (λ x. some (target log_fd c, x)) (read-store-text n newline (0 ∷ []) buf))

  end_line-nul :
      (n : ℕ) (buf : Buffer)
      → n ≡ 1022
      → Ensures (end_line log_fd c n buf) (Wrote log_fd c (read_from 0 n buf ++ 0 ∷ []))
  unfolding end_line write_out
  end_line-nul n buf e =
      let none_fits : take (1022 - n) newline ≡ [] = rw e in
      let inside : leb (n + 1) log_buf_max_len ≡ true = ground arith in
      rw
        (
          end,
          size-room n (omega arith),
          print_at-room n (1022 - n) newline buf (omega arith),
          none_fits,
          inside,
        )
        (ap (λ x. some (target log_fd c, x)) (read-store-text n (0 ∷ []) [] buf))

  print_short :
      t + l + m < 1022
      → Ensures
          (gt_log_print log_fd c zeroed)
          (Wrote log_fd c (((c.time ++ level_tag c.level) ++ shown) ++ newline))
  unfolding log_length
  print_short lt =
      let size : length shown ≡ m =
        ap length (take-of_le (1022 - (t + l)) c.message (omega arith)) in
      let n : log_length t l m ≡ t + l + length shown = ground arith in
      rw (gt_log_print-end_line, n)
        (rw content at (end_line-newline (t + l + length shown) printed (omega arith)))

  -- Where the library functions succeed and the time and the tag are below 1022 bytes, a line of
  -- fewer than 1022 bytes is written whole, in one write, with a newline behind it.
  pub gt_log_print-newline :
      t + l + m < 1022
      → Ensures
          (gt_log_print log_fd c zeroed)
          (Wrote log_fd c (((c.time ++ level_tag c.level) ++ c.message) ++ newline))
  gt_log_print-newline lt =
      rw (take-of_le (1022 - (t + l)) c.message (omega arith)) at (print_short lt)

  -- Where the library functions succeed and the time and the tag are below 1022 bytes, a line of
  -- 1022 or 1023 bytes is cut to 1022, and ends in a NUL in
  -- place of the newline.
  pub gt_log_print-nul :
      1022 ≤ t + l + m
      → t + l + m ≤ 1023
      → Ensures
          (gt_log_print log_fd c zeroed)
          (Wrote log_fd c (((c.time ++ level_tag c.level) ++ shown) ++ 0 ∷ []))
  unfolding log_length
  gt_log_print-nul ge le =
      let size : length shown ≡ 1022 - (t + l) =
        length-take (1022 - (t + l)) c.message (omega arith) in
      let n : log_length t l m ≡ t + l + length shown = ground arith in
      rw (gt_log_print-end_line, n)
        (rw content at (end_line-nul (t + l + length shown) printed (omega arith)))
