-- ===== src/Signal/Delivery.antt =====
-- `gt_signal_ops_read` of user/core/gt_signal.c: which signals that come through the pipe are
-- handled.
use guitar_tea.Common.{
  ℕ, ◌+◌, ◌*◌, ◌%◌, ◌<◌, ◌≡◌, ◌≢◌, inl, inr, true, false, some, List, [], ◌∷◌, ◌++◌, arith, has,
  Bool-cases, if◌then◌else◌,
}
use guitar_tea.Common.Int.{pos, gt_ok}
use guitar_tea.Dlist.{Ptr}
use guitar_tea.Os.{Os, World, GtEvent, Notice, snap, dump, load_event, read}
use guitar_tea.Signal.{
  g_gt_sig_core, g_gt_sig_custom, is_custom, is_core, first_byte, int_bytes, handle_signal,
  after_read, gt_process_snap, gt_process_dump, gt_signal_ops_read,
}

-- What is logged for a signal, by the tables of the signals whose handler is set.
abbrev pub notices_of : ℕ → List Notice
notices_of sig =
    if has sig g_gt_sig_custom
    then snap sig ∷ []
    else if has sig g_gt_sig_core
    then dump sig ∷ []
    else []

is_custom-has : (sig : ℕ) → is_custom sig ≡ has sig g_gt_sig_custom
is_custom-has sig = ground arith

is_core-has : (sig : ℕ) → is_core sig ≡ has sig g_gt_sig_core
is_core-has sig = ground arith

module _ (os : Os) where
  handle_signal-run :
      (sig : ℕ) (w : World os.Kernel)
      → handle_signal os sig w ≡ some (tt, record w { notices = notices_of sig ++ w.notices })
  unfolding handle_signal gt_process_snap gt_process_dump
  handle_signal-run sig w = elim (Bool-cases (is_custom sig)) [
    | inl labelled ↦
        let h : has sig g_gt_sig_custom ≡ true = ground (arith, is_custom-has sig) in
        rw (labelled, h)
    | inr unlabelled ↦
        let h : has sig g_gt_sig_custom ≡ false = ground (arith, is_custom-has sig) in
        elim (Bool-cases (is_core sig)) [
          | inl labelled ↦
              let i : has sig g_gt_sig_core ≡ true = ground (arith, is_core-has sig) in
              rw (unlabelled, h, labelled, i)
          | inr neither ↦
              let i : has sig g_gt_sig_core ≡ false = ground (arith, is_core-has sig) in
              rw (unlabelled, h, neither, i)
        ]
  ]

module _ (os : Os) (ge : Ptr) (g : GtEvent) (w : World os.Kernel) (here : w.event ge ≡ some g)
    (sig : ℕ) (k : os.Kernel)
    (reads : os.read g.efd 1 w.kernel ≡ (pos 1, first_byte (int_bytes sig) ∷ [], k)) where
  -- When the first byte that gt_signal_deliver wrote for a signal below 256 is read, and the
  -- variable that the byte is read into was 0, the signal is handled as the tables say: snapped
  -- when it is in g_gt_sig_custom, dumped when it is in g_gt_sig_core, and ignored otherwise.
  pub gt_signal_ops_read-handle :
      sig < 256
      → gt_signal_ops_read os 0 ge w
        ≡ some (gt_ok, record w { kernel = k; notices = notices_of sig ++ w.notices })
  unfolding gt_signal_ops_read load_event read after_read
  gt_signal_ops_read-handle small =
      let byte : sig % 256 + 0 ≡ sig = ground arith in
      rw (here, reads, byte, handle_signal-run os sig (record w { kernel = k }))

  -- When the first byte of a signal is read into a variable whose upper bytes are not all 0,
  -- gt_signal_ops_read returns GT_OK and handles no signal, whichever it is.
  pub gt_signal_ops_read-lost :
      (stack : ℕ)
      → stack ≢ 0
      → gt_signal_ops_read os stack ge w ≡ some (gt_ok, record w { kernel = k })
  unfolding gt_signal_ops_read load_event read after_read
  gt_signal_ops_read-lost stack dirty =
      let value = sig % 256 + 256 * stack in
      let h : has value g_gt_sig_custom ≡ false = ground arith in
      let i : has value g_gt_sig_core ≡ false = ground arith in
      rw (here, reads, handle_signal-run os value (record w { kernel = k }), h, i)
