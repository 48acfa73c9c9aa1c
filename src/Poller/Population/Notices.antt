-- ===== src/Poller/Population/Notices.antt =====
-- `gt_signal_ops_read` of user/core/gt_signal.c, in a process with any pollers and events.
use guitar_tea.Common.{ℕ, zero, suc, ◌+◌, ◌*◌, ◌≡◌, inl, inr, Bool, Bool-cases, some, List}
use guitar_tea.Common.State.{Ensures, Ensures-bind, pure}
use guitar_tea.Common.Int.{ℤ, pos, negsuc, gt_ok}
use guitar_tea.Dlist.{Ptr}
use guitar_tea.Os.{Os, World, GtEvent, Notice, load_event, read}
use guitar_tea.Signal.{
  first_byte, is_custom, is_core, handle_signal, after_read, gt_signal_ops_read,
}
use guitar_tea.Poller.Population.{Heap, Healthy}
use guitar_tea.Poller.Population.Handlers.{kernel-Healthy}
use guitar_tea.Poller.Population.Accept.{Grown}

module _ {os : Os} (heap : Heap os) (is_poller : Ptr → Bool) where
  noticed :
      (w v : World os.Kernel) (notices : List Notice)
      → Grown heap is_poller w v
      → Grown heap is_poller w (record v { notices = notices })
  noticed w v notices (healthy, same) = (
    record {
      sound = healthy.sound;
      poller_static = healthy.poller_static;
      event_apart = healthy.event_apart;
      event_live = healthy.event_live;
    },
    same,
  )

  handle_signal-Grown :
      (sig : ℕ) (w v : World os.Kernel)
      → Grown heap is_poller w v
      → Ensures (handle_signal os sig v) (λ _. Grown heap is_poller w)
  unfolding handle_signal
  handle_signal-Grown sig w v grown = elim (Bool-cases (is_custom sig)) [
    | inl custom ↦ rw custom (noticed w v _ grown)
    | inr other ↦ elim (Bool-cases (is_core sig)) [
      | inl core ↦ rw (other, core) (noticed w v _ grown)
      | inr none_of ↦ rw (other, none_of) grown
    ]
  ]

  after_read-Grown :
      (stack : ℕ) (ret : ℤ) (bytes : List ℕ) (w v : World os.Kernel)
      → Grown heap is_poller w v
      → Ensures (after_read os stack (ret, bytes) v) (λ _. Grown heap is_poller w)
  unfolding after_read
  after_read-Grown stack (pos zero) bytes w v grown = grown
  after_read-Grown stack (pos (suc zero)) bytes w v grown =
      let sig = first_byte bytes + 256 * stack in
      Ensures-bind {B = ℤ} (λ _. Grown heap is_poller w) (λ ret. Grown heap is_poller w)
        (handle_signal os sig v) (λ _. pure gt_ok) (handle_signal-Grown sig w v grown) (λ _ t g. g)
  after_read-Grown stack (pos (suc (suc n))) bytes w v grown = grown
  after_read-Grown stack (negsuc n) bytes w v grown = grown

  -- Reading the pipe of the signals does not fault and leaves a healthy process healthy, with all events
  -- that it had, whatever is read.
  pub gt_signal_ops_read-Grown :
      (stack : ℕ) (ge : Ptr) (g : GtEvent) (w : World os.Kernel)
      → Healthy heap is_poller w
      → w.event ge ≡ some g
      → Ensures (gt_signal_ops_read os stack ge w) (λ _. Grown heap is_poller w)
  unfolding gt_signal_ops_read load_event read
  gt_signal_ops_read-Grown stack ge g w healthy here =
      let (ret, bytes, k) = os.read g.efd 1 w.kernel in
      rw here (
        after_read-Grown stack ret bytes w (record w { kernel = k })
          (
            kernel-Healthy heap is_poller w k healthy (heap.read_keeps g.efd 1 w.kernel),
            λ a h e. e,
          ))
