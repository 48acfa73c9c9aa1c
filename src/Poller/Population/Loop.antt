-- ===== src/Poller/Population/Loop.antt =====
-- One round of `gt_poller_epoll_wait` of user/core/gt_poller.c over events with the readers of
-- user/core/gt_signal.c and user/core/gt_network.c.
use Prim.Native.Nat.{bit_and}
use guitar_tea.Common.{
  ℕ, ◌%◌, ◌≡◌, ◌≢◌, sym, ◌∙◌, ◌⊎◌, inl, inr, Bool, Bool-cases, true, false, some, List, [], ◌∷◌,
  ◌==◌,
}
use mathlib.Core.Bool.{true≢false}
use guitar_tea.Common.State.{Ensures, Ensures-mono, Ensures-bind, Cmd}
use guitar_tea.Common.Int.{ℤ, is_neg}
use guitar_tea.Dlist.{Ptr}
use guitar_tea.Os.{
  Os, World, GtEvent, ReadFn, signal_ops_read, datanet_ops_read, network_ops_read, load_event,
  load_poller, epoll_wait,
}
use guitar_tea.Poller.{epollin, epollout, dispatch, dispatch_all, call_fn, gt_poller_epoll_wait}
use guitar_tea.Network.{datanet_pthread_num}
use guitar_tea.Signal.{gt_signal_ops_read}
use guitar_tea.Network.{gt_network_ops_read, gt_datanet_ops_read}
use guitar_tea.Boot.{run_ops}
use guitar_tea.Poller.Population.{Heap, Healthy}
use guitar_tea.Poller.Population.Handlers.{kernel-Healthy, gt_datanet_ops_read-Healthy}
use guitar_tea.Poller.Population.Notices.{gt_signal_ops_read-Grown}
use guitar_tea.Poller.Population.Accept.{Grown, gt_network_ops_read-Grown}

-- The event is there and has a function that reads it.
abbrev pub Registered : {K : Type 0} → World K → Ptr → Type 0
Registered w ge = (g : GtEvent) × (fn : ReadFn) × (w.event ge ≡ some g) × (g.ops_read ≡ some fn)

-- The kernel reports no EPOLLOUT without EPOLLIN: no event has a function that writes.
abbrev pub OnlyReads : ℕ → Type 0
OnlyReads events = (bit_and events epollin == 0) ≡ true → (bit_and events epollout == 0) ≡ true

abbrev pub NotAmong : Ptr → List (Ptr × ℕ) → Type 0
NotAmong ge [] = Unit
NotAmong ge ((a, events) ∷ rest) = (a ≢ ge) × NotAmong ge rest

-- The events that are ready are different ones, and there.
abbrev pub AllReady : {K : Type 0} → World K → List (Ptr × ℕ) → Type 0
AllReady w [] = Unit
AllReady w ((ge, events) ∷ rest) =
    Registered w ge × OnlyReads events × NotAmong ge rest × AllReady w rest

-- The events but that at `ge` are still there as they were.
abbrev OthersSurvive : {K : Type 0} → Ptr → World K → World K → Type 0
OthersSurvive ge w t = (a : Ptr) (g : GtEvent) → a ≢ ge → w.event a ≡ some g → t.event a ≡ some g

AllReady-kept :
    {K : Type 0} (ge : Ptr) (w t : World K) (ready : List (Ptr × ℕ))
    → OthersSurvive ge w t
    → NotAmong ge ready
    → AllReady w ready
    → AllReady t ready
AllReady-kept ge w t [] kept out all = tt
AllReady-kept ge w t ((a, events) ∷ rest) kept (n, out) ((g, fn, here, reader), only, once, all) =
    ((g, fn, kept a g n here, reader), only, once, AllReady-kept ge w t rest kept out all)

AllReady-kernel :
    {K : Type 0} (w : World K) (k : K) (ready : List (Ptr × ℕ))
    → AllReady w ready
    → AllReady (record w { kernel = k }) ready
AllReady-kernel w k [] all = tt
AllReady-kernel w k ((a, events) ∷ rest) (there, only, once, all) =
    (there, only, once, AllReady-kernel w k rest all)

module _ {os : Os} (heap : Heap os) (is_poller : Ptr → Bool) where
  module _ (network_poller : Ptr) (data_of : ℕ → Ptr) (stack : ℕ)
      (pollers : (i : ℕ) → is_poller (data_of (i % datanet_pthread_num)) ≡ true)
      (reads : (fd : ℤ) (k : os.Kernel) → is_neg (os.read fd 127 k).0 ≡ false) where
    abbrev run : ReadFn → Ptr → Cmd (World os.Kernel) ℤ
    run = run_ops os network_poller data_of stack

    -- The reader of an event leaves the others alone; where it returns a negative number, the event
    -- is still there.
    abbrev Handled : Ptr → World os.Kernel → ℤ → World os.Kernel → Type 0
    Handled ge w ret t =
        Healthy heap is_poller t
        × OthersSurvive ge w t
        × ((is_neg ret ≡ false) ⊎ ((g : GtEvent) × (t.event ge ≡ some g)))

    Grown-Handled :
        (ge : Ptr) (g : GtEvent) (w : World os.Kernel)
        → w.event ge ≡ some g
        → (ret : ℤ) (t : World os.Kernel) → Grown heap is_poller w t
        → Handled ge w ret t
    Grown-Handled ge g w here ret t (healthy, same) =
        (healthy, λ a h n e. same a h e, inr (g, same ge g here))

    run-Handled :
        (fn : ReadFn) (ge : Ptr) (g : GtEvent) (w : World os.Kernel)
        → Healthy heap is_poller w
        → w.event ge ≡ some g
        → Ensures (run fn ge w) (Handled ge w)
    run-Handled signal_ops_read ge g w healthy here =
        Ensures-mono (gt_signal_ops_read os stack ge w)
          (gt_signal_ops_read-Grown heap is_poller stack ge g w healthy here)
          (Grown-Handled ge g w here)
    run-Handled network_ops_read ge g w healthy here =
        Ensures-mono (gt_network_ops_read os network_poller data_of ge w)
          (gt_network_ops_read-Grown heap is_poller network_poller data_of ge g w healthy here
            pollers)
          (Grown-Handled ge g w here)
    run-Handled datanet_ops_read ge g w healthy here =
        Ensures-mono (gt_datanet_ops_read os ge w)
          (gt_datanet_ops_read-Healthy heap is_poller ge g w healthy here)
          (λ ret t (left, others, sign).
            (left, λ a h n e. others a n ∙ e, inl (sign (reads g.efd w.kernel))))

    abbrev HandledOne : Ptr → World os.Kernel → Unit {0} → World os.Kernel → Type 0
    HandledOne ge w _ t = Healthy heap is_poller t × OthersSurvive ge w t

    dispatch-HandledOne :
        (ge : Ptr) (events : ℕ) (w : World os.Kernel)
        → Healthy heap is_poller w
        → Registered w ge
        → OnlyReads events
        → Ensures (dispatch os run ge events w) (HandledOne ge w)
    unfolding dispatch call_fn load_event
    dispatch-HandledOne ge events w healthy (g, fn, here, reader) only =
        elim (Bool-cases (bit_and events epollin == 0)) [
          | inl idle ↦ rw (idle, only idle) (healthy, λ a h n e. e)
          | inr active ↦
              rw (active, here, reader)
                (Ensures-bind (Handled ge w) (HandledOne ge w) (run fn ge w) _
                  (run-Handled fn ge g w healthy here)
                  (λ ret t (left, others, still). elim (Bool-cases (is_neg ret)) [
                    | inr fine ↦ rw fine (left, others)
                    | inl negative ↦ elim still [
                      | inl fine ↦ absurd (true≢false (sym negative ∙ fine))
                      | inr (h, there) ↦ rw (negative, there) (left, others)
                    ]
                  ]))
        ]

    dispatch_all-Healthy :
        (ready : List (Ptr × ℕ)) (w : World os.Kernel)
        → Healthy heap is_poller w
        → AllReady w ready
        → Ensures (dispatch_all os run ready w) (λ _ t. Healthy heap is_poller t)
    unfolding dispatch_all
    dispatch_all-Healthy [] w healthy all = healthy
    dispatch_all-Healthy ((ge, events) ∷ rest) w healthy (there, only, once, all) =
        Ensures-bind (HandledOne ge w) _ (dispatch os run ge events w)
          (λ _. dispatch_all os run rest) (dispatch-HandledOne ge events w healthy there only)
          (λ _ t (left, others).
            dispatch_all-Healthy rest t left (AllReady-kept ge w t rest others once all))

    -- One round of the loop of any poller in a healthy process on an allocator that behaves as
    -- documented, in which no read of a connection returns a negative number: where the events that the kernel reports are different ones that are
    -- there and have a reader, where it reports EPOLLOUT only with EPOLLIN, and where the pollers of the
    -- datanet threads were set up, the round does not fault, whatever the readers find, accept and
    -- destroy, and leaves the process healthy.
    pub gt_poller_epoll_wait-Healthy :
        (gp : Ptr) (w : World os.Kernel)
        → Healthy heap is_poller w
        → AllReady w
            (os.epoll_wait (w.poller gp).epfd (w.poller gp).maxe (w.poller gp).timeout w.kernel).0
        → Ensures
            (gt_poller_epoll_wait os (run_ops os network_poller data_of stack) gp w)
            (λ _ t. Healthy heap is_poller t)
    unfolding gt_poller_epoll_wait load_poller epoll_wait
    gt_poller_epoll_wait-Healthy gp w healthy all =
        let p = w.poller gp in
        let (ready, k) = os.epoll_wait p.epfd p.maxe p.timeout w.kernel in
        dispatch_all-Healthy ready (record w { kernel = k })
          (kernel-Healthy heap is_poller w k healthy
            (heap.wait_keeps p.epfd p.maxe p.timeout w.kernel))
          (AllReady-kernel w k ready all)
