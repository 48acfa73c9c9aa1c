-- ===== src/Main/Rounds.antt =====
-- The main loop `gt_do_run` of user/main/main.c, round after round.
use guitar_tea.Common.{ℕ, zero, suc, ◌%◌, ◌≡◌, Bool, true, false}
use guitar_tea.Common.State.{Ensures, Ensures-bind, Afterwards, Afterwards-both}
use guitar_tea.Common.Int.{ℤ, is_neg}
use guitar_tea.Dlist.{Ptr}
use guitar_tea.Os.{Os, World}
use guitar_tea.Poller.{gt_poller_epoll_wait}
use guitar_tea.Network.{datanet_pthread_num}
use guitar_tea.Boot.{run_ops}
use guitar_tea.Poller.Population.{Heap, Healthy}
use guitar_tea.Poller.Population.Loop.{AllReady, gt_poller_epoll_wait-Healthy}
use guitar_tea.Main.{Places, Server, gt_do_run}

module _ (os : Os) (at : Places) (server : Server) (stack : ℕ) where
  -- What the kernel reports in each round are different events that are there, have a reader, and are
  -- ready for EPOLLIN where they are for EPOLLOUT.
  abbrev pub RoundsReady : ℕ → World os.Kernel → Type 0
  RoundsReady zero w = Unit
  RoundsReady (suc rounds) w =
      let p = w.poller at.core_poller in
      AllReady w (os.epoll_wait p.epfd p.maxe p.timeout w.kernel).0
      × Afterwards
          (gt_poller_epoll_wait os (run_ops os at.network_poller at.data_of stack) at.core_poller w)
          (λ _. RoundsReady rounds)

  -- The main loop of a healthy process on an allocator that behaves as documented, for any number of
  -- rounds in which no read of a connection returns a negative number: where in each round the events that the kernel reports are different ones
  -- that are there and have a reader, where it reports EPOLLOUT only with EPOLLIN, and where the pollers
  -- of the datanet threads were set up, no round faults, whatever the readers find, accept and destroy,
  -- and the process is healthy in the end.
  pub gt_do_run-Healthy :
      (heap : Heap os) (is_poller : Ptr → Bool)
      → ((i : ℕ) → is_poller (at.data_of (i % datanet_pthread_num)) ≡ true)
      → ((fd : ℤ) (k : os.Kernel) → is_neg (os.read fd 127 k).0 ≡ false)
      → (rounds : ℕ) (w : World os.Kernel) → Healthy heap is_poller w
      → RoundsReady rounds w
      → Ensures (gt_do_run os at server stack rounds w) (λ _ t. Healthy heap is_poller t)
  unfolding gt_do_run
  gt_do_run-Healthy heap is_poller pollers reads zero w healthy ready = healthy
  gt_do_run-Healthy heap is_poller pollers reads (suc rounds) w healthy (now, later) =
      let run = run_ops os at.network_poller at.data_of stack in
      let round = gt_poller_epoll_wait os run at.core_poller w in
      Ensures-bind _ (λ _ t. Healthy heap is_poller t) round
        (λ _. gt_do_run os at server stack rounds)
        (Afterwards-both (λ _ t. Healthy heap is_poller t) (λ _. RoundsReady rounds) round
          (gt_poller_epoll_wait-Healthy heap is_poller at.network_poller at.data_of stack pollers
            reads at.core_poller w healthy now)
          later)
        (λ _ t (kept, next). gt_do_run-Healthy heap is_poller pollers reads rounds t kept next)
