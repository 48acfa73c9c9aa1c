-- ===== src/Poller/Restart.antt =====
-- A source of user/core/gt_poller.c that is stopped and started again.
use guitar_tea.Common.{ℕ, ◌≡◌, refl, Bool, true, some, arith, ◌==◌}
use guitar_tea.Common.State.{Ensures}
use guitar_tea.Common.Int.{ℤ, gt_error}
use guitar_tea.Dlist.{Ptr}
use guitar_tea.Os.{Os, World, GtEvent, ctl_add, ctl_mod, epoll_ctl, put_event, call}
use guitar_tea.Poller.{epollin, gt_poller_event_start, gt_poller_event_stop}
use guitar_tea.Poller.Interest.{gt_poller_event_stop-mod, event_start-add}

-- What epoll_ctl(2) says of the set of descriptors that an epoll instance waits for: EPOLL_CTL_MOD
-- leaves a descriptor in the set, and EPOLL_CTL_ADD of a descriptor that is in it fails (EEXIST).
pub record EpollSet (os : Os) : Type 0 where
  pub is_in : os.Kernel → (epfd fd : ℤ) → Bool
  pub mod_keeps :
      (k : os.Kernel) (epfd fd : ℤ) (events : ℕ) (ptr : Ptr)
      → is_in k epfd fd ≡ true
      → is_in (os.answer (epoll_ctl epfd ctl_mod fd events ptr) k).1 epfd fd ≡ true
  pub add_exists :
      (k : os.Kernel) (epfd fd : ℤ) (events : ℕ) (ptr : Ptr)
      → is_in k epfd fd ≡ true
      → (os.answer (epoll_ctl epfd ctl_add fd events ptr) k).0 ≡ gt_error

module _ (os : Os) (set : EpollSet os) (ge : Ptr) (g : GtEvent) (w : World os.Kernel)
    (here : w.event ge ≡ some g) where
  -- A source that waits for EPOLLIN only and is in the epoll set of its poller cannot be started
  -- again once it was stopped: the start asks for EPOLL_CTL_ADD and returns -1.
  pub gt_poller_restart_fails :
      g.events ≡ epollin
      → set.is_in w.kernel (w.poller g.gpoller).epfd g.efd ≡ true
      → Ensures
          (gt_poller_event_stop os epollin ge w)
          (λ _ t. Ensures (gt_poller_event_start os epollin ge t) (λ ret _. ret ≡ gt_error))
  unfolding call
  gt_poller_restart_fails waits known =
      let same : (ge == ge) ≡ true = ground arith in
      let epfd = (w.poller g.gpoller).epfd in
      let stopped : GtEvent = record g { events = 0 } in
      let k = (os.answer (epoll_ctl epfd ctl_mod g.efd 0 g.data_ptr) w.kernel).1 in
      let t : World os.Kernel = record (put_event ge (some stopped) w) { kernel = k } in
      let there : t.event ge ≡ some stopped = rw same in
      rw (gt_poller_event_stop-mod os ge g w here epollin, waits)
        (rw (event_start-add os ge stopped t there refl)
          (set.add_exists k epfd g.efd 1 ge (set.mod_keeps w.kernel epfd g.efd 0 g.data_ptr known)))
