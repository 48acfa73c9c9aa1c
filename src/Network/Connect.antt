-- ===== src/Network/Connect.antt =====
-- How `gt_network_round_dispatch` of user/core/gt_network.c hands an accepted connection over to a
-- datanet poller.
use guitar_tea.Common.{
  ℕ, ◌%◌, ◌≡◌, ◌≢◌, refl, inl, inr, true, false, not, some, [], ◌∷◌, arith, Bool-cases, ◌==◌,
  if◌then◌else◌,
}
use guitar_tea.Common.State.{Ensures, Ensures-bind, pure, ◌>>=◌, ◌>>◌}
use guitar_tea.Common.Int.{ℤ, gt_ok, gt_error, is_ok}
use guitar_tea.Dlist.{Ptr}
use guitar_tea.Dlist.Ring.{IsRing}
use guitar_tea.Os.{
  Os, World, ctl_add, epoll_ctl, GtEvent, datanet_ops_read, load_event, store_event, call,
}
use guitar_tea.Poller.{
  epollin, ge_list, elist, no_event, sizeof_gt_event, gt_poller_event_start,
  gt_poller_gevent_create,
}
use guitar_tea.Poller.Interest.{event_start-add}
use guitar_tea.Poller.Sources.{gt_poller_gevent_create-singleton}
use guitar_tea.Network.{datanet_pthread_num, size_of_fd, with_read, gt_network_round_dispatch}

module _ (os : Os) (sockfd : ℤ) (gp ge : Ptr) where
  abbrev created : GtEvent
  created = record no_event { efd = sockfd; gpoller = gp }

  -- The event of the connection, which the poller `gp` watches for input.
  abbrev pub connection : GtEvent
  connection = record created { ops_read = some datanet_ops_read; events = epollin; data_ptr = ge }

  abbrev pub Connected : ℤ → World os.Kernel → Type 0
  Connected ret t = (t.event ge ≡ some connection) × IsRing t.lists (elist gp) (ge_list ge ∷ [])

  start-Connected :
      (t : World os.Kernel)
      → IsRing t.lists (elist gp) (ge_list ge ∷ [])
      → t.event ge ≡ some created
      → Ensures
          ((do
            g ← load_event ge
            store_event ge (with_read datanet_ops_read g)
            ret ← gt_poller_event_start os epollin ge
            if not (is_ok ret) then pure gt_error else pure gt_ok)
            t)
          Connected
  unfolding load_event store_event call
  start-Connected t r here =
      let same : (ge == ge) ≡ true = ground arith in
      let reading : GtEvent = with_read datanet_ops_read created in
      let u : World os.Kernel = record t {
        event = λ a. if a == ge then some reading else t.event a;
      } in
      let there : u.event ge ≡ some reading = rw same in
      let ret = (os.answer (epoll_ctl (t.poller gp).epfd ctl_add sockfd 1 ge) t.kernel).0 in
      rw (here, event_start-add os ge reading u there refl)
        (elim (Bool-cases (is_ok ret)) [
          | inl done ↦ rw done (rw same, r)
          | inr failed ↦ rw failed (rw same, r)
        ])

module _ (os : Os) (network_poller : Ptr) (data_of : ℕ → Ptr) (sockfd : ℤ) (ge : Ptr)
    (w : World os.Kernel) (k : os.Kernel) (fresh : os.malloc sizeof_gt_event w.kernel ≡ (ge, k))
    (found : ge ≢ 0) where
  -- Memory for the event of an accepted connection, which is not that of the head of the list of the
  -- poller that its descriptor modulo 4 selects, is found: gt_network_round_dispatch does not fault,
  -- and whatever it returns, the event is set up to read the connection, belongs to that poller, and
  -- is the only entry of the poller's list.
  pub gt_network_round_dispatch-Connected :
      (gp : Ptr)
      → data_of (size_of_fd sockfd % datanet_pthread_num) ≡ gp
      → w.lists.mapped (elist gp) ≡ true
      → elist gp ≢ ge_list ge
      → Ensures
          (gt_network_round_dispatch os network_poller data_of sockfd w)
          (Connected os sockfd gp ge)
  unfolding gt_network_round_dispatch
  gt_network_round_dispatch-Connected gp selected head apart =
      let some_ge : (ge == 0) ≡ false = ground arith in
      rw selected (
        Ensures-bind
          (λ p t.
            (p ≡ ge)
            × (t.event ge ≡ some (created os sockfd gp ge))
            × IsRing t.lists (elist gp) (ge_list ge ∷ []))
          (Connected os sockfd gp ge) (gt_poller_gevent_create os sockfd gp w) _
          (gt_poller_gevent_create-singleton os sockfd gp ge w k fresh found head apart)
          (λ p t q. rw (q.0, some_ge) (start-Connected os sockfd gp ge t q.2 q.1)))
