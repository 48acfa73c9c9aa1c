-- ===== src/Network/Race.antt =====
-- A connection that the network thread hands over before the datanet thread has set its poller up: both
-- threads are woken at once (user/core/gt_worker.c), and `gt_poller_init` is called by the datanet
-- thread.
use guitar_tea.Common.{
  ℕ, ◌+◌, ◌*◌, ◌%◌, ◌≡◌, ◌≢◌, ◌⊎◌, refl, ap, inl, inr, ◌∙◌, true, false, Bool, some, [], Bool-cases,
  ==_self, ◌==◌, arith,
}
use guitar_tea.Common.State.{Ensures, Ensures-bind, Ensures-mono, ◌>>=◌}
use guitar_tea.Common.Int.{ℤ, gt_ok, gt_error, is_neg}
use guitar_tea.Dlist.{Ptr, init_list_head}
use guitar_tea.Dlist.Ring.{IsRing}
use guitar_tea.Dlist.Remove.{singleton-IsRing}
use guitar_tea.Os.{Os, World, epoll_create, on_lists, load_poller, store_poller, call, malloc}
use guitar_tea.Poller.{elist, ge_list, sizeof_gt_event, sizeof_epoll_event, gt_poller_init}
use guitar_tea.Network.{
  datanet_pthread_num, size_of_fd, networker_maxevent, networker_epwait_timeout,
  gt_network_round_dispatch,
}
use guitar_tea.Network.Connect.{connection, gt_network_round_dispatch-Connected}

-- What epoll_create(2) and malloc(3) say of the epoll sets: a new set has no descriptor, and new memory
-- changes no set.
pub record EpollSets (os : Os) : Type 0 where
  pub watches : os.Kernel → (epfd fd : ℤ) → Bool
  pub create_empty :
      (k : os.Kernel) (size : ℕ) (fd : ℤ)
      → watches (os.answer (epoll_create size) k).1 (os.answer (epoll_create size) k).0 fd ≡ false
  pub malloc_keeps :
      (k : os.Kernel) (size : ℕ) (epfd fd : ℤ)
      → watches (os.malloc size k).1 epfd fd ≡ watches k epfd fd

module _ (os : Os) (sets : EpollSets os) where
  open sets use {watches}

  -- The poller has no event source, neither in its list nor in its epoll set.
  abbrev pub HasNone : Ptr → World os.Kernel → Type 0
  HasNone gp t =
      IsRing t.lists (elist gp) [] × ((fd : ℤ) → watches t.kernel (t.poller gp).epfd fd ≡ false)

  -- Where the head of the poller's list is mapped, gt_poller_init does not fault and leaves the events
  -- alone; it returns GT_ERROR, or GT_OK and leaves the poller with no event source, whatever it had.
  pub gt_poller_init-HasNone :
      (maxe timeout : ℕ) (gp : Ptr) (w : World os.Kernel)
      → w.lists.mapped (elist gp) ≡ true
      → Ensures
          (gt_poller_init os maxe timeout gp w)
          (λ ret t. (t.event ≡ w.event) × ((ret ≡ gt_error) ⊎ ((ret ≡ gt_ok) × HasNone gp t)))
  unfolding gt_poller_init load_poller store_poller call malloc on_lists init_list_head
  gt_poller_init-HasNone maxe timeout gp w head =
      let epfd = (os.answer (epoll_create (maxe + 1)) w.kernel).0 in
      let k = (os.answer (epoll_create (maxe + 1)) w.kernel).1 in
      let size = maxe * sizeof_epoll_event in
      elim (Bool-cases (is_neg epfd)) [
        | inl failed ↦ rw failed (refl, inl refl)
        | inr made ↦ elim (Bool-cases ((os.malloc size k).0 == 0)) [
          | inl full ↦ rw (made, full) (refl, inl refl)
          | inr found ↦
              rw (made, found, head, head, ==_self gp)
                (
                  refl,
                  inr (
                    refl,
                    (
                      singleton-IsRing w.lists (elist gp) head,
                      λ fd.
                          sets.malloc_keeps k size epfd fd
                          ∙ sets.create_empty w.kernel (maxe + 1) fd,
                    ),
                  ),
                )
        ]
      ]

-- Memory for the event of an accepted connection is found, which is not that of the head of the list
-- of the poller that its descriptor modulo 4 selects, and epoll_create and malloc behave as
-- documented: where gt_network_round_dispatch runs before the datanet thread calls gt_poller_init for
-- that poller, neither faults and the event of the connection stays allocated, but gt_poller_init
-- fails or leaves a poller whose list is empty and whose epoll set does not have the connection.
pub dispatch_before_init :
    (os : Os) (sets : EpollSets os) (network_poller : Ptr) (data_of : ℕ → Ptr) (sockfd : ℤ)
    (ge : Ptr) (w : World os.Kernel) (k : os.Kernel)
    → os.malloc sizeof_gt_event w.kernel ≡ (ge, k)
    → ge ≢ 0
    → (gp : Ptr) → data_of (size_of_fd sockfd % datanet_pthread_num) ≡ gp
    → w.lists.mapped (elist gp) ≡ true
    → elist gp ≢ ge_list ge
    → Ensures
        ((do
          _ ← gt_network_round_dispatch os network_poller data_of sockfd
          gt_poller_init os networker_maxevent networker_epwait_timeout gp)
          w)
        (λ ret t.
          (t.event ge ≡ some (connection os sockfd gp ge))
          × ((ret ≡ gt_error) ⊎ ((ret ≡ gt_ok) × HasNone os sets gp t)))
dispatch_before_init os sets network_poller data_of sockfd ge w k fresh found gp selected head
      apart =
    Ensures-bind _ _ (gt_network_round_dispatch os network_poller data_of sockfd w)
      (λ _. gt_poller_init os networker_maxevent networker_epwait_timeout gp)
      (gt_network_round_dispatch-Connected os network_poller data_of sockfd ge w k fresh found gp
        selected head apart)
      (λ _ t handed.
        Ensures-mono (gt_poller_init os networker_maxevent networker_epwait_timeout gp t)
          (gt_poller_init-HasNone os sets networker_maxevent networker_epwait_timeout gp t
            (handed.1.mapped (elist gp) (ground arith)))
          (λ ret u set_up. (ap (λ e. e ge) set_up.0 ∙ handed.0, set_up.1)))
