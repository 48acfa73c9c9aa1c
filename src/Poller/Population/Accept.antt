-- ===== src/Poller/Population/Accept.antt =====
-- `gt_network_round_dispatch`, `gt_network_ops_read` and `gt_network_listenning` of
-- user/core/gt_network.c, in a process with any pollers and events.
use guitar_tea.Common.{
  ℕ, ◌%◌, ◌≡◌, Bool-cases, inl, inr, Bool, true, not, some, ◌==◌, if◌then◌else◌,
}
use guitar_tea.Common.State.{Ensures, Ensures-mono, Ensures-bind, pure}
use guitar_tea.Common.Int.{ℤ, gt_ok, gt_error, is_ok, is_neg, is_minus_one}
use guitar_tea.Dlist.{Ptr}
use guitar_tea.Os.{
  Os, World, Call, GtEvent, ReadFn, datanet_ops_read, network_ops_read, load_event, call, errno,
  socket, set_reuseaddr, bind, listen, accept, fcntl_getfl, fcntl_setfl, close,
}
use guitar_tea.Poller.{gt_poller_gevent_create}
use guitar_tea.Network.{
  eagain, int_or, o_nonblock, networker_maxevent, close_error, unless_again, datanet_pthread_num,
  size_of_fd, gt_network_round_dispatch, gt_network_ops_read, gt_network_listenning,
}
use guitar_tea.Poller.Population.{Heap, Healthy, Survive}
use guitar_tea.Poller.Population.Create.{Created, gt_poller_gevent_create-Created}
use guitar_tea.Poller.Population.Handlers.{kernel-Healthy, register, Created-register}

module _ {os : Os} (heap : Heap os) (is_poller : Ptr → Bool) where
  -- The process is healthy, and has all events that it had.
  abbrev pub Grown : World os.Kernel → World os.Kernel → Type 0
  Grown w t = Healthy heap is_poller t × Survive w t

  -- A call of the kernel.
  called :
      (c : Call) (w v : World os.Kernel)
      → Grown w v
      → Grown w (record v { kernel = (os.answer c v.kernel).1 })
  called c w v (healthy, same) = (
    kernel-Healthy heap is_poller v (os.answer c v.kernel).1 healthy (heap.answer_keeps c v.kernel),
    same,
  )

  -- The creation of an event and what follows it.
  created :
      (fn : ReadFn) (ge gp : Ptr) (w v t : World os.Kernel) (otherwise : ℤ)
      → Grown w v
      → Created heap is_poller gp v ge t
      → Ensures
          ((if ge == 0 then pure otherwise else register heap is_poller fn ge) t)
          (λ _. Grown w)
  created fn ge gp w v t otherwise grown made = elim (Bool-cases (ge == 0)) [
    | inl no_memory ↦ rw no_memory (made.0, λ a g e. made.2 a g (grown.1 a g e))
    | inr some_ge ↦ rw some_ge (
        Ensures-mono (register heap is_poller fn ge t)
          (Created-register heap is_poller fn ge gp v t made some_ge)
          (λ _ u (left, kept). (left, λ a g e. kept a g (grown.1 a g e))))
  ]

  module _ (network_poller : Ptr) (data_of : ℕ → Ptr) where
    -- Handing a connection to a poller that was set up does not fault and leaves the process healthy,
    -- with all events that it had.
    pub gt_network_round_dispatch-Grown :
        (sockfd : ℤ) (w v : World os.Kernel)
        → Grown w v
        → is_poller (data_of (size_of_fd sockfd % datanet_pthread_num)) ≡ true
        → Ensures (gt_network_round_dispatch os network_poller data_of sockfd v) (λ _. Grown w)
    unfolding gt_network_round_dispatch register
    gt_network_round_dispatch-Grown sockfd w v grown poller =
        let gp = data_of (size_of_fd sockfd % datanet_pthread_num) in
        Ensures-bind _ _ (gt_poller_gevent_create os sockfd gp v) _
          (gt_poller_gevent_create-Created heap is_poller sockfd gp v grown.0 poller)
          (λ ge t made. created datanet_ops_read ge gp w v t gt_ok grown made)

    -- So does accepting a connection, whatever the calls answer, once all pollers of the datanet threads
    -- were set up.
    pub gt_network_ops_read-Grown :
        (ge : Ptr) (g : GtEvent) (w : World os.Kernel)
        → Healthy heap is_poller w
        → w.event ge ≡ some g
        → ((i : ℕ) → is_poller (data_of (i % datanet_pthread_num)) ≡ true)
        → Ensures (gt_network_ops_read os network_poller data_of ge w) (λ _. Grown w)
    unfolding gt_network_ops_read load_event call unless_again errno close_error
    gt_network_ops_read-Grown ge g w healthy here pollers =
        let Q = λ (ret : ℤ) (t : World os.Kernel). Grown w t in
        let h1 = called (accept g.efd) w w (healthy, λ a h e. e) in
        let (cfd, k1) = os.answer (accept g.efd) w.kernel in
        let h2 = called (set_reuseaddr cfd) w _ h1 in
        let (opt, k2) = os.answer (set_reuseaddr cfd) k1 in
        let h3 = called (fcntl_getfl cfd) w _ h2 in
        let (flags, k3) = os.answer (fcntl_getfl cfd) k2 in
        let setfl = fcntl_setfl cfd (int_or flags o_nonblock) in
        let h4 = called setfl w _ h3 in
        let set = (os.answer setfl k3).0 in
        rw here (elim (Bool-cases (is_minus_one cfd)) [
          | inl bad ↦ elim (Bool-cases (os.errno k1 == eagain)) [
            | inl again ↦ rw (bad, again) h1
            | inr other ↦ rw (bad, other) h1
          ]
          | inr accepted ↦ elim (Bool-cases (is_minus_one opt)) [
            | inl bad ↦ rw (accepted, bad) (called (close cfd) w _ h2)
            | inr opted ↦ elim (Bool-cases (is_minus_one set)) [
              | inl bad ↦ rw (accepted, opted, bad) (called (close cfd) w _ h4)
              | inr ready ↦
                  rw (accepted, opted, ready)
                    (Ensures-bind Q Q (gt_network_round_dispatch os network_poller data_of cfd _) _
                      (gt_network_round_dispatch-Grown cfd w _ h4 (pollers (size_of_fd cfd)))
                      (λ ret t kept. elim (Bool-cases (not (is_ok ret))) [
                        | inl bad ↦ rw bad kept
                        | inr good ↦ rw good kept
                      ]))
            ]
          ]
        ])

    -- So does listening, once the poller of the network was set up.
    pub gt_network_listenning-Grown :
        (ip port : ℕ) (w : World os.Kernel)
        → Healthy heap is_poller w
        → is_poller network_poller ≡ true
        → Ensures (gt_network_listenning os network_poller data_of ip port w) (λ _. Grown w)
    unfolding gt_network_listenning call close_error register
    gt_network_listenning-Grown ip port w healthy poller =
        let h1 = called socket w w (healthy, λ a h e. e) in
        let (lfd, k1) = os.answer socket w.kernel in
        let h2 = called (set_reuseaddr lfd) w _ h1 in
        let (opt, k2) = os.answer (set_reuseaddr lfd) k1 in
        let h3 = called (bind lfd ip port) w _ h2 in
        let (bound, k3) = os.answer (bind lfd ip port) k2 in
        let h4 = called (listen lfd networker_maxevent) w _ h3 in
        let listening = (os.answer (listen lfd networker_maxevent) k3).0 in
        elim (Bool-cases (is_neg lfd)) [
          | inl bad ↦ rw bad h1
          | inr made ↦ elim (Bool-cases (is_minus_one opt)) [
            | inl bad ↦ rw (made, bad) (called (close lfd) w _ h2)
            | inr set ↦ elim (Bool-cases (is_minus_one bound)) [
              | inl bad ↦ rw (made, set, bad) (called (close lfd) w _ h3)
              | inr named ↦ elim (Bool-cases (is_minus_one listening)) [
                | inl bad ↦ rw (made, set, named, bad) (called (close lfd) w _ h4)
                | inr ready ↦
                    rw (made, set, named, ready)
                      (Ensures-bind _ _ (gt_poller_gevent_create os lfd network_poller _) _
                        (gt_poller_gevent_create-Created heap is_poller lfd network_poller _ h4.0
                          poller)
                        (λ ge t made.
                          created network_ops_read ge network_poller w _ t gt_error h4 made))
              ]
            ]
          ]
        ]
