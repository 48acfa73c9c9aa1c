-- ===== src/Network/Reading.antt =====
-- `gt_datanet_ops_read` and `gt_network_round_dispatch` of user/core/gt_network.c, and what
-- `gt_poller_epoll_wait` of user/core/gt_poller.c makes of them.
use guitar_tea.Common.{
  ℕ, ◌≡◌, ◌≢◌, refl, ◌∙◌, true, false, Option, none, some, List, arith, ◌==◌, ◌||◌, if◌then◌else◌,
}
use guitar_tea.Common.State.{Cmd, and_then, and_then_assoc, pure}
use guitar_tea.Common.Int.{ℤ, gt_ok, is_ok, is_neg}
use guitar_tea.Dlist.{Ptr, list_del}
use guitar_tea.Os.{
  Os, World, GtEvent, ReadFn, datanet_ops_read, load_event, read, errno, call, malloc, on_lists,
  close,
}
use guitar_tea.Poller.{
  epollin, ge_list, call_fn, dispatch, free_event, gt_poller_event_stop, gt_poller_gevent_create,
  gt_poller_gevent_destroy, sizeof_gt_event,
}
use guitar_tea.Network.{eagain, gt_datanet_ops_read, gt_network_round_dispatch, unless_again}

-- A sequence that faults whatever its first command leads to.
bind-none :
    {S A B C : Type 0} (o : Option (A × S)) (f : A → Cmd S B) (k : B → Cmd S C)
    → ((a : A) (t : S) → and_then (f a t) k ≡ none)
    → and_then (and_then o f) k ≡ none
bind-none none f k h = refl
bind-none (some (a, t)) f k h = h a t

module _ (os : Os) (ge : Ptr) where
  free_gone :
      {C : Type 0} (w : World os.Kernel) (k : Unit {0} → Cmd (World os.Kernel) C)
      → ((t : World os.Kernel) → t.event ge ≡ none → k tt t ≡ none)
      → and_then (free_event os ge w) k ≡ none
  unfolding free_event
  free_gone w k gone =
      let same : (ge == ge) ≡ true = ground arith in
      let freed : (if ge == ge then none else w.event ge) ≡ none = rw same in gone _ freed

  -- What needs the event faults once it is destroyed.
  destroy-none :
      {C : Type 0} (w : World os.Kernel) (k : Unit {0} → Cmd (World os.Kernel) C)
      → ((t : World os.Kernel) → t.event ge ≡ none → k tt t ≡ none)
      → and_then (gt_poller_gevent_destroy os ge w) k ≡ none
  unfolding gt_poller_gevent_destroy
  destroy-none w k gone = bind-none (load_event ge w) _ k (λ g t0.
      bind-none (gt_poller_event_stop os g.events ge t0) _ k (λ _ t1.
        bind-none {A = Unit {0}} (on_lists (list_del (ge_list ge)) t1) _ k (λ _ t2.
          bind-none (load_event ge t2) _ k
            (λ g' t3. bind-none (call os (close g'.efd) t3) _ k (λ _ t4. free_gone t4 k gone)))))

module _ (os : Os) (ge : Ptr) (g : GtEvent) (w : World os.Kernel) (here : w.event ge ≡ some g)
    (ret : ℤ) (bytes : List ℕ) (k : os.Kernel)
    (reads : os.read g.efd 127 w.kernel ≡ (ret, bytes, k))
    (failed : (is_neg ret || is_ok ret) ≡ true) where
  -- Where the read of a connection returns 0 or a negative number and `errno` is EAGAIN,
  -- gt_datanet_ops_read returns GT_OK and has done nothing but the read: the connection is kept.
  gt_datanet_ops_read-again :
      os.errno k ≡ eagain → gt_datanet_ops_read os ge w ≡ some (gt_ok, record w { kernel = k })
  unfolding gt_datanet_ops_read load_event read unless_again errno
  gt_datanet_ops_read-again again =
      let same : (os.errno k == eagain) ≡ true = ground arith in rw (here, reads, failed, same)

  -- Any other destroys it, so that what needs the event afterwards faults.
  gt_datanet_ops_read-none :
      {C : Type 0} (next : ℤ → Cmd (World os.Kernel) C)
      → os.errno k ≢ eagain
      → ((t : World os.Kernel) → t.event ge ≡ none → next ret t ≡ none)
      → and_then (gt_datanet_ops_read os ge w) next ≡ none
  unfolding gt_datanet_ops_read load_event read unless_again errno
  gt_datanet_ops_read-none next other gone =
      let differs : (os.errno k == eagain) ≡ false = ground arith in
      rw (here, reads, failed, differs)
        (bind-none (gt_poller_event_stop os epollin ge (record w { kernel = k })) _ next (λ _ t.
          and_then_assoc (gt_poller_gevent_destroy os ge t) (λ _. pure ret) next
          ∙ destroy-none os ge t (λ _. next ret) gone))

  -- Where the read of a connection returns a negative number and `errno` is not EAGAIN, handling its
  -- event for EPOLLIN faults: once the reader has destroyed the event, the loop needs it for the
  -- message that it logs.
  pub dispatch_use_after_free :
      (run : ReadFn → Ptr → Cmd (World os.Kernel) ℤ)
      → ((a : Ptr) (t : World os.Kernel) → run datanet_ops_read a t ≡ gt_datanet_ops_read os a t)
      → g.ops_read ≡ some datanet_ops_read
      → is_neg ret ≡ true
      → os.errno k ≢ eagain
      → dispatch os run ge epollin w ≡ none
  unfolding dispatch call_fn load_event
  dispatch_use_after_free run reader registered negative other =
      rw (here, registered, reader ge w)
        (gt_datanet_ops_read-none _ other (λ t gone. rw (negative, gone)))

module _ (os : Os) (network_poller : Ptr) (data_of : ℕ → Ptr) (sockfd : ℤ)
    (w : World os.Kernel) where
  -- Where there is no memory for the event of an accepted connection, gt_network_round_dispatch
  -- returns GT_OK and has only asked for memory: the socket stays open and nothing waits for it.
  pub gt_network_round_dispatch-leak :
      (k : os.Kernel)
      → os.malloc sizeof_gt_event w.kernel ≡ (0, k)
      → gt_network_round_dispatch os network_poller data_of sockfd w
        ≡ some (gt_ok, record w { kernel = k })
  unfolding gt_network_round_dispatch gt_poller_gevent_create malloc
  gt_network_round_dispatch-leak k full = rw full
