-- ===== src/Poller/Population/Run.antt =====
-- The operations of user/core/gt_poller.c and user/core/gt_network.c that make, change and destroy
-- event sources, one after the other, in any order.
use guitar_tea.Common.{
  ℕ, ◌%◌, ◌≡◌, sym, ◌∙◌, Bool, true, false, none, some, List, [], ◌∷◌, if◌then◌else◌,
}
use mathlib.Core.Bool.{true≢false}
use mathlib.Core.Option.{none-ne-some}
use guitar_tea.Common.State.{Cmd, Ensures, Ensures-bind, Afterwards, Afterwards-both, pure, ◌>>=◌}
use guitar_tea.Common.Int.{ℤ, is_ok}
use guitar_tea.Dlist.{Ptr}
use guitar_tea.Os.{Os, World}
use guitar_tea.Poller.{
  elist, gt_poller_event_start, gt_poller_event_stop, gt_poller_gevent_create,
  gt_poller_gevent_destroy, gt_poller_init,
}
use guitar_tea.Network.{
  datanet_pthread_num, gt_datanet_ops_read, gt_network_ops_read, gt_network_listenning,
}
use guitar_tea.Poller.Population.{Heap, Healthy, owners}
use guitar_tea.Poller.Population.Init.{add_poller, gt_poller_init-Healthy}
use guitar_tea.Poller.Population.Create.{gt_poller_gevent_create-Created}
use guitar_tea.Poller.Population.Destroy.{
  owned_event, gt_poller_event_start-StillMine, gt_poller_event_stop-StillMine,
  gt_poller_gevent_destroy-Healthy,
}
use guitar_tea.Poller.Population.Handlers.{gt_datanet_ops_read-Healthy}
use guitar_tea.Poller.Population.Accept.{gt_network_ops_read-Grown, gt_network_listenning-Grown}

pub data Operation : Type 0 where
  poller_init : (maxe timeout : ℕ) (gp : Ptr) → Operation
  gevent_create : (efd : ℤ) (gp : Ptr) → Operation
  event_start event_stop : (eflag : ℕ) (ge : Ptr) → Operation
  gevent_destroy : (ge : Ptr) → Operation
  network_listenning : (ip port : ℕ) → Operation
  network_ops_read datanet_ops_read : (ge : Ptr) → Operation

-- The event is there.
abbrev pub Owned : {K : Type 0} → World K → Ptr → Type 0
Owned w ge = (gp : Ptr) × (owners w ge ≡ some gp)

module _ {os : Os} (heap : Heap os) (network_poller : Ptr) (data_of : ℕ → Ptr) where
  -- What the callers see to: a poller is a global object, events are created for pollers that were
  -- set up, and used while they are there.
  abbrev pub Allowed : Operation → (Ptr → Bool) → World os.Kernel → Type 0
  Allowed (poller_init maxe timeout gp) is_poller w =
      (w.lists.mapped (elist gp) ≡ true) × (heap.static (elist gp) ≡ true)
  Allowed (gevent_create efd gp) is_poller w = is_poller gp ≡ true
  Allowed (event_start eflag ge) is_poller w = Owned w ge
  Allowed (event_stop eflag ge) is_poller w = Owned w ge
  Allowed (gevent_destroy ge) is_poller w = Owned w ge
  Allowed (network_listenning ip port) is_poller w = is_poller network_poller ≡ true
  Allowed (network_ops_read ge) is_poller w =
      Owned w ge × ((i : ℕ) → is_poller (data_of (i % datanet_pthread_num)) ≡ true)
  Allowed (datanet_ops_read ge) is_poller w = Owned w ge

  -- The call, and which pollers are set up after it.
  unfoldable pub perform : Operation → (Ptr → Bool) → Cmd (World os.Kernel) (Ptr → Bool)
  perform (poller_init maxe timeout gp) is_poller = do
    ret ← gt_poller_init os maxe timeout gp
    pure (if is_ok ret then add_poller is_poller gp else is_poller)
  perform (gevent_create efd gp) is_poller = do
    _ ← gt_poller_gevent_create os efd gp
    pure is_poller
  perform (event_start eflag ge) is_poller = do
    _ ← gt_poller_event_start os eflag ge
    pure is_poller
  perform (event_stop eflag ge) is_poller = do _ ← gt_poller_event_stop os eflag ge; pure is_poller
  perform (gevent_destroy ge) is_poller = do _ ← gt_poller_gevent_destroy os ge; pure is_poller
  perform (network_listenning ip port) is_poller = do
    _ ← gt_network_listenning os network_poller data_of ip port
    pure is_poller
  perform (network_ops_read ge) is_poller = do
    _ ← gt_network_ops_read os network_poller data_of ge
    pure is_poller
  perform (datanet_ops_read ge) is_poller = do _ ← gt_datanet_ops_read os ge; pure is_poller

  unfoldable pub perform_all : List Operation → (Ptr → Bool) → Cmd (World os.Kernel) (Ptr → Bool)
  unfolding perform
  perform_all [] is_poller = pure is_poller
  perform_all (op ∷ ops) is_poller = do still ← perform op is_poller; perform_all ops still

  -- Each operation is allowed where it is performed.
  abbrev pub AllAllowed : List Operation → (Ptr → Bool) → World os.Kernel → Type 0
  unfolding perform
  AllAllowed [] is_poller w = Unit
  AllAllowed (op ∷ ops) is_poller w =
      Allowed op is_poller w × Afterwards (perform op is_poller w) (AllAllowed ops)

  -- Before anything is set up.
  pub nothing-Healthy :
      (w : World os.Kernel) → ((ge : Ptr) → owners w ge ≡ none) → Healthy heap (λ gp. false) w
  nothing-Healthy w nothing =
      let no_event = λ (C : Type 0) (ge gp : Ptr) (e : owners w ge ≡ some gp).
        absurd {A = C} (none-ne-some gp (sym (nothing ge) ∙ e)) in
      let no_poller = λ (C : Type 0) (e : false ≡ true). absurd {A = C} (true≢false (sym e)) in
      record {
        sound = record {
          poller_mapped = λ gp e. no_poller _ e;
          event_mapped = λ ge gp e. no_event _ ge gp e;
          owned = λ ge gp e. no_event _ ge gp e;
          links = λ ge gp e. no_event _ ge gp e;
          apart = λ ge gp hp e p. no_event _ ge gp e;
          heads = λ gp e. no_poller _ e;
        };
        poller_static = λ gp e. no_poller _ e;
        event_apart = λ ge gp e. no_event _ ge gp e;
        event_live = λ ge gp e. no_event _ ge gp e;
      }

  -- A call after which the pollers are the same.
  same_pollers :
      {A : Type 0} (is_poller : Ptr → Bool) {P : A → World os.Kernel → Type 0}
      (o : Cmd (World os.Kernel) A) (w : World os.Kernel)
      → Ensures (o w) P
      → ((a : A) (t : World os.Kernel) → P a t → Healthy heap is_poller t)
      → Ensures ((do _ ← o; pure is_poller) w) (Healthy heap)
  same_pollers is_poller {P} o w e weaken =
      Ensures-bind P (Healthy heap) (o w) _ e (λ a t p. weaken a t p)

  pub perform-Healthy :
      (op : Operation) (is_poller : Ptr → Bool) (w : World os.Kernel)
      → Healthy heap is_poller w
      → Allowed op is_poller w
      → Ensures (perform op is_poller w) (Healthy heap)
  unfolding perform
  perform-Healthy (poller_init maxe timeout gp) p w h (mapped, global) =
      Ensures-bind _ _ (gt_poller_init os maxe timeout gp w) _
        (gt_poller_init-Healthy heap p maxe timeout gp w h mapped global) (λ ret t kept. kept)
  perform-Healthy (gevent_create efd gp) p w h poller =
      same_pollers p (gt_poller_gevent_create os efd gp) w
        (gt_poller_gevent_create-Created heap p efd gp w h poller) (λ _ t made. made.0)
  perform-Healthy (event_start eflag ge) p w h (gp, mine) =
      same_pollers p (gt_poller_event_start os eflag ge) w
        (gt_poller_event_start-StillMine heap p ge gp w h mine eflag) (λ _ t kept. kept.0)
  perform-Healthy (event_stop eflag ge) p w h (gp, mine) =
      same_pollers p (gt_poller_event_stop os eflag ge) w
        (gt_poller_event_stop-StillMine heap p ge gp w h mine eflag) (λ _ t kept. kept.0)
  perform-Healthy (gevent_destroy ge) p w h (gp, mine) =
      same_pollers p (gt_poller_gevent_destroy os ge) w
        (gt_poller_gevent_destroy-Healthy heap p ge gp w h mine) (λ _ t kept. kept.0)
  perform-Healthy (network_listenning ip port) p w h poller =
      same_pollers p (gt_network_listenning os network_poller data_of ip port) w
        (gt_network_listenning-Grown heap p network_poller data_of ip port w h poller)
        (λ _ t kept. kept.0)
  perform-Healthy (network_ops_read ge) p w h ((gp, mine), pollers) =
      let (g, here) = owned_event (w.event ge) gp mine in
      same_pollers p (gt_network_ops_read os network_poller data_of ge) w
        (gt_network_ops_read-Grown heap p network_poller data_of ge g w h here pollers)
        (λ _ t kept. kept.0)
  perform-Healthy (datanet_ops_read ge) p w h (gp, mine) =
      let (g, here) = owned_event (w.event ge) gp mine in
      same_pollers p (gt_datanet_ops_read os ge) w
        (gt_datanet_ops_read-Healthy heap p ge g w h here) (λ _ t kept. kept.0)

  -- Pollers are set up, events created, started, stopped and destroyed, connections listened for,
  -- accepted and read, in any order, on an allocator that behaves as documented, starting
  -- from a process in which this holds: if each call is given an event that is there, or a poller that was
  -- set up, then no call faults, whatever the kernel answers, and at the end the list of each poller that
  -- was set up is empty or has exactly one event, its own, and both links of each event that was not
  -- destroyed lead to the head of its poller.
  pub perform_all-Healthy :
      (ops : List Operation) (is_poller : Ptr → Bool) (w : World os.Kernel)
      → Healthy heap is_poller w
      → AllAllowed ops is_poller w
      → Ensures (perform_all ops is_poller w) (Healthy heap)
  unfolding perform_all
  perform_all-Healthy [] p w h ok = h
  perform_all-Healthy (op ∷ ops) p w h (ok, rest) =
      Ensures-bind _ (Healthy heap) (perform op p w) (perform_all ops)
        (Afterwards-both (Healthy heap) (AllAllowed ops) (perform op p w)
          (perform-Healthy op p w h ok) rest)
        (λ q t (h', ok'). perform_all-Healthy ops q t h' ok')
