-- ===== src/Poller/Population/Handlers.antt =====
-- The functions of user/core/gt_network.c that make and destroy events, in a process with any
-- pollers and events.
use guitar_tea.Common.{
  ◌≡◌, ◌≢◌, refl, ap, sym, ◌∙◌, ==_self, Bool-cases, inl, inr, Bool, true, false, not, some, arith,
  ◌==◌, ◌||◌, if◌then◌else◌,
}
use mathlib.Core.Bool.{true≢false}
use mathlib.Core.Option.{none-ne-some}
use guitar_tea.Common.State.{Cmd, Ensures, Ensures-mono, Ensures-bind, pure, ◌>>=◌, ◌>>◌}
use guitar_tea.Common.Int.{ℤ, gt_ok, gt_error, is_ok, is_neg}
use guitar_tea.Dlist.{Ptr}
use guitar_tea.Os.{Os, World, GtEvent, ReadFn, load_event, store_event, read, errno, put_event}
use guitar_tea.Poller.{
  epollin, gt_poller_event_start, gt_poller_event_stop, gt_poller_gevent_destroy,
}
use guitar_tea.Network.{with_read, eagain, unless_again, gt_datanet_ops_read}
use guitar_tea.Poller.Population.{Heap, Healthy, OthersKept, Survive, poller_of, owners}
use guitar_tea.Poller.Population.Links.{Sound-owner}
use guitar_tea.Poller.Population.Create.{Created}
use guitar_tea.Poller.Population.Destroy.{
  owned_event, gt_poller_event_start-StillMine, gt_poller_event_stop-StillMine,
  gt_poller_gevent_destroy-Healthy,
}

module _ {os : Os} (heap : Heap os) (is_poller : Ptr → Bool) where
  -- The kernel moves on, and keeps the blocks.
  pub kernel-Healthy :
      (w : World os.Kernel) (k : os.Kernel)
      → Healthy heap is_poller w
      → ((a : Ptr) → heap.live w.kernel a ≡ true → heap.live k a ≡ true)
      → Healthy heap is_poller (record w { kernel = k })
  kernel-Healthy w k healthy keeps = record {
    sound = healthy.sound;
    poller_static = healthy.poller_static;
    event_apart = healthy.event_apart;
    event_live = λ a hp e. keeps a (healthy.event_live a hp e);
  }

  -- A write to an event that leaves its poller alone.
  write-Healthy :
      (w : World os.Kernel) (ge : Ptr) (g h : GtEvent)
      → w.event ge ≡ some g
      → h.gpoller ≡ g.gpoller
      → Healthy heap is_poller w
      → Healthy heap is_poller (put_event ge (some h) w)
  write-Healthy w ge g h here keeps healthy =
      let same : (a : Ptr) → owners (put_event ge (some h) w) a ≡ owners w a =
        λ a. ground (arith, here, keeps) in
      record {
        sound = Sound-owner (λ a. sym (same a)) healthy.sound;
        poller_static = healthy.poller_static;
        event_apart = λ a hp e. healthy.event_apart a hp (sym (same a) ∙ e);
        event_live = λ a hp e. healthy.event_live a hp (sym (same a) ∙ e);
      }

  module _ (ge : Ptr) (g : GtEvent) (w : World os.Kernel) (healthy : Healthy heap is_poller w)
      (here : w.event ge ≡ some g) where
    abbrev read_result : ℤ
    read_result = (os.read g.efd 127 w.kernel).0

    -- What a read of a connection leaves.
    abbrev pub ReadOnce : ℤ → World os.Kernel → Type 0
    ReadOnce ret t =
        Healthy heap is_poller t
        × OthersKept ge w t
        × (is_neg read_result ≡ false → is_neg ret ≡ false)

    -- Reading a connection of a healthy process does not fault and leaves the process healthy, whether
    -- the event is kept or destroyed, and the other events as they were; a negative number is returned
    -- only where the read returned one.
    pub gt_datanet_ops_read-Healthy : Ensures (gt_datanet_ops_read os ge w) ReadOnce
    unfolding gt_datanet_ops_read load_event read unless_again errno
    gt_datanet_ops_read-Healthy =
        let r = os.read g.efd 127 w.kernel in
        let v = record w { kernel = r.2 } in
        let after = kernel-Healthy w r.2 healthy (λ a l. heap.read_keeps g.efd 127 w.kernel a l) in
        rw here (elim (Bool-cases (is_neg r.0 || is_ok r.0)) [
          | inr read_some ↦ rw read_some (after, λ a n. refl, λ h. h)
          | inl failed ↦ elim (Bool-cases (os.errno r.2 == eagain)) [
            | inl again ↦ rw (failed, again) (after, λ a n. refl, λ h. refl)
            | inr other ↦
                rw (failed, other)
                  (Ensures-bind _ ReadOnce (gt_poller_event_stop os epollin ge v) _
                    (gt_poller_event_stop-StillMine heap is_poller ge g.gpoller v after
                      (ap poller_of here) epollin)
                    (λ _ t (kept, yours, others).
                      Ensures-bind _ ReadOnce (gt_poller_gevent_destroy os ge t) _
                        (gt_poller_gevent_destroy-Healthy heap is_poller ge g.gpoller t kept yours)
                        (λ _ u (left, rest). (left, λ a n. rest a n ∙ others a n, λ h. h))))
          ]
        ])

  -- The steps that follow the creation of an event.
  unfoldable pub register : ReadFn → Ptr → Cmd (World os.Kernel) ℤ
  unfolding load_event store_event
  register fn ge = do
    g ← load_event ge
    store_event ge (with_read fn g)
    ret ← gt_poller_event_start os epollin ge
    if not (is_ok ret) then pure gt_error else pure gt_ok

  register-Healthy :
      (fn : ReadFn) (ge gp : Ptr) (w : World os.Kernel)
      → Healthy heap is_poller w
      → owners w ge ≡ some gp
      → Ensures (register fn ge w) (λ ret t. Healthy heap is_poller t × OthersKept ge w t)
  unfolding register
  register-Healthy fn ge gp w healthy mine =
      let Q = λ (ret : ℤ) (t : World os.Kernel). Healthy heap is_poller t × OthersKept ge w t in
      let (g, here) = owned_event (w.event ge) gp mine in
      let v = put_event ge (some (with_read fn g)) w in
      let same : (ge == ge) ≡ true = ==_self ge in
      let yours : owners v ge ≡ some gp = rw same (sym (ap poller_of here) ∙ mine) in
      let write : OthersKept ge w v = λ a n. ground arith in
      rw here (
        Ensures-bind _ Q (gt_poller_event_start os epollin ge v) _
          (gt_poller_event_start-StillMine heap is_poller ge gp v
            (write-Healthy w ge g (with_read fn g) here refl healthy) yours epollin)
          (λ ret t (kept, _, others).
            let all : Q ret t = (kept, λ a n. others a n ∙ write a n) in
            elim (Bool-cases (not (is_ok ret))) [ inl bad ↦ rw bad all | inr good ↦ rw good all ]))

  -- The same, of an event that was found, with all events of before.
  pub Created-register :
      (fn : ReadFn) (ge gp : Ptr) (v w : World os.Kernel)
      → Created heap is_poller gp v ge w
      → (ge == 0) ≡ false
      → Ensures (register fn ge w) (λ ret t. Healthy heap is_poller t × Survive v t)
  Created-register fn ge gp v w (healthy, inl no_memory, kept) some_ge =
      absurd (true≢false (sym (rw no_memory refl) ∙ some_ge))
  Created-register fn ge gp v w (healthy, inr (mine, absent), kept) some_ge =
      Ensures-mono (register fn ge w) (register-Healthy fn ge gp w healthy mine)
        (λ ret t (left, rest). (
          left,
          λ a g e.
              let n : a ≢ ge =
                λ q. none-ne-some g.gpoller (sym absent ∙ ap (owners v) (sym q) ∙ ap poller_of e) in
              rest a n ∙ kept a g e,
        ))
