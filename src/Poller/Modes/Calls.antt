-- ===== src/Poller/Modes/Calls.antt =====
-- One call of `gt_poller_event_start` or `gt_poller_event_stop`, on an epoll instance that does what it
-- is asked to.
use Prim.Native.Nat.{bit_and, bit_or, bit_and-bitwise}
use guitar_tea.Common.{
  ℕ, ◌≡◌, refl, ◌∙◌, inl, inr, true, false, not, Option, none, some, Bool-cases, ==_self, ◌==◌,
  if◌then◌else◌,
}
use guitar_tea.Common.State.{Ensures}
use guitar_tea.Common.Int.{ℤ, gt_ok, gt_error}
use guitar_tea.Dlist.{Ptr}
use guitar_tea.Os.{Os, World, GtEvent, Call, ctl_mod, ctl_add, epoll_ctl, put_event, call}
use guitar_tea.Poller.{complement, gt_poller_event_start, gt_poller_event_stop}
use guitar_tea.Poller.Interest.{return_ret, gt_poller_event_stop-mod}

-- What epoll_ctl(2) says of the events of the descriptors in the set of an epoll instance, where no
-- resource is short: EPOLL_CTL_ADD takes in a descriptor that is not in the set and fails (EEXIST) for
-- one that is, EPOLL_CTL_MOD changes the events of one that is.
pub record EpollEvents (os : Os) : Type 0 where
  pub events_of : os.Kernel → (epfd fd : ℤ) → Option ℕ
  pub add_new :
      (k : os.Kernel) (epfd fd : ℤ) (events : ℕ) (ptr : Ptr)
      → events_of k epfd fd ≡ none
      → ((os.answer (epoll_ctl epfd ctl_add fd events ptr) k).0 ≡ gt_ok)
        × (events_of (os.answer (epoll_ctl epfd ctl_add fd events ptr) k).1 epfd fd ≡ some events)
  pub add_exists :
      (k : os.Kernel) (epfd fd : ℤ) (events : ℕ) (ptr : Ptr) (old : ℕ)
      → events_of k epfd fd ≡ some old
      → ((os.answer (epoll_ctl epfd ctl_add fd events ptr) k).0 ≡ gt_error)
        × (events_of (os.answer (epoll_ctl epfd ctl_add fd events ptr) k).1 epfd fd ≡ some old)
  pub mod_changes :
      (k : os.Kernel) (epfd fd : ℤ) (events : ℕ) (ptr : Ptr) (old : ℕ)
      → events_of k epfd fd ≡ some old
      → ((os.answer (epoll_ctl epfd ctl_mod fd events ptr) k).0 ≡ gt_ok)
        × (events_of (os.answer (epoll_ctl epfd ctl_mod fd events ptr) k).1 epfd fd ≡ some events)

-- The start of an event source, as the one call that it makes.
gt_poller_event_start-call :
    (os : Os) (ge : Ptr) (g : GtEvent) (w : World os.Kernel)
    → w.event ge ≡ some g
    → (eflag : ℕ)
    → gt_poller_event_start os eflag ge w ≡ (
        if not (bit_and g.events eflag == 0)
        then some (gt_ok, w)
        else call os
            (epoll_ctl
              (w.poller g.gpoller).epfd
              (if g.events == 0 then ctl_add else ctl_mod)
              g.efd
              (bit_or g.events eflag)
              ge)
            (put_event ge (some (record g { events = bit_or g.events eflag; data_ptr = ge })) w))
unfolding gt_poller_event_start
gt_poller_event_start-call os ge g w here eflag = elim (Bool-cases (bit_and g.events eflag == 0)) [
  | inl idle ↦ rw (here, idle) (return_ret (call os _ _))
  | inr active ↦ rw (here, active) refl
]

module _ (os : Os) (set : EpollEvents os) (ge : Ptr) (epfd efd : ℤ) where
  open set use {events_of}

  -- The source records `recorded`, and the epoll set of its poller has `known` for its descriptor.
  pub record Source (recorded : ℕ) (known : Option ℕ) (w : World os.Kernel) : Type 0 where
    pub gevent : GtEvent
    pub here : w.event ge ≡ some gevent
    pub efd_of : gevent.efd ≡ efd
    pub epfd_of : (w.poller gevent.gpoller).epfd ≡ epfd
    pub records : gevent.events ≡ recorded
    pub knows : events_of w.kernel epfd efd ≡ known

  -- A call returns `ret` and leaves the source so.
  abbrev pub Leaves : ℤ → ℕ → Option ℕ → ℤ → World os.Kernel → Type 0
  Leaves ret recorded known r t = (r ≡ ret) × Source recorded known t

  module _ (r : ℕ) (known : Option ℕ) (w : World os.Kernel) (s : Source r known w) (e : ℕ) where
    open s use {gevent, here, efd_of, epfd_of, records, knows}

    pub start_keep :
        (bit_and r e == 0) ≡ false
        → Ensures (gt_poller_event_start os e ge w) (Leaves gt_ok r known)
    start_keep active =
        rw (gt_poller_event_start-call os ge gevent w here e, records, active) (refl, s)

    -- The event is written and epoll_ctl called for it, with the answer `ret`, and the epoll set then
    -- has `known'`.
    written :
        (g' : GtEvent) (c : Call) (ret : ℤ) (r' : ℕ) (known' : Option ℕ)
        → (os.answer c w.kernel).0 ≡ ret
        → events_of (os.answer c w.kernel).1 epfd efd ≡ known'
        → g'.efd ≡ efd
        → g'.gpoller ≡ gevent.gpoller
        → g'.events ≡ r'
        → Ensures (call os c (put_event ge (some g') w)) (Leaves ret r' known')
    unfolding call
    written g' c ret r' known' answered left same_efd same_poller same_events =
        let there : (ge == ge) ≡ true = ==_self ge in
        (
          answered,
          record {
            gevent = g';
            here = rw there refl;
            efd_of = same_efd;
            epfd_of = rw same_poller epfd_of;
            records = same_events;
            knows = left;
          },
        )

    pub start_add :
        r ≡ 0
        → known ≡ none
        → Ensures (gt_poller_event_start os e ge w) (Leaves gt_ok (bit_or r e) (some (bit_or r e)))
    start_add none_yet absent =
        let idle : (bit_and r e == 0) ≡ true = rw (none_yet, bit_and-bitwise 0 e) refl in
        let first : (r == 0) ≡ true = rw none_yet refl in
        let law = set.add_new w.kernel epfd efd (bit_or r e) ge (knows ∙ absent) in
        rw (gt_poller_event_start-call os ge gevent w here e, records, idle, first, epfd_of, efd_of)
          (written (record gevent { efd = efd; events = bit_or r e; data_ptr = ge })
            (epoll_ctl epfd ctl_add efd (bit_or r e) ge) gt_ok (bit_or r e) (some (bit_or r e))
            law.0 law.1 refl refl refl)

    pub start_exists :
        (old : ℕ)
        → r ≡ 0
        → known ≡ some old
        → Ensures (gt_poller_event_start os e ge w) (Leaves gt_error (bit_or r e) (some old))
    start_exists old none_yet there =
        let idle : (bit_and r e == 0) ≡ true = rw (none_yet, bit_and-bitwise 0 e) refl in
        let first : (r == 0) ≡ true = rw none_yet refl in
        let law = set.add_exists w.kernel epfd efd (bit_or r e) ge old (knows ∙ there) in
        rw (gt_poller_event_start-call os ge gevent w here e, records, idle, first, epfd_of, efd_of)
          (written (record gevent { efd = efd; events = bit_or r e; data_ptr = ge })
            (epoll_ctl epfd ctl_add efd (bit_or r e) ge) gt_error (bit_or r e) (some old) law.0
            law.1 refl refl refl)

    pub start_mod :
        (old : ℕ)
        → (r == 0) ≡ false
        → (bit_and r e == 0) ≡ true
        → known ≡ some old
        → Ensures (gt_poller_event_start os e ge w) (Leaves gt_ok (bit_or r e) (some (bit_or r e)))
    start_mod old waits idle there =
        let law = set.mod_changes w.kernel epfd efd (bit_or r e) ge old (knows ∙ there) in
        rw (gt_poller_event_start-call os ge gevent w here e, records, idle, waits, epfd_of, efd_of)
          (written (record gevent { efd = efd; events = bit_or r e; data_ptr = ge })
            (epoll_ctl epfd ctl_mod efd (bit_or r e) ge) gt_ok (bit_or r e) (some (bit_or r e))
            law.0 law.1 refl refl refl)

    pub stop_keep :
        (bit_and r e == 0) ≡ true → Ensures (gt_poller_event_stop os e ge w) (Leaves gt_ok r known)
    stop_keep idle = rw (gt_poller_event_stop-mod os ge gevent w here e, records, idle) (refl, s)

    pub stop_mod :
        (old : ℕ)
        → (bit_and r e == 0) ≡ false
        → known ≡ some old
        → let left = bit_and r (complement e) in
          Ensures (gt_poller_event_stop os e ge w) (Leaves gt_ok left (some left))
    stop_mod old active there =
        let left = bit_and r (complement e) in
        let law = set.mod_changes w.kernel epfd efd left gevent.data_ptr old (knows ∙ there) in
        rw (gt_poller_event_stop-mod os ge gevent w here e, records, active, epfd_of, efd_of)
          (written (record gevent { efd = efd; events = left })
            (epoll_ctl epfd ctl_mod efd left gevent.data_ptr) gt_ok left (some left) law.0 law.1
            refl refl refl)
