-- ===== src/Poller/Interest.antt =====
-- `gt_poller_event_start` and `gt_poller_event_stop` of user/core/gt_poller.c: which calls of
-- `epoll_ctl` they make.
use Prim.Native.Nat.{bit_and, bit_or, bit_and-bitwise}
use guitar_tea.Common.{
  ℕ, zero, suc, ◌≡◌, refl, inl, inr, true, false, not, Option, none, some, arith, Bool-cases, ◌==◌,
  if◌then◌else◌,
}
use guitar_tea.Common.State.{and_then, pure}
use guitar_tea.Common.Int.{ℤ, pos, negsuc, gt_ok, is_ok}
use guitar_tea.Dlist.{Ptr}
use guitar_tea.Os.{Os, World, GtEvent, ctl_mod, ctl_add, epoll_ctl, put_event, call}
use guitar_tea.Poller.{complement, epollin, gt_poller_event_start, gt_poller_event_stop}

zero-bit_and : (b : ℕ) → bit_and 0 b ≡ 0
zero-bit_and b = bit_and-bitwise 0 b

-- `if (GT_OK != ret) return ret; return GT_OK;` returns `ret`.
pub return_ret :
    {S : Type 0} (o : Option (ℤ × S))
    → and_then o (λ ret. if not (is_ok ret) then pure ret else pure gt_ok) ≡ o
return_ret none = refl
return_ret (some (pos zero, s)) = refl
return_ret (some (pos (suc n), s)) = refl
return_ret (some (negsuc n, s)) = refl

module _ (os : Os) (ge : Ptr) (g : GtEvent) (w : World os.Kernel) (here : w.event ge ≡ some g) where
  -- The world once the event asks for `events` and `epoll_ctl` was called to change them.
  abbrev modified : ℕ → World os.Kernel
  modified events = put_event ge (some (record g { events = events })) w

  -- Stopping events that the source does not wait for does nothing; any other stop modifies what
  -- the kernel waits for, to the events that are left, and never removes the source from it, not
  -- even where no event is left.
  pub gt_poller_event_stop-mod :
      (eflag : ℕ)
      → gt_poller_event_stop os eflag ge w ≡ (
          if bit_and g.events eflag == 0
          then some (gt_ok, w)
          else call os
              (epoll_ctl
                (w.poller g.gpoller).epfd
                ctl_mod
                g.efd
                (bit_and g.events (complement eflag))
                g.data_ptr)
              (modified (bit_and g.events (complement eflag))))
  unfolding gt_poller_event_stop
  gt_poller_event_stop-mod eflag = elim (Bool-cases (bit_and g.events eflag == 0)) [
    | inl idle ↦ rw (here, idle)
    | inr active ↦
        let waits : (g.events == 0) ≡ false = ground (arith, zero-bit_and eflag) in
        rw (here, waits, active)
          (return_ret (
            call os
              (epoll_ctl (w.poller g.gpoller).epfd ctl_mod g.efd
                (bit_and g.events (complement eflag)) g.data_ptr)
              (modified (bit_and g.events (complement eflag)))))
  ]

  -- A start for EPOLLIN of an event that waits for nothing is always an EPOLL_CTL_ADD, and its
  -- answer is returned.
  pub event_start-add :
      g.events ≡ 0
      → gt_poller_event_start os epollin ge w
        ≡ call os
            (epoll_ctl (w.poller g.gpoller).epfd ctl_add g.efd 1 ge)
            (put_event ge (some (record g { events = 1; data_ptr = ge })) w)
  unfolding gt_poller_event_start
  event_start-add none_yet =
      let first : (g.events == 0) ≡ true = ground arith in
      let idle : (bit_and g.events 1 == 0) ≡ true = rw none_yet in
      let events : bit_or g.events 1 ≡ 1 = rw none_yet in
      rw (here, first, idle, events) (return_ret (call os _ _))
