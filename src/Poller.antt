-- ===== src/Poller.antt =====
-- user/core/gt_poller.c, user/core/gt_poller.h, user/core/gt_memory.c: the event sources of an
-- epoll instance, and one round of its loop.
pub mod Interest
pub mod Modes
pub mod Sources
pub mod Restart
pub mod Population
pub mod Destroy
pub mod Unlocked
mod Tests
use Prim.Native.Nat.{bit_and, bit_or, bit_xor}
use guitar_tea.Common.{
  ℕ, ◌+◌, ◌*◌, ◌-◌, ◌^◌, Bool, true, false, not, Option, none, some, List, [], ◌∷◌, ◌==◌,
  if◌then◌else◌,
}
use guitar_tea.Common.State.{Cmd, pure, ◌>>=◌, ◌>>◌}
use guitar_tea.Common.Int.{ℤ, gt_ok, gt_error, is_ok, is_neg}
use guitar_tea.Dlist.{Ptr, ListMem, init_list_head, list_add, list_del, list_empty}
use guitar_tea.Dlist.Walk.{member_of}
use guitar_tea.Os.{
  Os, World, GtEvent, GtPoller, ReadFn, CtlOp, ctl_add, ctl_mod, ctl_del, epoll_create, epoll_ctl,
  close, load_event, store_event, put_event, load_poller, store_poller, on_lists, call, malloc,
  epoll_wait,
}

-- Sizes and places in the structs, on a 64-bit machine.
abbrev pub sizeof_gt_event : ℕ
sizeof_gt_event = 72

abbrev pub sizeof_epoll_event : ℕ
sizeof_epoll_event = 12

-- `&ge->list` and `&gpoller->elist`.
unfoldable pub ge_list : Ptr → Ptr
unfolding member_of
ge_list ge = member_of ge 48

unfoldable pub elist : Ptr → Ptr
unfolding member_of
elist gpoller = member_of gpoller 24

abbrev pub epollin : ℕ
epollin = 1

abbrev pub epollout : ℕ
epollout = 4

-- `~eflag`, of 32 bits.
abbrev pub complement : ℕ → ℕ
complement eflag = bit_xor eflag 0xffff_ffff

-- The bytes of `memset(ge, 0x0, sizeof(struct gt_event))`.
abbrev pub no_event : GtEvent
no_event = record {
  efd = ℤ.pos 0;
  ops_read = none;
  ops_write = none;
  events = 0;
  data_ptr = 0;
  gpoller = 0;
}

module _ {K : Type 0} where
  -- New memory for an event, set to 0: from here on there is an event and a list head in it.
  unfoldable pub clear_event : Ptr → Cmd (World K) (Unit {0})
  clear_event ge w = some (
    tt,
    record (put_event ge (some no_event) w) {
      lists = record (w.lists) { mapped = λ a. if a == ge_list ge then true else w.lists.mapped a };
    },
  )

module _ (os : Os) where
  open os use {Kernel}

  -- `gt_free_mem(ge)`: the event and the list head in it are gone.
  unfoldable pub free_event : Ptr → Cmd (World Kernel) (Unit {0})
  free_event ge w = some (
    tt,
    record (put_event ge none w) {
      kernel = os.free ge w.kernel;
      lists = record (w.lists) {
        mapped = λ a. if a == ge_list ge then false else w.lists.mapped a;
      };
    },
  )

  unfoldable pub gt_poller_event_start : (eflag : ℕ) (gevent : Ptr) → Cmd (World Kernel) ℤ
  unfolding load_event store_event load_poller call
  gt_poller_event_start eflag gevent = do
    g ← load_event gevent
    p ← load_poller g.gpoller
    let op = if g.events == 0 then ctl_add else ctl_mod
    if not (bit_and g.events eflag == 0) then pure gt_ok else do
      let events = bit_or g.events eflag
      store_event gevent (record g { events = events; data_ptr = gevent })
      ret ← call os (epoll_ctl p.epfd op g.efd events gevent)
      if not (is_ok ret) then pure ret else pure gt_ok

  unfoldable pub gt_poller_event_stop : (eflag : ℕ) (gevent : Ptr) → Cmd (World Kernel) ℤ
  unfolding load_event store_event load_poller call
  gt_poller_event_stop eflag gevent = do
    g ← load_event gevent
    p ← load_poller g.gpoller
    let op = if g.events == 0 then ctl_del else ctl_mod
    if bit_and g.events eflag == 0 then pure gt_ok else do
      let events = bit_and g.events (complement eflag)
      store_event gevent (record g { events = events })
      ret ← call os (epoll_ctl p.epfd op g.efd events g.data_ptr)
      if not (is_ok ret) then pure ret else pure gt_ok

  -- The new event, or 0.
  unfoldable pub gt_poller_gevent_create : (efd : ℤ) (gpoller : Ptr) → Cmd (World Kernel) Ptr
  unfolding load_event store_event malloc
  gt_poller_gevent_create efd gpoller = do
    ge ← malloc os sizeof_gt_event
    if ge == 0 then pure 0 else do
      clear_event ge
      store_event ge (record no_event { efd = efd })
      on_lists (init_list_head (ge_list ge))
      on_lists (list_add (elist gpoller) (ge_list ge))
      g ← load_event ge
      store_event ge (record g { gpoller = gpoller })
      pure ge

  unfoldable pub gt_poller_gevent_destroy : (ge : Ptr) → Cmd (World Kernel) (Unit {0})
  unfolding load_event call
  gt_poller_gevent_destroy ge = do
    g ← load_event ge
    _ ← gt_poller_event_stop g.events ge
    on_lists (list_del (ge_list ge))
    g' ← load_event ge
    _ ← call os (close g'.efd)
    free_event ge

  unfoldable pub gt_poller_init : (maxe timeout : ℕ) (gpoller : Ptr) → Cmd (World Kernel) ℤ
  unfolding load_poller store_poller call malloc on_lists
  gt_poller_init maxe timeout gpoller = do
    p ← load_poller gpoller
    store_poller gpoller (record p { maxe = maxe; timeout = timeout })
    epfd ← call os (epoll_create (maxe + 1))
    p1 ← load_poller gpoller
    store_poller gpoller (record p1 { epfd = epfd })
    if is_neg epfd then pure gt_error else do
      ee ← malloc os (maxe * sizeof_epoll_event)
      p2 ← load_poller gpoller
      store_poller gpoller (record p2 { ee = ee })
      if ee == 0 then pure gt_error else do on_lists (init_list_head (elist gpoller)); pure gt_ok

  unfoldable pub gt_poller_clean : (gpoller : Ptr) → Cmd (World Kernel) (Unit {0})
  unfolding load_poller call on_lists
  gt_poller_clean gpoller = do
    _ ← on_lists (list_empty (elist gpoller))
    p ← load_poller gpoller
    _ ← call os (close p.epfd)
    λ w. some (tt, record w { kernel = os.free p.ee w.kernel })

  -- `run` calls a function through a pointer, which faults at NULL.
  module _ (run : ReadFn → Ptr → Cmd (World Kernel) ℤ) where
    unfoldable pub call_fn : Option ReadFn → Ptr → Cmd (World Kernel) ℤ
    call_fn none ge = λ w. none
    call_fn (some fn) ge = run fn ge

    -- One ready event. After a failed read the message that is logged names `ge->efd`.
    unfoldable pub dispatch : (ge : Ptr) (events : ℕ) → Cmd (World Kernel) (Unit {0})
    unfolding call_fn
    dispatch ge events =
        if not (bit_and events epollin == 0)
        then (do
          g ← load_event ge
          ret ← call_fn g.ops_read ge
          if is_neg ret then (do _ ← load_event ge; pure tt) else pure tt)
        else if not (bit_and events epollout == 0)
        then (do g ← load_event ge; _ ← call_fn g.ops_write ge; pure tt)
        else pure tt

    unfoldable pub dispatch_all : List (Ptr × ℕ) → Cmd (World Kernel) (Unit {0})
    dispatch_all [] = pure tt
    dispatch_all ((ge, events) ∷ rest) = do dispatch ge events; dispatch_all rest

    unfoldable pub gt_poller_epoll_wait : (gpoller : Ptr) → Cmd (World Kernel) (Unit {0})
    unfolding load_poller epoll_wait
    gt_poller_epoll_wait gpoller = do
      p ← load_poller gpoller
      ready ← epoll_wait os p.epfd p.maxe p.timeout
      dispatch_all ready
