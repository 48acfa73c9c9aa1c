-- ===== src/Poller/Population/Destroy.antt =====
-- `gt_poller_event_start`, `gt_poller_event_stop` and `gt_poller_gevent_destroy` of
-- user/core/gt_poller.c in a process with any pollers and events.
use Prim.Native.Nat.{bit_and, bit_or}
use guitar_tea.Common.{
  ℕ, ◌≡◌, ◌≢◌, refl, sym, ◌∙◌, Bool-cases, inl, inr, Bool, true, Option, none, some, arith, ◌==◌,
  if◌then◌else◌,
}
use mathlib.Core.Option.{none-ne-some}
use guitar_tea.Common.State.{Ensures, Ensures-mono, Ensures-bind, ◌>>=◌, ◌>>◌}
use guitar_tea.Common.Int.{ℤ}
use guitar_tea.Dlist.{Ptr, list_del}
use guitar_tea.Os.{
  Os, World, GtEvent, call, close, load_event, store_event, on_lists, load_poller, epoll_ctl,
  ctl_add, ctl_mod,
}
use guitar_tea.Poller.{
  ge_list, elist, free_event, gt_poller_event_start, gt_poller_event_stop, gt_poller_gevent_destroy,
}
use guitar_tea.Poller.Interest.{gt_poller_event_stop-mod, return_ret}
use guitar_tea.Poller.Population.{Heap, Healthy, OthersKept, poller_of, owners, LinksTo, set_owner}
use guitar_tea.Poller.Population.Links.{set_owner-cases, Detached-Sound, Sound-owner}
use guitar_tea.Poller.Population.Unlink.{deleted, unmapped_at, deleted-Detached, list_del-deleted}

pub owned_event :
    (o : Option GtEvent) (gp : Ptr) → poller_of o ≡ some gp → (g : GtEvent) × (o ≡ some g)
owned_event none gp e = absurd (none-ne-some gp e)
owned_event (some g) gp e = (g, refl)

module _ {os : Os} (heap : Heap os) (ge gp : Ptr) where
  -- What a start and a stop keep: the lists, which poller each event belongs to, the blocks, and the
  -- other events.
  abbrev Kept : World os.Kernel → ℤ → World os.Kernel → Type 0
  Kept w ret t =
      (t.lists ≡ w.lists)
      × ((a : Ptr) → owners t a ≡ owners w a)
      × ((a : Ptr) → heap.live w.kernel a ≡ true → heap.live t.kernel a ≡ true)
      × OthersKept ge w t

  stop-Kept :
      (g : GtEvent) (w : World os.Kernel) (eflag : ℕ)
      → w.event ge ≡ some g
      → Ensures (gt_poller_event_stop os eflag ge w) (Kept w)
  unfolding call
  stop-Kept g w eflag here = elim (Bool-cases (bit_and g.events eflag == 0)) [
    | inl idle ↦
        rw (gt_poller_event_stop-mod os ge g w here eflag, idle)
          (refl, λ a. refl, λ a l. l, λ a n. refl)
    | inr active ↦
        rw (gt_poller_event_stop-mod os ge g w here eflag, active)
          (
            refl,
            λ a. ground (arith, here),
            λ a l. heap.answer_keeps _ w.kernel a l,
            λ a n. ground arith,
          )
  ]

  start-Kept :
      (g : GtEvent) (w : World os.Kernel) (eflag : ℕ)
      → w.event ge ≡ some g
      → Ensures (gt_poller_event_start os eflag ge w) (Kept w)
  unfolding gt_poller_event_start load_event store_event load_poller call
  start-Kept g w eflag here = elim (Bool-cases (bit_and g.events eflag == 0)) [
    | inl idle ↦
        let op = if g.events == 0 then ctl_add else ctl_mod in
        let c = epoll_ctl (w.poller g.gpoller).epfd op g.efd (bit_or g.events eflag) ge in
        rw (here, idle, return_ret (call os c _))
          (
            refl,
            λ a. ground (arith, here),
            λ a l. heap.answer_keeps c w.kernel a l,
            λ a n. ground arith,
          )
    | inr active ↦ rw (here, active) (refl, λ a. refl, λ a l. l, λ a n. refl)
  ]

  -- What a destroyed event leaves.
  abbrev Gone : World os.Kernel → Unit {0} → World os.Kernel → Type 0
  Gone w _ t =
      (t.lists ≡ unmapped_at (deleted w.lists (ge_list ge) (elist gp)) (ge_list ge))
      × ((a : Ptr) → owners t a ≡ set_owner (owners w) ge none a)
      × ((a : Ptr) → a ≢ ge → heap.live w.kernel a ≡ true → heap.live t.kernel a ≡ true)
      × OthersKept ge w t

  unlink-Gone :
      (g : GtEvent) (w : World os.Kernel)
      → w.event ge ≡ some g
      → w.lists.mapped (ge_list ge) ≡ true
      → w.lists.mapped (elist gp) ≡ true
      → LinksTo w.lists (ge_list ge) (elist gp)
      → Ensures
          ((do
            on_lists (list_del (ge_list ge))
            g' ← load_event ge
            _ ← call os (close g'.efd)
            free_event os ge)
            w)
          (Gone w)
  unfolding load_event call on_lists free_event
  unlink-Gone g w event here there l =
      rw (list_del-deleted w.lists (ge_list ge) (elist gp) here there l, event)
        (
          refl,
          λ a. ground arith,
          λ a n live. heap.free_keeps ge _ a n (heap.answer_keeps (close g.efd) w.kernel a live),
          λ a n. ground arith,
        )

module _ {os : Os} (heap : Heap os) (is_poller : Ptr → Bool) (ge gp : Ptr) where
  Kept-Healthy :
      (w : World os.Kernel) (ret : ℤ) (t : World os.Kernel)
      → Healthy heap is_poller w
      → Kept heap ge gp w ret t
      → Healthy heap is_poller t
  Kept-Healthy w ret t healthy (lists, same, keeps, _) = record {
    sound = rw lists (Sound-owner (λ a. sym (same a)) healthy.sound);
    poller_static = healthy.poller_static;
    event_apart = λ a hp e. healthy.event_apart a hp (sym (same a) ∙ e);
    event_live = λ a hp e. keeps a (healthy.event_live a hp (sym (same a) ∙ e));
  }

  Gone-Healthy :
      (v : World os.Kernel) (r : Unit {0}) (t : World os.Kernel)
      → Healthy heap is_poller v
      → owners v ge ≡ some gp
      → Gone heap ge gp v r t
      → Healthy heap is_poller t
  Gone-Healthy v r t healthy mine (lists, same, keeps, _) =
      let s = healthy.sound in
      let detached = Detached-Sound s ge gp mine (
        deleted-Detached v.lists (ge_list ge) (elist gp)
          (s.apart ge gp gp mine (s.owned ge gp mine))) in
      record {
        sound = rw lists (Sound-owner (λ a. sym (same a)) detached);
        poller_static = healthy.poller_static;
        event_apart = λ a hp e. elim (set_owner-cases (owners v) ge none a hp (sym (same a) ∙ e)) [
          | inl (_, q) ↦ absurd (none-ne-some hp q)
          | inr (_, e) ↦ healthy.event_apart a hp e
        ];
        event_live = λ a hp e. elim (set_owner-cases (owners v) ge none a hp (sym (same a) ∙ e)) [
          | inl (_, q) ↦ absurd (none-ne-some hp q)
          | inr (n, e) ↦ keeps a n (healthy.event_live a hp e)
        ];
      }

  module _ (w : World os.Kernel) (healthy : Healthy heap is_poller w)
      (mine : owners w ge ≡ some gp) where
    -- The event is still there, and belongs to its poller; the others are as they were.
    abbrev StillMine : ℤ → World os.Kernel → Type 0
    StillMine _ t = Healthy heap is_poller t × (owners t ge ≡ some gp) × OthersKept ge w t

    -- Starting an event of a healthy process does not fault and leaves the process healthy, and the event
    -- its poller's, whatever the kernel answers.
    pub gt_poller_event_start-StillMine :
        (eflag : ℕ) → Ensures (gt_poller_event_start os eflag ge w) StillMine
    gt_poller_event_start-StillMine eflag =
        let (g, here) = owned_event (w.event ge) gp mine in
        Ensures-mono (gt_poller_event_start os eflag ge w) (start-Kept heap ge gp g w eflag here)
          (λ ret t kept. (Kept-Healthy w ret t healthy kept, kept.1 ge ∙ mine, kept.3))

    -- Stopping it does the same.
    pub gt_poller_event_stop-StillMine :
        (eflag : ℕ) → Ensures (gt_poller_event_stop os eflag ge w) StillMine
    gt_poller_event_stop-StillMine eflag =
        let (g, here) = owned_event (w.event ge) gp mine in
        Ensures-mono (gt_poller_event_stop os eflag ge w) (stop-Kept heap ge gp g w eflag here)
          (λ ret t kept. (Kept-Healthy w ret t healthy kept, kept.1 ge ∙ mine, kept.3))

  -- Destroying an event of a healthy process does not fault and leaves the process healthy, whatever
  -- the kernel answers and whether or not the poller's list leads to the event; the other events are as
  -- they were.
  pub gt_poller_gevent_destroy-Healthy :
      (w : World os.Kernel)
      → Healthy heap is_poller w
      → owners w ge ≡ some gp
      → Ensures
          (gt_poller_gevent_destroy os ge w)
          (λ _ t. Healthy heap is_poller t × OthersKept ge w t)
  unfolding gt_poller_gevent_destroy load_event
  gt_poller_gevent_destroy-Healthy w healthy mine =
      let (g, here) = owned_event (w.event ge) gp mine in
      rw here (
        Ensures-bind (StillMine w healthy mine) _ (gt_poller_event_stop os g.events ge w) _
          (gt_poller_event_stop-StillMine w healthy mine g.events)
          (λ ret v (kept, yours, others).
            let s = kept.sound in
            let (g', there) = owned_event (v.event ge) gp yours in
            Ensures-mono {Q = λ _ t. Healthy heap is_poller t × OthersKept ge w t} _
              (unlink-Gone heap ge gp g' v there (s.event_mapped ge gp yours)
                (s.poller_mapped gp (s.owned ge gp yours)) (s.links ge gp yours))
              (λ r t gone. (Gone-Healthy v r t kept yours gone, λ a n. gone.3 a n ∙ others a n))))
