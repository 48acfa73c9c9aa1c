-- ===== src/Poller/Population/Create.antt =====
-- `gt_poller_gevent_create` of user/core/gt_poller.c in a process with any pollers and events.
use guitar_tea.Common.{
  ◌∙◌, ◌≡◌, ◌≢◌, refl, ap, sym, ==_self, Bool-cases, ◌⊎◌, inl, inr, Bool, true, false, Option, none,
  some, arith, ◌==◌, if◌then◌else◌,
}
use mathlib.Core.Bool.{true≢false}
use mathlib.Core.Option.{none-ne-some}
use guitar_tea.Common.State.{Ensures}
use guitar_tea.Common.Int.{ℤ}
use guitar_tea.Dlist.{Ptr, ListMem, list_add}
use guitar_tea.Dlist.Insert.{linked, list_add-eq, list_add_between-run}
use guitar_tea.Dlist.Remove.{put}
use guitar_tea.Dlist.Replace.{init_list_head-run}
use guitar_tea.Os.{Os, World, GtEvent, store_event, load_event, malloc, on_lists}
use guitar_tea.Poller.{ge_list, elist, sizeof_gt_event, clear_event, gt_poller_gevent_create}
use guitar_tea.Poller.Population.{Heap, Healthy, poller_of, Survive, owners, set_owner}
use guitar_tea.Poller.Population.Links.{Attached, set_owner-cases, Attached-Sound, Sound-owner}

is_none : (o : Option Ptr) → (o ≡ none) ⊎ ((a : Ptr) × (o ≡ some a))
is_none none = inl refl
is_none (some a) = inr (a, refl)

-- The lists once `init_list_head` and `list_add` ran on new memory at `x`.
abbrev pub mapped_at : ListMem → Ptr → ListMem
mapped_at m x = record m { mapped = λ a. if a == x then true else m.mapped a }

abbrev pub linked_at : ListMem → (x e : Ptr) → ListMem
linked_at m x e = linked e x x (put x x x (mapped_at m x))

linked_at-Attached :
    (m : ListMem) (x e : Ptr) → m.mapped e ≡ true → x ≢ e → Attached m (linked_at m x e) x e
linked_at-Attached m x e head apart = record {
  mapped_new = ground arith;
  mapped = λ a n. ground arith;
  forth = record { next = ground arith; prev = ground arith };
  back = record { next = ground arith; prev = ground arith };
  next = λ a n k. ground arith;
  prev = λ a n k. ground arith;
}

list_add-linked_at :
    (m : ListMem) (x e : Ptr)
    → m.mapped x ≡ true
    → m.mapped e ≡ true
    → list_add e x (put x x x m) ≡ some (tt, linked e x x (put x x x m))
list_add-linked_at m x e here there =
    let self : (put x x x m).next x ≡ x = ground arith in
    rw (list_add-eq (put x x x m) e x here, self)
      (list_add_between-run (put x x x m) e x x there here here)

-- The process with a new event or none.
abbrev pub Created :
    {os : Os}
    → (heap : Heap os) (is_poller : Ptr → Bool) (gp : Ptr) (w : World os.Kernel) (p : Ptr)
    → World os.Kernel
    → Type 0
Created heap is_poller gp w p t =
    Healthy heap is_poller t
    × ((p ≡ 0) ⊎ ((owners t p ≡ some gp) × (owners w p ≡ none)))
    × Survive w t

module _ {os : Os} (heap : Heap os) (is_poller : Ptr → Bool) (efd : ℤ) (gp : Ptr)
    (w : World os.Kernel) (healthy : Healthy heap is_poller w) (poller : is_poller gp ≡ true) where
  open healthy use {sound, poller_static, event_apart, event_live}

  -- No event lies in a block that is not given out.
  not_live : (ge : Ptr) → heap.live w.kernel ge ≡ false → owners w ge ≡ none
  not_live ge dead = elim (is_none (owners w ge)) [
    | inl e ↦ e
    | inr (hp, e) ↦ let alive = event_live ge hp e in cc
  ]

  -- The allocator answers `ge`, a block apart from the others and from the global objects.
  module _ (ge : Ptr) (k : os.Kernel) (fresh : os.malloc sizeof_gt_event w.kernel ≡ (ge, k))
      (some_ge : (ge == 0) ≡ false) where
    found : (os.malloc sizeof_gt_event w.kernel).0 ≢ 0
    found = rw fresh (λ e. ground arith)

    absent : owners w ge ≡ none
    absent = not_live ge (rw fresh at (heap.malloc_new sizeof_gt_event w.kernel found).0)

    outside : heap.static (ge_list ge) ≡ false
    unfolding ge_list
    outside = rw fresh at (heap.malloc_apart sizeof_gt_event w.kernel 48 found (omega arith))

    apart : (hp : Ptr) → is_poller hp ≡ true → ge_list ge ≢ elist hp
    apart hp p e =
        let within : heap.static (ge_list ge) ≡ true = ap heap.static e ∙ poller_static hp p in
        absurd (true≢false (sym within ∙ outside))

    alive : (a hp : Ptr) → set_owner (owners w) ge (some gp) a ≡ some hp → heap.live k a ≡ true
    alive a hp e = elim (set_owner-cases (owners w) ge (some gp) a hp e) [
      | inl (q, _) ↦ rw q (rw fresh at (heap.malloc_new sizeof_gt_event w.kernel found).1)
      | inr (_, e) ↦ rw fresh at (heap.malloc_keeps sizeof_gt_event w.kernel a (event_live a hp e))
    ]

    dynamic :
        (a hp : Ptr)
        → set_owner (owners w) ge (some gp) a ≡ some hp
        → heap.static (ge_list a) ≡ false
    dynamic a hp e = elim (set_owner-cases (owners w) ge (some gp) a hp e) [
      | inl (q, _) ↦ rw q outside
      | inr (_, e) ↦ event_apart a hp e
    ]

    not_new : (a : Ptr) (g : GtEvent) → w.event a ≡ some g → a ≢ ge
    not_new a g e q = none-ne-some g.gpoller (sym absent ∙ ap (owners w) (sym q) ∙ ap poller_of e)

    create_at : Ensures (gt_poller_gevent_create os efd gp w) (Created heap is_poller gp w)
    unfolding gt_poller_gevent_create malloc clear_event store_event load_event on_lists
    create_at =
        let x = ge_list ge in
        let m = mapped_at w.lists x in
        let here : m.mapped x ≡ true = ground arith in
        let head = sound.poller_mapped gp poller in
        let there : m.mapped (elist gp) ≡ true = ground arith in
        let same = ==_self ge in
        let attached =
          Attached-Sound sound ge gp poller absent apart
            (linked_at-Attached w.lists x (elist gp) head (apart gp poller)) in
        rw
          (
            fresh,
            some_ge,
            init_list_head-run m x here,
            list_add-linked_at m x (elist gp) here there,
            same,
          )
          (
            record {
              sound = Sound-owner (λ a. ground arith) attached;
              poller_static = poller_static;
              event_apart = λ a hp e. dynamic a hp (ground (arith, e));
              event_live = λ a hp e. alive a hp (ground (arith, e));
            },
            inr (ground (arith, same), absent),
            λ a g e. ground (arith, e, not_new a g e),
          )

  -- Creating an event for a poller of a healthy process does not fault and leaves a healthy process;
  -- the event is new and the poller's, or there is no memory for it; the others are as they were.
  pub gt_poller_gevent_create-Created :
      Ensures (gt_poller_gevent_create os efd gp w) (Created heap is_poller gp w)
  unfolding gt_poller_gevent_create malloc
  gt_poller_gevent_create-Created =
      let ge = (os.malloc sizeof_gt_event w.kernel).0 in
      elim (Bool-cases (ge == 0)) [
        | inl zero_ge ↦ rw zero_ge (
          record {
            sound = sound;
            poller_static = poller_static;
            event_apart = event_apart;
            event_live = λ a hp e. heap.malloc_keeps sizeof_gt_event w.kernel a (event_live a hp e);
          },
          inl refl,
          λ a g e. e,
        )
        | inr some_ge ↦ create_at ge (os.malloc sizeof_gt_event w.kernel).1 refl some_ge
      ]
