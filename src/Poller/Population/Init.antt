-- ===== src/Poller/Population/Init.antt =====
-- `gt_poller_init` of user/core/gt_poller.c in a process with any pollers and events.
use guitar_tea.Common.{
  ℕ, ◌≡◌, ◌≢◌, ◌+◌, ◌*◌, ap, sym, ◌∙◌, Bool-cases, inl, inr, Bool, true, Option, some, arith, ◌==◌,
  if◌then◌else◌,
}
use native.Mathlib.Decide.{ℕ_discrete}
use mathlib.Core.Bool.{true≢false}
use guitar_tea.Common.State.{Ensures}
use guitar_tea.Common.Int.{is_ok, is_neg}
use guitar_tea.Dlist.{Ptr, ListMem}
use guitar_tea.Dlist.Remove.{put}
use guitar_tea.Dlist.Replace.{init_list_head-run}
use guitar_tea.Os.{Os, World, epoll_create, call, malloc, load_poller, store_poller, on_lists}
use guitar_tea.Poller.{ge_list, elist, sizeof_epoll_event, gt_poller_init}
use guitar_tea.Poller.Population.{Heap, Healthy, owners, Sound}
use guitar_tea.Poller.Population.Links.{elist-inj}

abbrev pub add_poller : (Ptr → Bool) → Ptr → Ptr → Bool
add_poller is_poller gp a = if a == gp then true else is_poller a

module _ {is_poller : Ptr → Bool} {m : ListMem} {owner : Ptr → Option Ptr}
    (sound : Sound is_poller m owner) (gp : Ptr) (there : m.mapped (elist gp) ≡ true)
    (free : (ge hp : Ptr) → owner ge ≡ some hp → ge_list ge ≢ elist gp) where
  open sound use {poller_mapped, event_mapped, owned, links, apart, heads}

  other_poller : (hp : Ptr) → hp ≢ gp → add_poller is_poller gp hp ≡ true → is_poller hp ≡ true
  other_poller hp n p = ground arith

  -- An empty list at the head of a poller, new or old.
  emptied-Sound : Sound (add_poller is_poller gp) (put (elist gp) (elist gp) (elist gp) m) owner
  emptied-Sound = record {
    poller_mapped = λ hp p. elim (ℕ_discrete hp gp) [
      | yes q ↦ ap (λ a. m.mapped (elist a)) q ∙ there
      | no n ↦ poller_mapped hp (other_poller hp n p)
    ];
    event_mapped = event_mapped;
    owned = λ ge hp e. ground (arith, owned ge hp e);
    links = λ ge hp e.
        let apart_gp = free ge hp e in
        let l = links ge hp e in
        record { next = ground (arith, l.next); prev = ground (arith, l.prev) };
    apart = λ ge hp kp e p. elim (ℕ_discrete kp gp) [
      | yes q ↦ rw q (free ge hp e)
      | no n ↦ apart ge hp kp e (other_poller kp n p)
    ];
    heads = λ hp p. elim (ℕ_discrete hp gp) [
      | yes q ↦ rw q (inl (record { next = ground arith; prev = ground arith }))
      | no n ↦
          let off : elist hp ≢ elist gp = λ q. n (elist-inj hp gp q) in
          elim (heads hp (other_poller hp n p)) [
            | inl l ↦ inl (record { next = ground (arith, l.next); prev = ground (arith, l.prev) })
            | inr (ge, mine, l) ↦
                inr (
                  ge,
                  mine,
                  record { next = ground (arith, l.next); prev = ground (arith, l.prev) },
                )
          ]
    ];
  }

module _ {os : Os} (heap : Heap os) (is_poller : Ptr → Bool) (maxe timeout : ℕ) (gp : Ptr)
    (w : World os.Kernel) (healthy : Healthy heap is_poller w) where
  open healthy use {sound, poller_static, event_apart, event_live}

  -- Setting up a poller, new or old, in a healthy process does not fault and leaves a healthy process,
  -- with the poller where GT_OK is returned and the pollers of before where it is not.
  pub gt_poller_init-Healthy :
      w.lists.mapped (elist gp) ≡ true
      → heap.static (elist gp) ≡ true
      → Ensures
          (gt_poller_init os maxe timeout gp w)
          (λ ret t. Healthy heap (if is_ok ret then add_poller is_poller gp else is_poller) t)
  unfolding gt_poller_init load_poller store_poller call malloc on_lists
  gt_poller_init-Healthy there global =
      let free = λ (ge hp : Ptr) (e : owners w ge ≡ some hp) (q : ge_list ge ≡ elist gp).
        let apart = event_apart ge hp e in
        let within = ap heap.static q ∙ global in absurd (true≢false (sym within ∙ apart)) in
      let c = epoll_create (maxe + 1) in
      let opened = os.answer c w.kernel in
      let size = maxe * sizeof_epoll_event in
      elim (Bool-cases (is_neg opened.0)) [
        | inl failed ↦ rw failed (record {
          sound = sound;
          poller_static = poller_static;
          event_apart = event_apart;
          event_live = λ a hp e. heap.answer_keeps c w.kernel a (event_live a hp e);
        })
        | inr ok ↦
            let alive = λ (a hp : Ptr) (e : owners w a ≡ some hp).
              heap.malloc_keeps size opened.1 a
                (heap.answer_keeps c w.kernel a (event_live a hp e)) in
            elim (Bool-cases ((os.malloc size opened.1).0 == 0)) [
              | inl no_memory ↦
                  rw (ok, no_memory)
                    (record {
                      sound = sound;
                      poller_static = poller_static;
                      event_apart = event_apart;
                      event_live = alive;
                    })
              | inr found ↦
                  rw (ok, found, init_list_head-run w.lists (elist gp) there)
                    (record {
                      sound = emptied-Sound sound gp there free;
                      poller_static = λ hp p. elim (ℕ_discrete hp gp) [
                        | yes q ↦ ap (λ a. heap.static (elist a)) q ∙ global
                        | no n ↦ poller_static hp (other_poller sound gp there free hp n p)
                      ];
                      event_apart = event_apart;
                      event_live = alive;
                    })
            ]
      ]
