-- ===== src/Poller/Destroy.antt =====
-- `gt_poller_gevent_destroy` of user/core/gt_poller.c, for an event whose list is well-formed.
use Prim.Native.Nat.{bit_and}
use guitar_tea.Common.{
  ℕ, ◌≡◌, refl, ap, ◌∙◌, inl, inr, true, false, none, some, List, ◌∷◌, ◌++◌, arith, has, Bool-cases,
  ◌==◌, if◌then◌else◌,
}
use guitar_tea.Common.State.{Ensures, Ensures-bind, Ensures-mono, ◌>>=◌, ◌>>◌}
use guitar_tea.Common.Int.{ℤ}
use guitar_tea.Dlist.{Ptr, ListMem, list_del}
use guitar_tea.Dlist.Ring.{IsRing}
use guitar_tea.Dlist.Remove.{list_del-remove, not-mem-rest}
use guitar_tea.Os.{Os, World, GtEvent, load_event, on_lists, call, close}
use guitar_tea.Poller.{
  complement, ge_list, free_event, gt_poller_event_stop, gt_poller_gevent_destroy,
}
use guitar_tea.Poller.Interest.{gt_poller_event_stop-mod}
use guitar_tea.Poller.Sources.{on_lists-Ensures}

-- A list survives that memory outside of it is unmapped.
unmapped-IsRing :
    (m : ListMem) (h x : Ptr) (xs : List Ptr)
    → IsRing m h xs
    → has x (h ∷ xs) ≡ false
    → IsRing (record m { mapped = λ a. if a == x then false else m.mapped a }) h xs
unmapped-IsRing m h x xs r out = record {
  mapped = λ a i. ground (arith, r.mapped a i);
  distinct = r.distinct;
  chain = r.chain;
}

module _ (os : Os) (ge : Ptr) where
  -- A stop leaves the lists alone, and the event in its place.
  abbrev Stopped : World os.Kernel → ℤ → World os.Kernel → Type 0
  Stopped w ret t = (t.lists ≡ w.lists) × ((g : GtEvent) × (t.event ge ≡ some g))

  gt_poller_event_stop-Stopped :
      (g : GtEvent) (w : World os.Kernel) (eflag : ℕ)
      → w.event ge ≡ some g
      → Ensures (gt_poller_event_stop os eflag ge w) (Stopped w)
  unfolding call
  gt_poller_event_stop-Stopped g w eflag here = elim (Bool-cases (bit_and g.events eflag == 0)) [
    | inl idle ↦ rw (gt_poller_event_stop-mod os ge g w here eflag, idle) (refl, (g, here))
    | inr active ↦
        let same : (ge == ge) ≡ true = ground arith in
        let left : GtEvent = record g { events = bit_and g.events (complement eflag) } in
        rw (gt_poller_event_stop-mod os ge g w here eflag, active) (refl, (left, rw same))
  ]

  module _ (h : Ptr) (xs ys : List Ptr) where
    -- The event is gone, and its entry taken out of the list.
    abbrev pub Destroyed : Unit {0} → World os.Kernel → Type 0
    Destroyed _ t = (t.event ge ≡ none) × IsRing t.lists h (xs ++ ys)

    free-Destroyed :
        (t : World os.Kernel)
        → IsRing t.lists h (xs ++ ys)
        → has (ge_list ge) (h ∷ xs ++ ys) ≡ false
        → Ensures (free_event os ge t) Destroyed
    unfolding free_event
    free-Destroyed t r out =
        let same : (ge == ge) ≡ true = ground arith in
        (rw same refl, unmapped-IsRing t.lists h (ge_list ge) (xs ++ ys) r out)

    -- From the call of list_del.
    unlink-Destroyed :
        (g : GtEvent) (w : World os.Kernel)
        → IsRing w.lists h (xs ++ ge_list ge ∷ ys)
        → w.event ge ≡ some g
        → Ensures
            ((do
              on_lists (list_del (ge_list ge))
              g' ← load_event ge
              _ ← call os (close g'.efd)
              free_event os ge)
              w)
            Destroyed
    unfolding load_event call
    unlink-Destroyed g w r here =
        Ensures-bind (λ a t. IsRing t.lists h (xs ++ ys) × (t.event ≡ w.event)) Destroyed
          (on_lists (list_del (ge_list ge)) w) _
          (on_lists-Ensures (λ a m. IsRing m h (xs ++ ys)) (list_del (ge_list ge)) w
            (Ensures-mono (list_del (ge_list ge) w.lists) (list_del-remove (ge_list ge) xs ys r)
              (λ _ m q. q.0)))
          (λ _ t q.
            let still : t.event ge ≡ some g = ap (λ f. f ge) q.1 ∙ here in
            rw still (free-Destroyed _ q.0 (not-mem-rest (ge_list ge) (h ∷ xs) ys r.distinct)))

    -- Destroying an event whose list head is an entry of a well-formed list does not fault, whatever
    -- the kernel answers: the event is gone, and the list has its other entries, in order.
    pub gt_poller_gevent_destroy-remove :
        (g : GtEvent) (w : World os.Kernel)
        → w.event ge ≡ some g
        → IsRing w.lists h (xs ++ ge_list ge ∷ ys)
        → Ensures (gt_poller_gevent_destroy os ge w) Destroyed
    unfolding gt_poller_gevent_destroy load_event
    gt_poller_gevent_destroy-remove g w here r = rw here (
        Ensures-bind (Stopped w) Destroyed (gt_poller_event_stop os g.events ge w) _
          (gt_poller_event_stop-Stopped g w g.events here)
          (λ _ t s. unlink-Destroyed (s.1).0 t (rw s.0 r) (s.1).1))
