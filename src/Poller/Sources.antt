-- ===== src/Poller/Sources.antt =====
-- `gt_poller_gevent_create`, and a second start of an event source, of user/core/gt_poller.c.
use guitar_tea.Common.{
  ◌≡◌, ◌≢◌, refl, ap, ◌∙◌, true, false, Option, none, some, [], ◌∷◌, arith, ◌==◌, if◌then◌else◌,
}
use guitar_tea.Common.State.{Cmd, Ensures, Ensures-bind, pure, ◌>>=◌, ◌>>◌}
use guitar_tea.Common.Int.{ℤ, gt_ok}
use guitar_tea.Dlist.{Ptr, ListMem, list_add}
use guitar_tea.Dlist.Ring.{IsRing}
use guitar_tea.Dlist.Insert.{Inserted, list_add-cons}
use guitar_tea.Dlist.Remove.{singleton-IsRing}
use guitar_tea.Dlist.Replace.{init_list_head-run}
use guitar_tea.Os.{
  Os, World, GtEvent, load_event, store_event, on_lists, put_lists, call, malloc, epoll_ctl,
  ctl_add,
}
use guitar_tea.Poller.{
  epollin, ge_list, elist, sizeof_gt_event, clear_event, no_event, gt_poller_event_start,
  gt_poller_gevent_create,
}
use guitar_tea.Poller.Interest.{event_start-add}

module _ (os : Os) (ge : Ptr) (g : GtEvent) (w : World os.Kernel) (here : w.event ge ≡ some g) where
  -- The start of a source that waits for nothing asks the kernel to add it; whatever the kernel
  -- answers, a second start for EPOLLIN then returns GT_OK and does nothing, so that a start that
  -- failed is never repeated.
  pub gt_poller_event_start_twice :
      g.events ≡ 0
      → Ensures (gt_poller_event_start os epollin ge w) (λ ret t.
        (ret ≡ (os.answer (epoll_ctl (w.poller g.gpoller).epfd ctl_add g.efd 1 ge) w.kernel).0)
        × (gt_poller_event_start os epollin ge t ≡ some (gt_ok, t)))
  unfolding gt_poller_event_start load_event call
  gt_poller_event_start_twice fresh =
      let same : (ge == ge) ≡ true = ground arith in
      rw (event_start-add os ge g w here fresh) (refl, rw same)

-- A list operation that ends well, in the process.
put_lists-Ensures :
    {K A : Type 0} (P : A → ListMem → Type 0) (o : Option (A × ListMem)) (w : World K)
    → Ensures o P
    → Ensures (put_lists o w) (λ a t. P a t.lists × (t.event ≡ w.event))
put_lists-Ensures P none w absent = absurd absent
put_lists-Ensures P (some (a, m)) w holds = (holds, refl)

pub on_lists-Ensures :
    {K A : Type 0} (P : A → ListMem → Type 0) (c : Cmd ListMem A) (w : World K)
    → Ensures (c w.lists) P
    → Ensures (on_lists c w) (λ a t. P a t.lists × (t.event ≡ w.event))
unfolding on_lists
on_lists-Ensures P c w e = put_lists-Ensures P (c w.lists) w e

-- A list of one entry may be read from that entry.
IsRing-swap : {m : ListMem} {h x : Ptr} → IsRing m h (x ∷ []) → IsRing m x (h ∷ [])
IsRing-swap {m} {h} {x} r = record {
  mapped = λ a i. r.mapped a (ground arith);
  distinct = ground (arith, r.distinct);
  chain = (r.chain.2.0, r.chain.2.1, (r.chain.0, r.chain.1));
}

module _ {K : Type 0} (ge gp : Ptr) (g : GtEvent) where
  -- What gt_poller_gevent_create achieves, and its last steps, from the call of list_add.
  abbrev Created : Ptr → World K → Type 0
  Created p t =
      (p ≡ ge)
      × (t.event ge ≡ some (record g { gpoller = gp }))
      × IsRing t.lists (elist gp) (ge_list ge ∷ [])

  abbrev own_poller : Cmd (World K) Ptr
  own_poller = do g ← load_event ge; store_event ge (record g { gpoller = gp }); pure ge

  own_poller-Created :
      (t : World K)
      → IsRing t.lists (elist gp) (ge_list ge ∷ [])
      → t.event ge ≡ some g
      → Ensures (own_poller t) Created
  unfolding load_event store_event
  own_poller-Created t r e =
      let same : (ge == ge) ≡ true = ground arith in rw (e, same) (refl, refl, r)

  link-Created :
      (v : World K)
      → IsRing v.lists (ge_list ge) []
      → v.lists.mapped (elist gp) ≡ true
      → elist gp ≢ ge_list ge
      → v.event ge ≡ some g
      → Ensures ((on_lists (list_add (elist gp) (ge_list ge)) >> own_poller) v) Created
  link-Created v r head apart e =
      let Q = Inserted v.lists (ge_list ge) (elist gp) [] (elist gp ∷ []) in
      Ensures-bind (λ a t. Q a t.lists × (t.event ≡ v.event)) Created
        (on_lists (list_add (elist gp) (ge_list ge)) v) (λ _. own_poller)
        (on_lists-Ensures Q (list_add (elist gp) (ge_list ge)) v
          (list_add-cons (elist gp) r head (ground arith)))
        (λ _ t q. own_poller-Created t (IsRing-swap q.0.0) (ap (λ f. f ge) q.1 ∙ e))

module _ (os : Os) (efd : ℤ) (gp ge : Ptr) (w : World os.Kernel) (k : os.Kernel)
    (fresh : os.malloc sizeof_gt_event w.kernel ≡ (ge, k)) (found : ge ≢ 0) where
  -- Memory for the new event, which is not that of the head of the poller's list, is found: the
  -- event is set up for `efd` and its poller, and the poller's list then has this entry only,
  -- whatever entries it had before.
  pub gt_poller_gevent_create-singleton :
      w.lists.mapped (elist gp) ≡ true
      → elist gp ≢ ge_list ge
      → Ensures (gt_poller_gevent_create os efd gp w) (λ p t.
        (p ≡ ge)
        × (t.event ge ≡ some (record no_event { efd = efd; gpoller = gp }))
        × IsRing t.lists (elist gp) (ge_list ge ∷ []))
  unfolding gt_poller_gevent_create malloc clear_event store_event load_event on_lists
  gt_poller_gevent_create-singleton head apart =
      let x = ge_list ge in
      let m : ListMem = record w.lists {
        mapped = λ a. if a == x then true else w.lists.mapped a;
      } in
      let here : m.mapped x ≡ true = ground arith in
      let there : m.mapped (elist gp) ≡ true = ground arith in
      let some_ge : (ge == 0) ≡ false = ground arith in
      let same : (ge == ge) ≡ true = ground arith in
      rw (fresh, some_ge, init_list_head-run m x here)
        (link-Created ge gp (record no_event { efd = efd }) _ (singleton-IsRing m x here) there
          apart (rw same))
