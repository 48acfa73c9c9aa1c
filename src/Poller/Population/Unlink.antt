-- ===== src/Poller/Population/Unlink.antt =====
-- `list_del` of user/comm/gt_list.h on an entry both links of which lead to the head of a poller, as in
-- `gt_poller_gevent_destroy` of user/core/gt_poller.c.
use guitar_tea.Common.{◌≡◌, ◌≢◌, refl, true, false, some, arith, ◌==◌, if◌then◌else◌}
use guitar_tea.Dlist.{Ptr, ListMem, list_del, list_poison1, list_poison2}
use guitar_tea.Dlist.Remove.{put, unlinked, list_del_between-run}
use guitar_tea.Poller.Population.{LinksTo}
use guitar_tea.Poller.Population.Links.{Detached}

-- The lists once `list_del` ran on an entry whose links lead to `e`, and its memory was given back.
abbrev pub deleted : ListMem → (x e : Ptr) → ListMem
deleted m x e = put x list_poison1 list_poison2 (unlinked e e m)

abbrev pub unmapped_at : ListMem → Ptr → ListMem
unmapped_at m x = record m { mapped = λ a. if a == x then false else m.mapped a }

module _ (m : ListMem) (x e : Ptr) where
  pub deleted-Detached : x ≢ e → Detached m (unmapped_at (deleted m x e) x) x e
  deleted-Detached apart = record {
    mapped = λ a n. ground arith;
    alone = record { next = ground arith; prev = ground arith };
    next = λ a n k. ground arith;
    prev = λ a n k. ground arith;
  }

  pub list_del-deleted :
      m.mapped x ≡ true
      → m.mapped e ≡ true
      → LinksTo m x e
      → list_del x m ≡ some (tt, deleted m x e)
  unfolding list_del
  list_del-deleted here there l =
      rw (here, here, l.next, l.prev, list_del_between-run m e e there there, here, here) refl
