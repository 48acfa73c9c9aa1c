-- ===== src/Poller/Tests.antt =====
-- The theorems about user/core/gt_poller.c at one event, on a kernel that refuses `epoll_ctl`.
use guitar_tea.Common.{◌≡◌, refl, none, some, [], ◌∷◌, arith}
use guitar_tea.Common.State.{Ensures}
use guitar_tea.Common.Int.{pos, gt_error}
use guitar_tea.Dlist.Ring.{IsRing}
use guitar_tea.Os.{Os, World}
use guitar_tea.Os.Sample.{sample_os, sample_event, sample_world}
use guitar_tea.Poller.{elist, ge_list, no_event, gt_poller_gevent_create}
use guitar_tea.Poller.Sources.{gt_poller_gevent_create-singleton}

abbrev refusing : Os
refusing = sample_os gt_error gt_error 0 104 700

abbrev idle : World refusing.Kernel
idle = sample_world [] (some (sample_event 0 none))

gt_poller_gevent_create-singleton_example :
    Ensures (gt_poller_gevent_create refusing (pos 6) 300 idle) (λ p t.
      (p ≡ 700)
      × (t.event 700 ≡ some (record no_event { efd = pos 6; gpoller = 300 }))
      × IsRing t.lists (elist 300) (ge_list 700 ∷ []))
unfolding elist ge_list
gt_poller_gevent_create-singleton_example =
    gt_poller_gevent_create-singleton refusing (pos 6) 300 700 idle [] refl (ground arith) refl
      (ground arith)
