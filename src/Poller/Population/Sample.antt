-- ===== src/Poller/Population/Sample.antt =====
-- A sample kernel and allocator, and a process on it that listens, for the tests.
use guitar_tea.Common.{ℕ, ◌≡◌, Bool, ◌+◌, refl, true, false, none, List, [], ◌∷◌, arith, ltb}
use guitar_tea.Common.State.{Ensures}
use guitar_tea.Common.Int.{ℤ, pos}
use guitar_tea.Dlist.{Ptr, init_list_head, list_add, list_add_between}
use guitar_tea.Os.{Os, World, Call, epoll_create, socket, accept}
use guitar_tea.Os.Sample.{sample_world}
use guitar_tea.Poller.{
  ge_list, elist, gt_poller_init, gt_poller_gevent_create, clear_event, gt_poller_event_start,
}
use guitar_tea.Network.{gt_network_listenning}
use guitar_tea.Poller.Population.{Heap, Healthy}
use guitar_tea.Poller.Population.Loop.{Registered}
use guitar_tea.Poller.Population.Run.{
  Operation, poller_init, network_listenning, AllAllowed, perform, perform_all, nothing-Healthy,
  perform_all-Healthy,
}

-- Memory is given out upwards from 1000 and never again; the global objects are below.
abbrev answer_of : Call → ℤ
answer_of (epoll_create size) = pos 6
answer_of socket = pos 5
answer_of (accept fd) = pos 9
answer_of c = pos 0

abbrev pub upwards : Os
upwards = record {
  Kernel = ℕ;
  answer = λ c k. (answer_of c, k);
  errno = λ k. 5;
  set_errno = λ e k. k;
  malloc = λ size k. (1000 + k, k + size + 1);
  free = λ p k. k;
  read = λ fd count k. (pos 0, [], k);
  socketpair = λ k. (pos 0, pos 8, pos 9, k);
  epoll_wait = λ epfd maxevents timeout k. ((1026, 1) ∷ [], k);
}

abbrev pub upwards_heap : Heap upwards
upwards_heap = record {
  live = λ k a. ltb a (1000 + k);
  static = λ a. ltb a 1000;
  malloc_new = λ size k found. (ground arith, ground arith);
  malloc_apart = λ size k offset found small. ground arith;
  malloc_keeps = λ size k a l. ground arith;
  free_keeps = λ p k a n l. l;
  answer_keeps = λ c k a l. l;
  wait_keeps = λ fd n timeout k a l. l;
  read_keeps = λ fd count k a l. l;
}

abbrev set_up : List Operation
set_up = poller_init 1 50 300 ∷ poller_init 1 50 400 ∷ network_listenning 0 8080 ∷ []

-- The process that listens.
set_up_allowed : AllAllowed upwards_heap 300 (λ i. 400) set_up (λ gp. false) (sample_world 0 none)
unfolding perform gt_poller_init gt_network_listenning gt_poller_gevent_create clear_event
    init_list_head list_add list_add_between gt_poller_event_start ge_list elist
set_up_allowed = (
  (refl {a = true}, refl {a = true}),
  ((refl {a = true}, refl {a = true}), (refl {a = true}, tt)),
)

pub set_up-Healthy :
    Ensures
      (perform_all upwards_heap 300 (λ i. 400) set_up (λ gp. false) (sample_world 0 none))
      (Healthy upwards_heap)
set_up-Healthy =
    perform_all-Healthy upwards_heap 300 (λ i. 400) set_up (λ gp. false) (sample_world 0 none)
      (nothing-Healthy upwards_heap 300 (λ i. 400) (sample_world 0 none) (λ ge. ground arith))
      set_up_allowed

unfoldable pub listening :
    (is_poller : Ptr → Bool) × (w : World ℕ) × Healthy upwards_heap is_poller w
    × Registered w 1026
    × ((i : ℕ) → is_poller 400 ≡ true)
unfolding perform perform_all gt_poller_init gt_network_listenning gt_poller_gevent_create
    clear_event init_list_head list_add list_add_between gt_poller_event_start ge_list elist
listening = (_, _, set_up-Healthy, (_, _, refl, refl), λ i. refl)
