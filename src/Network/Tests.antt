-- ===== src/Network/Tests.antt =====
-- The theorems about user/core/gt_network.c at one connection.
use guitar_tea.Common.{
  ℕ, ◌+◌, ◌*◌, ◌≡◌, ◌⊎◌, refl, Bool, true, false, none, some, [], ◌∷◌, arith, ==_self, ◌==◌, ◌&&◌,
  ◌||◌, if◌then◌else◌,
}
use guitar_tea.Common.State.{Ensures, ◌>>=◌}
use guitar_tea.Common.Int.{ℤ, pos, negsuc, gt_ok, gt_error}
use guitar_tea.Os.{Os, World, Call, close, socket, bind, epoll_create, epoll_ctl, datanet_ops_read}
use guitar_tea.Os.Sample.{sample_os, sample_event, sample_world}
use guitar_tea.Poller.{gt_poller_init, epollin, dispatch, elist, ge_list}
use guitar_tea.Network.{
  size_of_fd, networker_maxevent, networker_epwait_timeout, gt_network_round_dispatch,
  gt_network_listenning,
}
use guitar_tea.Network.Connect.{connection, Connected, gt_network_round_dispatch-Connected}
use guitar_tea.Network.Reading.{dispatch_use_after_free}
use guitar_tea.Network.Listen.{Sockets, run_calls, listen_calls, gt_network_listenning-closed}
use guitar_tea.Network.Race.{EpollSets, HasNone, dispatch_before_init}
use guitar_tea.Boot.{run_ops}

-- A connection that was reset.
abbrev reset : Os
reset = sample_os gt_ok gt_error 0 104 700

abbrev connected : {K : Type 0} → K → World K
connected k = sample_world k (some (sample_event 1 (some datanet_ops_read)))

dispatch_use_after_free_example :
    dispatch reset (run_ops reset 300 (λ i. 300) 0) 600 epollin (connected []) ≡ none
dispatch_use_after_free_example =
    dispatch_use_after_free reset 600 (sample_event 1 (some datanet_ops_read)) (connected []) refl
      gt_error (0 ∷ []) [] refl refl (run_ops reset 300 (λ i. 300) 0) (λ a t. refl) refl refl
      (ground arith)

gt_network_round_dispatch-Connected_example :
    Ensures
      (gt_network_round_dispatch reset 300 (λ i. 1000 + 40 * i) (pos 7) (connected []))
      (Connected reset (pos 7) 1120 700)
unfolding elist ge_list
gt_network_round_dispatch-Connected_example =
    gt_network_round_dispatch-Connected reset 300 (λ i. 1000 + 40 * i) (pos 7) 700 (connected []) []
      refl (ground arith) 1120 refl refl (ground arith)

-- A kernel that numbers the epoll sets, and knows which descriptors are in each.
abbrev is_set : ℕ → ℤ → Bool
is_set n (pos m) = m == n
is_set n (negsuc m) = false

abbrev Sets : Type 0
Sets = ℕ × (ℤ → ℤ → Bool)

abbrev set_answer : Call → Sets → ℤ × Sets
set_answer (epoll_create size) k =
    (pos k.0, (k.0 + 1, λ epfd fd. if is_set k.0 epfd then false else k.1 epfd fd))
set_answer (epoll_ctl set op new events ptr) k = (
  gt_ok,
  (k.0, λ epfd fd. (is_set (size_of_fd set) epfd && is_set (size_of_fd new) fd) || k.1 epfd fd),
)
set_answer c k = (gt_ok, k)

abbrev counting : Os
counting = record {
  Kernel = Sets;
  answer = set_answer;
  errno = λ k. 0;
  set_errno = λ e k. k;
  malloc = λ size k. (700, k);
  free = λ p k. k;
  read = λ fd count k. (gt_error, [], k);
  socketpair = λ k. (pos 0, pos 8, pos 9, k);
  epoll_wait = λ epfd maxevents timeout k. ([], k);
}

abbrev counted : EpollSets counting
counted = record {
  watches = λ k. k.1;
  create_empty = λ k size fd. rw (==_self k.0) refl;
  malloc_keeps = λ k size epfd fd. refl;
}

abbrev no_sets : Sets
no_sets = (4, λ epfd fd. false)

dispatch_before_init_example :
    Ensures
      ((do
        _ ← gt_network_round_dispatch counting 300 (λ i. 1000 + 40 * i) (pos 7)
        gt_poller_init counting networker_maxevent networker_epwait_timeout 1120)
        (connected no_sets))
      (λ ret t.
        (t.event 700 ≡ some (connection counting (pos 7) 1120 700))
        × ((ret ≡ gt_error) ⊎ ((ret ≡ gt_ok) × HasNone counting counted 1120 t)))
unfolding elist ge_list
dispatch_before_init_example =
    dispatch_before_init counting counted 300 (λ i. 1000 + 40 * i) (pos 7) 700 (connected no_sets)
      no_sets refl (ground arith) 1120 refl refl (ground arith)

-- A kernel that knows which descriptors are open, and where no address can be bound.
abbrev is_open_in : (ℕ → Bool) → ℤ → Bool
is_open_in k (pos n) = k n
is_open_in k (negsuc n) = false

abbrev open_answer : Call → (ℕ → Bool) → ℤ × (ℕ → Bool)
open_answer socket k = (pos 5, λ n. if n == 5 then true else k n)
open_answer (close (pos fd)) k = (gt_ok, λ n. if n == fd then false else k n)
open_answer (bind fd ip port) k = (gt_error, k)
open_answer c k = (gt_ok, k)

abbrev taken : Os
taken = record {
  Kernel = ℕ → Bool;
  answer = open_answer;
  errno = λ k. 98;
  set_errno = λ e k. k;
  malloc = λ size k. (700, k);
  free = λ p k. k;
  read = λ fd count k. (gt_error, [], k);
  socketpair = λ k. (gt_error, pos 0, pos 0, k);
  epoll_wait = λ epfd maxevents timeout k. ([], k);
}

close_closes : (k : ℕ → Bool) (fd : ℤ) → is_open_in (open_answer (close fd) k).1 fd ≡ false
close_closes k (pos fd) = rw (==_self fd) refl
close_closes k (negsuc n) = refl

abbrev sockets : Sockets taken
sockets = record { is_open = is_open_in; close_closes = close_closes }

abbrev none_open : ℕ → Bool
none_open n = false

-- The calls up to bind.
abbrev left_open : ℕ → Bool
left_open =
    (run_calls taken (listen_calls taken (pos 5) 2130706433 80) (open_answer socket none_open).1).1

gt_network_listenning-closed_example :
    (gt_network_listenning taken 300 (λ i. 300) 2130706433 80 (connected none_open)
      ≡ some (gt_error, connected (open_answer (close (pos 5)) left_open).1))
    × (is_open_in (open_answer (close (pos 5)) left_open).1 (pos 5) ≡ false)
unfolding run_calls
gt_network_listenning-closed_example =
    gt_network_listenning-closed taken sockets 300 (λ i. 300) 2130706433 80 (connected none_open)
      (pos 5) (open_answer socket none_open).1 refl refl refl
