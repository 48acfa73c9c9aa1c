-- ===== src/Poller/Population/Tests.antt =====
-- A process that sets up two pollers, listens, accepts a connection and loses it, on a sample kernel.
use guitar_tea.Common.{refl, true, false, none, some, List, [], ◌∷◌, arith}
use guitar_tea.Common.State.{Ensures}
use guitar_tea.Dlist.{init_list_head, list_add, list_add_between, list_del, list_del_between}
use guitar_tea.Os.Sample.{sample_world}
use guitar_tea.Poller.{
  ge_list, elist, gt_poller_init, gt_poller_gevent_create, clear_event, free_event,
  gt_poller_epoll_wait, gt_poller_event_start, gt_poller_event_stop, gt_poller_gevent_destroy,
}
use guitar_tea.Boot.{run_ops}
use guitar_tea.Network.{
  gt_network_listenning, gt_network_ops_read, gt_network_round_dispatch, gt_datanet_ops_read,
}
use guitar_tea.Poller.Population.{Healthy}
use guitar_tea.Poller.Population.Sample.{upwards, upwards_heap, listening}
use guitar_tea.Poller.Population.Loop.{gt_poller_epoll_wait-Healthy}
use guitar_tea.Poller.Population.Run.{
  Operation, poller_init, network_listenning, network_ops_read, datanet_ops_read, AllAllowed,
  perform, perform_all, nothing-Healthy, perform_all-Healthy,
}

abbrev story : List Operation
story =
    poller_init 1 50 300
    ∷ poller_init 1 50 400
    ∷ network_listenning 0 8080
    ∷ network_ops_read 1026
    ∷ datanet_ops_read 1099
    ∷ []

story_allowed : AllAllowed upwards_heap 300 (λ i. 400) story (λ gp. false) (sample_world 0 none)
unfolding perform gt_poller_init gt_network_listenning gt_poller_gevent_create clear_event
    init_list_head list_add list_add_between gt_poller_event_start gt_network_ops_read
    gt_network_round_dispatch ge_list elist gt_datanet_ops_read gt_poller_event_stop
    gt_poller_gevent_destroy list_del list_del_between free_event
story_allowed = (
  (refl {a = true}, refl {a = true}),
  (
    (refl {a = true}, refl {a = true}),
    (
      refl {a = true},
      (((300, refl {a = some 300}), λ i. refl {a = true}), ((400, refl {a = some 400}), tt)),
    ),
  ),
)

perform_all-Healthy_example :
    Ensures
      (perform_all upwards_heap 300 (λ i. 400) story (λ gp. false) (sample_world 0 none))
      (Healthy upwards_heap)
perform_all-Healthy_example =
    perform_all-Healthy upwards_heap 300 (λ i. 400) story (λ gp. false) (sample_world 0 none)
      (nothing-Healthy upwards_heap 300 (λ i. 400) (sample_world 0 none) (λ ge. ground arith))
      story_allowed

gt_poller_epoll_wait-Healthy_example :
    Ensures
      (gt_poller_epoll_wait upwards (run_ops upwards 300 (λ i. 400) 0) 300 listening.1)
      (λ _ t. Healthy upwards_heap listening.0 t)
gt_poller_epoll_wait-Healthy_example =
    gt_poller_epoll_wait-Healthy upwards_heap listening.0 300 (λ i. 400) 0 listening.4
      (λ fd k. refl) 300 listening.1 listening.2 (listening.3, λ e. cc, tt, tt)
