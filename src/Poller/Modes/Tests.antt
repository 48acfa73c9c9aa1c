-- ===== src/Poller/Modes/Tests.antt =====
-- An event source that is started, stopped and started again on a sample epoll instance.
use guitar_tea.Common.{ℕ, ◌≡◌, refl, true, Option, none, some, [], ◌∷◌}
use guitar_tea.Common.State.{Ensures}
use guitar_tea.Common.Int.{ℤ, pos, gt_ok, gt_error}
use guitar_tea.Os.{Os, World, Call, CtlOp, ctl_add, ctl_mod, ctl_del, epoll_ctl}
use guitar_tea.Os.Sample.{sample_event, sample_world}
use guitar_tea.Poller.Modes.{start, stop, input, output, fresh, watching, call_ops}
use guitar_tea.Poller.Modes.Calls.{EpollEvents}
use guitar_tea.Poller.Modes.Follow.{InMode, call_ops-run_modes}

-- A kernel that knows the events of one descriptor.
abbrev change : CtlOp → ℕ → Option ℕ → ℤ × Option ℕ
change ctl_add events none = (gt_ok, some events)
change ctl_add events (some old) = (gt_error, some old)
change ctl_mod events none = (gt_error, none)
change ctl_mod events (some old) = (gt_ok, some events)
change ctl_del events none = (gt_error, none)
change ctl_del events (some old) = (gt_ok, none)

abbrev set_answer : Call → Option ℕ → ℤ × Option ℕ
set_answer (epoll_ctl epfd op fd events ptr) k = change op events k
set_answer c k = (gt_ok, k)

abbrev one_set : Os
one_set = record {
  Kernel = Option ℕ;
  answer = set_answer;
  errno = λ k. 17;
  set_errno = λ e k. k;
  malloc = λ size k. (700, k);
  free = λ p k. k;
  read = λ fd count k. (gt_error, [], k);
  socketpair = λ k. (pos 0, pos 8, pos 9, k);
  epoll_wait = λ epfd maxevents timeout k. ([], k);
}

add_new :
    (k : Option ℕ) (events : ℕ)
    → k ≡ none
    → ((change ctl_add events k).0 ≡ gt_ok) × ((change ctl_add events k).1 ≡ some events)
add_new none events e = (refl, refl)
add_new (some old) events e = cc

add_exists :
    (k : Option ℕ) (events old : ℕ)
    → k ≡ some old
    → ((change ctl_add events k).0 ≡ gt_error) × ((change ctl_add events k).1 ≡ some old)
add_exists none events old e = cc
add_exists (some there) events old e = (refl, e)

mod_changes :
    (k : Option ℕ) (events old : ℕ)
    → k ≡ some old
    → ((change ctl_mod events k).0 ≡ gt_ok) × ((change ctl_mod events k).1 ≡ some events)
mod_changes none events old e = cc
mod_changes (some there) events old e = (refl, refl)

abbrev one_events : EpollEvents one_set
one_events = record {
  events_of = λ k epfd fd. k;
  add_new = λ k epfd fd events ptr e. add_new k events e;
  add_exists = λ k epfd fd events ptr old e. add_exists k events old e;
  mod_changes = λ k epfd fd events ptr old e. mod_changes k events old e;
}

abbrev idle : World (Option ℕ)
idle = sample_world none (some (sample_event 0 none))

idle-Source : InMode one_set one_events 600 (pos 3) (pos 5) fresh idle
idle-Source = record {
  gevent = sample_event 0 none;
  here = refl;
  efd_of = refl;
  epfd_of = refl;
  records = refl;
  knows = refl;
}

-- The restart fails, a second one does nothing, and a start for the other event mends both.
call_ops-run_modes_example :
    Ensures
      (call_ops one_set 600
        (start input ∷ stop input ∷ start input ∷ start input ∷ start output ∷ [])
        idle)
      (λ rets t.
        (rets ≡ gt_ok ∷ gt_ok ∷ gt_error ∷ gt_ok ∷ gt_ok ∷ [])
        × InMode one_set one_events 600 (pos 3) (pos 5) (watching true true) t)
call_ops-run_modes_example =
    call_ops-run_modes one_set one_events 600 (pos 3) (pos 5)
      (start input ∷ stop input ∷ start input ∷ start input ∷ start output ∷ []) fresh idle
      idle-Source
