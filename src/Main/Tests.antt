-- ===== src/Main/Tests.antt =====
-- The start of the program on sample kernels.
use guitar_tea.Common.{
  ℕ, zero, suc, ◌<◌, ◌≡◌, ◌≢◌, refl, ap, sym, ◌∙◌, false, true, Bool, Option, none, some, List, [],
  ◌∷◌, arith,
}
use guitar_tea.Common.Int.{ℤ, pos, negsuc, gt_ok}
use guitar_tea.Phase.{no_phases}
use guitar_tea.Os.{Os, World, Call, open_null, dup2, close}
use guitar_tea.Os.Sample.{sample_os, sample_world}
use guitar_tea.Dlist.{init_list_head, list_add, list_add_between}
use guitar_tea.Poller.{
  ge_list, elist, clear_event, gt_poller_epoll_wait, dispatch_all, dispatch, call_fn,
  gt_poller_gevent_create, gt_poller_event_start,
}
use guitar_tea.Os.{load_event}
use guitar_tea.Common.State.{Ensures}
use guitar_tea.Network.{gt_network_ops_read, gt_network_round_dispatch, unless_again}
use guitar_tea.Poller.Population.{Healthy}
use guitar_tea.Poller.Population.Sample.{upwards, upwards_heap, listening}
use guitar_tea.Main.Rounds.{RoundsReady, gt_do_run-Healthy}
use guitar_tea.Main.{Server, Places, returns, gt_daemonize_process, gt_init_system, gt_do_run}
use guitar_tea.Main.Embedded.{world_of}
use guitar_tea.Main.Sequence.{boot_sequence, gt_init_system-boot_sequence}
use guitar_tea.Main.Daemon.{Descriptors, AllNull, gt_daemonize_process-detached}

abbrev willing : Os
willing = sample_os (pos 0) (pos 1) 65 0 700

abbrev places : Places
places = record {
  core_poller = 300;
  network_poller = 304;
  data_of = λ tid. 310;
  business = 400;
  datanet = 500;
}

abbrev server : Server
server = record { ip = 2130706433; port = 8080 }

gt_init_system-boot_sequence_example :
    world_of (
      gt_init_system willing places server
        (record { table = no_phases; world = sample_world [] none }))
    ≡ boot_sequence willing places server (sample_world [] none)
gt_init_system-boot_sequence_example =
    gt_init_system-boot_sequence willing places server (sample_world [] none)

-- A table of descriptors, where `true` is /dev/null and `false` a terminal.
abbrev Table : Type 0
Table = List (Option Bool)

abbrev file_at : Table → ℕ → Option Bool
file_at [] n = none
file_at (x ∷ xs) zero = x
file_at (x ∷ xs) (suc n) = file_at xs n

abbrev set_file : ℕ → Option Bool → Table → Table
set_file zero v [] = v ∷ []
set_file zero v (x ∷ xs) = v ∷ xs
set_file (suc n) v [] = none ∷ set_file n v []
set_file (suc n) v (x ∷ xs) = x ∷ set_file n v xs

abbrev lowest : Table → ℕ
lowest [] = 0
lowest (none ∷ xs) = 0
lowest (some f ∷ xs) = suc (lowest xs)

file_at-set_file : (n : ℕ) (v : Option Bool) (t : Table) → file_at (set_file n v t) n ≡ v
file_at-set_file zero v [] = refl
file_at-set_file zero v (x ∷ xs) = refl
file_at-set_file (suc n) v [] = file_at-set_file n v []
file_at-set_file (suc n) v (x ∷ xs) = file_at-set_file n v xs

file_at-set_file_other :
    (n m : ℕ) (v : Option Bool) (t : Table) → m ≢ n → file_at (set_file n v t) m ≡ file_at t m
file_at-set_file_other zero zero v t apart = absurd (apart refl)
file_at-set_file_other zero (suc m) v [] apart = refl
file_at-set_file_other zero (suc m) v (x ∷ xs) apart = refl
file_at-set_file_other (suc n) zero v [] apart = refl
file_at-set_file_other (suc n) zero v (x ∷ xs) apart = refl
file_at-set_file_other (suc n) (suc m) v [] apart =
    file_at-set_file_other n m v [] (λ e. apart (ap suc e))
file_at-set_file_other (suc n) (suc m) v (x ∷ xs) apart =
    file_at-set_file_other n m v xs (λ e. apart (ap suc e))

file_at-lowest : (t : Table) (m : ℕ) → m < lowest t → file_at t m ≢ none
file_at-lowest [] m h = omega arith
file_at-lowest (none ∷ xs) m h = omega arith
file_at-lowest (some f ∷ xs) zero h = λ e. cc
file_at-lowest (some f ∷ xs) (suc m) h = file_at-lowest xs m (omega arith)

abbrev answer : Call → Table → ℤ × Table
answer (close (pos fd)) t = (pos 0, set_file fd none t)
answer open_null t = (pos (lowest t), set_file (lowest t) (some true) t)
answer (dup2 (pos old) (pos new)) t = (pos new, set_file new (file_at t old) t)
answer c t = (pos 0, t)

abbrev forked : Os
forked = record {
  Kernel = Table;
  answer = answer;
  errno = λ t. 0;
  set_errno = λ e t. t;
  malloc = λ size t. (0, t);
  free = λ p t. t;
  read = λ fd count t. (pos 0, [], t);
  socketpair = λ t. (negsuc 0, pos 0, pos 0, t);
  epoll_wait = λ epfd maxevents timeout t. ([], t);
}

-- The call of open takes the lowest descriptor.
fd-lowest : (t : Table) (fd : ℕ) → pos (lowest t) ≡ pos fd → lowest t ≡ fd
fd-lowest t fd opened = ap magnitude opened
  where
    magnitude : ℤ → ℕ
    magnitude (pos n) = n
    magnitude (negsuc n) = n

opened_there :
    (t : Table) (fd : ℕ)
    → pos (lowest t) ≡ pos fd
    → file_at (set_file (lowest t) (some true) t) fd ≡ some true
opened_there t fd opened =
    ap (file_at (set_file (lowest t) (some true) t)) (sym (fd-lowest t fd opened))
    ∙ file_at-set_file (lowest t) (some true) t

abbrev descriptors : Descriptors forked Bool
descriptors = record {
  limit = 1024;
  null = true;
  file = file_at;
  close_frees = λ t fd. file_at-set_file fd none t;
  close_keeps = λ t fd other. file_at-set_file_other fd other none t;
  open_lowest =
      λ t fd opened lower below. file_at-lowest t lower (rw (fd-lowest t fd opened) below);
  open_null_there = λ t fd opened. opened_there t fd opened;
  dup2_copies = λ t old new f h room. file_at-set_file new (file_at t old) t ∙ h;
  dup2_keeps = λ t old new other. file_at-set_file_other new other (file_at t old) t;
}

abbrev three_terminals : Table
three_terminals = some false ∷ some false ∷ some false ∷ []

gt_daemonize_process-detached_example :
    (w' : World Table) × (gt_daemonize_process forked (sample_world three_terminals none)
      ≡ some (returns gt_ok, w'))
    × AllNull forked descriptors w'.kernel
gt_daemonize_process-detached_example =
    gt_daemonize_process-detached forked descriptors (λ t. refl) (λ t. (lowest t, refl))
      (omega arith) (sample_world three_terminals none)

abbrev sample_server : Server
sample_server = record { ip = 0; port = 8080 }

abbrev sample_places : Places
sample_places = record {
  core_poller = 300;
  network_poller = 300;
  data_of = λ tid. 400;
  business = 500;
  datanet = 600;
}

-- In both rounds a connection is accepted.
two_rounds : RoundsReady upwards sample_places sample_server 0 2 listening.1
unfolding listening gt_poller_epoll_wait dispatch_all dispatch call_fn gt_network_ops_read
    gt_network_round_dispatch gt_poller_gevent_create clear_event init_list_head list_add
    list_add_between gt_poller_event_start ge_list elist load_event unless_again
two_rounds = ((listening.3, λ e. cc, tt, tt), (((_, _, refl, refl), λ e. cc, tt, tt), tt))

gt_do_run-Healthy_example :
    Ensures
      (gt_do_run upwards sample_places sample_server 0 2 listening.1)
      (λ _ t. Healthy upwards_heap listening.0 t)
gt_do_run-Healthy_example =
    gt_do_run-Healthy upwards sample_places sample_server 0 upwards_heap listening.0 listening.4
      (λ fd k. refl) 2 listening.1 listening.2 two_rounds
