-- ===== src/Os/Sample.antt =====
-- A kernel that answers every call alike and keeps a record of the calls, and a process on it, for
-- the tests.
use guitar_tea.Common.{ℕ, true, Option, none, List, [], ◌∷◌, ◌==◌, if◌then◌else◌}
use guitar_tea.Common.Int.{ℤ, pos}
use guitar_tea.Dlist.{ListMem}
use guitar_tea.Os.{Os, World, Call, GtEvent, ReadFn}

-- It answers each call with `answer` and a read with `read` and one byte; new memory is at `fresh`.
abbrev pub sample_os : (answer read : ℤ) (byte error fresh : ℕ) → Os
sample_os answer read byte error fresh = record {
  Kernel = List Call;
  answer = λ c k. (answer, c ∷ k);
  errno = λ k. error;
  set_errno = λ e k. k;
  malloc = λ size k. (fresh, k);
  free = λ p k. k;
  read = λ fd count k. (read, byte ∷ [], k);
  socketpair = λ k. (pos 0, pos 8, pos 9, k);
  epoll_wait = λ epfd maxevents timeout k. ([], k);
}

abbrev pub sample_event : (events : ℕ) → Option ReadFn → GtEvent
sample_event events fn = record {
  efd = pos 5;
  ops_read = fn;
  ops_write = none;
  events = events;
  data_ptr = 600;
  gpoller = 300;
}

-- Any list head is there; each is linked to itself.
abbrev pub own_links : ListMem
own_links = record { mapped = λ a. true; next = λ a. a; prev = λ a. a }

abbrev pub sample_world : {K : Type 0} → K → Option GtEvent → World K
sample_world k g = record {
  kernel = k;
  lists = own_links;
  event = λ a. if a == 600 then g else none;
  poller = λ a. record { epfd = pos 3; ee = 900; maxe = 32; timeout = 50 };
  pipefd_read = pos 8;
  pipefd_write = pos 9;
  notices = [];
}
