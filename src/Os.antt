-- ===== src/Os.antt =====
-- What the program asks of the kernel and of the C library, and the state of the process that the
-- event loops of user/core work on. Kernel and library are not part of the repository: they are
-- the parameter `os` of the functions that call them.
pub mod Sample
use guitar_tea.Common.{ℕ, ◌≡◌, Bool, true, false, Option, none, some, List, ◌==◌, if◌then◌else◌}
use guitar_tea.Common.State.{Cmd, pure, ◌>>=◌}
use guitar_tea.Common.Int.{ℤ}
use guitar_tea.Dlist.{Ptr, ListMem}

-- EPOLL_CTL_ADD, EPOLL_CTL_MOD and EPOLL_CTL_DEL.
pub data CtlOp : Type 0 where
  ctl_add ctl_mod ctl_del : CtlOp

-- The calls that answer with an `int`.
pub data Call : Type 0 where
  epoll_create : (size : ℕ) → Call
  epoll_ctl : (epfd : ℤ) (op : CtlOp) (fd : ℤ) (events : ℕ) (ptr : Ptr) → Call
  close : (fd : ℤ) → Call
  socket : Call
  set_reuseaddr : (fd : ℤ) → Call
  bind : (fd : ℤ) (ip port : ℕ) → Call
  listen : (fd : ℤ) (backlog : ℕ) → Call
  accept : (fd : ℤ) → Call
  pthread_mutex_init pthread_cond_init pthread_cond_broadcast : Call
  -- The creation of the thread that an entry of a table describes, by the address of the entry.
  pthread_create : (entry : Ptr) → Call
  open_log open_null fork setsid : Call
  umask : (mask : ℕ) → Call
  chdir_root : Call
  dup2 : (old new : ℤ) → Call
  sleep : (seconds : ℕ) → Call
  fcntl_getfl : (fd : ℤ) → Call
  fcntl_setfl : (fd flags : ℤ) → Call
  fcntl_getfd : (fd : ℤ) → Call
  fcntl_setfd : (fd flags : ℤ) → Call
  write : (fd : ℤ) (bytes : List ℕ) → Call
  sigaction : (sig : ℕ) → Call
  sigprocmask : (sigs : List ℕ) → Call
  pthread_sigmask : (sigs : List ℕ) → Call

pub record Os : Type 1 where
  pub Kernel : Type 0
  pub answer : Call → Kernel → ℤ × Kernel
  pub errno : Kernel → ℕ
  pub set_errno : ℕ → Kernel → Kernel
  -- The address of new memory, 0 where there is none.
  pub malloc : (size : ℕ) → Kernel → Ptr × Kernel
  pub free : Ptr → Kernel → Kernel
  -- What a read returns, and the bytes read.
  pub read : (fd : ℤ) (count : ℕ) → Kernel → ℤ × List ℕ × Kernel
  -- What it returns, and the two ends.
  pub socketpair : Kernel → ℤ × ℤ × ℤ × Kernel
  -- The ready events: the pointer that was registered, and the events.
  pub epoll_wait : (epfd : ℤ) (maxevents timeout : ℕ) → Kernel → List (Ptr × ℕ) × Kernel

-- The functions that `gt_ops` points to.
pub data ReadFn : Type 0 where
  signal_ops_read network_ops_read datanet_ops_read : ReadFn

-- `struct gt_event` of user/core/gt_poller.h, without the list head in it, which is in `lists`.
pub record GtEvent : Type 0 where
  pub efd : ℤ
  pub ops_read : Option ReadFn
  pub ops_write : Option ReadFn
  pub events : ℕ
  pub data_ptr : Ptr
  pub gpoller : Ptr

-- `struct gt_poller`, without the list head in it.
pub record GtPoller : Type 0 where
  pub epfd : ℤ
  pub ee : Ptr
  pub maxe : ℕ
  pub timeout : ℕ

-- What a signal that was read from the pipe makes the process log: `gt_process_snap` and
-- `gt_process_dump`, with the signal.
pub data Notice : Type 0 where
  snap dump : (sig : ℕ) → Notice

-- The process: the events are allocated on the heap, the pollers are global.
pub record World (Kernel : Type 0) : Type 0 where
  pub kernel : Kernel
  pub lists : ListMem
  pub event : Ptr → Option GtEvent
  pub poller : Ptr → GtPoller
  -- `g_signal_pipefd[0]` and `g_signal_pipefd[1]`.
  pub pipefd_read : ℤ
  pub pipefd_write : ℤ
  pub notices : List Notice

module _ {K : Type 0} where
  abbrev pub loaded : Option GtEvent → Cmd (World K) GtEvent
  loaded none w = none
  loaded (some g) w = some (g, w)

  -- `*ge`, a fault where no event is allocated.
  unfoldable pub load_event : Ptr → Cmd (World K) GtEvent
  load_event ge w = loaded (w.event ge) w

  abbrev pub put_event : Ptr → Option GtEvent → World K → World K
  put_event ge g w = record w { event = λ a. if a == ge then g else w.event a }

  unfoldable pub store_event : Ptr → GtEvent → Cmd (World K) (Unit {0})
  store_event ge g w = some (tt, put_event ge (some g) w)

  unfoldable pub load_poller : Ptr → Cmd (World K) GtPoller
  load_poller gp w = some (w.poller gp, w)

  unfoldable pub store_poller : Ptr → GtPoller → Cmd (World K) (Unit {0})
  store_poller gp p w = some (tt, record w { poller = λ a. if a == gp then p else w.poller a })

  abbrev pub put_lists : {A : Type 0} → Option (A × ListMem) → Cmd (World K) A
  put_lists none w = none
  put_lists (some (a, m)) w = some (a, record w { lists = m })

  -- A list operation, in the process.
  unfoldable pub on_lists : {A : Type 0} → Cmd ListMem A → Cmd (World K) A
  on_lists c w = put_lists (c w.lists) w

module _ (os : Os) where
  open os use {Kernel}

  unfoldable pub call : Call → Cmd (World Kernel) ℤ
  call c w = let (ret, k) = os.answer c w.kernel in some (ret, record w { kernel = k })

  unfoldable pub errno : Cmd (World Kernel) ℕ
  errno w = some (os.errno w.kernel, w)

  unfoldable pub malloc : ℕ → Cmd (World Kernel) Ptr
  malloc size w = let (p, k) = os.malloc size w.kernel in some (p, record w { kernel = k })

  unfoldable pub read : ℤ → ℕ → Cmd (World Kernel) (ℤ × List ℕ)
  read fd count w =
      let (ret, bytes, k) = os.read fd count w.kernel in
      some ((ret, bytes), record w { kernel = k })

  unfoldable pub epoll_wait : ℤ → ℕ → ℕ → Cmd (World Kernel) (List (Ptr × ℕ))
  epoll_wait epfd maxevents timeout w =
      let (ready, k) = os.epoll_wait epfd maxevents timeout w.kernel in
      some (ready, record w { kernel = k })

  unfoldable pub set_errno : ℕ → Cmd (World Kernel) (Unit {0})
  set_errno e w = some (tt, record w { kernel = os.set_errno e w.kernel })

  unfoldable pub socketpair : Cmd (World Kernel) (ℤ × ℤ × ℤ)
  socketpair w =
      let (ret, fd0, fd1, k) = os.socketpair w.kernel in
      some ((ret, fd0, fd1), record w { kernel = k })
