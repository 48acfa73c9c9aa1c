-- ===== src/Network.antt =====
-- user/core/gt_network.c: the socket that listens, the connections that it accepts and hands to
-- the pollers of the datanet threads, and the settings of a descriptor. The log lines are left out.
pub mod Reading
pub mod Race
pub mod Listen
pub mod Connect
mod Tests
use Prim.Native.Nat.{bit_and, bit_or, bit_xor}
use guitar_tea.Common.{
  ℕ, suc, ◌+◌, ◌*◌, ◌-◌, ◌^◌, ◌%◌, Bool, true, false, not, Option, none, some, List, [], ◌∷◌, ◌==◌,
  ◌||◌, if◌then◌else◌,
}
use guitar_tea.Common.State.{Cmd, pure, ◌>>=◌, ◌>>◌}
use guitar_tea.Common.Int.{ℤ, pos, negsuc, gt_ok, gt_error, is_ok, is_neg, is_minus_one}
use guitar_tea.Dlist.{Ptr}
use guitar_tea.Os.{
  Os, World, GtEvent, ReadFn, datanet_ops_read, network_ops_read, close, socket, set_reuseaddr,
  bind, listen, accept, fcntl_getfl, fcntl_setfl, fcntl_getfd, fcntl_setfd, load_event, store_event,
  call, errno, read, socketpair,
}
use guitar_tea.Poller.{
  epollin, gt_poller_event_start, gt_poller_event_stop, gt_poller_gevent_create,
  gt_poller_gevent_destroy, gt_poller_init,
}

-- EAGAIN, which is EWOULDBLOCK on Linux.
abbrev pub eagain : ℕ
eagain = 11

-- O_NONBLOCK and FD_CLOEXEC.
abbrev pub o_nonblock : ℕ
o_nonblock = 2048

abbrev pub fd_cloexec : ℕ
fd_cloexec = 1

abbrev pub datanet_pthread_num : ℕ
datanet_pthread_num = 4

abbrev pub networker_maxevent : ℕ
networker_maxevent = 1024

abbrev pub networker_epwait_timeout : ℕ
networker_epwait_timeout = 50

-- `flag | bits` of an `int`: ~(n & ~bits) where the flag is ~n.
abbrev pub int_or : ℤ → ℕ → ℤ
int_or (pos n) bits = pos (bit_or n bits)
int_or (negsuc n) bits = negsuc (bit_and n (bit_xor bits 0xffff_ffff))

-- A descriptor as a `size_t`, for the index of an array.
abbrev pub size_of_fd : ℤ → ℕ
size_of_fd (pos n) = n
size_of_fd (negsuc n) = 2 ^ 64 - suc n

-- `ge->ops.read = fn`.
abbrev pub with_read : ReadFn → GtEvent → GtEvent
with_read fn g = record g { ops_read = some fn }

module _ (os : Os) where
  open os use {Kernel}

  -- `close(fd); return GT_ERROR;`
  unfoldable pub close_error : (fd : ℤ) → Cmd (World Kernel) ℤ
  unfolding call
  close_error fd = do _ ← call os (close fd); pure gt_error

  -- What follows a failed call: `return GT_OK` where it would have to wait, or else `failed`.
  unfoldable pub unless_again : Cmd (World Kernel) ℤ → Cmd (World Kernel) ℤ
  unfolding errno
  unless_again failed = do tmp_errno ← errno os; if tmp_errno == eagain then pure gt_ok else failed

  -- What it returns, and the ends that are written to `pipefd`.
  unfoldable pub gt_create_pipefd : Cmd (World Kernel) (ℤ × ℤ × ℤ)
  unfolding socketpair
  gt_create_pipefd = do
    (ret, fd0, fd1) ← socketpair os
    if not (is_ok ret) then pure (ret, fd0, fd1) else pure (gt_ok, fd0, fd1)

  unfoldable pub gt_set_nonblock : (fd : ℤ) → Cmd (World Kernel) ℤ
  unfolding call
  gt_set_nonblock fd = do
    flag ← call os (fcntl_getfl fd)
    ret ← call os (fcntl_setfl fd (int_or flag o_nonblock))
    if not (is_ok ret) then pure ret else pure gt_ok

  unfoldable pub gt_set_cloexec : (fd : ℤ) → Cmd (World Kernel) ℤ
  unfolding call
  gt_set_cloexec fd = do
    flag ← call os (fcntl_getfd fd)
    ret ← call os (fcntl_setfd fd (int_or flag fd_cloexec))
    if not (is_ok ret) then pure ret else pure gt_ok

  unfoldable pub gt_datanet_ops_read : (ge : Ptr) → Cmd (World Kernel) ℤ
  unfolding load_event read unless_again
  gt_datanet_ops_read ge = do
    g ← load_event ge
    (ret, _) ← read os g.efd 127
    if not (is_neg ret || is_ok ret) then pure ret else do
      let drop = (do
        _ ← gt_poller_event_stop os epollin ge
        gt_poller_gevent_destroy os ge
        pure ret)
      unless_again drop

  -- `network_poller` is `&g_gt_network_poller`, `data i` is `g_gt_datanet_pthread[i].data`.
  module _ (network_poller : Ptr) (data_of : ℕ → Ptr) where
    unfoldable pub gt_network_round_dispatch : (sockfd : ℤ) → Cmd (World Kernel) ℤ
    unfolding load_event store_event
    gt_network_round_dispatch sockfd = do
      let pthread_idx = size_of_fd sockfd % datanet_pthread_num
      ge ← gt_poller_gevent_create os sockfd (data_of pthread_idx)
      if ge == 0 then pure gt_ok else do
        g ← load_event ge
        store_event ge (with_read datanet_ops_read g)
        ret ← gt_poller_event_start os epollin ge
        if not (is_ok ret) then pure gt_error else pure gt_ok

    unfoldable pub gt_network_ops_read : (ge : Ptr) → Cmd (World Kernel) ℤ
    unfolding load_event call unless_again
    gt_network_ops_read ge = do
      g ← load_event ge
      cfd ← call os (accept g.efd)
      if is_minus_one cfd then unless_again (pure gt_error) else do
        opt ← call os (set_reuseaddr cfd)
        if is_minus_one opt then close_error cfd else do
          flags ← call os (fcntl_getfl cfd)
          set ← call os (fcntl_setfl cfd (int_or flags o_nonblock))
          if is_minus_one set then close_error cfd else do
            ret ← gt_network_round_dispatch cfd
            if not (is_ok ret) then pure gt_error else pure gt_ok

    unfoldable pub gt_network_listenning : (ip port : ℕ) → Cmd (World Kernel) ℤ
    unfolding load_event store_event call
    gt_network_listenning ip port = do
      lfd ← call os socket
      if is_neg lfd then pure gt_error else do
        opt ← call os (set_reuseaddr lfd)
        if is_minus_one opt then close_error lfd else do
          bound ← call os (bind lfd ip port)
          if is_minus_one bound then close_error lfd else do
            listening ← call os (listen lfd networker_maxevent)
            if is_minus_one listening then close_error lfd else do
              ge ← gt_poller_gevent_create os lfd network_poller
              if ge == 0 then pure gt_error else do
                g ← load_event ge
                store_event ge (with_read network_ops_read g)
                ret ← gt_poller_event_start os epollin ge
                if not (is_ok ret) then pure gt_error else pure gt_ok

    unfoldable pub gt_network_phase1_func : (server_ip server_port : ℕ) → Cmd (World Kernel) ℤ
    gt_network_phase1_func server_ip server_port = do
      ret ← gt_poller_init os networker_maxevent networker_epwait_timeout network_poller
      if not (is_ok ret) then pure ret else do
        ret' ← gt_network_listenning server_ip server_port
        if not (is_ok ret') then pure ret' else pure gt_ok
