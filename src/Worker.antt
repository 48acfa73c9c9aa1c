-- ===== src/Worker.antt =====
-- user/core/gt_worker.c: the creation of the threads and the call that wakes them up. The routines
-- of the threads are in Worker/Routine.antt, and gt_gettid is in Worker/Tid.antt.
pub mod Creation
pub mod Routine
pub mod Tid
mod Tests
use guitar_tea.Common.{ℕ, zero, suc, ◌+◌, ◌*◌, not, if◌then◌else◌}
use guitar_tea.Common.State.{Cmd, pure, ◌>>=◌}
use guitar_tea.Common.Int.{ℤ, gt_ok, gt_error, is_ok}
use guitar_tea.Dlist.{Ptr}
use guitar_tea.Os.{
  Os, World, call, pthread_cond_broadcast, pthread_cond_init, pthread_create, pthread_mutex_init,
}
use guitar_tea.Network.{datanet_pthread_num}

abbrev pub business_pthread_num : ℕ
business_pthread_num = 5

-- `sizeof(gt_pthread_t)`, on a 64-bit machine.
abbrev pub sizeof_gt_pthread : ℕ
sizeof_gt_pthread = 40

module _ (os : Os) where
  open os use {Kernel}

  -- The loop of both functions that create threads, by the rounds that are left; `table` is the
  -- address of g_gt_business_pthread or of g_gt_datanet_pthread.
  unfoldable pub create_loop : (table : Ptr) (left i : ℕ) → Cmd (World Kernel) ℤ
  unfolding call
  create_loop table zero i = pure gt_ok
  create_loop table (suc left) i = do
    ret ← call os (pthread_create (table + sizeof_gt_pthread * i))
    if not (is_ok ret) then pure gt_error else create_loop table left (i + 1)

  unfoldable pub gt_create_pthread : (business : Ptr) → Cmd (World Kernel) ℤ
  unfolding call
  gt_create_pthread business = do
    mutex ← call os pthread_mutex_init
    if not (is_ok mutex) then pure mutex else do
      cond ← call os pthread_cond_init
      if not (is_ok cond) then pure cond else create_loop business business_pthread_num 0

  unfoldable pub gt_wakeup_pthread : Cmd (World Kernel) ℤ
  unfolding call
  gt_wakeup_pthread = do
    ret ← call os pthread_cond_broadcast
    if not (is_ok ret) then pure ret else pure gt_ok

  unfoldable pub gt_create_datanet_pthread : (datanet : Ptr) → Cmd (World Kernel) ℤ
  gt_create_datanet_pthread datanet = create_loop datanet datanet_pthread_num 0

  -- Of user/core/gt_network.c.
  unfoldable pub gt_network_phase2_func : (datanet : Ptr) → Cmd (World Kernel) ℤ
  gt_network_phase2_func datanet = do
    ret ← gt_create_datanet_pthread datanet
    if not (is_ok ret) then pure ret else pure gt_ok
