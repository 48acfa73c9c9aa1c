-- ===== src/RingQueue.antt =====
-- user/core/gt_ring_queue.h and user/core/gt_ring_queue.c: the types of the ring queue, and the
-- one operation that has a body.
use guitar_tea.Common.{ℕ, some, List}
use guitar_tea.Common.State.{Cmd}
use guitar_tea.Common.Int.{ℤ, gt_ok}
use guitar_tea.Dlist.{Ptr}

-- `gt_rq_type_max` is their number.
pub data RqType : Type 0 where
  gt_rq_type_spsc gt_rq_type_spmc gt_rq_type_mpsc gt_rq_type_mpmc gt_rq_type_max : RqType

-- `gt_ring_data_t`: the union is its 64 bits.
pub record GtRingData : Type 0 where
  pub uint64_addr : ℕ

pub record GtRingQueue : Type 0 where
  pub prod_head : ℕ
  pub prod_tail : ℕ
  pub cons_head : ℕ
  pub cons_tail : ℕ
  pub size : ℕ
  pub data_entries : List GtRingData

unfoldable pub gt_ring_queue_mp_enqueue : (val : Ptr) → Cmd GtRingQueue ℤ
gt_ring_queue_mp_enqueue val rq = some (gt_ok, rq)
