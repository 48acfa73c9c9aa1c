-- ===== src/Spinlock.antt =====
-- user/core/gt_spinlock.h: a lock in one `int`, taken by compare-and-swap, and the threads of
-- test/spinlock_test.c that count under it. All atomic operations are sequentially consistent.
pub mod Mutex
pub mod Count
pub mod Progress
mod Tests
use guitar_tea.Common.{
  ℕ, zero, suc, ◌+◌, ◌%◌, ◌^◌, ◌<◌, ◌≡◌, Bool, true, false, ◌==◌, if◌then◌else◌,
}

-- `__sync_bool_compare_and_swap(&spl->locked, old, val)`: the answer, and the lock behind it.
unfoldable pub cas : (locked old val : ℕ) → Bool × ℕ
cas locked old val = if locked == old then (true, val) else (false, locked)

-- `gt_spinlock_init`, `gt_spinlock_trylock`, one round of the loop of `gt_spinlock_lock`, and
-- `gt_spinlock_unlock`.
abbrev pub unlocked : ℕ
unlocked = 0

unfoldable pub gt_spinlock_trylock : (locked : ℕ) → Bool × ℕ
unfolding cas
gt_spinlock_trylock locked = cas locked 0 1

unfoldable pub gt_spinlock_unlock : (locked : ℕ) → ℕ
gt_spinlock_unlock locked = 0

-- One round of the loops of `gt_spinlock_lock_with_val` and `gt_spinlock_unlock_with_val`.
unfoldable pub try_lock_with_val : (val locked : ℕ) → Bool × ℕ
unfolding cas
try_lock_with_val val locked = cas locked 0 val

unfoldable pub try_unlock_with_val : (val locked : ℕ) → Bool × ℕ
unfolding cas
try_unlock_with_val val locked = cas locked val 0

-- The memory of the test: the lock and `g_total_count`, an `unsigned int`.
pub record Shared : Type 0 where
  pub locked : ℕ
  pub total_count : ℕ

-- Where a thread of the test stands, with the rounds of its loop that are left: at the loop of
-- `gt_spinlock_lock`, before the read of `g_total_count`, before its write, before
-- `gt_spinlock_unlock`, and behind the loop.
pub data Pc : Type 0 where
  spin : (left : ℕ) → Pc
  load : (left : ℕ) → Pc
  store : (left count : ℕ) → Pc
  release : (left : ℕ) → Pc
  done : Pc

-- Before a round, with the rounds that are left.
abbrev pub at_round : ℕ → Pc
at_round zero = done
at_round (suc n) = spin n

-- A step of one thread.
pub data Move (m : Shared) : Pc → Shared → Pc → Type 0 where
  wait : {n : ℕ} → (gt_spinlock_trylock m.locked).0 ≡ false → Move m (spin n) m (spin n)
  take :
      {n : ℕ}
      → (gt_spinlock_trylock m.locked).0 ≡ true
      → Move m (spin n) (record m { locked = (gt_spinlock_trylock m.locked).1 }) (load n)
  read_count : {n : ℕ} → Move m (load n) m (store n m.total_count)
  write_count :
      {n c : ℕ} → Move m (store n c) (record m { total_count = (c + 1) % 2 ^ 32 }) (release n)
  unlock :
      {n : ℕ} → Move m (release n) (record m { locked = gt_spinlock_unlock m.locked }) (at_round n)

-- `threads` threads, by number.
pub record System : Type 0 where
  pub shared : Shared
  pub pc : ℕ → Pc

abbrev pub update_pc : (ℕ → Pc) → ℕ → Pc → ℕ → Pc
update_pc pc i p j = if j == i then p else pc j

pub data Step (threads : ℕ) (s : System) : System → Type 0 where
  pick :
      (i : ℕ) {m : Shared} {p : Pc}
      → i < threads
      → Move s.shared (s.pc i) m p
      → Step threads s (record { shared = m; pc = update_pc s.pc i p })

-- The test with `rounds` rounds in each thread.
abbrev pub start : (rounds : ℕ) → System
start rounds = record {
  shared = record { locked = unlocked; total_count = 0 };
  pc = λ i. at_round rounds;
}

pub data Reach (threads rounds : ℕ) : System → Type 0 where
  here : Reach threads rounds (start rounds)
  later : {s t : System} → Reach threads rounds s → Step threads s t → Reach threads rounds t

-- Between `gt_spinlock_lock` and `gt_spinlock_unlock`.
abbrev pub holds : Pc → Bool
holds (spin n) = false
holds (load n) = true
holds (store n c) = true
holds (release n) = true
holds done = false
