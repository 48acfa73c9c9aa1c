-- ===== src/Spinlock/Count.antt =====
-- No increment of test/spinlock_test.c is lost.
use guitar_tea.Common.{ℕ, zero, suc, ◌+◌, ◌*◌, ◌%◌, ◌^◌, ◌≤◌, ◌<◌, ◌≡◌, refl, arith}
use guitar_tea.Spinlock.{
  Shared, Pc, spin, load, store, release, done, at_round, Move, wait, take, read_count, write_count,
  unlock, System, Step, pick, update_pc, Reach, here, later,
}
use guitar_tea.Spinlock.Mutex.{Inv, Reach-Inv}

-- The increments that a thread has still to make, and those of the first `n` threads.
abbrev pending : Pc → ℕ
pending (spin n) = n + 1
pending (load n) = n + 1
pending (store n c) = n + 1
pending (release n) = n
pending done = 0

all_pending : ℕ → (ℕ → Pc) → ℕ
all_pending zero pc = 0
all_pending (suc n) pc = all_pending n pc + pending (pc n)

pending-at_round : (r : ℕ) → pending (at_round r) ≡ r
pending-at_round zero = refl
pending-at_round (suc r) = omega arith

all_pending-outside :
    (n : ℕ) (pc : ℕ → Pc) (i : ℕ) (p : Pc)
    → n ≤ i
    → all_pending n (update_pc pc i p) ≡ all_pending n pc
unfolding all_pending
all_pending-outside zero pc i p h = refl
all_pending-outside (suc n) pc i p h = ground (arith, all_pending-outside n pc i p)

all_pending-update :
    (n : ℕ) (pc : ℕ → Pc) (i : ℕ) (p : Pc)
    → i < n
    → all_pending n (update_pc pc i p) + pending (pc i) ≡ all_pending n pc + pending p
unfolding all_pending
all_pending-update zero pc i p h = absurd (omega arith)
all_pending-update (suc n) pc i p h =
    ground (arith, all_pending-update n pc i p, all_pending-outside n pc i p)

all_pending-start : (n r : ℕ) → all_pending n (λ i. at_round r) ≡ n * r
unfolding all_pending
all_pending-start zero r = omega arith
all_pending-start (suc n) r = omega (arith, all_pending-start n r, pending-at_round r)

all_pending-done : (n : ℕ) (pc : ℕ → Pc) → ((i : ℕ) → i < n → pc i ≡ done) → all_pending n pc ≡ 0
unfolding all_pending
all_pending-done zero pc h = refl
all_pending-done (suc n) pc h =
    let first = all_pending-done n pc (λ i lt. h i (omega arith)) in ground (arith, h n)

-- The count and the increments still to come add up, modulo the range of the counter.
Counted : (n r : ℕ) → Shared → (ℕ → Pc) → Type 0
Counted n r m pc =
    (m.total_count < 2 ^ 32) × ((m.total_count + all_pending n pc) % 2 ^ 32 ≡ n * r % 2 ^ 32)

Move-Counted :
    (r : ℕ) {n i : ℕ} {m m' : Shared} {pc : ℕ → Pc} {p p' : Pc}
    → Inv m pc
    → i < n
    → Move m p m' p'
    → pc i ≡ p
    → Counted n r m pc
    → Counted n r m' (update_pc pc i p')
unfolding Counted
Move-Counted r {n} {i} {m} {pc} {p} {p'} inv lt (wait g) e c =
    ground (arith, all_pending-update n pc i p')
Move-Counted r {n} {i} {m} {pc} {p} {p'} inv lt (take g) e c =
    ground (arith, all_pending-update n pc i p')
Move-Counted r {n} {i} {m} {pc} {p} {p'} inv lt read_count e c =
    ground (arith, all_pending-update n pc i p')
Move-Counted r {n} {i} {m} {pc} {p} {p'} inv lt (write_count {n = k} {c = v}) e c =
    ground (arith, all_pending-update n pc i p', inv.fresh i k v)
Move-Counted r {n} {i} {m} {pc} {p} {p'} inv lt (unlock {n = k}) e c =
    ground (arith, all_pending-update n pc i p', pending-at_round k)

Step-Counted :
    (r : ℕ) {n : ℕ} {s t : System}
    → Step n s t
    → Inv s.shared s.pc
    → Counted n r s.shared s.pc
    → Counted n r t.shared t.pc
Step-Counted r (pick i lt mv) inv c = Move-Counted r inv lt mv refl c

Reach-Counted : {n r : ℕ} {s : System} → Reach n r s → Counted n r s.shared s.pc
unfolding Counted
Reach-Counted {n} {r} here = omega (arith, all_pending-start n r)
Reach-Counted {r} (later before st) = Step-Counted r st (Reach-Inv before) (Reach-Counted before)

-- Once every thread is behind its loop, the counter stands at threads times rounds, modulo 2^32,
-- whatever the interleaving was.
pub total_count_exact :
    {n r : ℕ} {s : System}
    → Reach n r s
    → ((i : ℕ) → i < n → s.pc i ≡ done)
    → s.shared.total_count ≡ n * r % 2 ^ 32
unfolding Counted
total_count_exact {n} {r} {s} reach quiet =
    omega (arith, Reach-Counted reach, all_pending-done n s.pc quiet)
