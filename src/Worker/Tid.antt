-- ===== src/Worker/Tid.antt =====
-- `gt_gettid` of user/core/gt_worker.c, which keeps the answer of the kernel.
use guitar_tea.Common.{
  ℕ, ◌≡◌, refl, ap, ◌∙◌, inl, inr, false, Bool-cases, not, List, [], ◌∷◌, map, arith, ◌==◌, ◌||◌,
  if◌then◌else◌,
}

-- `cached_tid` and `cached_pid`, which each thread has of its own.
pub record Cached : Type 0 where
  pub cached_tid : ℕ
  pub cached_pid : ℕ

-- `pid` and `tid` are what getpid(2) and gettid(2) answer.
unfoldable pub gt_gettid : (pid tid : ℕ) → Cached → ℕ × Cached
gt_gettid pid tid c =
    if not (c.cached_pid == pid) || c.cached_tid == 0
    then (tid, record { cached_tid = tid; cached_pid = pid })
    else (c.cached_tid, c)

-- A new thread.
abbrev pub no_tid : Cached
no_tid = record { cached_tid = 0; cached_pid = 0 }

-- What the calls return, where the thread is `tid_of pid` in the process `pid`.
unfoldable pub gettid_calls : (tid_of : ℕ → ℕ) → List ℕ → Cached → List ℕ
gettid_calls tid_of [] c = []
gettid_calls tid_of (pid ∷ pids) c =
    let (tid, c') = gt_gettid pid (tid_of pid) c in tid ∷ gettid_calls tid_of pids c'

-- What is kept is nothing, or the answer for the process that is kept.
abbrev Coherent : (ℕ → ℕ) → Cached → Type 0
Coherent tid_of c = (c.cached_tid == 0) ≡ false → c.cached_tid ≡ tid_of c.cached_pid

gt_gettid-Coherent :
    (tid_of : ℕ → ℕ) (pid : ℕ) (c : Cached)
    → Coherent tid_of c
    → ((gt_gettid pid (tid_of pid) c).0 ≡ tid_of pid)
      × Coherent tid_of (gt_gettid pid (tid_of pid) c).1
unfolding gt_gettid
gt_gettid-Coherent tid_of pid c h = elim (Bool-cases (c.cached_pid == pid)) [
  | inl same ↦ elim (Bool-cases (c.cached_tid == 0)) [
    | inl none ↦ rw (same, none) (refl, λ e. refl)
    | inr kept ↦
        let kept_pid : c.cached_pid ≡ pid = ground arith in
        rw (same, kept) (h kept ∙ ap tid_of kept_pid, h)
  ]
  | inr other ↦ rw other (refl, λ e. refl)
]

gettid_calls-Coherent :
    (tid_of : ℕ → ℕ) (pids : List ℕ) (c : Cached)
    → Coherent tid_of c
    → gettid_calls tid_of pids c ≡ map tid_of pids
unfolding gettid_calls
gettid_calls-Coherent tid_of [] c h = refl
gettid_calls-Coherent tid_of (pid ∷ pids) c h =
    let now = gt_gettid-Coherent tid_of pid c h in
    rw now.0 (
      ap (λ rest. tid_of pid ∷ rest)
        (gettid_calls-Coherent tid_of pids (gt_gettid pid (tid_of pid) c).1 now.1))

-- In a new thread, and whatever the processes are that it runs in from call to call, since a child of
-- fork has the variables of its parent, gt_gettid returns each time what the kernel would answer.
pub gettid_calls-map :
    (tid_of : ℕ → ℕ) (pids : List ℕ) → gettid_calls tid_of pids no_tid ≡ map tid_of pids
gettid_calls-map tid_of pids = gettid_calls-Coherent tid_of pids no_tid (λ e. cc)
