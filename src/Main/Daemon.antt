-- ===== src/Main/Daemon.antt =====
-- `gt_daemonize_process` of user/main/main.c on a kernel with a table of file descriptors.
use guitar_tea.Common.{ℕ, zero, suc, ◌<◌, ◌≡◌, ◌≢◌, refl, ap, sym, ◌∙◌, Option, none, some, arith}
use guitar_tea.Common.Int.{ℤ, pos, gt_ok}
use guitar_tea.Os.{Os, World, call, Call, open_null, fork, setsid, umask, chdir_root, dup2, close}
use guitar_tea.Main.{returns, detach, gt_daemonize_process}

-- What close(2), open(2) and dup2(2) say of the descriptors, which are below `limit`: `null` is the
-- open file that an open of /dev/null makes, and an open that succeeds takes the lowest descriptor
-- that is free.
pub record Descriptors (os : Os) (File : Type 0) : Type 0 where
  pub limit : ℕ
  pub null : File
  pub file : os.Kernel → ℕ → Option File
  pub close_frees : (k : os.Kernel) (fd : ℕ) → file (os.answer (close (pos fd)) k).1 fd ≡ none
  pub close_keeps :
      (k : os.Kernel) (fd other : ℕ)
      → other ≢ fd
      → file (os.answer (close (pos fd)) k).1 other ≡ file k other
  pub open_lowest :
      (k : os.Kernel) (fd : ℕ)
      → (os.answer open_null k).0 ≡ pos fd
      → (lower : ℕ) → lower < fd
      → file k lower ≢ none
  pub open_null_there :
      (k : os.Kernel) (fd : ℕ)
      → (os.answer open_null k).0 ≡ pos fd
      → file (os.answer open_null k).1 fd ≡ some null
  pub dup2_copies :
      (k : os.Kernel) (old new : ℕ) (f : File)
      → file k old ≡ some f
      → new < limit
      → file (os.answer (dup2 (pos old) (pos new)) k).1 new ≡ some f
  pub dup2_keeps :
      (k : os.Kernel) (old new other : ℕ)
      → other ≢ new
      → file (os.answer (dup2 (pos old) (pos new)) k).1 other ≡ file k other

module _ (os : Os) {File : Type 0} (table : Descriptors os File) where
  open table use {file, null, limit}

  -- /dev/null is opened as 0 where that is free.
  open_null-zero :
      (k : os.Kernel) (fd : ℕ) → (os.answer open_null k).0 ≡ pos fd → file k 0 ≡ none → fd ≡ 0
  open_null-zero k zero opened free = refl
  open_null-zero k (suc fd) opened free =
      absurd (table.open_lowest k (suc fd) opened 0 (omega arith) free)

  -- The descriptors 0, 1 and 2 are open, on /dev/null.
  abbrev pub AllNull : os.Kernel → Type 0
  AllNull k = (file k 0 ≡ some null) × (file k 1 ≡ some null) × (file k 2 ≡ some null)

  abbrev after : Call → os.Kernel → os.Kernel
  after c k = (os.answer c k).1

  copies-AllNull :
      2 < limit
      → (k : os.Kernel) (r : ℤ) → r ≡ pos 0
      → file k 0 ≡ some null
      → AllNull (after (dup2 r (pos 2)) (after (dup2 r (pos 1)) k))
  copies-AllNull room k r zero_fd h = rw zero_fd (
    keep 2 0 (after (dup2 (pos 0) (pos 1)) k) (λ e. omega arith) ∙ at_zero,
    keep 2 1 (after (dup2 (pos 0) (pos 1)) k) (λ e. omega arith)
        ∙ table.dup2_copies k 0 1 null h (omega arith),
    table.dup2_copies (after (dup2 (pos 0) (pos 1)) k) 0 2 null at_zero room,
  )
    where
      keep :
          (new other : ℕ) (k' : os.Kernel)
          → other ≢ new
          → file (after (dup2 (pos 0) (pos new)) k') other ≡ file k' other
      keep new other k' apart = table.dup2_keeps k' 0 new other apart

      at_zero : file (after (dup2 (pos 0) (pos 1)) k) 0 ≡ some null
      at_zero = keep 1 0 k (λ e. omega arith) ∙ h

  -- The same behind the open.
  opened-AllNull :
      2 < limit
      → (k : os.Kernel) (fd : ℕ) → (os.answer open_null k).0 ≡ pos fd
      → file k 0 ≡ none
      → AllNull (
          after
            (dup2 (os.answer open_null k).0 (pos 2))
            (after (dup2 (os.answer open_null k).0 (pos 1)) (after open_null k)))
  opened-AllNull room k fd opened free =
      copies-AllNull room (after open_null k) (os.answer open_null k).0 (opened ∙ ap pos fd_zero)
        (by_zero (table.open_null_there k fd opened))
    where
      fd_zero : fd ≡ 0
      fd_zero = open_null-zero k fd opened free

      by_zero : file (after open_null k) fd ≡ some null → file (after open_null k) 0 ≡ some null
      by_zero h = ap (file (after open_null k)) (sym fd_zero) ∙ h

  closed_zero :
      (k : os.Kernel)
      → file (after (close (pos 2)) (after (close (pos 1)) (after (close (pos 0)) k))) 0 ≡ none
  closed_zero k =
      table.close_keeps (after (close (pos 1)) (after (close (pos 0)) k)) 2 0 (λ e. omega arith)
      ∙ table.close_keeps (after (close (pos 0)) k) 1 0 (λ e. omega arith)
      ∙ table.close_frees k 0

  -- The three descriptors lead to /dev/null, wherever they led before.
  detach-AllNull :
      2 < limit
      → ((k : os.Kernel) → (fd : ℕ) × ((os.answer open_null k).0 ≡ pos fd))
      → (w : World os.Kernel)
      → (w' : World os.Kernel) × (detach os w ≡ some (returns gt_ok, w')) × AllNull w'.kernel
  unfolding detach call
  detach-AllNull room opens w = (
    _,
    refl,
    opened-AllNull room _ (opens _).0 (opens _).1 (closed_zero (after chdir_root w.kernel)),
  )

  -- Where both calls of fork answer 0, as they do in the child, an open of /dev/null succeeds, and
  -- descriptors up to 2 are allowed, gt_daemonize_process returns GT_OK, and the descriptors 0, 1 and 2
  -- then lead to /dev/null, whatever was open before.
  pub gt_daemonize_process-detached :
      ((k : os.Kernel) → (os.answer fork k).0 ≡ pos 0)
      → ((k : os.Kernel) → (fd : ℕ) × ((os.answer open_null k).0 ≡ pos fd))
      → 2 < limit
      → (w : World os.Kernel)
      → (w' : World os.Kernel) × (gt_daemonize_process os w ≡ some (returns gt_ok, w'))
        × AllNull w'.kernel
  unfolding gt_daemonize_process call
  gt_daemonize_process-detached forks opens room w =
      rw (forks _, forks _)
        (detach-AllNull room opens
          (record w { kernel = after fork (after setsid (after fork (after (umask 0) w.kernel))) }))
