-- ===== src/Signal/Tables.antt =====
-- The tables of signals of user/core/gt_signal.c, against the comments of user/core/gt_signal.h and
-- the switches over the signals.
use guitar_tea.Common.{ℕ, ◌≡◌, refl, Bool, true, false, arith, has}
use guitar_tea.Signal.Numbers.{
  GtSig, gt_sighup, gt_sigint, gt_sigquit, gt_sigill, gt_sigtrap, gt_sigabrt, gt_sigbus, gt_sigfpe,
  gt_sigkill, gt_sigusr1, gt_sigsegv, gt_sigusr2, gt_sigpipe, gt_sigalrm, gt_sigterm, gt_sigstkflt,
  gt_sigcld, gt_sigchld, gt_sigcont, gt_sigstop, gt_sigtstp, gt_sigttin, gt_sigttou, gt_sigurg,
  gt_sigxcpu, gt_sigxfsz, gt_sigvtalrm, gt_sigprof, gt_sigwinch, gt_sigio, gt_sigpwr, gt_sigsys,
  number, Label, user, core, ignore, default, label,
}
use guitar_tea.Signal.{g_gt_sig_custom, g_gt_sig_core, g_gt_sig_ignore, is_custom, is_core}

abbrev pub is_user : Label → Bool
is_user user = true
is_user core = false
is_user ignore = false
is_user default = false

abbrev pub is_core_label : Label → Bool
is_core_label user = false
is_core_label core = true
is_core_label ignore = false
is_core_label default = false

abbrev pub is_ignore : Label → Bool
is_ignore user = false
is_ignore core = false
is_ignore ignore = true
is_ignore default = false

-- A signal of gt_sig_e is in g_gt_sig_custom, g_gt_sig_core or g_gt_sig_ignore where the comment at it
-- in the header says User, Core or Ignore, and in none of the other two.
pub tables-label :
    (s : GtSig)
    → (has (number s) g_gt_sig_custom ≡ is_user (label s))
      × (has (number s) g_gt_sig_core ≡ is_core_label (label s))
      × (has (number s) g_gt_sig_ignore ≡ is_ignore (label s))
tables-label gt_sighup = (refl, refl, refl)
tables-label gt_sigint = (refl, refl, refl)
tables-label gt_sigquit = (refl, refl, refl)
tables-label gt_sigill = (refl, refl, refl)
tables-label gt_sigtrap = (refl, refl, refl)
tables-label gt_sigabrt = (refl, refl, refl)
tables-label gt_sigbus = (refl, refl, refl)
tables-label gt_sigfpe = (refl, refl, refl)
tables-label gt_sigkill = (refl, refl, refl)
tables-label gt_sigusr1 = (refl, refl, refl)
tables-label gt_sigsegv = (refl, refl, refl)
tables-label gt_sigusr2 = (refl, refl, refl)
tables-label gt_sigpipe = (refl, refl, refl)
tables-label gt_sigalrm = (refl, refl, refl)
tables-label gt_sigterm = (refl, refl, refl)
tables-label gt_sigstkflt = (refl, refl, refl)
tables-label gt_sigcld = (refl, refl, refl)
tables-label gt_sigchld = (refl, refl, refl)
tables-label gt_sigcont = (refl, refl, refl)
tables-label gt_sigstop = (refl, refl, refl)
tables-label gt_sigtstp = (refl, refl, refl)
tables-label gt_sigttin = (refl, refl, refl)
tables-label gt_sigttou = (refl, refl, refl)
tables-label gt_sigurg = (refl, refl, refl)
tables-label gt_sigxcpu = (refl, refl, refl)
tables-label gt_sigxfsz = (refl, refl, refl)
tables-label gt_sigvtalrm = (refl, refl, refl)
tables-label gt_sigprof = (refl, refl, refl)
tables-label gt_sigwinch = (refl, refl, refl)
tables-label gt_sigio = (refl, refl, refl)
tables-label gt_sigpwr = (refl, refl, refl)
tables-label gt_sigsys = (refl, refl, refl)

-- The switch that handles a signal has a label of the first group for just the signals of
-- g_gt_sig_custom, and one of the second group for just those of g_gt_sig_core, whatever the number.
pub is_custom-table :
    (sig : ℕ) → (is_custom sig ≡ has sig g_gt_sig_custom) × (is_core sig ≡ has sig g_gt_sig_core)
is_custom-table sig = (ground arith, ground arith)
