-- ===== src/Signal/Numbers.antt =====
-- The signals of user/core/gt_signal.h, by their numbers on Linux, and what the comment at each says
-- of it.
use guitar_tea.Common.{ℕ, List, map}

pub data GtSig : Type 0 where
  gt_sighup gt_sigint gt_sigquit gt_sigill gt_sigtrap gt_sigabrt gt_sigbus gt_sigfpe : GtSig
  gt_sigkill gt_sigusr1 gt_sigsegv gt_sigusr2 gt_sigpipe gt_sigalrm gt_sigterm gt_sigstkflt : GtSig
  gt_sigcld gt_sigchld gt_sigcont gt_sigstop gt_sigtstp gt_sigttin gt_sigttou gt_sigurg : GtSig
  gt_sigxcpu gt_sigxfsz gt_sigvtalrm gt_sigprof gt_sigwinch gt_sigio gt_sigpwr gt_sigsys : GtSig

abbrev pub number : GtSig → ℕ
number gt_sighup = 1
number gt_sigint = 2
number gt_sigquit = 3
number gt_sigill = 4
number gt_sigtrap = 5
number gt_sigabrt = 6
number gt_sigbus = 7
number gt_sigfpe = 8
number gt_sigkill = 9
number gt_sigusr1 = 10
number gt_sigsegv = 11
number gt_sigusr2 = 12
number gt_sigpipe = 13
number gt_sigalrm = 14
number gt_sigterm = 15
number gt_sigstkflt = 16
number gt_sigcld = 17
number gt_sigchld = 17
number gt_sigcont = 18
number gt_sigstop = 19
number gt_sigtstp = 20
number gt_sigttin = 21
number gt_sigttou = 22
number gt_sigurg = 23
number gt_sigxcpu = 24
number gt_sigxfsz = 25
number gt_sigvtalrm = 26
number gt_sigprof = 27
number gt_sigwinch = 28
number gt_sigio = 29
number gt_sigpwr = 30
number gt_sigsys = 31

abbrev pub numbers : List GtSig → List ℕ
numbers sigs = map number sigs

-- The four words of the comments.
pub data Label : Type 0 where
  user core ignore default : Label

abbrev pub label : GtSig → Label
label gt_sighup = user
label gt_sigint = ignore
label gt_sigquit = user
label gt_sigill = core
label gt_sigtrap = default
label gt_sigabrt = core
label gt_sigbus = core
label gt_sigfpe = core
label gt_sigkill = default
label gt_sigusr1 = user
label gt_sigsegv = core
label gt_sigusr2 = user
label gt_sigpipe = ignore
label gt_sigalrm = ignore
label gt_sigterm = default
label gt_sigstkflt = ignore
label gt_sigcld = ignore
label gt_sigchld = ignore
label gt_sigcont = ignore
label gt_sigstop = default
label gt_sigtstp = ignore
label gt_sigttin = ignore
label gt_sigttou = ignore
label gt_sigurg = default
label gt_sigxcpu = ignore
label gt_sigxfsz = ignore
label gt_sigvtalrm = ignore
label gt_sigprof = ignore
label gt_sigwinch = ignore
label gt_sigio = ignore
label gt_sigpwr = ignore
label gt_sigsys = core
