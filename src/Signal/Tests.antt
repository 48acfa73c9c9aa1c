-- ===== src/Signal/Tests.antt =====
-- The theorems about user/core/gt_signal.c at SIGHUP and SIGSEGV.
use guitar_tea.Common.{map, none, ℕ, ◌≡◌, refl, some, List, [], ◌∷◌, ◌++◌, arith, has}
use guitar_tea.Common.State.{◌>>◌}
use guitar_tea.Common.Int.{ℤ, pos, gt_ok, gt_error}
use guitar_tea.Os.{Os, World, Call, write, signal_ops_read, snap, dump}
use guitar_tea.Os.Sample.{sample_os, sample_event, sample_world}
use guitar_tea.Signal.{
  gt_signal_routine, gt_signal_ops_read, g_gt_sig_custom, g_gt_sig_core, g_gt_sig_ignore,
}
use guitar_tea.Signal.Numbers.{gt_sigsegv, label}
use guitar_tea.Signal.Tables.{is_user, is_core_label, is_ignore, tables-label}
use guitar_tea.Signal.Delivery.{gt_signal_ops_read-lost}
use guitar_tea.Signal.Backtrace.Line.{symbol}
use guitar_tea.Signal.Backtrace.Print.{text_of}
use guitar_tea.Signal.Backtrace.Tests.{in_main, in_main-IsPlain, letters}
use guitar_tea.Signal.Routine.{delivered, gt_signal_routine-delivered, gt_signal_routine-overflow}
use guitar_tea.Signal.Pipe.{Pipe, deliver_all, read_times, signals_roundtrip}

abbrev hang_up : Os
hang_up = sample_os gt_ok (pos 1) 1 0 700

abbrev signalled : World hang_up.Kernel
signalled = sample_world [] (some (sample_event 1 (some signal_ops_read)))

gt_signal_ops_read-lost_example :
    gt_signal_ops_read hang_up 32 600 signalled ≡ some (gt_ok, signalled)
gt_signal_ops_read-lost_example =
    gt_signal_ops_read-lost hang_up 600 (sample_event 1 (some signal_ops_read)) signalled refl 1 []
      refl 32 (ground arith)

-- A kernel whose state is what waits in the pipe.
abbrev pipe_answer : Call → List ℕ → ℤ × List ℕ
pipe_answer (write fd bytes) k = (pos 4, k ++ bytes)
pipe_answer c k = (gt_ok, k)

abbrev pipe_read : List ℕ → ℤ × List ℕ × List ℕ
pipe_read [] = (gt_error, [], [])
pipe_read (b ∷ k) = (pos 1, b ∷ [], k)

abbrev piped : Os
piped = record {
  Kernel = List ℕ;
  answer = pipe_answer;
  errno = λ k. 11;
  set_errno = λ e k. k;
  malloc = λ size k. (700, k);
  free = λ p k. k;
  read = λ fd count k. pipe_read k;
  socketpair = λ k. (pos 0, pos 8, pos 9, k);
  epoll_wait = λ epfd maxevents timeout k. ([], k);
}

abbrev signal_pipe : Pipe piped (pos 9) (pos 5)
signal_pipe = record {
  capacity = 4096;
  contents = λ k. k;
  write_appends = λ k bytes room. refl;
  read_first = λ k b rest queue. (rest, rw queue refl, refl);
}

abbrev piped_world : World piped.Kernel
piped_world = sample_world [] (some (sample_event 1 (some signal_ops_read)))

signals_roundtrip_example :
    (k : List ℕ) × ((deliver_all piped (1 ∷ 11 ∷ []) >> read_times piped 8 600) piped_world
      ≡ some (tt, record piped_world { kernel = k; notices = dump 11 ∷ snap 1 ∷ [] }))
    × (k ≡ [])
signals_roundtrip_example =
    signals_roundtrip piped 600 (sample_event 1 (some signal_ops_read)) piped_world signal_pipe
      (1 ∷ 11 ∷ []) refl refl (omega arith) (omega arith)

tables-label_example :
    (has 11 g_gt_sig_custom ≡ is_user (label gt_sigsegv))
    × (has 11 g_gt_sig_core ≡ is_core_label (label gt_sigsegv))
    × (has 11 g_gt_sig_ignore ≡ is_ignore (label gt_sigsegv))
tables-label_example = tables-label gt_sigsegv

-- A kernel whose state is errno, which every call sets to EAGAIN.
abbrev busy : Os
busy = record {
  Kernel = ℕ;
  answer = λ c k. (gt_error, 11);
  errno = λ k. k;
  set_errno = λ e k. e;
  malloc = λ size k. (700, k);
  free = λ p k. k;
  read = λ fd count k. (gt_error, [], 11);
  socketpair = λ k. (gt_error, pos 0, pos 0, 11);
  epoll_wait = λ epfd maxevents timeout k. ([], k);
}

gt_signal_routine-delivered_example :
    (gt_signal_routine busy (map text_of (in_main ∷ [])) 11 (sample_world 4 none)
      ≡ some (tt, sample_world (delivered busy 11 (sample_world 4 none)) none))
    × (delivered busy 11 (sample_world 4 none) ≡ 4)
gt_signal_routine-delivered_example =
    gt_signal_routine-delivered busy (in_main ∷ []) 11 (sample_world 4 none) (in_main-IsPlain, tt)
      (λ e k. refl)

gt_signal_routine-overflow_example :
    gt_signal_routine busy
      (symbol (b'g' ∷ []) (letters 130) [] (b'4' ∷ []) ∷ [])
      11
      (sample_world 4 none)
    ≡ none
gt_signal_routine-overflow_example =
    gt_signal_routine-overflow busy (b'g' ∷ []) (letters 130) [] (b'4' ∷ []) [] 11
      (sample_world 4 none) refl refl refl refl (omega arith)
