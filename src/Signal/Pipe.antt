-- ===== src/Signal/Pipe.antt =====
-- Signals on their way through the pipe of user/core/gt_signal.c, from `gt_signal_deliver` to
-- `gt_signal_ops_read`.
use guitar_tea.Common.{
  ℕ, zero, suc, ◌+◌, ◌*◌, ◌%◌, ◌/◌, ◌≤◌, ◌<◌, ◌≡◌, refl, ap, sym, ◌∙◌, some, List, [], ◌∷◌, ◌++◌,
  arith, length, length-append,
}
use mathlib.Core.List.{foldl, append-nil, append_assoc}
use guitar_tea.Common.State.{Cmd, pure, ◌>>=◌, ◌>>◌}
use guitar_tea.Common.Int.{ℤ, pos, gt_ok}
use guitar_tea.Dlist.{Ptr}
use guitar_tea.Os.{Os, World, GtEvent, Notice, write, call}
use guitar_tea.Signal.{int_bytes, gt_signal_deliver, gt_signal_ops_read}
use guitar_tea.Signal.Delivery.{notices_of, gt_signal_ops_read-handle}

-- What socketpair(2), write(2) and read(2) say of a stream with the ends `wr` and `rd`: a write of
-- bytes for which there is room puts them behind those that wait, and a read of one byte takes the
-- first of them.
pub record Pipe (os : Os) (wr rd : ℤ) : Type 0 where
  pub capacity : ℕ
  pub contents : os.Kernel → List ℕ
  pub write_appends :
      (k : os.Kernel) (bytes : List ℕ)
      → length (contents k) + length bytes ≤ capacity
      → contents (os.answer (write wr bytes) k).1 ≡ contents k ++ bytes
  pub read_first :
      (k : os.Kernel) (b : ℕ) (rest : List ℕ)
      → contents k ≡ b ∷ rest
      → (k' : os.Kernel) × (os.read rd 1 k ≡ (pos 1, b ∷ [], k')) × (contents k' ≡ rest)

abbrev pub all_bytes : List ℕ → List ℕ
all_bytes [] = []
all_bytes (sig ∷ sigs) = int_bytes sig ++ all_bytes sigs

abbrev pub AllBelow : ℕ → List ℕ → Type 0
AllBelow n [] = Unit
AllBelow n (x ∷ xs) = (x < n) × AllBelow n xs

abbrev pub then_notices : List Notice → ℕ → List Notice
then_notices old sig = notices_of sig ++ old

module _ (os : Os) where
  -- The handler runs for one signal after the other.
  abbrev pub deliver_all : List ℕ → Cmd (World os.Kernel) (Unit {0})
  deliver_all [] = pure tt
  deliver_all (sig ∷ sigs) = gt_signal_deliver os sig >> deliver_all sigs

  -- The event loop calls the reader so often, and the variable that it reads into is 0.
  abbrev pub read_times : ℕ → Ptr → Cmd (World os.Kernel) (Unit {0})
  read_times zero ge = pure tt
  read_times (suc n) ge = do _ ← gt_signal_ops_read os 0 ge; read_times n ge

module _ (os : Os) (ge : Ptr) (g : GtEvent) {wr : ℤ} (pipe : Pipe os wr g.efd) where
  open pipe use {contents}

  -- One byte below 256 is read and handled.
  read_byte :
      (w : World os.Kernel) (b : ℕ) (rest : List ℕ)
      → w.event ge ≡ some g
      → contents w.kernel ≡ b ∷ rest
      → b < 256
      → (k : os.Kernel) × (gt_signal_ops_read os 0 ge w
          ≡ some (gt_ok, record w { kernel = k; notices = notices_of b ++ w.notices }))
        × (contents k ≡ rest)
  read_byte w b rest here queue small =
      let r = pipe.read_first w.kernel b rest queue in
      let same : b % 256 ≡ b = omega arith in
      (r.0, gt_signal_ops_read-handle os ge g w here b r.0 (rw same r.1) small, r.2)

  read_bytes :
      (w : World os.Kernel) (bytes rest : List ℕ)
      → w.event ge ≡ some g
      → contents w.kernel ≡ bytes ++ rest
      → AllBelow 256 bytes
      → (k : os.Kernel) × (read_times os (length bytes) ge w
          ≡ some (tt, record w { kernel = k; notices = foldl then_notices w.notices bytes }))
        × (contents k ≡ rest)
  read_bytes w [] rest here queue small = (w.kernel, refl, queue)
  read_bytes w (b ∷ bytes) rest here queue small =
      let one = read_byte w b (bytes ++ rest) here queue small.0 in
      let more =
        read_bytes (record w { kernel = one.0; notices = notices_of b ++ w.notices }) bytes rest
          here one.2 small.1 in
      (more.0, rw one.1 more.1, more.2)

deliver_bytes :
    (os : Os) (rd : ℤ) (w : World os.Kernel) (sigs : List ℕ) (pipe : Pipe os w.pipefd_write rd)
    → length (pipe.contents w.kernel) + length (all_bytes sigs) ≤ pipe.capacity
    → (k : os.Kernel) × (deliver_all os sigs w ≡ some (tt, record w { kernel = k }))
      × (pipe.contents k ≡ pipe.contents w.kernel ++ all_bytes sigs)
unfolding gt_signal_deliver call
deliver_bytes os rd w [] pipe room = (w.kernel, refl, sym (append-nil (pipe.contents w.kernel)))
deliver_bytes os rd w (sig ∷ sigs) pipe room =
    let old = pipe.contents w.kernel in
    let k = (os.answer (write w.pipefd_write (int_bytes sig)) w.kernel).1 in
    let put : pipe.contents k ≡ old ++ int_bytes sig =
      pipe.write_appends w.kernel (int_bytes sig) (omega arith) in
    let more =
      deliver_bytes os rd (record w { kernel = k }) sigs pipe
        (omega (arith, ap length put, length-append old (int_bytes sig))) in
    (
      more.0,
      more.1,
      more.2
          ∙ (ap (λ c. c ++ all_bytes sigs) put ∙ append_assoc old (int_bytes sig) (all_bytes sigs)),
    )

length-all_bytes : (sigs : List ℕ) → length (all_bytes sigs) ≡ 4 * length sigs
length-all_bytes [] = refl
length-all_bytes (sig ∷ sigs) = omega (arith, length-all_bytes sigs)

all_bytes-AllBelow : (sigs : List ℕ) → AllBelow 256 (all_bytes sigs)
all_bytes-AllBelow [] = tt
all_bytes-AllBelow (sig ∷ sigs) =
    (omega arith, (omega arith, (omega arith, (omega arith, all_bytes-AllBelow sigs))))

-- The three upper bytes of a signal are 0, and make no notice.
foldl-all_bytes :
    (old : List Notice) (sigs : List ℕ)
    → AllBelow 256 sigs
    → foldl then_notices old (all_bytes sigs) ≡ foldl then_notices old sigs
foldl-all_bytes old [] small = refl
foldl-all_bytes old (sig ∷ sigs) small =
    let low : sig % 256 ≡ sig = omega (arith, small.0) in
    let second : sig / 256 % 256 ≡ 0 = omega (arith, small.0) in
    let third : sig / 65536 % 256 ≡ 0 = omega (arith, small.0) in
    let fourth : sig / 16777216 % 256 ≡ 0 = omega (arith, small.0) in
    rw (low, second, third, fourth) (foldl-all_bytes (then_notices old sig) sigs small.1)

-- Signals below 256 are delivered one after the other into an empty pipe that has room for them, and
-- the event loop then calls the reader four times for each, with 0 in the variable that it reads
-- into: each signal is handled once, in order, as the tables say, and the pipe is empty.
pub signals_roundtrip :
    (os : Os) (ge : Ptr) (g : GtEvent) (w : World os.Kernel) (pipe : Pipe os w.pipefd_write g.efd)
    (sigs : List ℕ)
    → w.event ge ≡ some g
    → pipe.contents w.kernel ≡ []
    → 4 * length sigs ≤ pipe.capacity
    → AllBelow 256 sigs
    → (k : os.Kernel) × ((deliver_all os sigs >> read_times os (4 * length sigs) ge) w
        ≡ some (tt, record w { kernel = k; notices = foldl then_notices w.notices sigs }))
      × (pipe.contents k ≡ [])
signals_roundtrip os ge g w pipe sigs here empty room small =
    let sent =
      deliver_bytes os g.efd w sigs pipe (omega (arith, ap length empty, length-all_bytes sigs)) in
    let queue : pipe.contents sent.0 ≡ all_bytes sigs ++ [] =
      sent.2 ∙ (ap (λ c. c ++ all_bytes sigs) empty ∙ sym (append-nil (all_bytes sigs))) in
    let taken =
      read_bytes os ge g pipe (record w { kernel = sent.0 }) (all_bytes sigs) [] here queue
        (all_bytes-AllBelow sigs) in
    (
      taken.0,
      rw (sent.1, ← length-all_bytes sigs, ← foldl-all_bytes w.notices sigs small) taken.1,
      taken.2,
    )
