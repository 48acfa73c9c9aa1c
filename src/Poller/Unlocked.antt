-- ===== src/Poller/Unlocked.antt =====
-- A list of user/core/gt_poller.c that two threads change at once, without a lock: the network thread
-- runs `list_add` of user/comm/gt_list.h for a new event, and the thread of the poller `list_del`.
pub mod Steps
pub mod Positions
pub mod Safe
mod Tests
use guitar_tea.Common.{ℕ, Bool, true, false, List, [], ◌∷◌}
use guitar_tea.Common.State.{Cmd, pure, ◌>>=◌, ◌>>◌}
use guitar_tea.Dlist.{
  Ptr, ListMem, get_next, get_prev, set_next, set_prev, list_poison1, list_poison2,
}

-- What a thread has still to do: each read and each write of a pointer is one step.
pub data Prog : Type 0 where
  done : Prog
  read_next read_prev : Ptr → (Ptr → Prog) → Prog
  write_next write_prev : (p v : Ptr) → Prog → Prog

unfoldable pub step : Prog → Cmd ListMem Prog
unfolding get_next get_prev set_next set_prev
step done = pure done
step (read_next p k) = do v ← get_next p; pure (k v)
step (read_prev p k) = do v ← get_prev p; pure (k v)
step (write_next p v k) = do set_next p v; pure k
step (write_prev p v k) = do set_prev p v; pure k

-- A thread that nobody disturbs.
unfoldable pub alone : Prog → Cmd ListMem (Unit {0})
alone done = pure tt
alone (read_next p k) = do v ← get_next p; alone (k v)
alone (read_prev p k) = do v ← get_prev p; alone (k v)
alone (write_next p v k) = do set_next p v; alone k
alone (write_prev p v k) = do set_prev p v; alone k

-- Two threads; the schedule says whether the first or the second has its turn.
unfoldable pub interleave : List Bool → Prog × Prog → Cmd ListMem (Prog × Prog)
unfolding step
interleave [] ps = pure ps
interleave (true ∷ turns) (a, b) = do a' ← step a; interleave turns (a', b)
interleave (false ∷ turns) (a, b) = do b' ← step b; interleave turns (a, b')

-- `list_add` and `list_del`, step by step.
abbrev pub list_add_steps : (xnew head : Ptr) → Prog
list_add_steps xnew head = read_next head (λ next.
    write_prev next xnew (write_next xnew next (write_prev xnew head (write_next head xnew done))))

abbrev pub list_del_steps : (entry : Ptr) → Prog
list_del_steps entry = read_prev entry (λ prev. read_next entry (λ next.
    write_prev next prev
      (write_next prev next (write_next entry list_poison1 (write_prev entry list_poison2 done)))))
