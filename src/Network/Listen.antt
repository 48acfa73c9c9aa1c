-- ===== src/Network/Listen.antt =====
-- How `gt_network_listenning` of user/core/gt_network.c gives up.
use guitar_tea.Common.{
  ℕ, ◌≡◌, refl, inl, inr, true, false, Bool, some, List, [], ◌∷◌, Bool-cases, if◌then◌else◌,
}
use guitar_tea.Common.Int.{ℤ, gt_error, is_neg, is_minus_one}
use guitar_tea.Dlist.{Ptr}
use guitar_tea.Os.{Os, World, Call, close, socket, set_reuseaddr, bind, listen, call}
use guitar_tea.Network.{networker_maxevent, close_error, gt_network_listenning}

-- What close(2) says of the descriptors that are open.
pub record Sockets (os : Os) : Type 0 where
  pub is_open : os.Kernel → ℤ → Bool
  pub close_closes : (k : os.Kernel) (fd : ℤ) → is_open (os.answer (close fd) k).1 fd ≡ false

module _ (os : Os) where
  open os use {Kernel}

  -- Calls one after the other, up to the first that answers -1: whether there is none, and the kernel
  -- that is left.
  unfoldable pub run_calls : List Call → Kernel → Bool × Kernel
  run_calls [] k = (true, k)
  run_calls (c ∷ calls) k =
      let (ret, k') = os.answer c k in
      let rest = run_calls calls k' in if is_minus_one ret then (false, k') else rest

  abbrev pub listen_calls : (lfd : ℤ) (ip port : ℕ) → List Call
  listen_calls lfd ip port =
      set_reuseaddr lfd ∷ bind lfd ip port ∷ listen lfd networker_maxevent ∷ []

  -- A socket is created, but the option cannot be set, or the address not be bound, or listening fails:
  -- gt_network_listenning makes these calls up to the one that fails, closes the socket, returns
  -- GT_ERROR, and has done nothing else; where close behaves as documented the socket is then not
  -- open.
  pub gt_network_listenning-closed :
      (sockets : Sockets os) (network_poller : Ptr) (data_of : ℕ → Ptr) (ip port : ℕ)
      (w : World Kernel) (lfd : ℤ) (k : Kernel)
      → os.answer socket w.kernel ≡ (lfd, k)
      → is_neg lfd ≡ false
      → (run_calls (listen_calls lfd ip port) k).0 ≡ false
      → (gt_network_listenning os network_poller data_of ip port w
          ≡ some (
            gt_error,
            record w {
              kernel = (os.answer (close lfd) (run_calls (listen_calls lfd ip port) k).1).1;
            },
          ))
        × (sockets.is_open (os.answer (close lfd) (run_calls (listen_calls lfd ip port) k).1).1 lfd
            ≡ false)
  unfolding gt_network_listenning close_error call run_calls
  gt_network_listenning-closed sockets network_poller data_of ip port w lfd k made there fails =
      let k1 = (os.answer (set_reuseaddr lfd) k).1 in
      let k2 = (os.answer (bind lfd ip port) k1).1 in
      (
        rw (made, there)
            (elim (Bool-cases (is_minus_one (os.answer (set_reuseaddr lfd) k).0)) [
              | inl bad ↦ rw bad refl
              | inr set ↦ elim (Bool-cases (is_minus_one (os.answer (bind lfd ip port) k1).0)) [
                | inl bad ↦ rw (set, bad) refl
                | inr bound ↦
                    elim (Bool-cases
                      (is_minus_one (os.answer (listen lfd networker_maxevent) k2).0)) [
                        | inl bad ↦ rw (set, bound, bad) refl
                        | inr listening ↦
                            let all_well : true ≡ false = rw (set, bound, listening) at fails in cc
                      ]
              ]
            ]),
        sockets.close_closes _ lfd,
      )
