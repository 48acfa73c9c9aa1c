-- ===== src/Poller/Unlocked/Safe.antt =====
-- Every interleaving of `list_add` for a new event and `list_del` for an old one of the same poller of
-- user/core/gt_poller.c.
use guitar_tea.Common.{
  ℕ, zero, suc, ◌≤◌, ◌≡◌, ◌≢◌, refl, ◌∙◌, inl, inr, Bool, true, false, List, [], ◌∷◌, arith,
}
use guitar_tea.Common.State.{Ensures, Ensures-mono, Ensures-bind}
use guitar_tea.Dlist.{Ptr, ListMem, list_poison1, list_poison2}
use guitar_tea.Poller.Population.{LinksTo}
use guitar_tea.Poller.Unlocked.{Prog, done, step, interleave, list_add_steps, list_del_steps}
use guitar_tea.Poller.Unlocked.Positions.{
  firsts, seconds, Between, Adding, Deleting, Adding-frame, Deleting-frame, Adding-done,
  Deleting-done, HeadNext, HeadPrev, write_next-Between, write_prev-Between,
}

-- `e` is the head of the poller, `x` the list head of the new event, `y` that of the old one.
module _ (x y e : Ptr) (m0 : ListMem) where
  module _ (x_mapped : m0.mapped x ≡ true) (y_mapped : m0.mapped y ≡ true)
      (e_mapped : m0.mapped e ≡ true) (xy : x ≢ y) (xe : x ≢ e) (ye : y ≢ e) where
    -- A turn of the first thread, which leaves the links of the old event alone.
    abbrev Added : ℕ → ListMem → Prog → ListMem → Type 0
    Added n t a u =
        Adding x y e m0 n a u × Between x y e m0 u × (u.next y ≡ t.next y) × (u.prev y ≡ t.prev y)

    step-Added :
        (n : ℕ) (a : Prog) (t : ListMem)
        → Adding x y e m0 n a t
        → Between x y e m0 t
        → Ensures (step a t) (Added (suc n) t)
    unfolding step
    step-Added zero a t (p, l) b =
        let here : t.mapped x ≡ true = b.mapped x ∙ x_mapped in
        rw (p, here, l) (refl, b, refl, refl)
    step-Added (suc zero) a t p b =
        let here : t.mapped x ≡ true = b.mapped x ∙ x_mapped in
        let b' = write_prev-Between x y e m0 b x e (λ a n k h. n) in
        rw (p, here) ((refl, ground arith), b', refl, ground (arith, xy))
    step-Added (suc (suc zero)) a t (p, l) b =
        let here : t.mapped e ≡ true = b.mapped e ∙ e_mapped in
        let b' = write_next-Between x y e m0 b e x (λ a n k h. h) in
        rw (p, here) ((refl, l, inl (ground arith)), b', ground (arith, ye), refl)
    step-Added (suc (suc (suc zero))) a t (p, l, n) b =
        let here : t.mapped e ≡ true = b.mapped e ∙ e_mapped in
        let b' = write_prev-Between x y e m0 b e x (λ a n k h. h) in
        rw (p, here)
          ((refl, ground (arith, xe, l), n, inl (ground arith)), b', refl, ground (arith, ye))
    step-Added (suc (suc (suc (suc zero)))) a t (p, l, n, v) b =
        let here : t.mapped x ≡ true = b.mapped x ∙ x_mapped in
        let b' = write_next-Between x y e m0 b x e (λ a n k h. n) in
        rw (p, here)
          ((refl, ground arith, l, ground (arith, xe, n), v), b', ground (arith, xy), refl)
    step-Added (suc (suc (suc (suc (suc k))))) a t (p, l, l', n, v) b =
        rw p ((refl, l, l', n, v), b, refl, refl)

    -- A turn of the second, which leaves those of the new one alone.
    abbrev Deleted : ℕ → ListMem → Prog → ListMem → Type 0
    Deleted n t b u =
        Deleting x y e m0 n b u
        × Between x y e m0 u
        × (u.next x ≡ t.next x)
        × (u.prev x ≡ t.prev x)
        × (HeadNext x y e m0 t → HeadNext x y e m0 u)
        × (HeadPrev x y e m0 t → HeadPrev x y e m0 u)

    step-Deleted :
        (n : ℕ) (d : Prog) (t : ListMem)
        → Deleting x y e m0 n d t
        → Between x y e m0 t
        → Ensures (step d t) (Deleted (suc n) t)
    unfolding step
    step-Deleted zero d t (p, k, l) b =
        let here : t.mapped y ≡ true = b.mapped y ∙ y_mapped in
        rw (p, here, k) ((refl, l), b, refl, refl, λ h. h, λ h. h)
    step-Deleted (suc zero) d t (p, l) b =
        let here : t.mapped y ≡ true = b.mapped y ∙ y_mapped in
        rw (p, here, l) (refl, b, refl, refl, λ h. h, λ h. h)
    step-Deleted (suc (suc zero)) d t p b =
        let here : t.mapped e ≡ true = b.mapped e ∙ e_mapped in
        let b' = write_prev-Between x y e m0 b e e (λ a n k h. h) in
        rw (p, here) (refl, b', refl, ground (arith, xe), λ h. h, λ h. inr (ground arith))
    step-Deleted (suc (suc (suc zero))) d t p b =
        let here : t.mapped e ≡ true = b.mapped e ∙ e_mapped in
        let b' = write_next-Between x y e m0 b e e (λ a n k h. h) in
        rw (p, here) (refl, b', ground (arith, xe), refl, λ h. inr (ground arith), λ h. h)
    step-Deleted (suc (suc (suc (suc zero)))) d t p b =
        let here : t.mapped y ≡ true = b.mapped y ∙ y_mapped in
        let b' = write_next-Between x y e m0 b y list_poison1 (λ a n k h. k) in
        rw (p, here)
          ((refl, ground arith), b', ground (arith, xy), refl, λ h. ground (arith, ye, h), λ h. h)
    step-Deleted (suc (suc (suc (suc (suc zero))))) d t (p, l) b =
        let here : t.mapped y ≡ true = b.mapped y ∙ y_mapped in
        let b' = write_prev-Between x y e m0 b y list_poison2 (λ a n k h. k) in
        rw (p, here)
          (
            (refl, l, ground arith),
            b',
            refl,
            ground (arith, xy),
            λ h. h,
            λ h. ground (arith, ye, h),
          )
    step-Deleted (suc (suc (suc (suc (suc (suc n)))))) d t (p, l, k) b =
        rw p ((refl, l, k), b, refl, refl, λ h. h, λ h. h)

    abbrev Both : ℕ → ℕ → Prog × Prog → ListMem → Type 0
    Both n k ps t = Adding x y e m0 n ps.0 t × Deleting x y e m0 k ps.1 t × Between x y e m0 t

    interleave-Both :
        (turns : List Bool) (n k : ℕ) (ps : Prog × Prog) (t : ListMem)
        → Both n k ps t
        → Ensures (interleave turns ps t) (Both (firsts n turns) (seconds k turns))
    unfolding interleave
    interleave-Both [] n k ps t all = all
    interleave-Both (true ∷ turns) n k (a, d) t (at, del, b) =
        Ensures-bind (Added (suc n) t) _ (step a t) _ (step-Added n a t at b)
          (λ a' u (at', b', f, g).
            interleave-Both turns (suc n) k (a', d) u
              (at', Deleting-frame x y e m0 k d t u del f g, b'))
    interleave-Both (false ∷ turns) n k (a, d) t (at, del, b) =
        Ensures-bind (Deleted (suc k) t) _ (step d t) _ (step-Deleted k d t del b)
          (λ d' u (del', b', f, g, hn, hp).
            interleave-Both turns n (suc k) (a, d') u
              (Adding-frame x y e m0 n a t u at f g hn hp, del', b'))

  -- A new event is linked to the head of a poller while another thread takes an old one, both links
  -- of which lead to that head, out of its list, in any interleaving of their reads and writes in which
  -- each has enough turns to finish: neither faults, both are done, both links of the new event lead to
  -- the head, each link of the head leads to the new event or to the head and so not to the old event,
  -- which is poisoned, and nothing else was written.
  pub interleave-Between :
      m0.mapped x ≡ true
      → m0.mapped y ≡ true
      → m0.mapped e ≡ true
      → x ≢ y
      → x ≢ e
      → y ≢ e
      → m0.next x ≡ x
      → LinksTo m0 y e
      → (turns : List Bool) → 5 ≤ firsts 0 turns
      → 6 ≤ seconds 0 turns
      → Ensures (interleave turns (list_add_steps e x, list_del_steps y) m0) (λ ps t.
        (ps.0 ≡ done)
        × (ps.1 ≡ done)
        × LinksTo t x e
        × HeadNext x y e m0 t
        × HeadPrev x y e m0 t
        × (t.next y ≡ list_poison1)
        × (t.prev y ≡ list_poison2)
        × Between x y e m0 t)
  interleave-Between xm ym em xy xe ye own linked turns enough enough' =
      let start : Between x y e m0 m0 = record {
        mapped = λ a. refl;
        next = λ a n k h. refl;
        prev = λ a n k h. refl;
      } in
      Ensures-mono (interleave turns (list_add_steps e x, list_del_steps y) m0)
        (interleave-Both xm ym em xy xe ye turns 0 0 (list_add_steps e x, list_del_steps y) m0
          ((refl, own), (refl, linked.prev, linked.next), start))
        (λ ps t (at, del, b).
          let (p, l, hn, hp) = Adding-done x y e m0 (firsts 0 turns) ps.0 t enough at in
          let (q, n, v) = Deleting-done x y e m0 (seconds 0 turns) ps.1 t enough' del in
          (p, q, l, hn, hp, n, v, b))
