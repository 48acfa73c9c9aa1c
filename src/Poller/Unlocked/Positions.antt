-- ===== src/Poller/Unlocked/Positions.antt =====
-- Where two threads are in their steps: `list_add` for a new event and `list_del` for an old one of the same poller of
-- user/core/gt_poller.c.
use guitar_tea.Common.{
  ℕ, zero, suc, ◌≤◌, ◌≡◌, ◌≢◌, ◌∙◌, ◌⊎◌, Bool, true, false, List, [], ◌∷◌, arith,
}
use guitar_tea.Dlist.{Ptr, ListMem, update, list_poison1, list_poison2}
use guitar_tea.Poller.Population.{LinksTo}
use guitar_tea.Poller.Unlocked.{
  Prog, done, read_next, write_next, write_prev, list_add_steps, list_del_steps,
}

-- `n` and how often the first thread has its turn; the same for the second.
abbrev pub firsts : ℕ → List Bool → ℕ
firsts n [] = n
firsts n (true ∷ turns) = firsts (suc n) turns
firsts n (false ∷ turns) = firsts n turns

abbrev pub seconds : ℕ → List Bool → ℕ
seconds n [] = n
seconds n (true ∷ turns) = seconds n turns
seconds n (false ∷ turns) = seconds (suc n) turns

-- `e` is the head of the poller, `x` the list head of the new event, `y` that of the old one.
module _ (x y e : Ptr) (m0 : ListMem) where
  -- What both threads leave of the memory that they found.
  pub record Between (t : ListMem) : Type 0 where
    pub mapped : (a : Ptr) → t.mapped a ≡ m0.mapped a
    pub next : (a : Ptr) → a ≢ x → a ≢ y → a ≢ e → t.next a ≡ m0.next a
    pub prev : (a : Ptr) → a ≢ x → a ≢ y → a ≢ e → t.prev a ≡ m0.prev a

  -- A link of the head leads to the new event or to the head, and so not to the old event.
  abbrev pub HeadNext : ListMem → Type 0
  HeadNext t = (t.next e ≡ x) ⊎ (t.next e ≡ e)

  abbrev pub HeadPrev : ListMem → Type 0
  HeadPrev t = (t.prev e ≡ x) ⊎ (t.prev e ≡ e)

  -- Where the first thread is after so many turns.
  abbrev pub Adding : ℕ → Prog → ListMem → Type 0
  Adding zero a t = (a ≡ list_add_steps e x) × (t.next x ≡ x)
  Adding (suc zero) a t = a ≡ write_prev x e (write_next e x (write_prev e x (write_next x e done)))
  Adding (suc (suc zero)) a t =
      (a ≡ write_next e x (write_prev e x (write_next x e done))) × (t.prev x ≡ e)
  Adding (suc (suc (suc zero))) a t =
      (a ≡ write_prev e x (write_next x e done)) × (t.prev x ≡ e) × HeadNext t
  Adding (suc (suc (suc (suc zero)))) a t =
      (a ≡ write_next x e done) × (t.prev x ≡ e) × HeadNext t × HeadPrev t
  Adding (suc (suc (suc (suc (suc n))))) a t =
      (a ≡ done) × (t.next x ≡ e) × (t.prev x ≡ e) × HeadNext t × HeadPrev t

  -- And the second.
  abbrev pub Deleting : ℕ → Prog → ListMem → Type 0
  Deleting zero b t = (b ≡ list_del_steps y) × (t.prev y ≡ e) × (t.next y ≡ e)
  Deleting (suc zero) b t =
      (b
        ≡ read_next y (λ next.
          write_prev next e
            (write_next e next (write_next y list_poison1 (write_prev y list_poison2 done)))))
      × (t.next y ≡ e)
  Deleting (suc (suc zero)) b t =
      b
      ≡ write_prev e e (write_next e e (write_next y list_poison1 (write_prev y list_poison2 done)))
  Deleting (suc (suc (suc zero))) b t =
      b ≡ write_next e e (write_next y list_poison1 (write_prev y list_poison2 done))
  Deleting (suc (suc (suc (suc zero)))) b t =
      b ≡ write_next y list_poison1 (write_prev y list_poison2 done)
  Deleting (suc (suc (suc (suc (suc zero))))) b t =
      (b ≡ write_prev y list_poison2 done) × (t.next y ≡ list_poison1)
  Deleting (suc (suc (suc (suc (suc (suc n)))))) b t =
      (b ≡ done) × (t.next y ≡ list_poison1) × (t.prev y ≡ list_poison2)

  pub Adding-frame :
      (n : ℕ) (a : Prog) (t u : ListMem)
      → Adding n a t
      → u.next x ≡ t.next x
      → u.prev x ≡ t.prev x
      → (HeadNext t → HeadNext u)
      → (HeadPrev t → HeadPrev u)
      → Adding n a u
  Adding-frame zero a t u (p, l) f g hn hp = (p, f ∙ l)
  Adding-frame (suc zero) a t u p f g hn hp = p
  Adding-frame (suc (suc zero)) a t u (p, l) f g hn hp = (p, g ∙ l)
  Adding-frame (suc (suc (suc zero))) a t u (p, l, n) f g hn hp = (p, g ∙ l, hn n)
  Adding-frame (suc (suc (suc (suc zero)))) a t u (p, l, n, v) f g hn hp = (p, g ∙ l, hn n, hp v)
  Adding-frame (suc (suc (suc (suc (suc k))))) a t u (p, l, l', n, v) f g hn hp =
      (p, f ∙ l, g ∙ l', hn n, hp v)

  pub Deleting-frame :
      (n : ℕ) (b : Prog) (t u : ListMem)
      → Deleting n b t
      → u.next y ≡ t.next y
      → u.prev y ≡ t.prev y
      → Deleting n b u
  Deleting-frame zero b t u (p, k, l) f g = (p, g ∙ k, f ∙ l)
  Deleting-frame (suc zero) b t u (p, l) f g = (p, f ∙ l)
  Deleting-frame (suc (suc zero)) b t u p f g = p
  Deleting-frame (suc (suc (suc zero))) b t u p f g = p
  Deleting-frame (suc (suc (suc (suc zero)))) b t u p f g = p
  Deleting-frame (suc (suc (suc (suc (suc zero))))) b t u (p, l) f g = (p, f ∙ l)
  Deleting-frame (suc (suc (suc (suc (suc (suc n)))))) b t u (p, l, k) f g = (p, f ∙ l, g ∙ k)

  -- A thread writes to one of the three.
  module _ {t : ListMem} (b : Between t) (q v : Ptr)
      (ours : (a : Ptr) → a ≢ x → a ≢ y → a ≢ e → a ≢ q) where
    pub write_next-Between : Between (record t { next = update t.next q v })
    write_next-Between = record {
      mapped = b.mapped;
      next = λ a n k h. ground (arith, ours a n k h, b.next a n k h);
      prev = b.prev;
    }

    pub write_prev-Between : Between (record t { prev = update t.prev q v })
    write_prev-Between = record {
      mapped = b.mapped;
      next = b.next;
      prev = λ a n k h. ground (arith, ours a n k h, b.prev a n k h);
    }

  pub Adding-done :
      (n : ℕ) (a : Prog) (t : ListMem)
      → 5 ≤ n
      → Adding n a t
      → (a ≡ done) × LinksTo t x e × HeadNext t × HeadPrev t
  Adding-done (suc (suc (suc (suc (suc n))))) a t enough (p, l, k, hn, hp) =
      (p, record { next = l; prev = k }, hn, hp)
  Adding-done zero a t enough at = absurd (omega arith)
  Adding-done (suc zero) a t enough at = absurd (omega arith)
  Adding-done (suc (suc zero)) a t enough at = absurd (omega arith)
  Adding-done (suc (suc (suc zero))) a t enough at = absurd (omega arith)
  Adding-done (suc (suc (suc (suc zero)))) a t enough at = absurd (omega arith)

  pub Deleting-done :
      (n : ℕ) (d : Prog) (t : ListMem)
      → 6 ≤ n
      → Deleting n d t
      → (d ≡ done) × (t.next y ≡ list_poison1) × (t.prev y ≡ list_poison2)
  Deleting-done (suc (suc (suc (suc (suc (suc n)))))) d t enough all = all
  Deleting-done zero d t enough del = absurd (omega arith)
  Deleting-done (suc zero) d t enough del = absurd (omega arith)
  Deleting-done (suc (suc zero)) d t enough del = absurd (omega arith)
  Deleting-done (suc (suc (suc zero))) d t enough del = absurd (omega arith)
  Deleting-done (suc (suc (suc (suc zero)))) d t enough del = absurd (omega arith)
  Deleting-done (suc (suc (suc (suc (suc zero))))) d t enough del = absurd (omega arith)
