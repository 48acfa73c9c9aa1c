-- ===== src/Worker/Routine/Mutex.antt =====
-- Mutual exclusion under `gt_pthread_mutex` of user/core/gt_worker.c.
use guitar_tea.Common.{
  ℕ, ◌<◌, ◌≡◌, ◌≢◌, refl, sym, ◌∙◌, inl, inr, Bool, true, false, Bool-cases, arith,
}
use guitar_tea.Worker.Routine.{
  Routine, gt_network_pthread_routine, gt_business_pthread_routine, gt_datanet_pthread_routine, Pc,
  starting, locked, waiting, woken, relocked, setup, looping, exited, after_unlock, Move,
  mutex_lock, cond_wait, cond_return, mutex_unlock, poller_ready, poller_failed, System, set_pc,
  unblock, Group, Step, pick, wake_up, wake_spuriously, Steps, here, later, created,
}

-- Between a return of `pthread_mutex_lock` or `pthread_cond_wait` and the next call of the mutex.
abbrev pub holds : Pc → Bool
holds starting = false
holds locked = true
holds waiting = false
holds woken = false
holds relocked = true
holds setup = false
holds looping = false
holds exited = false

-- The thread that has the mutex, if one has it, is `owner`.
pub record Inv (g : Group) (s : System) : Type 0 where
  pub owner : ℕ
  pub owner-lt : s.mutex ≡ true → owner < g.threads
  pub owner_holds : s.mutex ≡ true → holds (s.pc owner) ≡ true
  pub only : (i : ℕ) → holds (s.pc i) ≡ true → (s.mutex ≡ true) × (i ≡ owner)

holds-after_unlock : (r : Routine) → holds (after_unlock r) ≡ false
holds-after_unlock gt_network_pthread_routine = refl
holds-after_unlock gt_business_pthread_routine = refl
holds-after_unlock gt_datanet_pthread_routine = refl

holds-unblock : (p : Pc) → holds (unblock p) ≡ holds p
holds-unblock waiting = refl
holds-unblock _ = refl

module _ {g : Group} {s : System} (inv : Inv g s) where
  open inv use {owner, owner-lt, owner_holds, only}

  -- A thread takes the mutex, gives it back, or does neither.
  take-Inv :
      (i : ℕ) (p : Pc)
      → i < g.threads
      → s.mutex ≡ false
      → holds p ≡ true
      → Inv g (record s { mutex = true; pc = set_pc s.pc i p })
  take-Inv i p lt free after = record {
    owner = i;
    owner-lt = λ h. lt;
    owner_holds = λ h. ground arith;
    only = λ j h. ground (arith, only j);
  }

  give-Inv :
      (i : ℕ) (p : Pc)
      → holds (s.pc i) ≡ true
      → holds p ≡ false
      → Inv g (record s { mutex = false; pc = set_pc s.pc i p })
  give-Inv i p before after = record {
    owner = owner;
    owner-lt = λ h. cc;
    owner_holds = λ h. cc;
    only = λ j h. ground (arith, only j, only i);
  }

  pass-Inv :
      (i : ℕ) (p : Pc)
      → holds (s.pc i) ≡ false
      → holds p ≡ false
      → Inv g (record s { pc = set_pc s.pc i p })
  pass-Inv i p before after = record {
    owner = owner;
    owner-lt = owner-lt;
    owner_holds = λ h. ground (arith, owner_holds h);
    only = λ j h. ground (arith, only j);
  }

  Move-Inv :
      (i : ℕ) {r : Routine} {p p' : Pc} {m : Bool}
      → i < g.threads
      → Move r s.mutex p m p'
      → s.pc i ≡ p
      → Inv g (record s { mutex = m; pc = set_pc s.pc i p' })
  Move-Inv i lt (mutex_lock free) e = take-Inv i locked lt free refl
  Move-Inv i lt cond_wait e = give-Inv i waiting (rw e refl) refl
  Move-Inv i lt (cond_return free) e = take-Inv i relocked lt free refl
  Move-Inv i {r} lt mutex_unlock e = give-Inv i (after_unlock r) (rw e refl) (holds-after_unlock r)
  Move-Inv i lt poller_ready e = pass-Inv i looping (rw e refl) refl
  Move-Inv i lt poller_failed e = pass-Inv i exited (rw e refl) refl

  wake_up-Inv : Inv g (record s { broadcast = true; pc = λ j. unblock (s.pc j) })
  wake_up-Inv = record {
    owner = owner;
    owner-lt = owner-lt;
    owner_holds = λ h. holds-unblock (s.pc owner) ∙ owner_holds h;
    only = λ j h. only j (sym (holds-unblock (s.pc j)) ∙ h);
  }

pub Step-Inv : {g : Group} {s t : System} → Step g s t → Inv g s → Inv g t
Step-Inv (pick i lt mv) inv = Move-Inv inv i lt mv refl
Step-Inv (wake_up first) inv = wake_up-Inv inv
Step-Inv (wake_spuriously i lt allowed blocked) inv = pass-Inv inv i woken (rw blocked refl) refl

pub Steps-Inv : {g : Group} {s t : System} {k : ℕ} → Steps g s k t → Inv g s → Inv g t
Steps-Inv here inv = inv
Steps-Inv (later before st) inv = Step-Inv st (Steps-Inv before inv)

pub created-Inv : (g : Group) → Inv g created
created-Inv g = record {
  owner = 0;
  owner-lt = λ h. cc;
  owner_holds = λ h. cc;
  only = λ i h. absurd (ground arith);
}

-- In any interleaving, with any routines, spurious returns of `pthread_cond_wait` included, no two
-- threads are at once between a call that gives them the mutex and the call that takes it back.
pub mutex_exclusion :
    {g : Group} {s : System} {k : ℕ}
    → Steps g created k s
    → (i j : ℕ) → i ≢ j
    → holds (s.pc i) ≡ true
    → holds (s.pc j) ≡ false
mutex_exclusion {g} {s} run i j ne held = elim (Bool-cases (holds (s.pc j))) [
  | inl both ↦
      let inv = Steps-Inv run (created-Inv g) in
      absurd (ne ((inv.only i held).1 ∙ sym (inv.only j both).1))
  | inr other ↦ other
]
