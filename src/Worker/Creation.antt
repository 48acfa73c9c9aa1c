-- ===== src/Worker/Creation.antt =====
-- Which threads the functions of user/core/gt_worker.c create, and what they return.
use guitar_tea.Common.{
  ℕ, zero, suc, ◌+◌, ◌*◌, ◌≡◌, refl, inl, inr, Bool, true, false, not, ap, Option, List, [], ◌∷◌,
  Bool-cases, if◌then◌else◌, arith,
}
use mathlib.Core.Path.{subst}
use guitar_tea.Common.State.{Cmd, Ensures, pure, ◌>>=◌}
use guitar_tea.Common.Int.{ℤ, gt_error, is_ok}
use guitar_tea.Dlist.{Ptr}
use guitar_tea.Os.{Os, World, Call, call, pthread_create, pthread_cond_init, pthread_mutex_init}
use guitar_tea.Worker.{sizeof_gt_pthread, business_pthread_num, create_loop, gt_create_pthread}

module _ (os : Os) where
  open os use {Kernel}

  -- Calls in turn, up to the first that does not return 0: whether none fails, and the kernel after
  -- them.
  unfoldable pub make_calls : List Call → Kernel → Bool × Kernel
  make_calls [] k = (true, k)
  make_calls (c ∷ cs) k =
      let (r, k') = os.answer c k in
      let rest = make_calls cs k' in if is_ok r then rest else (false, k')

-- The mutex, the condition variable, and five threads, each of an entry of 40 bytes.
abbrev pub business_calls : (business : Ptr) → List Call
business_calls business =
    pthread_mutex_init
    ∷ pthread_cond_init
    ∷ pthread_create business
    ∷ pthread_create (business + 40)
    ∷ pthread_create (business + 80)
    ∷ pthread_create (business + 120)
    ∷ pthread_create (business + 160)
    ∷ []

-- The calls that the rounds left of the loop are to make.
unfoldable creations : (table : Ptr) (left i : ℕ) → List Call
creations table zero i = []
creations table (suc left) i =
    pthread_create (table + sizeof_gt_pthread * i) ∷ creations table left (i + 1)

module _ (os : Os) where
  -- A function that makes these calls does not fault, makes them up to the first that fails, changes
  -- nothing but the kernel, and returns GT_OK exactly if none fails.
  abbrev pub MakesCalls : List Call → World os.Kernel → Option (ℤ × World os.Kernel) → Type 0
  MakesCalls cs w o = Ensures o (λ ret t.
      (is_ok ret ≡ (make_calls os cs w.kernel).0)
      × (t ≡ record w { kernel = (make_calls os cs w.kernel).1 }))

  -- One call more, in front.
  MakesCalls-cons :
      (c : Call) (cs : List Call) (w : World os.Kernel) (failed : ℤ → ℤ)
      (rest : Cmd (World os.Kernel) ℤ)
      → ((r : ℤ) → is_ok r ≡ false → is_ok (failed r) ≡ false)
      → ((k : os.Kernel) → MakesCalls cs (record w { kernel = k }) (rest (record w { kernel = k })))
      → MakesCalls
          (c ∷ cs)
          w
          ((call os c >>= (λ ret. if not (is_ok ret) then pure (failed ret) else rest)) w)
  unfolding call make_calls
  MakesCalls-cons c cs w failed rest bad next =
      let r = (os.answer c w.kernel).0 in
      elim (Bool-cases (is_ok r)) [
        | inl done ↦ rw done (next (os.answer c w.kernel).1)
        | inr fault ↦ rw fault (bad r fault, refl)
      ]

  create_loop-MakesCalls :
      (table : Ptr) (left i : ℕ) (w : World os.Kernel)
      → MakesCalls (creations table left i) w (create_loop os table left i w)
  unfolding create_loop make_calls creations
  create_loop-MakesCalls table zero i w = (refl, refl)
  create_loop-MakesCalls table (suc left) i w =
      MakesCalls-cons (pthread_create (table + sizeof_gt_pthread * i))
        (creations table left (i + 1)) w (λ r. gt_error) (create_loop os table left (i + 1))
        (λ r e. refl) (λ k. create_loop-MakesCalls table left (i + 1) (record w { kernel = k }))

  creations-business_calls :
      (business : Ptr)
      → pthread_mutex_init ∷ pthread_cond_init ∷ creations business business_pthread_num 0
        ≡ business_calls business
  unfolding creations
  creations-business_calls business =
      ap
        (λ (first : Ptr).
          pthread_mutex_init ∷ pthread_cond_init ∷ pthread_create first ∷ creations business 4 1)
        (omega arith)

  -- gt_create_pthread initialises the mutex and the condition variable and creates threads of the
  -- entries at 0, 40, 80, 120 and 160 bytes of the table, in this order, up to the first of these
  -- calls that does not return 0, and makes no other. It does not fault, leaves all but the kernel
  -- alone, and returns GT_OK exactly if all seven return 0.
  pub gt_create_pthread-make_calls :
      (business : Ptr) (w : World os.Kernel)
      → MakesCalls (business_calls business) w (gt_create_pthread os business w)
  unfolding gt_create_pthread
  gt_create_pthread-make_calls business w =
      subst (λ cs. MakesCalls cs w (gt_create_pthread os business w))
        (creations-business_calls business)
        (MakesCalls-cons pthread_mutex_init _ w (λ r. r) _ (λ r e. e)
          (λ k.
            MakesCalls-cons pthread_cond_init _ (record w { kernel = k }) (λ r. r) _ (λ r e. e)
              (λ k'.
                create_loop-MakesCalls business business_pthread_num 0 (record w { kernel = k' }))))
