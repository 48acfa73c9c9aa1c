-- ===== src/Phase/Table.antt =====
-- What `gt_phase_register` of user/core/gt_core.c does to the table.
use mathlib.Core.List.{map, append-nil, append_assoc}
use mathlib.Core.Path.{ap₂, subst}
use guitar_tea.Common.{
  ℕ, ◌<◌, ◌≡◌, refl, ap, sym, ◌∙◌, Bool, true, false, not, Option, none, some, ==_self, arith, inl,
  inr, Bool-cases, ltb, ◌==◌, ◌&&◌, if◌then◌else◌, List, [], ◌∷◌, ◌++◌,
}
use guitar_tea.Common.State.{Cmd, pure, ◌>>=◌, Ensures, Ensures-bind, Ensures-mono}
use guitar_tea.Common.Int.{ℤ, gt_error, is_ok}
use guitar_tea.Phase.{Core, no_phases, is_some, phase_max, cmod_max, gt_phase_register}

abbrev in_range : (cmod gphase : ℕ) → Bool
in_range cmod gphase = ltb gphase phase_max && ltb cmod cmod_max

module _ {Fn W : Type 0} where
  -- A registration inside of the arrays returns, and says GT_OK exactly if the slot was free. Then
  -- that slot holds the new function, and no other has changed; else nothing has.
  gt_phase_register-set :
      (cmod gphase : ℕ) (fn : Option Fn) (s : Core Fn W)
      → gphase < phase_max
      → cmod < cmod_max
      → Ensures (gt_phase_register cmod gphase fn s) (λ ret s'.
        (is_ok ret ≡ not (is_some (s.table gphase cmod)))
        × (s'.world ≡ s.world)
        × ((p c : ℕ)
            → s'.table p c ≡ (if is_ok ret && (p == gphase && c == cmod) then fn else s.table p c)))
  unfolding gt_phase_register
  gt_phase_register-set cmod gphase fn s lp lc =
      let inside : in_range cmod gphase ≡ true = ground arith in
      elim (Bool-cases (is_some (s.table gphase cmod))) [
        | inl taken ↦ rw (inside, taken) (refl, refl, λ p c. refl)
        | inr free ↦ rw (inside, free) (refl, refl, λ p c. refl)
      ]

  -- After the registration of a function for a slot inside of the arrays, another registration for
  -- that slot returns GT_ERROR and changes nothing.
  gt_phase_register_twice :
      (cmod gphase : ℕ) (fn other : Fn) (s : Core Fn W)
      → gphase < phase_max
      → cmod < cmod_max
      → Ensures
          (gt_phase_register cmod gphase (some fn) s)
          (λ _ s'. gt_phase_register cmod gphase (some other) s' ≡ some (gt_error, s'))
  unfolding gt_phase_register
  gt_phase_register_twice cmod gphase fn other s lp lc =
      let inside : in_range cmod gphase ≡ true = ground arith in
      elim (Bool-cases (is_some (s.table gphase cmod))) [
        | inl taken ↦ rw (inside, taken) (rw taken)
        | inr free ↦ rw (inside, free) (rw (==_self gphase, ==_self cmod))
      ]

-- What gt_phase_register is called with.
pub record Registration (Fn : Type 0) : Type 0 where
  pub cmod : ℕ
  pub gphase : ℕ
  pub fn : Option Fn

-- The four phases and the six modules.
abbrev pub Inside : {Fn : Type 0} → List (Registration Fn) → Type 0
Inside [] = Unit {0}
Inside (r ∷ rs) = (r.gphase < 4) × (r.cmod < 6) × Inside rs

abbrev pub or_else : {A : Type 0} → Option A → Option A → Option A
or_else none o = o
or_else (some a) o = some a

or_else_assoc : {A : Type 0} (a b c : Option A) → or_else (or_else a b) c ≡ or_else a (or_else b c)
or_else_assoc none b c = refl
or_else_assoc (some a) b c = refl

or_else-none : {A : Type 0} (a : Option A) → or_else a none ≡ a
or_else-none none = refl
or_else-none (some a) = refl

merge :
    {A : Type 0} (o : Option A) (here : Bool) (new : Option A) (ok : Bool)
    → (here ≡ true → ok ≡ not (is_some o))
    → (if ok && here then new else o) ≡ or_else o (if here then new else none)
merge none true new ok e = rw (e refl)
merge (some a) true new ok e = rw (e refl)
merge none false new true e = refl
merge none false new false e = refl
merge (some a) false new true e = refl
merge (some a) false new false e = refl

module _ {Fn : Type 0} where
  abbrev pub fn_for : Registration Fn → (p c : ℕ) → Option Fn
  fn_for r p c = if p == r.gphase && c == r.cmod then r.fn else none

  -- The first function, NULL aside, that is registered for a slot.
  unfoldable pub first_registered : List (Registration Fn) → (p c : ℕ) → Option Fn
  first_registered [] p c = none
  first_registered (r ∷ rs) p c = or_else (fn_for r p c) (first_registered rs p c)

  -- Of each registration, whether none of those before it has a function for its slot.
  unfoldable pub first_come : (before rs : List (Registration Fn)) → List Bool
  unfolding first_registered
  first_come before [] = []
  first_come before (r ∷ rs) =
      not (is_some (first_registered before r.gphase r.cmod)) ∷ first_come (before ++ (r ∷ [])) rs

  first_registered-append :
      (xs ys : List (Registration Fn)) (p c : ℕ)
      → first_registered (xs ++ ys) p c
        ≡ or_else (first_registered xs p c) (first_registered ys p c)
  unfolding first_registered
  first_registered-append [] ys p c = refl
  first_registered-append (x ∷ xs) ys p c =
      ap (or_else (fn_for x p c)) (first_registered-append xs ys p c)
      ∙ sym (or_else_assoc (fn_for x p c) (first_registered xs p c) (first_registered ys p c))

  first_registered-snoc :
      (xs : List (Registration Fn)) (r : Registration Fn) (p c : ℕ)
      → first_registered (xs ++ (r ∷ [])) p c ≡ or_else (first_registered xs p c) (fn_for r p c)
  unfolding first_registered
  first_registered-snoc xs r p c =
      first_registered-append xs (r ∷ []) p c
      ∙ ap (or_else (first_registered xs p c)) (or_else-none (fn_for r p c))

module _ {Fn W : Type 0} where
  -- Registrations in turn, and what each returns.
  unfoldable pub register_all : List (Registration Fn) → Cmd (Core Fn W) (List ℤ)
  register_all [] = pure []
  register_all (r ∷ rs) = do
    ret ← gt_phase_register r.cmod r.gphase r.fn
    rets ← register_all rs
    pure (ret ∷ rets)

  Holds : W → (before : List (Registration Fn)) → Core Fn W → Type 0
  Holds w before s = (s.world ≡ w) × ((p c : ℕ) → s.table p c ≡ first_registered before p c)

  gt_phase_register-Holds :
      (w : W) (before : List (Registration Fn)) (r : Registration Fn) (s : Core Fn W)
      → Holds w before s
      → r.gphase < 4
      → r.cmod < 6
      → Ensures (gt_phase_register r.cmod r.gphase r.fn s) (λ ret t.
        (is_ok ret ≡ not (is_some (first_registered before r.gphase r.cmod)))
        × Holds w (before ++ (r ∷ [])) t)
  unfolding Holds
  gt_phase_register-Holds w before r s h lp lc =
      Ensures-mono (gt_phase_register r.cmod r.gphase r.fn s)
        (gt_phase_register-set r.cmod r.gphase r.fn s lp lc)
        λ ret t done.
          let answer = done.0 ∙ ap (λ o. not (is_some o)) (h.1 r.gphase r.cmod) in
          (
            answer,
            (
              done.1 ∙ h.0,
              λ p c.
                  done.2 p c
                  ∙ (ap (λ o. if is_ok ret && (p == r.gphase && c == r.cmod) then r.fn else o)
                        (h.1 p c)
                      ∙ (merged ret p c answer ∙ sym (first_registered-snoc before r p c))),
            ),
          )
    where
      merged :
          (ret : ℤ) (p c : ℕ)
          → is_ok ret ≡ not (is_some (first_registered before r.gphase r.cmod))
          → (if is_ok ret && (p == r.gphase && c == r.cmod)
              then r.fn
              else first_registered before p c)
            ≡ or_else (first_registered before p c) (fn_for r p c)
      merged ret p c answer =
          merge (first_registered before p c) (p == r.gphase && c == r.cmod) r.fn (is_ok ret)
            λ here.
              let same_p : p ≡ r.gphase = ground arith in
              let same_c : c ≡ r.cmod = ground arith in cc

  register_all-Holds :
      (w : W) (before rs : List (Registration Fn)) (s : Core Fn W)
      → Holds w before s
      → Inside rs
      → Ensures
          (register_all rs s)
          (λ rets t. (map is_ok rets ≡ first_come before rs) × Holds w (before ++ rs) t)
  unfolding register_all first_come
  register_all-Holds w before [] s h i =
      (refl, subst (λ x. Holds w x s) (sym (append-nil before)) h)
  register_all-Holds w before (r ∷ rs) s h i =
      Ensures-bind _ _ (gt_phase_register r.cmod r.gphase r.fn s) _
        (gt_phase_register-Holds w before r s h i.0 i.1)
        λ ret t one.
          Ensures-bind _ _ (register_all rs t) (λ rets. pure (ret ∷ rets))
            (register_all-Holds w (before ++ (r ∷ [])) rs t one.1 i.2)
            λ rets u all. (
              ap₂ ◌∷◌ one.0 all.0,
              subst (λ x. Holds w x u) (append_assoc before (r ∷ []) rs) all.1,
            )

  -- On an empty table, any registrations for the four phases and the six modules return, each of
  -- them GT_OK exactly if no function, NULL aside, has been registered for its slot before; after
  -- them, each slot holds the first function that was registered for it, and nothing else has
  -- changed.
  pub register_all-first_registered :
      (rs : List (Registration Fn)) (s : Core Fn W)
      → s.table ≡ no_phases
      → Inside rs
      → Ensures (register_all rs s) (λ rets t.
        (map is_ok rets ≡ first_come [] rs)
        × (t.world ≡ s.world)
        × ((p c : ℕ) → t.table p c ≡ first_registered rs p c))
  unfolding Holds first_registered
  register_all-first_registered rs s e inside =
      Ensures-mono (register_all rs s)
        (register_all-Holds s.world [] rs s (refl, λ p c. ap (λ t. t p c) e) inside)
        λ rets t done. (done.0, done.1.0, done.1.1)
