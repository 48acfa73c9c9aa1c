-- ===== src/Common/State.antt =====
-- Code that reads and writes a state and may fault, such as through a wild pointer: `none`.
use mathlib.Core.Path.{◌≡◌, refl}
use mathlib.Core.Option.{Option, none, some}

abbrev pub Cmd : Type 0 → Type 0 → Type 0
Cmd S A = S → Option (A × S)

abbrev pub pure : {S A : Type 0} → A → Cmd S A
pure a s = some (a, s)

abbrev pub and_then : {S A B : Type 0} → Option (A × S) → (A → Cmd S B) → Option (B × S)
and_then none f = none
and_then (some (a, t)) f = f a t

infixl 5 ◌>>=◌ ◌>>◌
abbrev pub ◌>>=◌ : {S A B : Type 0} → Cmd S A → (A → Cmd S B) → Cmd S B
m >>= f = λ s. and_then (m s) f

abbrev pub ◌>>◌ : {S B : Type 0} → Cmd S (Unit {0}) → Cmd S B → Cmd S B
m >> k = m >>= λ _. k

-- The code does not fault, and what it returns and leaves behind is as `P` says.
abbrev pub Ensures : {S A : Type 0} → Option (A × S) → (A → S → Type 0) → Type 0
Ensures none P = ⊥
Ensures (some (a, t)) P = P a t

pub Ensures-mono :
    {S A : Type 0} {P Q : A → S → Type 0} (o : Option (A × S))
    → Ensures o P
    → ((a : A) (t : S) → P a t → Q a t)
    → Ensures o Q
Ensures-mono none e weaken = absurd e
Ensures-mono (some (a, t)) e weaken = weaken a t e

pub Ensures-bind :
    {S A B : Type 0} (P : A → S → Type 0) (Q : B → S → Type 0) (o : Option (A × S))
    (f : A → Cmd S B)
    → Ensures o P
    → ((a : A) (t : S) → P a t → Ensures (f a t) Q)
    → Ensures (and_then o f) Q
Ensures-bind P Q none f e next = absurd e
Ensures-bind P Q (some (a, t)) f e next = next a t e

-- What follows a command faults if it does wherever the command may lead.
pub and_then-none :
    {S A B : Type 0} (P : A → S → Type 0) (o : Option (A × S)) (f : A → Cmd S B)
    → Ensures o P
    → ((a : A) (t : S) → P a t → f a t ≡ none)
    → and_then o f ≡ none
and_then-none P none f e next = absurd e
and_then-none P (some (a, t)) f e next = next a t e

pub and_then_assoc :
    {S A B C : Type 0} (o : Option (A × S)) (f : A → Cmd S B) (k : B → Cmd S C)
    → and_then (and_then o f) k ≡ and_then o (λ a t. and_then (f a t) k)
and_then_assoc none f k = refl
and_then_assoc (some (a, t)) f k = refl

-- What may become of a command that does not fault.
abbrev pub Afterwards : {S A : Type 0} → Option (A × S) → (A → S → Type 0) → Type 0
Afterwards none P = Unit
Afterwards (some (a, t)) P = P a t

pub Afterwards-both :
    {S A : Type 0} (P Q : A → S → Type 0) (o : Option (A × S))
    → Ensures o P
    → Afterwards o Q
    → Ensures o (λ a t. P a t × Q a t)
Afterwards-both P Q none e a = absurd e
Afterwards-both P Q (some (a, t)) p q = (p, q)
