-- ===== src/Common/Sums.antt =====
-- Sums of a number for each of the first `n` threads, or other numbered things.
use Prim.Native.Nat.{ℕ, zero, suc, ◌+◌, ◌*◌, ◌≤◌, ◌<◌}
use mathlib.Core.Path.{◌≡◌, refl}
use mathlib.Core.Logic.{◌≢◌}
use native.Mathlib.Decide.{ℕ_discrete}
use native.Mathlib.Omega.{arith}

unfoldable pub total : (ℕ → ℕ) → ℕ → ℕ
total f zero = 0
total f (suc n) = total f n + f n

pub total-ext : (f g : ℕ → ℕ) (n : ℕ) → ((j : ℕ) → j < n → g j ≡ f j) → total g n ≡ total f n
unfolding total
total-ext f g zero same = refl
total-ext f g (suc n) same =
    omega (arith, total-ext f g n (λ j lt. same j (omega arith)), same n (omega arith))

-- Two families that differ at one place.
pub total-update :
    (f g : ℕ → ℕ) (n i : ℕ)
    → i < n
    → ((j : ℕ) → j ≢ i → g j ≡ f j)
    → total g n + f i ≡ total f n + g i
unfolding total
total-update f g zero i lt same = absurd (omega arith)
total-update f g (suc n) i lt same = elim (ℕ_discrete i n) [
  | yes e ↦ let below = total-ext f g n (λ j h. same j (omega arith)) in rw e (omega (arith, below))
  | no ne ↦
      let last = same n (λ e. ne (omega arith)) in
      omega (arith, total-update f g n i (omega arith) same, last)
]

pub total-le : (f : ℕ → ℕ) (n b : ℕ) → ((j : ℕ) → f j ≤ b) → total f n ≤ n * b
unfolding total
total-le f zero b bound = omega arith
total-le f (suc n) b bound = grind (arith, total-le f n b bound, bound n)
