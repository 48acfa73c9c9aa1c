-- ===== src/Common/Int.antt =====
-- Signed integers, for the `int32_t` that the functions of the program return.
use Prim.Native.Nat.{ℕ, zero, suc}
use mathlib.Core.Path.{◌≡◌, refl}
use mathlib.Core.Bool.{Bool, true, false}

-- `negsuc n` is -(n + 1).
pub data ℤ : Type 0 where
  pos : ℕ → ℤ
  negsuc : ℕ → ℤ

-- GT_OK and GT_ERROR of user/comm/gt_typedef.h.
abbrev pub gt_ok : ℤ
gt_ok = pos 0

abbrev pub gt_error : ℤ
gt_error = negsuc 0

-- `GT_OK == r`, `r < 0` and `-1 == r`.
abbrev pub is_ok : ℤ → Bool
is_ok (pos zero) = true
is_ok (pos (suc n)) = false
is_ok (negsuc n) = false

abbrev pub is_neg : ℤ → Bool
is_neg (pos n) = false
is_neg (negsuc n) = true

abbrev pub is_minus_one : ℤ → Bool
is_minus_one (pos n) = false
is_minus_one (negsuc zero) = true
is_minus_one (negsuc (suc n)) = false

pub eq_of_is_ok : (r : ℤ) → is_ok r ≡ true → r ≡ gt_ok
eq_of_is_ok (pos zero) h = refl
eq_of_is_ok (pos (suc n)) h = cc
eq_of_is_ok (negsuc n) h = cc
