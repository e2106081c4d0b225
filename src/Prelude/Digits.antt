-- ===== src/Prelude/Digits.antt =====
-- The recursion on digits by which the native bit operations are defined: any count of digits that
-- covers the first number gives the same result.
use Prim.Native.Nat.{ℕ, zero, suc, ◌+◌, ◌*◌, ◌/◌, ◌%◌, ◌≤◌, digits}
use mathlib.Core.Path.{◌≡◌, refl, ap}
use native.Mathlib.Omega.{arith}

module _ (rest : ℕ → ℕ) (digit : ℕ → ℕ → ℕ) where
  pub digits_count :
      (k l x y : ℕ) → x ≤ k → x ≤ l → digits rest digit k x y ≡ digits rest digit l x y
  digits_count k l zero y h h' = covers_zero k l
    where
      covers_zero : (k l : ℕ) → digits rest digit k 0 y ≡ digits rest digit l 0 y
      covers_zero zero zero = refl
      covers_zero zero (suc l) = refl
      covers_zero (suc k) zero = refl
      covers_zero (suc k) (suc l) = refl
  digits_count zero l (suc x) y h h' = elim h [ ]
  digits_count (suc k) zero (suc x) y h h' = elim h' [ ]
  digits_count (suc k) (suc l) (suc x) y h h' =
      ap (λ (t : ℕ). t * 2 + digit (suc x % 2) (y % 2))
        (digits_count k l (suc x / 2) (y / 2) (omega arith) (omega arith))
