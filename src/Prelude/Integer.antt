-- ===== src/Prelude/Integer.antt =====
-- A C `int` as an integer, and `atoi`. A number that an `int` does not hold is undefined behaviour of
-- `atoi` and is not cut off here.
use luci_app_komari_agent_c.Prelude.Tests.{◌==◌}
use luci_app_komari_agent_c.Prelude.Chars.{Bytes}
use luci_app_komari_agent_c.Prelude.Strtol.{Number, strtol}
use Prim.Native.Nat.{ℕ, zero, suc}
use mathlib.Core.Bool.{Bool, true, false}
use mathlib.Core.Option.{none, some}

-- `negsuc n` is the number `- (n + 1)`.
pub data ℤ : Type 0 where
  pos : ℕ → ℤ
  negsuc : ℕ → ℤ

-- `n > 0`
abbrev pub is_positive : ℤ → Bool
is_positive (pos zero) = false
is_positive (pos (suc n)) = true
is_positive (negsuc n) = false

-- `n == k` for a constant `k` that is not negative.
abbrev pub is_const : ℤ → ℕ → Bool
is_const (pos n) k = n == k
is_const (negsuc n) k = false

abbrev pub to_int : Bool → ℕ → ℤ
to_int true (suc n) = negsuc n
to_int true zero = pos zero
to_int false n = pos n

unfoldable pub atoi : Bytes → ℤ
atoi s = elim (strtol s) [ none ↦ pos 0 | some n ↦ to_int (Number.negative n) (Number.magnitude n) ]
