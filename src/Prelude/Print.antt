-- ===== src/Prelude/Print.antt =====
-- `snprintf` of a positive number by `%ld`, into a buffer that its 20 characters fit.
use luci_app_komari_agent_c.Prelude.Tests.{ltb, if◌then◌else◌}
use luci_app_komari_agent_c.Prelude.Chars.{Bytes}
use luci_app_komari_agent_c.Prelude.Strtol.{all_digits, decimal, decimal_from}
use Prim.Native.Nat.{ℕ, zero, suc, ◌+◌, ◌/◌, ◌%◌, ◌^◌, ◌<◌}
use mathlib.Core.Path.{◌≡◌, refl, ap}
use mathlib.Core.Bool.{true}
use mathlib.Core.List.{[], ◌∷◌}
use native.Mathlib.Omega.{arith}
use native.Mathlib.Nat.{pow-suc}

-- The digits of the number, in front of those that are there.
unfoldable pub print_from : ℕ → ℕ → Bytes → Bytes
print_from zero n acc = acc
print_from (suc k) n acc =
    let longer = print_from k (n / 10) ((b'0' + n % 10) ∷ acc) in
    if ltb n 10 then (b'0' + n) ∷ acc else longer

-- A `long` has at most 19 digits.
unfoldable pub print_decimal : ℕ → Bytes
print_decimal n = print_from 20 n []

all_digits-print_from :
    (k n : ℕ) (acc : Bytes) → all_digits acc ≡ true → all_digits (print_from k n acc) ≡ true
unfolding print_from
all_digits-print_from zero n acc h = h
all_digits-print_from (suc k) n acc h =
    ground (arith, all_digits-print_from k (n / 10) ((b'0' + n % 10) ∷ acc))

next_digit :
    (n : ℕ) (acc : Bytes) → decimal_from (n / 10) ((b'0' + n % 10) ∷ acc) ≡ decimal_from n acc
next_digit n acc = ap (λ (t : ℕ). decimal_from t acc) (omega arith)

decimal_from-print_from :
    (k n : ℕ) (acc : Bytes) → n < 10 ^ k → decimal_from 0 (print_from k n acc) ≡ decimal_from n acc
unfolding print_from
decimal_from-print_from zero n acc h = ap (λ (t : ℕ). decimal_from t acc) (omega arith)
decimal_from-print_from (suc k) n acc h = ground (
  arith,
  decimal_from-print_from k (n / 10) ((b'0' + n % 10) ∷ acc) (omega (arith, pow-suc 10 k)),
  next_digit n acc,
)

-- The text is read back as the number.
pub decimal-print_decimal :
    (n : ℕ) → n < 10 ^ 20 → (decimal (print_decimal n) ≡ n) × (all_digits (print_decimal n) ≡ true)
unfolding print_decimal
decimal-print_decimal n h = (decimal_from-print_from 20 n [] h, all_digits-print_from 20 n [] refl)
