-- ===== src/Prelude/Bits.antt =====
-- Bit operations as arithmetic: tables over one byte, checked by evaluation, and the law of `|` on
-- fields that do not overlap, at every width.
use Prim.Native.Nat.{
  ℕ, zero, suc, ◌+◌, ◌*◌, ◌/◌, ◌%◌, ◌^◌, ◌≤◌, ◌<◌, max, bit_and, bit_or, bit_or-bitwise,
}
use mathlib.Core.Path.{◌≡◌, refl, ap}
use mathlib.Core.Bool.{Bool, true, ◌&&◌}
use native.Mathlib.Omega.{arith}
use native.Mathlib.Nat.{pow-suc}
use luci_app_komari_agent_c.Prelude.Digits.{digits_count}
use luci_app_komari_agent_c.Prelude.Tests.{◌==◌, ==_iff}

-- A test of each number below a limit, and what it says of one of them.
unfoldable pub every_below : (ℕ → Bool) → ℕ → Bool
every_below test zero = true
every_below test (suc limit) = every_below test limit && test limit

pub every_below→at :
    (test : ℕ → Bool) (limit i : ℕ) → i < limit → every_below test limit ≡ true → test i ≡ true
unfolding every_below
every_below→at test zero i below e = elim below [ ]
every_below→at test (suc limit) i below e = ground (arith, every_below→at test limit i)

pub table_eq :
    (f g : ℕ → ℕ) (limit : ℕ)
    → every_below (λ i. f i == g i) limit ≡ true
    → (i : ℕ) → i < limit
    → f i ≡ g i
table_eq f g limit e i below =
    (==_iff (f i) (g i)).0 (every_below→at (λ j. f j == g j) limit i below e)

zero-bit_or : (b : ℕ) → bit_or 0 b ≡ b
zero-bit_or b = bit_or-bitwise 0 b

pub bit_or_step : (a b : ℕ) → bit_or a b ≡ bit_or (a / 2) (b / 2) * 2 + max (a % 2) (b % 2)
bit_or_step zero b = omega (arith, zero-bit_or b, zero-bit_or (b / 2))
bit_or_step (suc a) b = omega (
  arith,
  bit_or-bitwise (suc a) b,
  bit_or-bitwise (suc a / 2) (b / 2),
  digits_count (λ b. b) max a (suc a / 2) (suc a / 2) (b / 2) (omega arith) (omega arith),
)

bit_or-zero_fuel : (n a : ℕ) → a ≤ n → bit_or a 0 ≡ a
bit_or-zero_fuel n zero h = zero-bit_or 0
bit_or-zero_fuel zero (suc a) h = absurd (omega arith)
bit_or-zero_fuel (suc n) (suc a) h =
    omega (arith, bit_or_step (suc a) 0, bit_or-zero_fuel n (suc a / 2) (omega arith))

pub bit_or-zero : (a : ℕ) → bit_or a 0 ≡ a
bit_or-zero a = bit_or-zero_fuel a a (omega arith)

bit_or_double : (x b : ℕ) → bit_or (x * 2) b ≡ bit_or x (b / 2) * 2 + b % 2
bit_or_double x b = ground (arith, bit_or_step (x * 2) b)

-- A field shifted left by `k` and one below `2 ^ k` do not overlap.
pub bit_or-shift : (k a b : ℕ) → b < 2 ^ k → bit_or (a * 2 ^ k) b ≡ a * 2 ^ k + b
bit_or-shift zero a b h = ground (arith, bit_or-zero (a * 1))
bit_or-shift (suc k) a b h =
    let e : a * 2 ^ suc k ≡ a * 2 ^ k * 2 = omega (arith, ap (λ (t : ℕ). a * t) (pow-suc 2 k)) in
    rw (e, bit_or_double) (omega (arith, bit_or-shift k a (b / 2) (omega (arith, pow-suc 2 k))))

-- The masks of the frame header on one byte.
pub bit_and_0x80 : (b : ℕ) → b < 256 → bit_and b 0x80 ≡ b / 128 * 128
unfolding every_below
bit_and_0x80 = table_eq (λ b. bit_and b 0x80) (λ b. b / 128 * 128) 256 refl

pub bit_and_0x70 : (b : ℕ) → b < 256 → bit_and b 0x70 ≡ b % 128 / 16 * 16
unfolding every_below
bit_and_0x70 = table_eq (λ b. bit_and b 0x70) (λ b. b % 128 / 16 * 16) 256 refl

pub bit_or_0x80 : (b : ℕ) → b < 128 → bit_or 0x80 b ≡ 128 + b
unfolding every_below
bit_or_0x80 = table_eq (λ b. bit_or 0x80 b) (λ b. 128 + b) 128 refl
