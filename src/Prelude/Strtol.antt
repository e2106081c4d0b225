-- ===== src/Prelude/Strtol.antt =====
-- `strchr` and `strtol` of the C library, in base 10 and the C locale.
use luci_app_komari_agent_c.Prelude.Tests.{leb, ◌==◌, if◌then◌else◌}
use luci_app_komari_agent_c.Prelude.Lists.{length}
use luci_app_komari_agent_c.Prelude.Chars.{Bytes}
use Prim.Native.Nat.{ℕ, suc, ◌+◌, ◌-◌, ◌*◌}
use mathlib.Core.Path.{◌≡◌, refl}
use mathlib.Core.Bool.{Bool, true, false, ◌&&◌, ◌||◌, not}
use mathlib.Core.List.{[], ◌∷◌, ◌++◌}
use mathlib.Core.Option.{Option, none, some, map}
use native.Mathlib.Omega.{arith}

-- The offset of the first `c`.
unfoldable pub find_byte : ℕ → Bytes → Option ℕ
find_byte c [] = none
find_byte c (d ∷ s) = let onward = find_byte c s in if d == c then some 0 else map suc onward

abbrev pub is_space : ℕ → Bool
is_space c = c == b' ' || leb 9 c && leb c 13

abbrev pub is_digit : ℕ → Bool
is_digit c = leb b'0' c && leb c b'9'

unfoldable pub skip_space : Bytes → Bytes
skip_space [] = []
skip_space (c ∷ s) = let onward = skip_space s in if is_space c then onward else c ∷ s

-- The digits at the front, read on from a value, and what follows them.
unfoldable pub read_digits : ℕ → Bytes → ℕ × Bytes
read_digits acc [] = (acc, [])
read_digits acc (c ∷ s) =
    let onward = read_digits (acc * 10 + (c - b'0')) s in
    if is_digit c then onward else (acc, c ∷ s)

-- A number that is read: its sign, its absolute value and what follows it. The value is not cut off
-- at LONG_MAX.
pub record Number : Type 0 where
  pub negative : Bool
  pub magnitude : ℕ
  pub after : Bytes

abbrev pub number : Bool → ℕ → Bytes → Number
number negative magnitude after = record {
  negative = negative;
  magnitude = magnitude;
  after = after;
}

unfoldable pub read_number : Bool → Bytes → Option Number
read_number negative [] = none
read_number negative (c ∷ s) =
    let r = read_digits 0 (c ∷ s) in if is_digit c then some (number negative (r.0) (r.1)) else none

unfoldable pub read_signed : Bytes → Option Number
read_signed [] = none
read_signed (c ∷ s) =
    if c == b'-'
    then read_number true s
    else if c == b'+'
    then read_number false s
    else read_number false (c ∷ s)

-- No number leaves the end pointer at the start.
unfoldable pub strtol : Bytes → Option Number
strtol s = read_signed (skip_space s)

abbrev pub all_digits : Bytes → Bool
all_digits [] = true
all_digits (c ∷ s) = is_digit c && all_digits s

abbrev pub decimal_from : ℕ → Bytes → ℕ
decimal_from acc [] = acc
decimal_from acc (c ∷ s) = decimal_from (acc * 10 + (c - b'0')) s

-- The value of a row of decimal digits.
abbrev pub decimal : Bytes → ℕ
decimal s = decimal_from 0 s

abbrev pub starts_digit : Bytes → Bool
starts_digit [] = false
starts_digit (c ∷ s) = is_digit c

abbrev pub absent : ℕ → Bytes → Bool
absent c [] = true
absent c (d ∷ s) = not (d == c) && absent c s

pub read_digits_run :
    (acc : ℕ) (ds rest : Bytes)
    → all_digits ds ≡ true
    → starts_digit rest ≡ false
    → read_digits acc (ds ++ rest) ≡ (decimal_from acc ds, rest)
unfolding read_digits
read_digits_run acc [] [] h k = refl
read_digits_run acc [] (c ∷ rest) h k = ground arith
read_digits_run acc (d ∷ ds) rest h k =
    ground (arith, read_digits_run (acc * 10 + (d - b'0')) ds rest)

pub strtol_digits :
    (d : ℕ) (ds rest : Bytes)
    → all_digits (d ∷ ds) ≡ true
    → starts_digit rest ≡ false
    → strtol (d ∷ (ds ++ rest)) ≡ some (number false (decimal (d ∷ ds)) rest)
unfolding strtol read_signed read_number skip_space
strtol_digits d ds rest h k = ground (arith, read_digits_run 0 (d ∷ ds) rest)

pub find_byte-absent : (c : ℕ) (s : Bytes) → absent c s ≡ true → find_byte c s ≡ none
unfolding find_byte
find_byte-absent c [] h = refl
find_byte-absent c (d ∷ s) h = ground (arith, find_byte-absent c s)

pub find_byte_first :
    (c : ℕ) (s rest : Bytes) → absent c s ≡ true → find_byte c (s ++ (c ∷ rest)) ≡ some (length s)
unfolding find_byte
find_byte_first c [] rest h = ground arith
find_byte_first c (d ∷ s) rest h = ground (arith, find_byte_first c s rest)
