-- ===== src/Update.antt =====
-- Package versions, src/update/update.c: `update_compare_versions`, `parse_version_from_line` and the
-- checks of the package managers. The commands that are run are a parameter.
pub mod Order
pub mod Dotted
pub mod Lines
mod Tests
use luci_app_komari_agent_c.Prelude.{
  ℕ, zero, suc, ◌+◌, ◌-◌, ◌%◌, [], ◌∷◌, ◌++◌, List, Option, none, some, Bool, true, false, ◌&&◌,
  ◌||◌, not, length, take, drop, ltb, leb, ◌==◌, min, if◌then◌else◌,
}
use luci_app_komari_agent_c.Prelude.Chain.{◌>>=◌}
use luci_app_komari_agent_c.Prelude.Chars.{Bytes, bytes, starts_with}
use luci_app_komari_agent_c.Prelude.Strtol.{is_space, is_digit, skip_space, read_digits}

-- The results -1, 0 and 1.
pub data Comparison : Type 0 where
  below : Comparison
  equal : Comparison
  above : Comparison

-- A test of two numbers, and what is returned if they are the same.
abbrev pub compare_numbers : ℕ → ℕ → Comparison → Comparison
compare_numbers n m rest = if ltb n m then below else if ltb m n then above else rest

-- The longer version is the greater one: the checks for a separator return what the lines behind
-- them return.
abbrev pub remaining : Bytes → Bytes → Comparison
remaining [] [] = equal
remaining (c ∷ s) [] = above
remaining [] (d ∷ t) = below
remaining (c ∷ s) (d ∷ t) = equal

abbrev pub skip_v : Bytes → Bytes
skip_v [] = []
skip_v (c ∷ s) = if c == b'v' then s else c ∷ s

-- The largest `long`, and whether `char` is signed, as the platform has them.
module _ (long_max : ℕ) (char_is_signed : Bool) where
  -- The value of a `char` as a number from its least value on.
  unfoldable pub char_value : ℕ → ℕ
  char_value c = if char_is_signed then (c + 128) % 256 else c

  -- What is compared at the front of a version, and what is behind it: the number that `strtol` reads
  -- if both begin with a digit, or else a character.
  unfoldable pub take_item : Bool → ℕ → Bytes → ℕ × Bytes
  take_item both_digits c s =
      let (n, rest) = read_digits 0 (c ∷ s) in
      if both_digits then (min n long_max, rest) else (char_value c, s)

  -- `while (*v1 && *v2)`, by fuel; each turn takes a byte at least from both.
  unfoldable pub compare_turns : ℕ → Bytes → Bytes → Comparison
  compare_turns zero v1 v2 = remaining v1 v2
  compare_turns (suc fuel) [] v2 = remaining [] v2
  compare_turns (suc fuel) (c ∷ s) [] = remaining (c ∷ s) []
  compare_turns (suc fuel) (c ∷ s) (d ∷ t) =
      let both_digits = is_digit c && is_digit d in
      let (n1, rest1) = take_item both_digits c s in
      let (n2, rest2) = take_item both_digits d t in
      compare_numbers n1 n2 (compare_turns fuel rest1 rest2)

  unfoldable pub compare_versions : Bytes → Bytes → Comparison
  compare_versions v1 v2 =
      let s1 = skip_v v1 in let s2 = skip_v v2 in compare_turns (length s1 + length s2) s1 s2

-- KOMARI_PACKAGE_NAME
abbrev pub package_name : Bytes
package_name = bytes "komari-agent-c"

abbrev pub is_separator : ℕ → Bool
is_separator c = c == b' ' || c == b'-' || c == b'=' || c == b':'

unfoldable pub skip_separators : Bytes → Bytes
skip_separators [] = []
skip_separators (c ∷ s) = let onward = skip_separators s in if is_separator c then onward else c ∷ s

unfoldable pub skip_name : Bytes → Bytes
skip_name s =
    if starts_with s package_name then skip_separators (drop (length package_name) s) else s

-- The bytes in front of the first white space, at most `room` of them.
unfoldable pub copy_word : ℕ → Bytes → Bytes
copy_word zero s = []
copy_word (suc room) [] = []
copy_word (suc room) (c ∷ s) = let rest = copy_word room s in if is_space c then [] else c ∷ rest

-- Nothing to copy is -1.
abbrev pub nonempty : Bytes → Option Bytes
nonempty [] = none
nonempty (c ∷ s) = some (c ∷ s)

unfoldable pub parse_version_from_line : Bytes → ℕ → Option Bytes
parse_version_from_line line zero = none
parse_version_from_line line (suc room) = nonempty (copy_word room (skip_name (skip_space line)))

pub record PackageVersion : Type 0 where
  pub name : Bytes
  pub version : Bytes

-- `version[32]`
abbrev pub version_size : ℕ
version_size = 32

abbrev pub package_version : Bytes → PackageVersion
package_version v = record { name = package_name; version = v }

unfoldable pub first_line : Bytes → Bytes
first_line [] = []
first_line (c ∷ s) = let rest = first_line s in if c == b'\n' then [] else c ∷ rest

-- `strstr(line, KOMARI_PACKAGE_NAME) != NULL`
unfoldable pub names_package : Bytes → Bool
names_package [] = false
names_package (c ∷ s) = starts_with (c ∷ s) package_name || names_package s

abbrev pub version_of_line : Bytes → Option Bytes
version_of_line line =
    if names_package line then parse_version_from_line line version_size else none

-- The lines, without their ends.
abbrev pub onto_line : ℕ → List Bytes → List Bytes
onto_line c [] = (c ∷ []) ∷ []
onto_line c (line ∷ lines) = (c ∷ line) ∷ lines

unfoldable pub split_lines : Bytes → List Bytes
split_lines [] = [] ∷ []
split_lines (c ∷ s) = let rest = split_lines s in if c == b'\n' then [] ∷ rest else onto_line c rest

abbrev pub or_else : Option Bytes → Option Bytes → Option Bytes
or_else none later = later
or_else (some v) later = some v

-- The first line that names the package and gives a version.
unfoldable pub find_version : List Bytes → Option Bytes
find_version [] = none
find_version (line ∷ lines) = or_else (version_of_line line) (find_version lines)

-- What a command leaves, its output and its exit code, if it was run, and which directories exist.
module _ (exec_command : Bytes → Option (Bytes × ℕ)) (dir_exists : Bytes → Bool) where
  abbrev pub output_of : Bytes → Option Bytes
  output_of command = do
    (output, exit_code) ← exec_command command
    if exit_code == 0 then some output else none

  unfoldable pub check_opkg : Option PackageVersion
  check_opkg = do
    output ← output_of (bytes "opkg list-installed komari-agent-c")
    v ← parse_version_from_line (first_line output) version_size
    some (package_version v)

  unfoldable pub check_apk : Option PackageVersion
  check_apk = do
    output ← output_of (bytes "apk info komari-agent-c")
    v ← find_version (split_lines output)
    some (package_version v)

  unfoldable pub check_package : Option PackageVersion
  check_package =
      if dir_exists (bytes "/usr/lib/apk")
      then check_apk
      else if dir_exists (bytes "/usr/lib/opkg")
      then check_opkg
      else none

  unfoldable pub check_opkg_upgradable : Option Bool
  check_opkg_upgradable = do
    output ← output_of (bytes "opkg list-upgradable")
    some (names_package output)

  -- The exit code of apk is not looked at.
  unfoldable pub check_apk_upgradable : Option Bool
  check_apk_upgradable = do
    (output, exit_code) ← exec_command (bytes "apk list --upgradable")
    some (names_package output)

  unfoldable pub check_available : Option Bool
  check_available =
      if dir_exists (bytes "/usr/lib/apk")
      then check_apk_upgradable
      else if dir_exists (bytes "/usr/lib/opkg")
      then check_opkg_upgradable
      else none
