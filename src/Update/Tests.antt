-- ===== src/Update/Tests.antt =====
-- Versions that are compared, and the output of the package managers.
use luci_app_komari_agent_c.Prelude.{
  ℕ, ◌≡◌, refl, [], ◌∷◌, Option, some, none, Bool, true, false, if◌then◌else◌,
}
use luci_app_komari_agent_c.Prelude.Chars.{Bytes, bytes, starts_with}
use luci_app_komari_agent_c.Prelude.Strtol.{skip_space, read_digits}
use luci_app_komari_agent_c.Update.{
  above, char_value, take_item, compare_turns, compare_versions, skip_separators, skip_name,
  copy_word, parse_version_from_line, first_line, names_package, split_lines, find_version,
  package_version, check_opkg, check_apk, check_package, check_apk_upgradable, check_available,
}
use luci_app_komari_agent_c.Update.Dotted.{compare_versions-dotted}

abbrev long_max : ℕ
long_max = 2147483647

-- A version with a suffix is the greater one, also for a pre-release.
suffix : compare_versions long_max true (bytes "1.0.0-rc1") (bytes "1.0.0") ≡ above
unfolding compare_versions compare_turns take_item char_value read_digits
suffix = refl

compare_versions-dotted_example :
    compare_versions long_max true (bytes "v1.10") (bytes "1.9.3") ≡ above
compare_versions-dotted_example =
    compare_versions-dotted long_max true true false (bytes "1") (bytes "1") (bytes "10" ∷ [])
      (bytes "9" ∷ bytes "3" ∷ []) refl refl refl refl

-- The output of each package manager.
abbrev run : Bytes → Option (Bytes × ℕ)
run command =
    if starts_with command (bytes "apk")
    then some (bytes "WARNING: x\nkomari-agent-c-1.0.0-r1 x\n", 1)
    else some (bytes "komari-agent-c - 1.0.0-1\n", 0)

abbrev has_opkg : Bytes → Bool
has_opkg path = starts_with path (bytes "/usr/lib/opkg")

opkg_version : check_package run has_opkg ≡ some (package_version (bytes "1.0.0-1"))
unfolding check_package check_opkg parse_version_from_line skip_name skip_separators skip_space
    copy_word first_line
opkg_version = refl

-- An exit code other than 0 is an error of `apk info`, but not of `apk list`.
abbrev has_apk : Bytes → Bool
has_apk path = starts_with path (bytes "/usr/lib/apk")

apk_version : check_package run has_apk ≡ none
unfolding check_package check_apk
apk_version = refl

apk_available : check_available run has_apk ≡ some true
unfolding check_available check_apk_upgradable names_package
apk_available = refl

second_line :
    find_version (split_lines (bytes "WARNING: x\nkomari-agent-c-1.0.0-r1 x\n"))
    ≡ some (bytes "1.0.0-r1")
unfolding find_version split_lines names_package parse_version_from_line skip_name skip_separators
    skip_space copy_word
second_line = refl
