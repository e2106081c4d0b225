-- ===== src/Update/Lines.antt =====
-- What `parse_version_from_line` takes from a line.
use luci_app_komari_agent_c.Prelude.{
  ℕ, zero, suc, ◌≡◌, refl, [], ◌∷◌, ◌++◌, some, Bool, true, false, ◌&&◌, not, take, arith,
}
use luci_app_komari_agent_c.Prelude.Chars.{Bytes}
use luci_app_komari_agent_c.Prelude.Strtol.{is_space, skip_space}
use luci_app_komari_agent_c.Update.{
  package_name, is_separator, skip_separators, skip_name, copy_word, parse_version_from_line,
}

abbrev pub all_spaces : Bytes → Bool
all_spaces [] = true
all_spaces (c ∷ s) = is_space c && all_spaces s

abbrev pub all_separators : Bytes → Bool
all_separators [] = true
all_separators (c ∷ s) = is_separator c && all_separators s

abbrev pub no_space : Bytes → Bool
no_space [] = true
no_space (c ∷ s) = not (is_space c) && no_space s

-- The line ends, or white space follows.
abbrev pub ends_word : Bytes → Bool
ends_word [] = true
ends_word (c ∷ s) = is_space c

-- A version as it stands in a line: it does not begin with a separator.
abbrev pub is_word : Bytes → Bool
is_word [] = false
is_word (c ∷ s) = not (is_separator c) && no_space (c ∷ s)

skip_space-append :
    (blank s : Bytes) → all_spaces blank ≡ true → skip_space (blank ++ s) ≡ skip_space s
unfolding skip_space
skip_space-append [] s h = refl
skip_space-append (c ∷ blank) s h = ground (arith, skip_space-append blank s)

skip_separators-append :
    (marks v rest : Bytes)
    → all_separators marks ≡ true
    → is_word v ≡ true
    → skip_separators (marks ++ (v ++ rest)) ≡ v ++ rest
unfolding skip_separators
skip_separators-append [] [] rest h k = absurd (ground arith)
skip_separators-append [] (c ∷ v) rest h k = ground arith
skip_separators-append (m ∷ marks) v rest h k = ground (arith, skip_separators-append marks v rest)

copy_word-append :
    (room : ℕ) (v rest : Bytes)
    → no_space v ≡ true
    → ends_word rest ≡ true
    → copy_word room (v ++ rest) ≡ take room v
unfolding copy_word
copy_word-append zero [] rest h k = refl
copy_word-append zero (c ∷ v) rest h k = refl
copy_word-append (suc room) [] [] h k = refl
copy_word-append (suc room) [] (c ∷ rest) h k = ground arith
copy_word-append (suc room) (c ∷ v) rest h k = ground (arith, copy_word-append room v rest)

-- The name is matched whatever follows it.
named : (s : Bytes) → skip_name (package_name ++ s) ≡ skip_separators s
unfolding skip_name
named s = refl

blank_name : (s : Bytes) → skip_space (package_name ++ s) ≡ package_name ++ s
unfolding skip_space
blank_name s = refl

-- From a line with the name of the package, white space in front or not, any separators behind it,
-- and then a version, what comes out is the version, cut off at the buffer's end.
pub parse_version_from_line_named :
    (blank marks v rest : Bytes) (room : ℕ)
    → all_spaces blank ≡ true
    → all_separators marks ≡ true
    → is_word v ≡ true
    → ends_word rest ≡ true
    → parse_version_from_line (blank ++ (package_name ++ (marks ++ (v ++ rest)))) (suc (suc room))
      ≡ some (take (suc room) v)
unfolding parse_version_from_line
parse_version_from_line_named blank marks [] rest room b m w e = absurd (ground arith)
parse_version_from_line_named blank marks (c ∷ v) rest room b m w e =
    rw
      (
        skip_space-append blank (package_name ++ (marks ++ (c ∷ (v ++ rest)))) b,
        blank_name (marks ++ (c ∷ (v ++ rest))),
        named (marks ++ (c ∷ (v ++ rest))),
        skip_separators-append marks (c ∷ v) rest m w,
        copy_word-append (suc room) (c ∷ v) rest (ground arith) e,
      )
      refl
