-- ===== src/Update/Dotted.antt =====
-- `update_compare_versions` of src/update/update.c on numbers with dots between them.
use luci_app_komari_agent_c.Prelude.{
  ℕ, zero, suc, ◌+◌, ◌≤◌, ◌≡◌, refl, ◌∙◌, [], ◌∷◌, ◌++◌, List, Bool, true, false, ◌&&◌, length,
  length-append, min, if◌then◌else◌, arith,
}
use luci_app_komari_agent_c.Prelude.Chars.{Bytes}
use luci_app_komari_agent_c.Prelude.Strtol.{
  is_digit, all_digits, decimal, starts_digit, read_digits_run,
}
use luci_app_komari_agent_c.Update.{
  Comparison, below, equal, above, compare_numbers, skip_v, char_value, take_item, compare_turns,
  compare_versions,
}

-- A row of digits, one at least.
abbrev pub is_row : Bytes → Bool
is_row [] = false
is_row (c ∷ s) = all_digits (c ∷ s)

abbrev pub are_rows : List Bytes → Bool
are_rows [] = true
are_rows (r ∷ rs) = is_row r && are_rows rs

-- The rows behind the first one, each with its dot.
abbrev pub dotted : List Bytes → Bytes
dotted [] = []
dotted (r ∷ rs) = b'.' ∷ (r ++ dotted rs)

-- The order by the first number that differs; with more numbers a version is the greater one.
abbrev pub compare_lists : List ℕ → List ℕ → Comparison
compare_lists [] [] = equal
compare_lists (n ∷ ns) [] = above
compare_lists [] (m ∷ ms) = below
compare_lists (n ∷ ns) (m ∷ ms) = compare_numbers n m (compare_lists ns ms)

-- A text with a `v` in front, or without.
abbrev pub prefixed : Bool → Bytes → Bytes
prefixed v s = if v then b'v' ∷ s else s

dotted_starts : (rs : List Bytes) → starts_digit (dotted rs) ≡ false
dotted_starts [] = refl
dotted_starts (r ∷ rs) = refl

module _ (long_max : ℕ) (signed : Bool) where
  -- The number of a row, as `strtol` reads it.
  abbrev pub number_of : Bytes → ℕ
  number_of r = min (decimal r) long_max

  abbrev pub numbers_of : List Bytes → List ℕ
  numbers_of [] = []
  numbers_of (r ∷ rs) = number_of r ∷ numbers_of rs

  row_turn :
      (fuel c d : ℕ) (r s : Bytes) (rs ss : List Bytes) (x : Comparison)
      → is_row (c ∷ r) ≡ true
      → is_row (d ∷ s) ≡ true
      → compare_turns long_max signed fuel (dotted rs) (dotted ss) ≡ x
      → compare_turns long_max signed (suc fuel) (c ∷ (r ++ dotted rs)) (d ∷ (s ++ dotted ss))
        ≡ compare_numbers (number_of (c ∷ r)) (number_of (d ∷ s)) x
  unfolding compare_turns take_item
  row_turn fuel c d r s rs ss x h k e =
      let first : is_digit c ≡ true = ground arith in
      let second : is_digit d ≡ true = ground arith in
      rw
        (
          first,
          second,
          read_digits_run 0 (c ∷ r) (dotted rs) h (dotted_starts rs),
          read_digits_run 0 (d ∷ s) (dotted ss) k (dotted_starts ss),
          e,
        )
        refl

  compare_same : (n : ℕ) (x : Comparison) → compare_numbers n n x ≡ x
  compare_same n x = ground arith

  dotted_turns :
      (fuel : ℕ) (rs ss : List Bytes)
      → are_rows rs ≡ true
      → are_rows ss ≡ true
      → length (dotted rs) ≤ fuel
      → compare_turns long_max signed fuel (dotted rs) (dotted ss)
        ≡ compare_lists (numbers_of rs) (numbers_of ss)
  unfolding compare_turns take_item char_value
  dotted_turns zero [] [] h k f = refl
  dotted_turns (suc fuel) [] [] h k f = refl
  dotted_turns zero [] (s ∷ ss) h k f = refl
  dotted_turns (suc fuel) [] (s ∷ ss) h k f = refl
  dotted_turns zero (r ∷ rs) ss h k f = absurd (omega arith)
  dotted_turns (suc fuel) (r ∷ rs) [] h k f = refl
  dotted_turns (suc fuel) ([] ∷ rs) (s ∷ ss) h k f = absurd (ground arith)
  dotted_turns (suc fuel) ((c ∷ r) ∷ rs) ([] ∷ ss) h k f = absurd (ground arith)
  dotted_turns (suc zero) ((c ∷ r) ∷ rs) ((d ∷ s) ∷ ss) h k f = absurd (omega arith)
  dotted_turns (suc (suc fuel)) ((c ∷ r) ∷ rs) ((d ∷ s) ∷ ss) h k f =
      compare_same (char_value long_max signed b'.') _
      ∙ row_turn fuel c d r s rs ss (compare_lists (numbers_of rs) (numbers_of ss)) (ground arith)
          (ground arith)
          (dotted_turns fuel rs ss (ground arith) (ground arith)
            (omega (arith, length-append r (dotted rs))))

  skip_v-prefixed :
      (v : Bool) (r rest : Bytes) → is_row r ≡ true → skip_v (prefixed v (r ++ rest)) ≡ r ++ rest
  skip_v-prefixed true r rest h = refl
  skip_v-prefixed false [] rest h = absurd (ground arith)
  skip_v-prefixed false (c ∷ r) rest h = ground arith

  first_turns :
      (fuel : ℕ) (r s : Bytes) (rs ss : List Bytes)
      → is_row r ≡ true
      → is_row s ≡ true
      → are_rows rs ≡ true
      → are_rows ss ≡ true
      → length (r ++ dotted rs) ≤ fuel
      → compare_turns long_max signed fuel (r ++ dotted rs) (s ++ dotted ss)
        ≡ compare_lists (numbers_of (r ∷ rs)) (numbers_of (s ∷ ss))
  first_turns fuel [] s rs ss h k hs ks f = absurd (ground arith)
  first_turns fuel (c ∷ r) [] rs ss h k hs ks f = absurd (ground arith)
  first_turns zero (c ∷ r) (d ∷ s) rs ss h k hs ks f = absurd (omega arith)
  first_turns (suc fuel) (c ∷ r) (d ∷ s) rs ss h k hs ks f =
      row_turn fuel c d r s rs ss (compare_lists (numbers_of rs) (numbers_of ss)) h k
        (dotted_turns fuel rs ss hs ks (omega (arith, length-append r (dotted rs))))

  -- Versions that are rows of digits with dots between them, with a `v` in front or without, are
  -- compared by the first number that differs, and if there is none, the one with more numbers is the
  -- greater; numbers above LONG_MAX count as LONG_MAX.
  pub compare_versions-dotted :
      (v w : Bool) (r s : Bytes) (rs ss : List Bytes)
      → is_row r ≡ true
      → is_row s ≡ true
      → are_rows rs ≡ true
      → are_rows ss ≡ true
      → compare_versions long_max signed (prefixed v (r ++ dotted rs)) (prefixed w (s ++ dotted ss))
        ≡ compare_lists (numbers_of (r ∷ rs)) (numbers_of (s ∷ ss))
  unfolding compare_versions
  compare_versions-dotted v w r s rs ss h k hs ks =
      rw (skip_v-prefixed v r (dotted rs) h, skip_v-prefixed w s (dotted ss) k)
        (first_turns (length (r ++ dotted rs) + length (s ++ dotted ss)) r s rs ss h k hs ks
          (omega arith))
