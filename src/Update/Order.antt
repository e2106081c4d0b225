-- ===== src/Update/Order.antt =====
-- The order that `update_compare_versions` of src/update/update.c defines, and its turns.
use luci_app_komari_agent_c.Prelude.{
  ℕ, zero, suc, ◌+◌, ◌-◌, ◌*◌, ◌≤◌, ◌≡◌, refl, ap, [], ◌∷◌, Bool, true, false, ◌&&◌, length, ltb,
  arith, Bool-cases, inl, inr,
}
use luci_app_komari_agent_c.Prelude.Chars.{Bytes}
use luci_app_komari_agent_c.Prelude.Strtol.{is_digit, read_digits}
use luci_app_komari_agent_c.Update.{
  Comparison, below, equal, above, compare_numbers, remaining, skip_v, take_item, compare_turns,
  compare_versions,
}

abbrev pub opposite : Comparison → Comparison
opposite below = above
opposite equal = equal
opposite above = below

compare_numbers-opposite :
    (n m : ℕ) (x y : Comparison)
    → x ≡ opposite y
    → compare_numbers n m x ≡ opposite (compare_numbers m n y)
compare_numbers-opposite n m x y e = elim (Bool-cases (ltb n m)) [
  | inl lt ↦ let gt : ltb m n ≡ false = ground arith in rw (lt, gt) refl
  | inr ge ↦ elim (Bool-cases (ltb m n)) [ inl gt ↦ rw (ge, gt) refl | inr le ↦ rw (ge, le) e ]
]

remaining-opposite : (s t : Bytes) → remaining s t ≡ opposite (remaining t s)
remaining-opposite [] [] = refl
remaining-opposite [] (d ∷ t) = refl
remaining-opposite (c ∷ s) [] = refl
remaining-opposite (c ∷ s) (d ∷ t) = refl

and_swap : (a b : Bool) → (a && b) ≡ (b && a)
and_swap true true = refl
and_swap true false = refl
and_swap false true = refl
and_swap false false = refl

module _ (long_max : ℕ) (signed : Bool) where
  compare_turns-opposite :
      (fuel : ℕ) (s t : Bytes)
      → compare_turns long_max signed fuel s t ≡ opposite (compare_turns long_max signed fuel t s)
  unfolding compare_turns
  compare_turns-opposite zero s t = remaining-opposite s t
  compare_turns-opposite (suc fuel) [] [] = refl
  compare_turns-opposite (suc fuel) [] (d ∷ t) = refl
  compare_turns-opposite (suc fuel) (c ∷ s) [] = refl
  compare_turns-opposite (suc fuel) (c ∷ s) (d ∷ t) =
      let both = is_digit d && is_digit c in
      let (n1, rest1) = take_item long_max signed both c s in
      let (n2, rest2) = take_item long_max signed both d t in
      rw (and_swap (is_digit c) (is_digit d)) (
        compare_numbers-opposite n1 n2 (compare_turns long_max signed fuel rest1 rest2)
          (compare_turns long_max signed fuel rest2 rest1)
          (compare_turns-opposite fuel rest1 rest2))

  -- To compare two versions the other way round gives the opposite, whatever bytes they hold; what
  -- strtol cuts off at LONG_MAX, and whether `char` is signed, does not matter.
  pub compare_versions-opposite :
      (v w : Bytes)
      → compare_versions long_max signed v w ≡ opposite (compare_versions long_max signed w v)
  unfolding compare_versions
  compare_versions-opposite v w =
      let swapped : length (skip_v v) + length (skip_v w) ≡ length (skip_v w) + length (skip_v v) =
        omega arith in
      rw swapped (compare_turns-opposite _ (skip_v v) (skip_v w))

  read_digits_rest :
      (acc c : ℕ) (s : Bytes) → is_digit c ≡ true → length ((read_digits acc (c ∷ s)).1) ≤ length s
  unfolding read_digits
  read_digits_rest acc c [] h = ground arith
  read_digits_rest acc c (d ∷ s) h = ground (arith, read_digits_rest (acc * 10 + (c - b'0')) d s)

  take_item-le :
      (b : Bool) (c d : ℕ) (s : Bytes)
      → length ((take_item long_max signed (is_digit c && is_digit d) c s).1) ≤ length s
  unfolding take_item
  take_item-le b c d s = ground (arith, read_digits_rest 0 c s)

  -- More turns than there are bytes in the first version change nothing.
  pub compare_turns_enough :
      (fuel : ℕ) (s t : Bytes)
      → length s ≤ fuel
      → compare_turns long_max signed (suc fuel) s t ≡ compare_turns long_max signed fuel s t
  unfolding compare_turns
  compare_turns_enough zero [] [] h = refl
  compare_turns_enough zero [] (d ∷ t) h = refl
  compare_turns_enough zero (c ∷ s) t h = absurd (omega arith)
  compare_turns_enough (suc fuel) [] t h = refl
  compare_turns_enough (suc fuel) (c ∷ s) [] h = refl
  compare_turns_enough (suc fuel) (c ∷ s) (d ∷ t) h =
      let both = is_digit c && is_digit d in
      let (n1, rest1) = take_item long_max signed both c s in
      let (n2, rest2) = take_item long_max signed both d t in
      ap (compare_numbers n1 n2)
        (compare_turns_enough fuel rest1 rest2 (omega (arith, take_item-le both c d s)))
