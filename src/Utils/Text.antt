-- ===== src/Utils/Text.antt =====
-- `utils_str_trim`, `utils_str_starts_with`, `utils_str_ends_with` and `utils_set_string` of
-- src/utils/utils.c, and `strcasecmp`.
mod Tests
use luci_app_komari_agent_c.Prelude.{
  ℕ, ◌+◌, ◌-◌, ◌<◌, ◌≤◌, ◌≡◌, refl, ap, [], ◌∷◌, ◌++◌, Bool, true, false, not, ◌&&◌, ◌||◌, length,
  take, drop, min, leb, ltb, ◌==◌, if◌then◌else◌, arith, length-take, length-append, Bool-cases,
  inl, inr, drop-append_left, drop_all,
}
use luci_app_komari_agent_c.Prelude.Chars.{Bytes, str_eq, starts_with}

-- `utils_set_string` into a buffer of `size` bytes: what does not fit is cut off.
abbrev pub set_string : ℕ → Bytes → Bytes
set_string size s = if leb size (length s) then take (size - 1) s else s

abbrev pub is_trimmed_byte : ℕ → Bool
is_trimmed_byte c = c == b' ' || c == 9 || c == 10 || c == 13

unfoldable pub trim_start : Bytes → Bytes
trim_start [] = []
trim_start (c ∷ s) = let rest = trim_start s in if is_trimmed_byte c then rest else c ∷ s

unfoldable pub trim_end : Bytes → Bytes
trim_end [] = []
trim_end (c ∷ s) = elim (trim_end s) [
  | [] ↦ if is_trimmed_byte c then [] else c ∷ []
  | d ∷ t ↦ c ∷ d ∷ t
]

unfoldable pub str_trim : Bytes → Bytes
str_trim s = trim_end (trim_start s)

abbrev pub str_ends_with : Bytes → Bytes → Bool
str_ends_with s suffix =
    if ltb (length s) (length suffix)
    then false
    else str_eq (drop (length s - length suffix) s) suffix

abbrev pub all_blank : Bytes → Bool
all_blank [] = true
all_blank (c ∷ s) = is_trimmed_byte c && all_blank s

abbrev pub starts_clean : Bytes → Bool
starts_clean [] = true
starts_clean (c ∷ s) = not (is_trimmed_byte c)

-- `s` begins and ends with a byte that stays, or is empty.
abbrev pub ends_clean : Bytes → Bool
ends_clean [] = true
ends_clean (c ∷ []) = not (is_trimmed_byte c)
ends_clean (c ∷ d ∷ s) = ends_clean (d ∷ s)

trim_start-blank :
    (pre s : Bytes) → all_blank pre ≡ true → starts_clean s ≡ true → trim_start (pre ++ s) ≡ s
unfolding trim_start
trim_start-blank [] [] b c = refl
trim_start-blank [] (x ∷ s) b c = ground arith
trim_start-blank (p ∷ pre) s b c = ground (arith, trim_start-blank pre s)

trim_end-blank : (post : Bytes) → all_blank post ≡ true → trim_end post ≡ []
unfolding trim_end
trim_end-blank [] b = refl
trim_end-blank (c ∷ s) b = ground (arith, trim_end-blank s)

trim_end-clean :
    (s post : Bytes) → all_blank post ≡ true → ends_clean s ≡ true → trim_end (s ++ post) ≡ s
unfolding trim_end
trim_end-clean [] post b c = trim_end-blank post b
trim_end-clean (x ∷ []) post b c = ground (arith, trim_end-blank post)
trim_end-clean (x ∷ y ∷ s) post b c = rw (trim_end-clean (y ∷ s) post b c) refl

trim_start-all : (pre : Bytes) → all_blank pre ≡ true → trim_start pre ≡ []
unfolding trim_start
trim_start-all [] b = refl
trim_start-all (p ∷ pre) b = ground (arith, trim_start-all pre)

all_blank-append :
    (s t : Bytes) → all_blank s ≡ true → all_blank t ≡ true → all_blank (s ++ t) ≡ true
all_blank-append [] t h k = k
all_blank-append (c ∷ s) t h k = ground (arith, all_blank-append s t)

trim-blank : (s : Bytes) → all_blank s ≡ true → str_trim s ≡ []
unfolding str_trim trim_end
trim-blank s h = rw (trim_start-all s h) refl

-- `utils_str_trim` takes off exactly the blanks, tabs and line ends at both ends: whatever such bytes
-- stand round a text that neither begins nor ends with one, the text is what is left.
pub str_trim_padded :
    (pre s post : Bytes)
    → all_blank pre ≡ true
    → all_blank post ≡ true
    → starts_clean s ≡ true
    → ends_clean s ≡ true
    → str_trim (pre ++ (s ++ post)) ≡ s
unfolding str_trim
str_trim_padded pre [] post a b c d = trim-blank (pre ++ post) (all_blank-append pre post a b)
str_trim_padded pre (x ∷ s) post a b c d =
    rw (trim_start-blank pre ((x ∷ s) ++ post) a c) (trim_end-clean (x ∷ s) post b d)

str_eq_refl : (s : Bytes) → str_eq s s ≡ true
str_eq_refl [] = refl
str_eq_refl (c ∷ s) = ground (arith, str_eq_refl s)

drop-length : (s t : Bytes) → drop (length s) (s ++ t) ≡ t
drop-length [] t = refl
drop-length (c ∷ s) t = drop-length s t

-- `utils_str_ends_with` answers yes for every text with the suffix behind it.
pub str_ends_with-append : (s suffix : Bytes) → str_ends_with (s ++ suffix) suffix ≡ true
str_ends_with-append s suffix =
    let long : ltb (length (s ++ suffix)) (length suffix) ≡ false =
      ground (arith, length-append s suffix) in
    let start : length (s ++ suffix) - length suffix ≡ length s =
      omega (arith, length-append s suffix) in
    rw (long, start, drop-length s suffix) (str_eq_refl suffix)
