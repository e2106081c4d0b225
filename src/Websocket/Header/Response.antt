-- ===== src/Websocket/Header/Response.antt =====
-- Responses by RFC 7230: a status line, header lines `name: value` and an empty line.
use luci_app_komari_agent_c.Prelude.{
  ℕ, ◌≡◌, refl, ◌≢◌, [], ◌∷◌, ◌++◌, List, Bool, true, false, not, ◌&&◌, ◌||◌, Option, none, some,
  length, ◌==◌, if◌then◌else◌, arith,
}
use luci_app_komari_agent_c.Prelude.Chars.{Bytes, to_lower}
use luci_app_komari_agent_c.Websocket.Header.{is_blank, match_name, scan}

abbrev pub crlf : Bytes
crlf = 13 ∷ 10 ∷ []

-- No byte that would end a line.
abbrev pub in_line : Bytes → Bool
in_line [] = true
in_line (c ∷ s) = not (c == 13 || c == 10) && in_line s

-- A field name: no colon either.
abbrev pub is_name : Bytes → Bool
is_name [] = true
is_name (c ∷ s) = not (c == 13 || c == 10 || c == b':') && is_name s

-- Names are compared without case.
abbrev pub same_name : Bytes → Bytes → Bool
same_name [] [] = true
same_name [] (c ∷ s) = false
same_name (h ∷ n) [] = false
same_name (h ∷ n) (c ∷ s) = (to_lower c == to_lower h) && same_name n s

abbrev pub Field : Type 0
Field = Bytes × Bytes

abbrev pub header_line : Field → Bytes → Bytes
header_line (n, v) rest = n ++ (b':' ∷ b' ' ∷ (v ++ (13 ∷ 10 ∷ rest)))

abbrev pub header_block : List Field → Bytes
header_block [] = crlf
header_block (f ∷ fs) = header_line f (header_block fs)

-- A value that does not end in a blank, and one without blanks round it.
abbrev pub ends_well : Bytes → Bool
ends_well [] = true
ends_well (c ∷ []) = not (is_blank c)
ends_well (c ∷ d ∷ s) = ends_well (d ∷ s)

abbrev pub is_trimmed : Bytes → Bool
is_trimmed [] = true
is_trimmed (c ∷ s) = not (is_blank c) && ends_well (c ∷ s)

-- The fields of a response: names are not empty and values trimmed.
abbrev pub well_formed : List Field → Bool
well_formed [] = true
well_formed ((n, v) ∷ fs) =
    not (length n == 0) && is_name n && in_line v && is_trimmed v && well_formed fs

-- The value of the first field of that name.
abbrev pub field_value : Bytes → List Field → Option Bytes
field_value name [] = none
field_value name ((n, v) ∷ fs) = if same_name name n then some v else field_value name fs

lower_colon : (c : ℕ) → c ≢ 58 → to_lower c ≢ to_lower 58
unfolding to_lower
lower_colon c h = ground arith

pub match_name-line :
    (name n : Bytes) (rest : Bytes)
    → is_name name ≡ true
    → is_name n ≡ true
    → match_name name (n ++ (b':' ∷ rest)) ≡ (if same_name name n then some rest else none)
unfolding match_name
match_name-line [] [] rest h k = refl
match_name-line [] (c ∷ n) rest h k = ground arith
match_name-line (x ∷ name) [] rest h k = ground (arith, lower_colon x)
match_name-line (x ∷ name) (c ∷ n) rest h k = ground (arith, match_name-line name n rest)

-- A name that ends in a colon wants two colons in the line.
pub match_name_colon :
    (name n : Bytes) (rest : Bytes)
    → is_name name ≡ true
    → is_name n ≡ true
    → match_name (name ++ (b':' ∷ [])) (n ++ (b':' ∷ b' ' ∷ rest)) ≡ none
unfolding match_name
match_name_colon [] [] rest h k = ground arith
match_name_colon [] (c ∷ n) rest h k = ground (arith, lower_colon c)
match_name_colon (x ∷ name) [] rest h k = ground (arith, lower_colon x)
match_name_colon (x ∷ name) (c ∷ n) rest h k = ground (arith, match_name_colon name n rest)

scan_step :
    (name : Bytes) (size c : ℕ) (s : Bytes)
    → (c == 13) ≡ false
    → scan name size false (c ∷ s) ≡ scan name size false s
unfolding scan
scan_step name size c [] h = refl
scan_step name size c (d ∷ s) h = rw (h) refl

pub scan_skip :
    (name : Bytes) (size : ℕ) (l s : Bytes)
    → in_line l ≡ true
    → scan name size false (l ++ s) ≡ scan name size false s
scan_skip name size [] s h = refl
scan_skip name size (c ∷ l) s h =
    ground (arith, scan_step name size c (l ++ s), scan_skip name size l s)

pub scan_line :
    (name : Bytes) (size : ℕ) (l s : Bytes)
    → in_line l ≡ true
    → scan name size false (l ++ (13 ∷ 10 ∷ s)) ≡ scan name size true s
unfolding scan
scan_line name size l s h = scan_skip name size l (13 ∷ 10 ∷ s) h
