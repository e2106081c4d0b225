-- ===== src/Utils/Json/Valid.antt =====
-- The output of both functions.
use luci_app_komari_agent_c.Prelude.{
  ℕ, zero, suc, ◌+◌, ◌-◌, ◌*◌, ◌/◌, ◌%◌, ◌<◌, ◌≤◌, ◌≡◌, refl, [], ◌∷◌, ◌++◌, Bool, true, false, not,
  ◌&&◌, ◌||◌, none, some, length, leb, ltb, ◌==◌, if◌then◌else◌, arith, length-append, ◌∙◌,
  Option-cases, Bool-cases, inl, inr,
}
use luci_app_komari_agent_c.Prelude.Bits.{every_below, every_below→at}
use luci_app_komari_agent_c.Prelude.Chars.{Bytes}
use luci_app_komari_agent_c.Utils.Json.{
  hex_digit, is_hex, unicode_escape, short_escape, escape_loop, json_escape, unescape_one,
  unescape_step, unescape_loop, json_unescape,
}
use luci_app_komari_agent_c.Utils.Json.RoundTrip.{escape_short, escape_long, escape_plain}

abbrev pub is_escape_letter : ℕ → Bool
is_escape_letter c =
    c == b'"'
    || c == b'\\'
    || c == b'/'
    || c == b'b'
    || c == b'f'
    || c == b'n'
    || c == b'r'
    || c == b't'

-- Where a reader stands in a JSON string: in the text, behind a backslash, or before some more hex digits.
pub data Place : Type 0 where
  text : Place
  escape : Place
  digits : ℕ → Place

-- What may stand between the quotes of a JSON string by RFC 8259: no control character and no quote
-- of its own, and every backslash begins an escape.
abbrev pub is_body : Place → Bytes → Bool
is_body text [] = true
is_body escape [] = false
is_body (digits n) [] = false
is_body text (c ∷ s) =
    if c == b'\\' then is_body escape s else (leb 0x20 c && not (c == b'"') && is_body text s)
is_body escape (c ∷ s) =
    if c == b'u' then is_body (digits 3) s else (is_escape_letter c && is_body text s)
is_body (digits zero) (c ∷ s) = is_hex c && is_body text s
is_body (digits (suc n)) (c ∷ s) = is_hex c && is_body (digits n) s

hex_digits : (c : ℕ) → c < 32 → (is_hex (hex_digit (c / 16)) && is_hex (hex_digit (c % 16))) ≡ true
unfolding every_below
hex_digits c h =
    every_below→at (λ c. is_hex (hex_digit (c / 16)) && is_hex (hex_digit (c % 16))) 32 c h refl

short_letter : (c e : ℕ) → short_escape c ≡ some e → is_escape_letter e ≡ true
short_letter c e h = grind arith

letter_not_u : (e : ℕ) → is_escape_letter e ≡ true → (e == b'u') ≡ false
letter_not_u e h = ground arith

plain_char : (c : ℕ) → short_escape c ≡ none → (c == b'\\' ≡ false) × (not (c == b'"') ≡ true)
plain_char c h = ground arith

body-short :
    (e : ℕ) (t : Bytes) → is_escape_letter e ≡ true → is_body text (b'\\' ∷ e ∷ t) ≡ is_body text t
body-short e t h = rw (letter_not_u e h, h) refl

body-long : (c : ℕ) (t : Bytes) → c < 32 → is_body text (unicode_escape c ++ t) ≡ is_body text t
body-long c t h = ground (arith, hex_digits c h)

body-plain :
    (c : ℕ) (t : Bytes) → short_escape c ≡ none → 32 ≤ c → is_body text (c ∷ t) ≡ is_body text t
body-plain c t h l = ground (arith, plain_char c h)

escape_loop_body :
    (space : ℕ) (s : Bytes) → length s * 6 < space → is_body text (escape_loop space s) ≡ true
unfolding escape_loop
escape_loop_body space [] k = refl
escape_loop_body space (c ∷ s) k = elim (Option-cases (short_escape c)) [
  | inr (e, q) ↦ rw (escape_short space c e s q) (
      body-short e (escape_loop (space - 2) s) (short_letter c e q)
      ∙ escape_loop_body (space - 2) s (omega arith))
  | inl q ↦ elim (Bool-cases (ltb c 32)) [
    | inl l ↦ rw (escape_long space c s q (ground arith) (omega arith)) (
        body-long c (escape_loop (space - 6) s) (ground arith)
        ∙ escape_loop_body (space - 6) s (omega arith))
    | inr l ↦ rw (escape_plain space c s q (ground arith)) (
        body-plain c (escape_loop (space - 1) s) q (ground arith)
        ∙ escape_loop_body (space - 1) s (omega arith))
  ]
]

-- What `utils_json_escape` returns is always the body of a JSON string.
pub json_escape_body : (s : Bytes) → is_body text (json_escape s) ≡ true
unfolding json_escape
json_escape_body s = escape_loop_body (length s * 6 + 1) s (omega arith)

unescape_one_room : (room e : ℕ) (s : Bytes) → 0 < room → length ((unescape_one room e s).0) ≤ room
unfolding unescape_one
unescape_one_room room e s h = ground arith

unescape_step_room :
    (room c : ℕ) (s : Bytes) → 0 < room → length ((unescape_step room c s).0) ≤ room
unescape_step_room room c [] h = omega arith
unescape_step_room room c (e ∷ s) h = ground (arith, unescape_one_room room e s)

unescape_loop_room : (skip room : ℕ) (s : Bytes) → length (unescape_loop skip room s) ≤ room
unfolding unescape_loop
unescape_loop_room skip room [] = omega arith
unescape_loop_room (suc skip) room (c ∷ s) = unescape_loop_room skip room s
unescape_loop_room zero zero (c ∷ s) = omega arith
unescape_loop_room zero (suc room) (c ∷ s) =
    let out = (unescape_step (suc room) c s).0 in
    let skip = (unescape_step (suc room) c s).1 in
    omega (
      arith,
      length-append out (unescape_loop skip (suc room - length out) s),
      unescape_step_room (suc room) c s (omega arith),
      unescape_loop_room skip (suc room - length out) s,
    )

-- What `utils_json_unescape` writes fits the buffer with its NUL, whatever the input.
pub json_unescape_fits :
    (s out : Bytes) (out_len : ℕ) → json_unescape s out_len ≡ some out → length out < out_len
unfolding json_unescape
json_unescape_fits s out zero h = ground arith
json_unescape_fits s out (suc n) h = ground (arith, unescape_loop_room 0 (suc n - 1) s)
