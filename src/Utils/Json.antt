-- ===== src/Utils/Json.antt =====
-- `utils_json_escape` and `utils_json_unescape` of src/utils/utils.c. A NULL argument and a failure of
-- `malloc` are not modelled.
pub mod Valid
pub mod RoundTrip
mod Tests
use luci_app_komari_agent_c.Prelude.{
  ℕ, zero, suc, ◌+◌, ◌-◌, ◌*◌, ◌/◌, ◌%◌, ◌^◌, ◌<◌, [], ◌∷◌, ◌++◌, Bool, true, false, not, ◌&&◌,
  ◌||◌, Option, none, some, length, take, leb, ltb, ◌==◌, if◌then◌else◌, bit_or,
}
use luci_app_komari_agent_c.Prelude.Chars.{Bytes, bytes}
use luci_app_komari_agent_c.Prelude.Strtol.{is_space, is_digit}

-- `%X` of a number below 16.
abbrev pub hex_digit : ℕ → ℕ
hex_digit d = if ltb d 10 then d + b'0' else d + 55

-- `"\\u%04X"` of a byte.
abbrev pub unicode_escape : ℕ → Bytes
unicode_escape c = b'\\' ∷ b'u' ∷ b'0' ∷ b'0' ∷ hex_digit (c / 16) ∷ hex_digit (c % 16) ∷ []

-- The letter of a short escape.
abbrev pub short_escape : ℕ → Option ℕ
short_escape c =
    if c == b'"'
    then some b'"'
    else if c == b'\\'
    then some b'\\'
    else if c == 8
    then some b'b'
    else if c == 12
    then some b'f'
    else if c == 10
    then some b'n'
    else if c == 13
    then some b'r'
    else if c == 9
    then some b't'
    else none

-- The loop, with the room that is left in the buffer. A long escape needs six bytes and the NUL;
-- without them the loop stops.
unfoldable pub escape_loop : ℕ → Bytes → Bytes
escape_loop room [] = []
escape_loop room (c ∷ s) =
    let after_short = escape_loop (room - 2) s in
    let after_long = escape_loop (room - 6) s in
    let after_plain = escape_loop (room - 1) s in
    elim (short_escape c) [
      | some e ↦ b'\\' ∷ e ∷ after_short
      | none ↦
          if ltb c 0x20
          then if ltb room 7 then [] else unicode_escape c ++ after_long
          else c ∷ after_plain
    ]

unfoldable pub json_escape : Bytes → Bytes
json_escape s = escape_loop (length s * 6 + 1) s

-- `strtoul(hex, NULL, 16)` cut down to `unsigned int`: blanks, a sign and a prefix 0x are taken.
abbrev pub is_lower_hex : ℕ → Bool
is_lower_hex c = leb b'a' c && leb c b'f'

abbrev pub is_upper_hex : ℕ → Bool
is_upper_hex c = leb b'A' c && leb c b'F'

abbrev pub is_hex : ℕ → Bool
is_hex c = is_digit c || is_lower_hex c || is_upper_hex c

abbrev pub hex_value : ℕ → ℕ
hex_value c = if is_digit c then c - b'0' else if is_lower_hex c then c - 87 else c - 55

unfoldable pub read_hex : ℕ → Bytes → ℕ
read_hex acc [] = acc
read_hex acc (c ∷ s) =
    let onward = read_hex (acc * 16 + hex_value c) s in if is_hex c then onward else acc

abbrev pub read_prefixed : Bytes → ℕ
read_prefixed [] = 0
read_prefixed (a ∷ []) = read_hex 0 (a ∷ [])
read_prefixed (a ∷ b ∷ []) = read_hex 0 (a ∷ b ∷ [])
read_prefixed (a ∷ b ∷ c ∷ s) =
    if a == b'0' && (b == b'x' || b == b'X') && is_hex c
    then read_hex 0 (c ∷ s)
    else read_hex 0 (a ∷ b ∷ c ∷ s)

abbrev pub read_sign : Bytes → ℕ
read_sign [] = 0
read_sign (c ∷ s) =
    if c == b'-'
    then (2 ^ 32 - read_prefixed s) % 2 ^ 32
    else if c == b'+'
    then read_prefixed s
    else read_prefixed (c ∷ s)

unfoldable pub strtoul_hex : Bytes → ℕ
strtoul_hex [] = 0
strtoul_hex (c ∷ s) = let onward = strtoul_hex s in if is_space c then onward else read_sign (c ∷ s)

-- A code point as UTF-8, if it fits in the room before the NUL; each byte is cut down to a `char`.
abbrev pub encode_utf8 : ℕ → ℕ → Bytes
encode_utf8 room cp =
    if ltb cp 0x80
    then if ltb 0 room then cp ∷ [] else []
    else if ltb cp 0x800
    then if ltb 1 room then bit_or 0xC0 (cp / 64) ∷ bit_or 0x80 (cp % 64) ∷ [] else []
    else if ltb 2 room
    then bit_or 0xE0 (cp / 4096) % 256 ∷ bit_or 0x80 (cp / 64 % 64) ∷ bit_or 0x80 (cp % 64) ∷ []
    else []

-- What an escape writes, and how many bytes of the input behind the backslash it takes. A quote and a
-- backslash stand for themselves, like every letter that is not listed.
unfoldable pub unescape_one : ℕ → ℕ → Bytes → Bytes × ℕ
unescape_one room e s =
    if e == b'b'
    then (8 ∷ [], 1)
    else if e == b'f'
    then (12 ∷ [], 1)
    else if e == b'n'
    then (10 ∷ [], 1)
    else if e == b'r'
    then (13 ∷ [], 1)
    else if e == b't'
    then (9 ∷ [], 1)
    else if e == b'u'
    then if leb 4 (length s) then (encode_utf8 room (strtoul_hex (take 4 s)), 5) else (b'u' ∷ [], 1)
    else (e ∷ [], 1)

-- One turn of the loop: what is written, and how many bytes behind the first the index passes over.
abbrev pub unescape_step : ℕ → ℕ → Bytes → Bytes × ℕ
unescape_step room c [] = (c ∷ [], 0)
unescape_step room c (e ∷ s) = if c == b'\\' then unescape_one room e s else (c ∷ [], 0)

-- The loop, with the bytes that the index still passes over and the room before the NUL.
unfoldable pub unescape_loop : ℕ → ℕ → Bytes → Bytes
unescape_loop skip room [] = []
unescape_loop (suc skip) room (c ∷ s) = unescape_loop skip room s
unescape_loop zero zero (c ∷ s) = []
unescape_loop zero (suc room) (c ∷ s) =
    let (out, skip) = unescape_step (suc room) c s in
    out ++ unescape_loop skip (suc room - length out) s

unfoldable pub json_unescape : Bytes → ℕ → Option Bytes
json_unescape json out_len =
    if out_len == 0 then none else some (unescape_loop 0 (out_len - 1) json)
