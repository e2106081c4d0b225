-- ===== src/Utils/Json/Tests.antt =====
-- Runs of both functions.
use luci_app_komari_agent_c.Prelude.{◌≡◌, refl, [], ◌∷◌, true, some, arith}
use luci_app_komari_agent_c.Prelude.Chars.{Bytes, bytes}
use luci_app_komari_agent_c.Utils.Json.{
  escape_loop, json_escape, read_hex, strtoul_hex, unescape_one, unescape_loop, json_unescape,
}
use luci_app_komari_agent_c.Utils.Json.Valid.{text, is_body, json_escape_body}
use luci_app_komari_agent_c.Utils.Json.RoundTrip.{json_unescape-json_escape}

-- A quote, a tab, a bell and a letter.
abbrev mixed : Bytes
mixed = 34 ∷ 9 ∷ 7 ∷ b'x' ∷ []

abbrev mixed_escaped : Bytes
mixed_escaped = b'\\' ∷ 34 ∷ b'\\' ∷ b't' ∷ b'\\' ∷ bytes "u0007x"

json_escape-mixed : json_escape mixed ≡ mixed_escaped
unfolding json_escape escape_loop
json_escape-mixed = refl

json_unescape_euro :
    json_unescape (b'\\' ∷ bytes "u20ac!") 16 ≡ some (0xE2 ∷ 0x82 ∷ 0xAC ∷ b'!' ∷ [])
unfolding json_unescape unescape_loop unescape_one strtoul_hex read_hex
json_unescape_euro = refl

json_unescape-json_escape_example : json_unescape (json_escape mixed) 5 ≡ some mixed
json_unescape-json_escape_example = json_unescape-json_escape mixed 5 (omega arith)

abbrev euro_cut : Bytes
euro_cut = b'a' ∷ []

json_unescape_cut : json_unescape (b'a' ∷ b'\\' ∷ bytes "u20ac") 4 ≡ some euro_cut
unfolding json_unescape unescape_loop unescape_one strtoul_hex read_hex
json_unescape_cut = refl

json_escape_body_example : is_body text (json_escape mixed) ≡ true
json_escape_body_example = json_escape_body mixed
