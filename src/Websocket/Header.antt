-- ===== src/Websocket/Header.antt =====
-- `ws_extract_header` of src/network/websocket.c, and the call that `ws_handshake` makes of it.
pub mod Response
pub mod Value
pub mod Lookup
mod Tests
use luci_app_komari_agent_c.Prelude.{
  ℕ, ◌+◌, ◌<◌, [], ◌∷◌, Bool, true, false, ◌&&◌, ◌||◌, Option, none, some, length, leb, ltb, ◌==◌,
  if◌then◌else◌,
}
use luci_app_komari_agent_c.Prelude.Chars.{Bytes, bytes, to_lower}

abbrev pub is_blank : ℕ → Bool
is_blank c = c == b' ' || c == 9

-- The comparison of the header name with the start of a line, and the test for the colon behind it:
-- what follows the colon, if both hold.
pub match_name : Bytes → Bytes → Option Bytes
match_name [] [] = none
match_name [] (c ∷ line) = if c == b':' then some line else none
match_name (h ∷ name) [] = none
match_name (h ∷ name) (c ∷ line) =
    let rest = match_name name line in
    if c == 13 || c == 10 then none else if to_lower c == to_lower h then rest else none

-- `while (*v == ' ' || *v == '\t') v++;`
pub skip_blank : Bytes → Bytes
skip_blank [] = []
skip_blank (c ∷ s) = if is_blank c then skip_blank s else c ∷ s

-- What stands before the first CRLF, or everything.
pub until_crlf : Bytes → Bytes
until_crlf [] = []
until_crlf (c ∷ []) = c ∷ []
until_crlf (c ∷ d ∷ s) =
    let rest = until_crlf (d ∷ s) in if c == 13 && d == 10 then [] else c ∷ rest

-- `while (eol > v && (eol[-1] == ' ' || eol[-1] == '\t')) eol--;`
pub trim_blank_end : Bytes → Bytes
trim_blank_end [] = []
trim_blank_end (c ∷ s) = elim (trim_blank_end s) [
  | [] ↦ if is_blank c then [] else c ∷ []
  | d ∷ t ↦ c ∷ d ∷ t
]

-- The value that is found goes into a buffer of `out_size` bytes with its NUL.
pub copy_value : ℕ → Bytes → Option Bytes
copy_value out_size after =
    let value = trim_blank_end (until_crlf (skip_blank after)) in
    if ltb out_size (length value + 1) then none else some value

-- A blank line ends the headers.
pub is_end : Bytes → Bool
is_end [] = true
is_end (c ∷ []) = c == 10
is_end (c ∷ d ∷ s) = c == 13 && d == 10 || c == 10

-- The loop over the lines. At the start of a line (`true`) the line is examined; elsewhere the next
-- CRLF is looked for. A line that is examined and left does not begin with CRLF, so the search goes
-- on behind its first byte.
pub scan : Bytes → ℕ → Bool → Bytes → Option Bytes
scan name out_size start [] = none
scan name out_size true (c ∷ s) =
    let onward = scan name out_size false s in
    if is_end (c ∷ s)
    then none
    else elim (match_name name (c ∷ s)) [ some after ↦ copy_value out_size after | none ↦ onward ]
scan name out_size false (c ∷ []) = none
scan name out_size false (c ∷ d ∷ s) =
    let at_line = scan name out_size true s in
    let onward = scan name out_size false (d ∷ s) in if c == 13 && d == 10 then at_line else onward

pub extract_header : Bytes → Bytes → ℕ → Option Bytes
extract_header response name out_size =
    if out_size == 0 || length name == 0 then none else scan name out_size false response

-- The call in `ws_handshake`: the name that it passes ends in a colon.
pub server_accept : Bytes → Option Bytes
server_accept response = extract_header response (bytes "Sec-WebSocket-Accept:") 128
