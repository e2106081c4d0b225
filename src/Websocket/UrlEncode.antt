-- ===== src/Websocket/UrlEncode.antt =====
-- `url_encode` of src/network/websocket.c, which src/report/report.c and
-- src/autodiscovery/autodiscovery.c repeat, and a decoder of percent-encoding by RFC 3986.
pub mod Laws
mod Tests
use luci_app_komari_agent_c.Prelude.{
  ℕ, ◌+◌, ◌-◌, ◌*◌, ◌/◌, ◌%◌, Bool, ◌&&◌, ◌||◌, [], ◌∷◌, ◌++◌, Option, none, some, get_or, length,
  leb, ltb, ◌==◌, if◌then◌else◌,
}
use luci_app_komari_agent_c.Prelude.Chars.{Bytes, bytes}
use mathlib.Core.Option

abbrev pub hex : Bytes
hex = bytes "0123456789ABCDEF"

-- The characters that RFC 3986 calls unreserved.
pub is_unreserved : ℕ → Bool
is_unreserved c =
    leb b'A' c && leb c b'Z'
    || leb b'a' c && leb c b'z'
    || leb b'0' c && leb c b'9'
    || c == b'-'
    || c == b'_'
    || c == b'.'
    || c == b'~'

-- `hex[(c >> 4) & 0x0F]` and `hex[c & 0x0F]`
pub hex_pair : ℕ → Bytes
hex_pair c = get_or hex (c / 16 % 16) 0 ∷ get_or hex (c % 16) 0 ∷ []

-- What one byte becomes.
pub encode_byte : ℕ → Bytes
encode_byte c = if is_unreserved c then c ∷ [] else b'%' ∷ hex_pair c

-- The loop, with `j` bytes written: it fails where `j + 1 >= out_size` or `j + 3 >= out_size`.
pub url_encode_loop : ℕ → ℕ → Bytes → Option Bytes
url_encode_loop out_size j [] = some []
url_encode_loop out_size j (c ∷ rest) =
    let piece = encode_byte c in
    let more = url_encode_loop out_size (j + length piece) rest in
    if leb out_size (j + length piece) then none else Option.map (λ out. piece ++ out) more

-- `none` is -1; otherwise the code returns the length of the output.
pub url_encode : Bytes → ℕ → Option Bytes
url_encode input out_size = if out_size == 0 then none else url_encode_loop out_size 0 input

-- The value of a hexadecimal digit in upper case.
pub hex_value : ℕ → ℕ
hex_value c = if leb c b'9' then c - b'0' else c - b'A' + 10

-- A decoder of a query component, as a server applies it.
pub url_decode : Bytes → Bytes
url_decode [] = []
url_decode (c ∷ []) = c ∷ []
url_decode (c ∷ x ∷ []) = c ∷ x ∷ []
url_decode (c ∷ x ∷ y ∷ rest) =
    let escaped = (hex_value x * 16 + hex_value y) ∷ url_decode rest in
    let plain = c ∷ url_decode (x ∷ y ∷ rest) in if c == b'%' then escaped else plain
