-- ===== src/Websocket/Base64.antt =====
-- `ws_base64_encode` of src/network/websocket.c, and a decoder by RFC 4648 to read its output.
pub mod RoundTrip
mod Tests
use luci_app_komari_agent_c.Prelude.{
  ℕ, ◌+◌, ◌*◌, ◌/◌, ◌%◌, ◌^◌, [], ◌∷◌, bit_or, get_or, ◌==◌, if◌then◌else◌,
}
use luci_app_komari_agent_c.Prelude.Chars.{Bytes, bytes}

abbrev pub base64_table : Bytes
base64_table = bytes "ABCDEFGHIJKLMNOPQRSTUVWXYZabcdefghijklmnopqrstuvwxyz0123456789+/"

-- `base64_table[(n >> shift) & 0x3F]`
pub table_char : ℕ → ℕ → ℕ
table_char n shift = get_or base64_table (n / 2 ^ shift % 64) 0

-- One round of the loop for each three bytes; the last round may have one or two.
pub base64_encode : Bytes → Bytes
base64_encode [] = []
base64_encode (a ∷ []) = let n = a * 2 ^ 16 in table_char n 18 ∷ table_char n 12 ∷ b'=' ∷ b'=' ∷ []
base64_encode (a ∷ b ∷ []) =
    let n = bit_or (a * 2 ^ 16) (b * 2 ^ 8) in
    table_char n 18 ∷ table_char n 12 ∷ table_char n 6 ∷ b'=' ∷ []
base64_encode (a ∷ b ∷ c ∷ rest) =
    let n = bit_or (bit_or (a * 2 ^ 16) (b * 2 ^ 8)) c in
    table_char n 18 ∷ table_char n 12 ∷ table_char n 6 ∷ table_char n 0 ∷ base64_encode rest

-- The value of a character of the alphabet.
pub index_of : ℕ → Bytes → ℕ
index_of c [] = 0
index_of c (d ∷ ds) = if c == d then 0 else index_of c ds + 1

pub value : ℕ → ℕ
unfolding index_of
value c = index_of c base64_table

-- A decoder by RFC 4648, section 4: four characters to three bytes, `=` for a missing last byte.
pub decode : Bytes → Bytes
decode (p ∷ q ∷ r ∷ s ∷ rest) =
    let first = value p * 4 + value q / 16 in
    let second = value q % 16 * 16 + value r / 4 in
    let third = value r % 4 * 64 + value s in
    let more = decode rest in
    if r == b'='
    then first ∷ []
    else if s == b'='
    then first ∷ second ∷ []
    else first ∷ second ∷ third ∷ more
decode _ = []
