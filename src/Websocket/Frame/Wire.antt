-- ===== src/Websocket/Frame/Wire.antt =====
-- The frame format of RFC 6455, section 5.2, and `ws_send_frame` against it.
use luci_app_komari_agent_c.Prelude.{
  ℕ, zero, suc, ◌+◌, ◌/◌, ◌%◌, ◌<◌, ◌≡◌, [], ◌∷◌, ◌++◌, Option, none, some, true, length, leb,
  if◌then◌else◌, arith,
}
use luci_app_komari_agent_c.Prelude.Chars.{Bytes}
use luci_app_komari_agent_c.Prelude.Bits.{bit_or_0x80}
use luci_app_komari_agent_c.Websocket.Mask.{apply_mask}
use luci_app_komari_agent_c.Websocket.Frame.{length_bytes, length_field, send_frame, Frame}

-- The `k` bytes of `n` in network byte order, by division.
abbrev pub big_endian : ℕ → ℕ → Bytes
big_endian zero n = []
big_endian (suc k) n = big_endian k (n / 256) ++ (n % 256 ∷ [])

-- The shortest form of the length `n`: its 7 bits, and the bytes that follow.
abbrev pub length7 : ℕ → ℕ
length7 n = if leb n 125 then n else if leb n 65535 then 126 else 127

abbrev pub extension : ℕ → Bytes
extension n = if leb n 125 then [] else if leb n 65535 then big_endian 2 n else big_endian 8 n

-- The masking key and the payload.
abbrev pub wire_payload : Option Bytes → Bytes → Bytes
wire_payload none payload = payload
wire_payload (some key) payload = key ++ apply_mask payload key

abbrev pub mask_bit : Option Bytes → ℕ
mask_bit none = 0
mask_bit (some key) = 128

-- A frame on the wire; a server sends `none` for the masking key and a client a key of four bytes.
abbrev pub wire : Frame → Option Bytes → Bytes
wire f key =
    ((if f.fin then 128 else 0) + f.opcode)
    ∷ (mask_bit key + length7 (length f.payload))
    ∷ (extension (length f.payload) ++ wire_payload key f.payload)

length_bytes-big_endian : (n : ℕ) → length_bytes 8 n ≡ big_endian 8 n
unfolding length_bytes
length_bytes-big_endian n = ground arith

-- `ws_send_frame` writes the one final masked frame that the format prescribes.
pub send_frame-wire :
    (opcode : ℕ) (mask payload : Bytes)
    → opcode < 16
    → send_frame opcode mask payload
      ≡ wire (record { opcode = opcode; fin = true; payload = payload }) (some mask)
unfolding send_frame length_field
send_frame-wire opcode mask payload h = ground (
  arith,
  bit_or_0x80 (opcode % 16),
  bit_or_0x80 (length payload % 256),
  length_bytes-big_endian (length payload),
)
