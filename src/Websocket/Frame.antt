-- ===== src/Websocket/Frame.antt =====
-- `ws_send_frame` and `ws_recv_frame` of src/network/websocket.c, and the frame format of RFC 6455,
-- section 5.2, written independently of them.
pub mod Wire
pub mod Receive
pub mod Checks
pub mod Consumes
mod Tests
use luci_app_komari_agent_c.Prelude.{
  ℕ, zero, suc, ◌+◌, ◌-◌, ◌*◌, ◌/◌, ◌%◌, ◌^◌, [], ◌∷◌, ◌++◌, List, Option, none, some, Bool, true,
  false, not, ◌&&◌, ◌||◌, length, leb, ltb, ◌==◌, if◌then◌else◌, get_or, bit_and, bit_or,
}
use luci_app_komari_agent_c.Prelude.Chars.{Bytes}
use luci_app_komari_agent_c.Websocket.Mask.{apply_mask}
use luci_app_komari_agent_c.Websocket.Transport.{Connection, read_full}

-- `(len >> (56 - i * 8)) & 0xFF` for the `k` last values of `i`.
pub length_bytes : ℕ → ℕ → Bytes
length_bytes zero len = []
length_bytes (suc k) len = len / 2 ^ (k * 8) % 256 ∷ length_bytes k len

-- `frame[1]` and the extended length: the mask bit is always set.
pub length_field : ℕ → Bytes
length_field len =
    if leb len 125
    then bit_or 0x80 (len % 256) ∷ []
    else if leb len 65535
    then bit_or 0x80 126 ∷ len / 2 ^ 8 % 256 ∷ len % 256 ∷ []
    else bit_or 0x80 127 ∷ length_bytes 8 len

-- The bytes that `ws_send_frame` hands to `send_full`. `mask` is what `RAND_bytes` or `rand` gave.
pub send_frame : ℕ → Bytes → Bytes → Bytes
send_frame opcode mask payload =
    bit_or 0x80 (opcode % 16) ∷ (length_field (length payload) ++ (mask ++ apply_mask payload mask))

pub record Frame : Type 0 where
  pub opcode : ℕ
  pub fin : Bool
  pub payload : Bytes

-- A receive step: `none` is -1, after which the connection is closed.
abbrev pub M : Type 0 → Type 0
M A = Connection → Option (A × Connection)

infixl 5 ◌>>=◌
abbrev pub ◌>>=◌ : {A B : Type 0} → M A → (A → M B) → M B
◌>>=◌ m f c = elim (m c) [ none ↦ none | some (a, c') ↦ f a c' ]

abbrev pub return : {A : Type 0} → A → M A
return a c = some (a, c)

-- `if (b) return -1;`
abbrev pub fail_if : {A : Type 0} → Bool → M A → M A
fail_if b m c = if b then none else m c

-- `op >= 0x03 && op <= 0x07 || op >= 0x0B && op <= 0x0F`
unfoldable pub is_reserved : ℕ → Bool
is_reserved op = leb 0x03 op && leb op 0x07 || leb 0x0B op && leb op 0x0F

-- `op >= 0x08 && op <= 0x0A`
unfoldable pub is_control : ℕ → Bool
is_control op = leb 0x08 op && leb op 0x0A

-- `payload_len = (payload_len << 8) | ext[i]` in a `uint64_t`.
pub read_be : ℕ → Bytes → ℕ
read_be acc [] = acc
read_be acc (b ∷ bs) = read_be (bit_or (acc * 2 ^ 8 % 2 ^ 64) b) bs

-- The payload length by its 7 bits and the extended length field.
pub read_length : ℕ → M ℕ
read_length len7 =
    if len7 == 126
    then (do ext ← read_full 2; return (bit_or (get_or ext 0 0 * 2 ^ 8) (get_or ext 1 0)))
    else if len7 == 127
    then (do ext ← read_full 8; return (read_be 0 ext))
    else return len7

pub read_mask : Bool → M Bytes
read_mask masked = if masked then read_full 4 else return (0 ∷ 0 ∷ 0 ∷ 0 ∷ [])

-- The part of `ws_recv_frame` from the length on: the checks on control frames, the mask, and the
-- payload, which must fit the `cap'` bytes of the buffer.
pub recv_payload : ℕ → Bool → ℕ → Bool → ℕ → M Frame
recv_payload cap' fin op masked len7 = do
  payload_len ← read_length len7
  fail_if (is_control op && ltb 125 payload_len) do
    fail_if (is_control op && not fin) do
      mask ← read_mask masked
      fail_if (ltb cap' payload_len) do
        payload ← read_full payload_len
        return (record {
          opcode = op;
          fin = fin;
          payload = if masked then apply_mask payload mask else payload;
        })

-- `ws_recv_frame`: no reserved bit and no reserved opcode is accepted.
pub recv_frame : ℕ → M Frame
recv_frame cap' = do
  header ← read_full 2
  let b0 = get_or header 0 0
  let b1 = get_or header 1 0
  fail_if (not (bit_and b0 0x70 == 0)) do
    fail_if (is_reserved (b0 % 16)) do
      let fin = not (bit_and b0 0x80 == 0)
      recv_payload cap' fin (b0 % 16) (not (bit_and b1 0x80 == 0)) (b1 % 128)
