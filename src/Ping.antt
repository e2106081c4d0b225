-- ===== src/Ping.antt =====
-- The ICMP ping of src/ping/ping.c: `compute_checksum`, `strip_ipv6_brackets`, and of
-- `ping_task_icmp` the echo request for IPv4 and the test of what is received for it.
pub mod Checksum
pub mod Receiver
pub mod Reply
mod Tests
use luci_app_komari_agent_c.Prelude.{
  ℕ, zero, suc, ◌+◌, ◌-◌, ◌*◌, ◌/◌, ◌%◌, [], ◌∷◌, ◌++◌, List, Option, none, some, Bool, true, false,
  not, ◌&&◌, ◌||◌, length, get_elem?, take, ltb, leb, ◌==◌, if◌then◌else◌,
}
use luci_app_komari_agent_c.Prelude.Chain.{◌>>=◌}
use luci_app_komari_agent_c.Prelude.Chars.{Bytes}
use luci_app_komari_agent_c.Prelude.Strtol.{find_byte}

-- A 16-bit number in memory, by the byte order of the machine.
module _ (big_endian : Bool) where
  unfoldable pub word : ℕ → ℕ → ℕ
  word a b = if big_endian then a * 256 + b else b * 256 + a

  unfoldable pub word_bytes : ℕ → Bytes
  word_bytes w = if big_endian then w / 256 ∷ w % 256 ∷ [] else w % 256 ∷ w / 256 ∷ []

  -- `sum += *addr++`; the sum of the words of a packet does not reach 2 ^ 32.
  unfoldable pub sum_words : Bytes → ℕ
  sum_words [] = 0
  sum_words (a ∷ []) = a
  sum_words (a ∷ b ∷ s) = word a b + sum_words s

-- `while (sum >> 16)`, by fuel: each turn makes the sum smaller.
unfoldable pub fold_carries : ℕ → ℕ → ℕ
fold_carries zero sum = sum
fold_carries (suc fuel) sum =
    let folded = fold_carries fuel (sum % 0x10000 + sum / 0x10000) in
    if ltb 0 (sum / 0x10000) then folded else sum

-- `(uint16_t)(~sum)`, for an `unsigned long` of 32 bits; with 64 bits it is the same.
unfoldable pub compute_checksum : Bool → Bytes → ℕ
compute_checksum big_endian packet =
    let sum = sum_words big_endian packet in (0xFFFFFFFF - fold_carries sum sum) % 0x10000

-- ICMP_ECHO and ICMP_ECHOREPLY
abbrev pub icmp_echo : ℕ
icmp_echo = 8

abbrev pub icmp_echo_reply : ℕ
icmp_echo_reply = 0

unfoldable pub zeros : ℕ → Bytes
zeros zero = []
zeros (suc n) = 0 ∷ zeros n

-- What stands behind the checksum: the identifier, the sequence number and the padding.
abbrev pub echo_rest : Bool → ℕ → Bytes
echo_rest big_endian echo_id =
    word_bytes big_endian echo_id ++ (word_bytes big_endian 1 ++ zeros 56)

unfoldable pub echo_request : Bool → ℕ → Bytes
echo_request big_endian echo_id =
    let rest = echo_rest big_endian echo_id in
    let checksum = compute_checksum big_endian (icmp_echo ∷ 0 ∷ 0 ∷ 0 ∷ rest) in
    icmp_echo ∷ 0 ∷ (word_bytes big_endian checksum ++ rest)

-- A datagram with the host it came from.
pub record Datagram : Type 0 where
  pub source : ℕ
  pub payload : Bytes

-- `sizeof(struct iphdr)` and `sizeof(struct icmphdr)`
abbrev pub ip_header_size : ℕ
ip_header_size = 20

abbrev pub icmp_header_size : ℕ
icmp_header_size = 8

-- The ICMP header at `at`: the type, and the identifier. `none` is a read behind what was received.
unfoldable pub echoes : Bool → ℕ → Bytes → ℕ → Option Bool
echoes big_endian echo_id buf at = do
  icmp_type ← get_elem? buf at
  id_first ← get_elem? buf (at + 4)
  id_second ← get_elem? buf (at + 5)
  some (icmp_type == icmp_echo_reply && word big_endian id_first id_second == echo_id)

-- Behind the length of the IP header: the protocol, 1 for ICMP, and the room for the ICMP header.
abbrev pub carries_reply : Bool → ℕ → Bytes → ℕ → Option Bool
carries_reply big_endian echo_id buf ip_hdr_len = do
  protocol ← get_elem? buf 9
  if (protocol == 1) && leb (ip_hdr_len + icmp_header_size) (length buf)
      then echoes big_endian echo_id buf ip_hdr_len
      else some false

-- The length of the IP header, in words, is the low half of its first byte.
abbrev pub checks_header : Bool → ℕ → Bytes → Option Bool
checks_header big_endian echo_id buf = do
  first ← get_elem? buf 0
  if ltb (first % 16) 5 || ltb (length buf) (first % 16 * 4)
      then some false
      else carries_reply big_endian echo_id buf (first % 16 * 4)

-- The tests of the receive loop on one datagram, for the host that is pinged.
unfoldable pub is_reply : Bool → ℕ → ℕ → Datagram → Option Bool
is_reply big_endian echo_id host d =
    if not (d.source == host)
    then some false
    else if ltb (length d.payload) ip_header_size
    then some false
    else checks_header big_endian echo_id d.payload

-- "[::1]" becomes "::1"; `none` is -1. The test against the buffer's size stays as it is.
unfoldable pub strip_ipv6_brackets : Bytes → ℕ → Option Bytes
strip_ipv6_brackets [] host_size = some []
strip_ipv6_brackets (c ∷ s) host_size =
    if c == b'['
    then (do inner ← find_byte b']' s; if leb host_size inner then none else some (take inner s))
    else some (c ∷ s)
