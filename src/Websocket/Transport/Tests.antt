-- ===== src/Websocket/Transport/Tests.antt =====
-- Partial reads and writes.
use luci_app_komari_agent_c.Prelude.{◌≡◌, [], ◌∷◌, none, arith}
use luci_app_komari_agent_c.Prelude.Chars.{bytes}
use luci_app_komari_agent_c.Websocket.Transport.{packet, interrupted, failed, Connection, read_full}
use luci_app_komari_agent_c.Websocket.Transport.Read.{read_full_short}

abbrev two_packets : Connection
two_packets = record {
  pending = bytes "ab";
  incoming = packet b'c' [] ∷ interrupted ∷ packet b'd' (bytes "ef") ∷ failed ∷ [];
}

read_full_short_example : read_full 7 two_packets ≡ none
read_full_short_example = read_full_short 7 two_packets (omega arith)
