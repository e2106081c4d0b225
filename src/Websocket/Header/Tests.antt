-- ===== src/Websocket/Header/Tests.antt =====
-- A response as a server sends it.
use luci_app_komari_agent_c.Prelude.{◌≡◌, refl, [], ◌∷◌, ◌++◌, List, arith, none, some}
use luci_app_komari_agent_c.Prelude.Chars.{Bytes, bytes, to_lower}
use luci_app_komari_agent_c.Websocket.Header.{extract_header, server_accept}
use luci_app_komari_agent_c.Websocket.Header.Response.{Field, header_block}
use luci_app_komari_agent_c.Websocket.Header.Lookup.{extract_header-field_value, server_accept-none}

abbrev status_line : Bytes
status_line = bytes "HTTP/1.1 101 Switching Protocols"

abbrev fields : List Field
fields =
    (bytes "Upgrade", bytes "websocket")
    ∷ (bytes "sec-websocket-accept", bytes "s3pPLMBiTxaQ9kYGzzhZRbK+xOo=")
    ∷ []

extract_header-field_value_example :
    extract_header
      (status_line ++ (13 ∷ 10 ∷ header_block fields))
      (bytes "Sec-WebSocket-Accept")
      128
    ≡ some (bytes "s3pPLMBiTxaQ9kYGzzhZRbK+xOo=")
unfolding to_lower
extract_header-field_value_example =
    extract_header-field_value (bytes "Sec-WebSocket-Accept") status_line fields 128 refl
      (λ e. ground arith) refl refl (λ e. ground arith)

server_accept-none_example : server_accept (status_line ++ (13 ∷ 10 ∷ header_block fields)) ≡ none
server_accept-none_example = server_accept-none status_line fields refl refl
