-- ===== src/Websocket/Url/Tests.antt =====
-- Runs of the parser.
use luci_app_komari_agent_c.Prelude.{◌≡◌, ◌⊎◌, refl, none, some}
use luci_app_komari_agent_c.Prelude.Chars.{Bytes, bytes}
use luci_app_komari_agent_c.Prelude.Strtol.{
  find_byte, strtol, skip_space, read_signed, read_number, read_digits,
}
use luci_app_komari_agent_c.Websocket.Url.{Url, parse_url, parse_authority, parse_port, with_port}
use luci_app_komari_agent_c.Websocket.Url.Sound.{IsSound, parse_url-IsSound}

abbrev api : Bytes
api = bytes "/api/rpc2?token=a:b"

abbrev parsed : Url
parsed = record { scheme = bytes "wss"; host = bytes "komari.example"; port = 8443; path = api }

parse_url_run : parse_url (bytes "wss://komari.example:8443/api/rpc2?token=a:b") ≡ some parsed
unfolding parse_url parse_authority parse_port with_port find_byte strtol skip_space read_signed
    read_number read_digits
parse_url_run = refl

-- An IPv6 literal is refused: its first colon is taken for that of the port.
parse_url_ipv6 : parse_url (bytes "ws://[::1]:25774/") ≡ none
unfolding parse_url parse_authority parse_port with_port find_byte strtol skip_space read_signed
    read_number read_digits
parse_url_ipv6 = refl

parse_url-IsSound_example :
    IsSound parsed × ((Url.scheme parsed ≡ bytes "ws") ⊎ (Url.scheme parsed ≡ bytes "wss"))
parse_url-IsSound_example =
    parse_url-IsSound (bytes "wss://komari.example:8443/api/rpc2?token=a:b") parsed parse_url_run
