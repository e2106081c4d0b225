-- ===== src/Websocket/Base64/Tests.antt =====
-- Runs of the encoder.
use luci_app_komari_agent_c.Prelude.{◌≡◌, refl}
use luci_app_komari_agent_c.Prelude.Chars.{bytes}
use luci_app_komari_agent_c.Websocket.Base64.{base64_encode, table_char}

base64_encode_hello : base64_encode (bytes "Hello") ≡ bytes "SGVsbG8="
unfolding base64_encode table_char
base64_encode_hello = refl
