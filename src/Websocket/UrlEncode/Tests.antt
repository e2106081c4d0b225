-- ===== src/Websocket/UrlEncode/Tests.antt =====
-- Runs of `url_encode`.
use luci_app_komari_agent_c.Prelude.{◌≡◌, refl, some, arith, none}
use luci_app_komari_agent_c.Prelude.Chars.{bytes, All}
use luci_app_komari_agent_c.Websocket.UrlEncode.{
  is_unreserved, hex_pair, encode_byte, url_encode_loop, url_encode, url_decode,
}
use luci_app_komari_agent_c.Websocket.UrlEncode.Laws.{
  IsQuerySafe, url_encode_sound, url_encode_fits,
}

url_encode_run : url_encode (bytes "a b&c=1") 32 ≡ some (bytes "a%20b%26c%3D1")
unfolding url_encode url_encode_loop encode_byte is_unreserved hex_pair
url_encode_run = refl

-- The buffer must have room for the NUL.
url_encode_full : url_encode (bytes "ab%") 5 ≡ none
unfolding url_encode url_encode_loop encode_byte is_unreserved hex_pair
url_encode_full = refl

url_encode_fits_example : url_encode (bytes "a b") 10 ≡ some (bytes "a%20b")
unfolding encode_byte is_unreserved hex_pair
url_encode_fits_example = url_encode_fits (bytes "a b") 10 (omega arith)

url_encode_sound_example :
    All IsQuerySafe (bytes "a%20b%26c%3D1") × (url_decode (bytes "a%20b%26c%3D1") ≡ bytes "a b&c=1")
url_encode_sound_example =
    url_encode_sound (bytes "a b&c=1") 32 {out = bytes "a%20b%26c%3D1"} (omega arith) url_encode_run
