-- ===== src/Websocket/Base64/RoundTrip.antt =====
-- `ws_base64_encode` against the decoder of RFC 4648.
use luci_app_komari_agent_c.Prelude.{
  ℕ, ◌+◌, ◌*◌, ◌/◌, ◌≡◌, refl, [], ◌∷◌, arith, get_or, length, ◌==◌, Bool, true, false,
  if◌then◌else◌,
}
use luci_app_komari_agent_c.Prelude.Chars.{Bytes}
use luci_app_komari_agent_c.Websocket.Base64.{base64_table, base64_encode}

abbrev char_at : ℕ → ℕ
char_at i = get_or base64_table i 0

abbrev no_pad : ℕ → Bool
no_pad i = if char_at i == b'=' then false else true

-- Every started group of three bytes takes four characters.
pub length-base64_encode : (xs : Bytes) → length (base64_encode xs) ≡ (length xs + 2) / 3 * 4
unfolding base64_encode
length-base64_encode [] = refl
length-base64_encode (a ∷ []) = refl
length-base64_encode (a ∷ b ∷ []) = refl
length-base64_encode (a ∷ b ∷ c ∷ rest) = omega (arith, length-base64_encode rest)
