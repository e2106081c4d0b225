-- ===== src/Idn/Host/Tests.antt =====
-- Hosts and URLs, plain and not.
use luci_app_komari_agent_c.Prelude.{◌≡◌, refl, ◌∷◌, some, Bool, false, arith}
use luci_app_komari_agent_c.Prelude.Chars.{Bytes, bytes, until_nul}
use luci_app_komari_agent_c.Idn.Utf8.{utf8_decode}
use luci_app_komari_agent_c.Idn.Punycode.{
  adapt_loop, adapt, punycode_digit_to_char, threshold, push, digits, push_digits, encode_point,
  encode_points, least, encode_turns, copy_basic, delimited, punycode_encode,
}
use luci_app_komari_agent_c.Idn.Punycode.Ascii.{IsText}
use luci_app_komari_agent_c.Idn.Host.{
  contains_non_ascii, append_labels, split_dots, encode_label, encode_foreign, split_scheme,
  split_host, count_byte, idn_to_ascii, convert_host_to_ascii, convert_url_to_ascii,
  convert_by_colon,
}
use luci_app_komari_agent_c.Idn.Host.Plain.{convert_url_to_ascii-IsPlain}
use luci_app_komari_agent_c.Idn.Host.Ascii.{idn_to_ascii-IsText}

abbrev no_address : Bytes → Bool
no_address s = false

abbrev panel : Bytes
panel = bytes "https://komari.example:25774/api?x=1"

panel_plain : contains_non_ascii panel ≡ false
unfolding contains_non_ascii
panel_plain = refl

panel_host : (split_host (split_scheme panel panel).1).0 ≡ bytes "komari.example:25774"
unfolding split_scheme split_host
panel_host = refl

-- Two colons keep a text as it is, also outside ASCII.
two_colons :
    convert_host_to_ascii no_address no_address (0xC3 ∷ 0xBC ∷ bytes "::") 64
    ≡ some (0xC3 ∷ 0xBC ∷ bytes "::")
unfolding convert_host_to_ascii convert_by_colon count_byte
two_colons = refl

convert_url_to_ascii-IsPlain_example :
    convert_url_to_ascii no_address no_address panel 256 ≡ some panel
unfolding split_scheme split_host
convert_url_to_ascii-IsPlain_example =
    convert_url_to_ascii-IsPlain no_address no_address panel 256 panel_plain refl (omega arith)
      (omega arith)

umlaut_name : idn_to_ascii (0xC3 ∷ 0xBC ∷ bytes ".example") 64 ≡ some (bytes "xn--tda.example")
unfolding idn_to_ascii append_labels split_dots encode_label encode_foreign contains_non_ascii
    punycode_encode utf8_decode copy_basic push delimited encode_turns least encode_points
    encode_point digits threshold push_digits punycode_digit_to_char adapt adapt_loop until_nul
umlaut_name = refl

idn_to_ascii-IsText_example : IsText 64 (bytes "xn--tda.example")
idn_to_ascii-IsText_example =
    idn_to_ascii-IsText (0xC3 ∷ 0xBC ∷ bytes ".example") 64 (bytes "xn--tda.example") umlaut_name
