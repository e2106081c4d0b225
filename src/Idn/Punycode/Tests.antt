-- ===== src/Idn/Punycode/Tests.antt =====
-- "bücher" is "bcher-kva", the example of many texts on IDNA; the theorems on its code points.
use luci_app_komari_agent_c.Prelude.{ℕ, ◌+◌, ◌≡◌, refl, [], ◌∷◌, List, some, Option, arith}
use luci_app_komari_agent_c.Prelude.Chain.{Yields}
use luci_app_komari_agent_c.Prelude.Chars.{Bytes, bytes}
use luci_app_komari_agent_c.Idn.Utf8.{max_input_len, utf8_decode}
use luci_app_komari_agent_c.Idn.Utf8.RoundTrip.{utf8_all, utf8_decode-utf8_all}
use luci_app_komari_agent_c.Idn.Punycode.{
  adapt_loop, adapt, punycode_digit_to_char, threshold, push, digits, push_digits, Encoder,
  encode_point, encode_points, least, encode_turns, copy_basic, delimited, punycode_encode,
  initial_bias, initial_n, base,
}
use luci_app_komari_agent_c.Idn.Punycode.Integers.{value, value-digits}
use luci_app_komari_agent_c.Idn.Punycode.Ends.{punycode_encode_ends}

abbrev book_codes : List ℕ
book_codes = 98 ∷ 252 ∷ 99 ∷ 104 ∷ 101 ∷ 114 ∷ []

abbrev book_utf8 : Bytes
book_utf8 = 98 ∷ 0xC3 ∷ 0xBC ∷ 99 ∷ 104 ∷ 101 ∷ 114 ∷ []

books : punycode_encode book_utf8 64 ≡ some (bytes "bcher-kva")
unfolding punycode_encode utf8_decode copy_basic push delimited encode_turns least encode_points
    encode_point digits threshold push_digits punycode_digit_to_char adapt adapt_loop
books = refl

-- A continuation byte is not tested, so that a latin-1 text is read as another one.
untested_byte : utf8_decode 8 (0xC3 ∷ b'a' ∷ []) ≡ some (0xE1 ∷ [])
unfolding utf8_decode
untested_byte = refl

utf8_decode-utf8_all_example : utf8_decode max_input_len (utf8_all book_codes) ≡ some book_codes
utf8_decode-utf8_all_example =
    utf8_decode-utf8_all max_input_len book_codes
      (omega arith, (omega arith, (omega arith, (omega arith, (omega arith, (omega arith, tt))))))
      (omega arith)

value-digits_example : value 72 base (digits 745 72 base 745) ≡ 745
value-digits_example = value-digits 745 72 base 745 (omega arith)

book_basic : copy_basic 64 book_codes [] ≡ some (bytes "bcher")
unfolding copy_basic push
book_basic = refl

abbrev begun : Encoder
begun = record { out = bytes "bcher-"; delta = 0; bias = initial_bias; h = 5 }

abbrev loop : ℕ → Option Encoder
loop fuel = encode_turns 64 5 fuel book_codes initial_n begun

punycode_encode_ends_example :
    Yields (λ (e : Encoder). e.h ≡ 6) (loop (6 + 1)) × (loop (9 + (6 + 1)) ≡ loop (6 + 1))
punycode_encode_ends_example =
    punycode_encode_ends 64 9 book_codes (bytes "bcher") (bytes "bcher-")
      (omega arith, (omega arith, (omega arith, (omega arith, (omega arith, (omega arith, tt))))))
      book_basic
