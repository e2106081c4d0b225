-- ===== src/Ping/Tests.antt =====
-- Packets and replies.
use luci_app_komari_agent_c.Prelude.{◌≡◌, refl, ◌-◌, [], ◌∷◌, ◌++◌, some, none, true, false, arith}
use luci_app_komari_agent_c.Prelude.Chars.{bytes}
use luci_app_komari_agent_c.Prelude.Strtol.{find_byte}
use luci_app_komari_agent_c.Ping.{
  word, word_bytes, sum_words, fold_carries, compute_checksum, zeros, Datagram, is_reply,
  strip_ipv6_brackets,
}
use luci_app_komari_agent_c.Ping.Receiver.{network_sum, is_intact, compute_checksum_intact}
use luci_app_komari_agent_c.Ping.Reply.{wants, is_reply-wants}

-- The example of RFC 1071: the sum is 0xDDF2.
rfc1071 :
    compute_checksum true (0x00 ∷ 0x01 ∷ 0xF2 ∷ 0x03 ∷ 0xF4 ∷ 0xF5 ∷ 0xF6 ∷ 0xF7 ∷ [])
    ≡ 0xFFFF - 0xDDF2
unfolding compute_checksum sum_words word fold_carries
rfc1071 = refl

compute_checksum_intact_example :
    is_intact (
      8
      ∷ 0
      ∷ (word_bytes false (compute_checksum false (8 ∷ 0 ∷ 0 ∷ 0 ∷ 7 ∷ 1 ∷ 9 ∷ []))
          ++ (7 ∷ 1 ∷ 9 ∷ [])))
    ≡ true
compute_checksum_intact_example =
    compute_checksum_intact false 8 0 (7 ∷ 1 ∷ 9 ∷ []) (omega arith) (omega arith)
      (omega arith, (omega arith, (omega arith, tt))) refl

-- A big-endian machine adds an odd last byte as it stands, which the receiver refuses.
odd_refused :
    is_intact
      (8 ∷ 0 ∷ (word_bytes true (compute_checksum true (8 ∷ 0 ∷ 0 ∷ 0 ∷ 9 ∷ [])) ++ (9 ∷ [])))
    ≡ false
unfolding is_intact network_sum word_bytes compute_checksum sum_words word fold_carries
odd_refused = refl

abbrev answer : Datagram
answer = record {
  source = 5;
  payload = 0x45 ∷ (zeros 8 ++ (1 ∷ (zeros 10 ++ (0 ∷ 0 ∷ 0 ∷ 0 ∷ 0x34 ∷ 0x12 ∷ 0 ∷ 1 ∷ []))));
}

is_reply-wants_example : is_reply false 0x1234 5 answer ≡ some (wants false 0x1234 5 answer)
is_reply-wants_example = is_reply-wants false 0x1234 5 answer

answer_wanted : wants false 0x1234 5 answer ≡ true
unfolding zeros word
answer_wanted = refl

brackets : strip_ipv6_brackets (bytes "[::1]") 256 ≡ some (bytes "::1")
unfolding strip_ipv6_brackets find_byte
brackets = refl

unbalanced : strip_ipv6_brackets (bytes "[::1") 256 ≡ none
unfolding strip_ipv6_brackets find_byte
unbalanced = refl
