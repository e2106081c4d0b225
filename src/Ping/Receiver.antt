-- ===== src/Ping/Receiver.antt =====
-- The check of a packet by its receiver, by RFC 1071, against `compute_checksum` of src/ping/ping.c.
use luci_app_komari_agent_c.Prelude.{
  ℕ, zero, suc, ◌+◌, ◌-◌, ◌*◌, ◌/◌, ◌%◌, ◌<◌, ◌≤◌, ◌≡◌, refl, [], ◌∷◌, ◌++◌, Bool, true, false, not,
  ◌||◌, ltb, ◌==◌, if◌then◌else◌, arith, Bool-cases, inl, inr,
}
use luci_app_komari_agent_c.Prelude.Chars.{Bytes, All}
use luci_app_komari_agent_c.Ping.{
  word, word_bytes, sum_words, compute_checksum, echo_request, echo_rest, icmp_echo, zeros,
}
use luci_app_komari_agent_c.Ping.Checksum.{Folded, Whole, with_checksum}

abbrev pub IsByte : ℕ → Type 0
IsByte c = c < 256

-- The sum of two 16-bit numbers in one's complement: the carry is added at the other end.
abbrev pub add_complement : ℕ → ℕ → ℕ
add_complement x y = if ltb (x + y) 0x10000 then x + y else x + y - 0xFFFF

-- The sum of a packet, by words in network order; an odd last byte is padded by a zero behind it.
unfoldable pub network_sum : Bytes → ℕ
network_sum [] = 0
network_sum (a ∷ []) = a * 256
network_sum (a ∷ b ∷ s) = add_complement (a * 256 + b) (network_sum s)

-- The receiver takes a packet whose sum, its checksum included, is minus zero.
unfoldable pub is_intact : Bytes → Bool
is_intact packet = network_sum packet == 0xFFFF

abbrev pub is_even : Bytes → Bool
is_even [] = true
is_even (a ∷ []) = false
is_even (a ∷ b ∷ s) = is_even s

-- The words of a packet in network order, without carries.
plain_sum : Bytes → ℕ
plain_sum [] = 0
plain_sum (a ∷ []) = a * 256
plain_sum (a ∷ b ∷ s) = a * 256 + b + plain_sum s

add_complement-Folded : (w m f : ℕ) → w < 0x10000 → Folded m f → Folded (w + m) (add_complement w f)
add_complement-Folded w m f h d =
    let small : f ≤ 65535 = d.small in
    let same : m ≡ f + 65535 * d.turns = d.same in
    elim (Bool-cases (ltb (w + f) 0x10000)) [
      | inl e ↦
          let fits : w + f < 0x10000 = ground arith in
          rw e (record {
            small = omega arith;
            turns = d.turns;
            same = omega arith;
            positive = λ p. grind arith;
          })
      | inr e ↦
          let carry : 0x10000 ≤ w + f = ground arith in
          rw e (record {
            small = omega arith;
            turns = d.turns + 1;
            same = omega arith;
            positive = λ p. omega arith;
          })
    ]

network_sum-Folded : (s : Bytes) → All IsByte s → Folded (plain_sum s) (network_sum s)
unfolding network_sum plain_sum
network_sum-Folded [] h = record {
  small = omega arith;
  turns = 0;
  same = omega arith;
  positive = λ p. p;
}
network_sum-Folded (a ∷ []) (h, _) = record {
  small = omega arith;
  turns = 0;
  same = omega arith;
  positive = λ p. p;
}
network_sum-Folded (a ∷ b ∷ s) (h, (k, hs)) =
    add_complement-Folded (a * 256 + b) (plain_sum s) (network_sum s) (omega arith)
      (network_sum-Folded s hs)

-- On a machine of the other byte order the sum has its two bytes exchanged, modulo 65535.
record Exchanged (n m : ℕ) : Type 0 where
  extra : ℕ
  same : 256 * n ≡ m + 65535 * extra
  bound : extra ≤ m

sum_words-Exchanged : (s : Bytes) → Exchanged (sum_words false s) (plain_sum s)
unfolding sum_words plain_sum word
sum_words-Exchanged [] = record { extra = 0; same = refl; bound = omega arith }
sum_words-Exchanged (a ∷ []) = record { extra = 0; same = omega arith; bound = omega arith }
sum_words-Exchanged (a ∷ b ∷ s) =
    let rest = sum_words-Exchanged s in
    let same : 256 * sum_words false s ≡ plain_sum s + 65535 * rest.extra = rest.same in
    let bound : rest.extra ≤ plain_sum s = rest.bound in
    record { extra = b + rest.extra; same = omega arith; bound = omega arith }

sum_words-plain_sum : (s : Bytes) → is_even s ≡ true → sum_words true s ≡ plain_sum s
unfolding sum_words plain_sum word
sum_words-plain_sum [] h = refl
sum_words-plain_sum (a ∷ []) h = absurd (ground arith)
sum_words-plain_sum (a ∷ b ∷ s) h = omega (arith, sum_words-plain_sum s h)

Exchanged-Whole : (n m f : ℕ) → Exchanged n m → Whole n → Folded m f → f ≡ 0xFFFF
Exchanged-Whole n m f x w d =
    let same : 256 * n ≡ m + 65535 * x.extra = x.same in
    let bound : x.extra ≤ m = x.bound in
    let multiple : n ≡ 65535 * (w.times + 1) = w.multiple in
    let folded : m ≡ f + 65535 * d.turns = d.same in
    let small : f ≤ 65535 = d.small in
    let positive : 0 < f = d.positive (omega arith) in omega arith

Folded-Whole : (m f : ℕ) → Whole m → Folded m f → f ≡ 0xFFFF
Folded-Whole m f w d =
    let multiple : m ≡ 65535 * (w.times + 1) = w.multiple in
    let folded : m ≡ f + 65535 * d.turns = d.same in
    let small : f ≤ 65535 = d.small in
    let positive : 0 < f = d.positive (omega arith) in omega arith

compute_checksum-lt : (big_endian : Bool) (s : Bytes) → compute_checksum big_endian s < 0x10000
unfolding compute_checksum
compute_checksum-lt big_endian s = omega arith

-- If a packet of bytes with zeros in its checksum's place gets the checksum that `compute_checksum`
-- gives there, its receiver finds it intact by RFC 1071: on a machine of little-endian words for any
-- length, and on one of big-endian words for an even length.
pub compute_checksum_intact :
    (big_endian : Bool) (a b : ℕ) (rest : Bytes)
    → IsByte a
    → IsByte b
    → All IsByte rest
    → (not big_endian || is_even rest) ≡ true
    → let checksum = compute_checksum big_endian (a ∷ b ∷ 0 ∷ 0 ∷ rest) in
      is_intact (a ∷ b ∷ (word_bytes big_endian checksum ++ rest)) ≡ true
unfolding is_intact word_bytes
compute_checksum_intact false a b rest ha hb hs even =
    let w = compute_checksum false (a ∷ b ∷ 0 ∷ 0 ∷ rest) in
    let packet = a ∷ b ∷ w % 256 ∷ w / 256 ∷ rest in
    let high : w / 256 < 256 = omega (arith, compute_checksum-lt false (a ∷ b ∷ 0 ∷ 0 ∷ rest)) in
    let whole : Whole (sum_words false packet) = with_checksum false a b rest in
    let sum : network_sum packet ≡ 0xFFFF =
      Exchanged-Whole (sum_words false packet) (plain_sum packet) (network_sum packet)
        (sum_words-Exchanged packet) whole
        (network_sum-Folded packet (ha, (hb, (omega arith, (high, hs))))) in
    rw sum refl
compute_checksum_intact true a b rest ha hb hs even =
    let w = compute_checksum true (a ∷ b ∷ 0 ∷ 0 ∷ rest) in
    let packet = a ∷ b ∷ w / 256 ∷ w % 256 ∷ rest in
    let high : w / 256 < 256 = omega (arith, compute_checksum-lt true (a ∷ b ∷ 0 ∷ 0 ∷ rest)) in
    let whole : Whole (sum_words true packet) = with_checksum true a b rest in
    let plain : Whole (plain_sum packet) = rw (← sum_words-plain_sum packet even) whole in
    let sum : network_sum packet ≡ 0xFFFF =
      Folded-Whole (plain_sum packet) (network_sum packet) plain
        (network_sum-Folded packet (ha, (hb, (high, (omega arith, hs))))) in
    rw sum refl

zeros-IsByte : (n : ℕ) → All IsByte (zeros n)
unfolding zeros
zeros-IsByte zero = tt
zeros-IsByte (suc n) = (omega arith, zeros-IsByte n)

zeros_even : is_even (zeros 56) ≡ true
unfolding zeros
zeros_even = refl

-- The echo request has an even length, so that its receiver finds it intact on every machine.
pub echo_request_intact :
    (big_endian : Bool) (echo_id : ℕ)
    → echo_id < 0x10000
    → is_intact (echo_request big_endian echo_id) ≡ true
unfolding echo_request word_bytes
echo_request_intact false echo_id h =
    compute_checksum_intact false icmp_echo 0 (echo_rest false echo_id) (omega arith) (omega arith)
      (omega arith, (omega arith, (omega arith, (omega arith, zeros-IsByte 56)))) refl
echo_request_intact true echo_id h =
    compute_checksum_intact true icmp_echo 0 (echo_rest true echo_id) (omega arith) (omega arith)
      (omega arith, (omega arith, (omega arith, (omega arith, zeros-IsByte 56)))) zeros_even
