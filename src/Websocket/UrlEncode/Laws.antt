-- ===== src/Websocket/UrlEncode/Laws.antt =====
-- `url_encode` on buffers of any size, and a decoder for what it writes.
use luci_app_komari_agent_c.Prelude.{
  ℕ, zero, suc, ◌+◌, ◌*◌, ◌<◌, ◌≤◌, ◌≡◌, refl, true, false, ◌||◌, inl, inr, [], ◌∷◌, ◌++◌, none,
  some, length, length-append, ltb, ◌==◌, if◌then◌else◌, Bool-cases, arith, ap, get_or, ◌/◌, ◌%◌,
}
use luci_app_komari_agent_c.Prelude.Chars.{Bytes, IsByte, All}
use luci_app_komari_agent_c.Prelude.Bits.{every_below, every_below→at, table_eq}
use luci_app_komari_agent_c.Websocket.UrlEncode.{
  hex, is_unreserved, hex_pair, encode_byte, url_encode_loop, url_encode, hex_value, url_decode,
}

-- The encoding with no bound on its length.
abbrev pub percent : Bytes → Bytes
percent [] = []
percent (c ∷ rest) = encode_byte c ++ percent rest

url_encode_loop-percent :
    (size j : ℕ) (s : Bytes)
    → j < size
    → url_encode_loop size j s
      ≡ (if ltb (j + length (percent s)) size then some (percent s) else none)
unfolding url_encode_loop
url_encode_loop-percent size j [] h = ground arith
url_encode_loop-percent size j (c ∷ rest) h = ground (
  arith,
  length-append (encode_byte c) (percent rest),
  url_encode_loop-percent size (j + length (encode_byte c)) rest,
)

-- The encoding is returned exactly when it fits the buffer with its NUL; otherwise the call fails.
pub url_encode-percent :
    (s : Bytes) (size : ℕ)
    → url_encode s size ≡ (if ltb (length (percent s)) size then some (percent s) else none)
unfolding url_encode
url_encode-percent s zero = ground arith
url_encode-percent s (suc size) = ground (arith, url_encode_loop-percent (suc size) 0 s)

-- A token of at most 256 bytes fits the buffer of 3 * 256 + 1 bytes that the handshake gives it.
length-encode_byte : (c : ℕ) → length (encode_byte c) ≤ 3
unfolding encode_byte hex_pair
length-encode_byte c = ground arith

length-percent : (s : Bytes) → length (percent s) ≤ 3 * length s
length-percent [] = omega arith
length-percent (c ∷ rest) =
    omega (
      arith,
      length-append (encode_byte c) (percent rest),
      length-encode_byte c,
      length-percent rest,
    )

pub url_encode_fits :
    (s : Bytes) (size : ℕ) → 3 * length s < size → url_encode s size ≡ some (percent s)
url_encode_fits s size h = ground (arith, url_encode-percent s size, length-percent s)

-- A byte of the output: unreserved, or the percent sign.
abbrev pub IsQuerySafe : ℕ → Type 0
IsQuerySafe c = (is_unreserved c || c == b'%') ≡ true

All-append : (P : ℕ → Type 0) (xs ys : Bytes) → All P xs → All P ys → All P (xs ++ ys)
All-append P [] ys h k = k
All-append P (x ∷ xs) ys (h, hs) k = (h, All-append P xs ys hs k)

abbrev hex_digit : ℕ → ℕ
hex_digit i = get_or hex i 0

hex_digit-IsQuerySafe : (i : ℕ) → i < 16 → IsQuerySafe (hex_digit i)
unfolding every_below is_unreserved
hex_digit-IsQuerySafe i h =
    every_below→at (λ i. is_unreserved (hex_digit i) || hex_digit i == b'%') 16 i h refl

hex_value-hex_digit : (i : ℕ) → i < 16 → hex_value (hex_digit i) ≡ i
unfolding every_below hex_value
hex_value-hex_digit = table_eq (λ i. hex_value (hex_digit i)) (λ i. i) 16 refl

encode_byte-IsQuerySafe : (c : ℕ) → All IsQuerySafe (encode_byte c)
unfolding encode_byte hex_pair
encode_byte-IsQuerySafe c = elim (Bool-cases (is_unreserved c)) [
  | inl e ↦ rw e (rw e refl, tt)
  | inr e ↦ rw e (
    unfold is_unreserved in refl,
    (
      hex_digit-IsQuerySafe (c / 16 % 16) (omega arith),
      (hex_digit-IsQuerySafe (c % 16) (omega arith), tt),
    ),
  )
]

percent-IsQuerySafe : (s : Bytes) → All IsQuerySafe (percent s)
percent-IsQuerySafe [] = tt
percent-IsQuerySafe (c ∷ rest) =
    All-append IsQuerySafe (encode_byte c) (percent rest) (encode_byte-IsQuerySafe c)
      (percent-IsQuerySafe rest)

url_decode-cons : (c : ℕ) (s : Bytes) → (c == b'%') ≡ false → url_decode (c ∷ s) ≡ c ∷ url_decode s
unfolding url_decode
url_decode-cons c [] h = refl
url_decode-cons c (x ∷ []) h = refl
url_decode-cons c (x ∷ y ∷ rest) h = rw h

unreserved-ne-percent : (c : ℕ) → is_unreserved c ≡ true → (c == b'%') ≡ false
unfolding is_unreserved
unreserved-ne-percent c h = ground arith

url_decode-encode_byte :
    (c : ℕ) (s : Bytes) → IsByte c → url_decode (encode_byte c ++ s) ≡ c ∷ url_decode s
unfolding encode_byte hex_pair
url_decode-encode_byte c s h = elim (Bool-cases (is_unreserved c)) [
  | inl e ↦ rw e (url_decode-cons c s (unreserved-ne-percent c e))
  | inr e ↦ rw e (
      unfold url_decode in
      rw
        (
          hex_value-hex_digit (c / 16 % 16) (omega arith),
          hex_value-hex_digit (c % 16) (omega arith),
        )
        (ap (λ (k : ℕ). k ∷ url_decode s) (omega arith)))
]

url_decode-percent : (s : Bytes) → All IsByte s → url_decode (percent s) ≡ s
url_decode-percent [] h = unfold url_decode in refl
url_decode-percent (c ∷ rest) (hc, h) =
    rw (url_decode-encode_byte c (percent rest) hc, url_decode-percent rest h)

-- When `url_encode` succeeds, every byte of its output is unreserved or the percent sign, and
-- decoding the output gives the input back.
pub url_encode_sound :
    (s : Bytes) (size : ℕ) {out : Bytes}
    → All IsByte s
    → url_encode s size ≡ some out
    → All IsQuerySafe out × (url_decode out ≡ s)
url_encode_sound s size {out} hs h =
    let e : out ≡ percent s = ground (arith, url_encode-percent s size) in
    rw e (percent-IsQuerySafe s, url_decode-percent s hs)
