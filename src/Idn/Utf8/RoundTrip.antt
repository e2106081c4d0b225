-- ===== src/Idn/Utf8/RoundTrip.antt =====
-- `utf8_decode` on the UTF-8 form of RFC 3629.
use luci_app_komari_agent_c.Prelude.{
  ℕ, zero, suc, ◌+◌, ◌*◌, ◌/◌, ◌%◌, ◌^◌, ◌<◌, ◌≤◌, ◌≡◌, refl, ◌∙◌, inl, inr, Bool-cases, [], ◌∷◌,
  List, some, true, false, bit_and, bit_or, ltb, ◌==◌, length, if◌then◌else◌, arith,
}
use luci_app_komari_agent_c.Prelude.Chars.{Bytes, All}
use luci_app_komari_agent_c.Prelude.Bits.{table_eq, every_below, bit_or-shift}
use luci_app_komari_agent_c.Idn.Utf8.{
  utf8_decode, add_code, decode_two, decode_three, decode_four, tail_bits,
}

-- The shortest form of a code point.
abbrev pub utf8 : ℕ → Bytes → Bytes
utf8 cp rest =
    if ltb cp 0x80
    then cp ∷ rest
    else if ltb cp 0x800
    then (0xC0 + cp / 64) ∷ (0x80 + cp % 64) ∷ rest
    else if ltb cp 0x10000
    then (0xE0 + cp / 4096) ∷ (0x80 + cp / 64 % 64) ∷ (0x80 + cp % 64) ∷ rest
    else (0xF0 + cp / 262144)
      ∷ (0x80 + cp / 4096 % 64)
      ∷ (0x80 + cp / 64 % 64)
      ∷ (0x80 + cp % 64)
      ∷ rest

abbrev pub utf8_all : List ℕ → Bytes
utf8_all [] = []
utf8_all (cp ∷ cps) = utf8 cp (utf8_all cps)

-- The masks on one byte.
mask_0xE0 : (b : ℕ) → b < 256 → bit_and b 0xE0 ≡ b / 32 * 32
unfolding every_below
mask_0xE0 = table_eq (λ b. bit_and b 0xE0) (λ b. b / 32 * 32) 256 refl

mask_0xF0 : (b : ℕ) → b < 256 → bit_and b 0xF0 ≡ b / 16 * 16
unfolding every_below
mask_0xF0 = table_eq (λ b. bit_and b 0xF0) (λ b. b / 16 * 16) 256 refl

mask_0xF8 : (b : ℕ) → b < 256 → bit_and b 0xF8 ≡ b / 8 * 8
unfolding every_below
mask_0xF8 = table_eq (λ b. bit_and b 0xF8) (λ b. b / 8 * 8) 256 refl

mask_0x3F : (b : ℕ) → b < 256 → bit_and b 0x3F ≡ b % 64
unfolding every_below
mask_0x3F = table_eq (λ b. bit_and b 0x3F) (λ b. b % 64) 256 refl

mask_0x1F : (b : ℕ) → b < 256 → bit_and b 0x1F ≡ b % 32
unfolding every_below
mask_0x1F = table_eq (λ b. bit_and b 0x1F) (λ b. b % 32) 256 refl

mask_0x0F : (b : ℕ) → b < 256 → bit_and b 0x0F ≡ b % 16
unfolding every_below
mask_0x0F = table_eq (λ b. bit_and b 0x0F) (λ b. b % 16) 256 refl

mask_0x07 : (b : ℕ) → b < 256 → bit_and b 0x07 ≡ b % 8
unfolding every_below
mask_0x07 = table_eq (λ b. bit_and b 0x07) (λ b. b % 8) 256 refl

-- The code point by the fields of its bytes.
two_bytes :
    (cp : ℕ)
    → cp < 0x800
    → bit_or (bit_and (0xC0 + cp / 64) 0x1F * 2 ^ 6) (tail_bits (0x80 + cp % 64) 0) ≡ cp
two_bytes cp h = ground (
  arith,
  mask_0x1F (0xC0 + cp / 64),
  mask_0x3F (0x80 + cp % 64),
  bit_or-shift 6 (cp / 64) (cp % 64),
)

-- Fields that follow each other.
or_two :
    (a b c : ℕ)
    → b < 64
    → c < 64
    → bit_or (bit_or (a * 2 ^ 12) (b * 2 ^ 6)) (c * 2 ^ 0) ≡ a * 4096 + b * 64 + c
or_two a b c hb hc =
    let first : bit_or (a * 2 ^ 12) (b * 2 ^ 6) ≡ (a * 64 + b) * 2 ^ 6 =
      omega (arith, bit_or-shift 12 a (b * 2 ^ 6) (omega arith)) in
    let one : c * 2 ^ 0 ≡ c = omega arith in
    rw (first, one) (omega (arith, bit_or-shift 6 (a * 64 + b) c (omega arith)))

or_three :
    (a b c d : ℕ)
    → b < 64
    → c < 64
    → d < 64
    → bit_or (bit_or (bit_or (a * 2 ^ 18) (b * 2 ^ 12)) (c * 2 ^ 6)) (d * 2 ^ 0)
      ≡ a * 262144 + b * 4096 + c * 64 + d
or_three a b c d hb hc hd =
    let first : bit_or (a * 2 ^ 18) (b * 2 ^ 12) ≡ (a * 64 + b) * 2 ^ 12 =
      omega (arith, bit_or-shift 18 a (b * 2 ^ 12) (omega arith)) in
    rw first (omega (arith, or_two (a * 64 + b) c d hc hd))

three_bytes :
    (cp : ℕ)
    → cp < 0x10000
    → bit_or
        (bit_or (bit_and (0xE0 + cp / 4096) 0x0F * 2 ^ 12) (tail_bits (0x80 + cp / 64 % 64) 6))
        (tail_bits (0x80 + cp % 64) 0)
      ≡ cp
three_bytes cp h =
    let a : bit_and (0xE0 + cp / 4096) 0x0F ≡ cp / 4096 =
      omega (arith, mask_0x0F (0xE0 + cp / 4096) (omega arith)) in
    let b : bit_and (0x80 + cp / 64 % 64) 0x3F ≡ cp / 64 % 64 =
      omega (arith, mask_0x3F (0x80 + cp / 64 % 64) (omega arith)) in
    let c : bit_and (0x80 + cp % 64) 0x3F ≡ cp % 64 =
      omega (arith, mask_0x3F (0x80 + cp % 64) (omega arith)) in
    rw (a, b, c)
      (omega (arith, or_two (cp / 4096) (cp / 64 % 64) (cp % 64) (omega arith) (omega arith)))

four_bytes :
    (cp : ℕ)
    → cp < 0x200000
    → bit_or
        (bit_or
          (bit_or
            (bit_and (0xF0 + cp / 262144) 0x07 * 2 ^ 18)
            (tail_bits (0x80 + cp / 4096 % 64) 12))
          (tail_bits (0x80 + cp / 64 % 64) 6))
        (tail_bits (0x80 + cp % 64) 0)
      ≡ cp
four_bytes cp h =
    let a : bit_and (0xF0 + cp / 262144) 0x07 ≡ cp / 262144 =
      omega (arith, mask_0x07 (0xF0 + cp / 262144) (omega arith)) in
    let b : bit_and (0x80 + cp / 4096 % 64) 0x3F ≡ cp / 4096 % 64 =
      omega (arith, mask_0x3F (0x80 + cp / 4096 % 64) (omega arith)) in
    let c : bit_and (0x80 + cp / 64 % 64) 0x3F ≡ cp / 64 % 64 =
      omega (arith, mask_0x3F (0x80 + cp / 64 % 64) (omega arith)) in
    let d : bit_and (0x80 + cp % 64) 0x3F ≡ cp % 64 =
      omega (arith, mask_0x3F (0x80 + cp % 64) (omega arith)) in
    rw (a, b, c, d)
      (omega (
        arith,
        or_three (cp / 262144) (cp / 4096 % 64) (cp / 64 % 64) (cp % 64) (omega arith) (omega arith)
            (omega arith),
      ))

-- What the tests on the first byte say.
one_first :
    (cp room : ℕ) (s : Bytes)
    → cp < 0x80
    → utf8_decode (suc room) (cp ∷ s) ≡ add_code cp (utf8_decode room s)
unfolding utf8_decode
one_first cp room s h = ground arith

two_first :
    (a room : ℕ) (s : Bytes)
    → a < 32
    → utf8_decode (suc room) ((0xC0 + a) ∷ s) ≡ decode_two (0xC0 + a) s (utf8_decode room)
unfolding utf8_decode
two_first a room s h =
    let m = mask_0xE0 (0xC0 + a) (omega arith) in
    let small : ltb (0xC0 + a) 0x80 ≡ false = ground arith in
    let two : (bit_and (0xC0 + a) 0xE0 == 0xC0) ≡ true = ground (arith, m) in rw (small, two) refl

three_first :
    (a room : ℕ) (s : Bytes)
    → a < 16
    → utf8_decode (suc room) ((0xE0 + a) ∷ s) ≡ decode_three (0xE0 + a) s (utf8_decode room)
unfolding utf8_decode
three_first a room s h =
    let m = mask_0xE0 (0xE0 + a) (omega arith) in
    let m' = mask_0xF0 (0xE0 + a) (omega arith) in
    let small : ltb (0xE0 + a) 0x80 ≡ false = ground arith in
    let two : (bit_and (0xE0 + a) 0xE0 == 0xC0) ≡ false = ground (arith, m) in
    let three : (bit_and (0xE0 + a) 0xF0 == 0xE0) ≡ true = ground (arith, m') in
    rw (small, two, three) refl

four_first :
    (a room : ℕ) (s : Bytes)
    → a < 8
    → utf8_decode (suc room) ((0xF0 + a) ∷ s) ≡ decode_four (0xF0 + a) s (utf8_decode room)
unfolding utf8_decode
four_first a room s h =
    let m = mask_0xE0 (0xF0 + a) (omega arith) in
    let m' = mask_0xF0 (0xF0 + a) (omega arith) in
    let m'' = mask_0xF8 (0xF0 + a) (omega arith) in
    let small : ltb (0xF0 + a) 0x80 ≡ false = ground arith in
    let two : (bit_and (0xF0 + a) 0xE0 == 0xC0) ≡ false = ground (arith, m) in
    let three : (bit_and (0xF0 + a) 0xF0 == 0xE0) ≡ false = ground (arith, m') in
    let four : (bit_and (0xF0 + a) 0xF8 == 0xF0) ≡ true = ground (arith, m'') in
    rw (small, two, three, four) refl

decode_one :
    (cp room : ℕ) (s : Bytes)
    → cp < 0x200000
    → utf8_decode (suc room) (utf8 cp s) ≡ add_code cp (utf8_decode room s)
decode_one cp room s h = elim (Bool-cases (ltb cp 0x80)) [
  | inl e ↦ rw e (one_first cp room s (ground arith))
  | inr e ↦ elim (Bool-cases (ltb cp 0x800)) [
    | inl e2 ↦
        rw (e, e2, two_first (cp / 64) room _ (ground arith), two_bytes cp (ground arith)) refl
    | inr e2 ↦ elim (Bool-cases (ltb cp 0x10000)) [
      | inl e3 ↦
          rw
            (
              e,
              e2,
              e3,
              three_first (cp / 4096) room _ (ground arith),
              three_bytes cp (ground arith),
            )
            refl
      | inr e3 ↦
          rw
            (
              e,
              e2,
              e3,
              four_first (cp / 262144) room _ (ground arith),
              four_bytes cp (ground arith),
            )
            refl
    ]
  ]
]

-- From the UTF-8 form of code points below 2 ^ 21 the decoder gives exactly these back, if there is
-- room for them.
pub utf8_decode-utf8_all :
    (room : ℕ) (cps : List ℕ)
    → All (λ cp. cp < 0x200000) cps
    → length cps ≤ room
    → utf8_decode room (utf8_all cps) ≡ some cps
unfolding utf8_decode
utf8_decode-utf8_all zero [] h r = refl
utf8_decode-utf8_all (suc room) [] h r = refl
utf8_decode-utf8_all zero (cp ∷ cps) h r = absurd (omega arith)
utf8_decode-utf8_all (suc room) (cp ∷ cps) (h, hs) r =
    decode_one cp room (utf8_all cps) h ∙ rw (utf8_decode-utf8_all room cps hs (omega arith)) refl
