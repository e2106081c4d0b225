-- ===== src/Idn/Utf8.antt =====
-- `utf8_decode` of src/network/idn.c.
pub mod RoundTrip
use luci_app_komari_agent_c.Prelude.{
  ℕ, zero, suc, ◌*◌, ◌^◌, [], ◌∷◌, List, Option, none, some, bit_and, bit_or, ltb, ◌==◌,
  if◌then◌else◌,
}
use luci_app_komari_agent_c.Prelude.Chars.{Bytes}
use mathlib.Core.Option

-- IDN_MAX_INPUT_LEN
abbrev pub max_input_len : ℕ
max_input_len = 1024

-- The low six bits of a continuation byte, shifted by `k`.
abbrev pub tail_bits : ℕ → ℕ → ℕ
tail_bits c k = bit_and c 0x3F * 2 ^ k

-- `codepoints[j++] = cp`, in front of the code points of the rest.
abbrev pub add_code : ℕ → Option (List ℕ) → Option (List ℕ)
add_code cp rest = Option.map (λ (cps : List ℕ). cp ∷ cps) rest

-- The bytes behind the first one, `c`, by the length that it announces; `decode` goes on. A sequence
-- that is cut off is an error, but a byte behind the first is not tested.
abbrev pub decode_two : ℕ → Bytes → (Bytes → Option (List ℕ)) → Option (List ℕ)
decode_two c [] decode = none
decode_two c (c1 ∷ s) decode =
    add_code (bit_or (bit_and c 0x1F * 2 ^ 6) (tail_bits c1 0)) (decode s)

abbrev pub decode_three : ℕ → Bytes → (Bytes → Option (List ℕ)) → Option (List ℕ)
decode_three c [] decode = none
decode_three c (c1 ∷ []) decode = none
decode_three c (c1 ∷ c2 ∷ s) decode =
    add_code (bit_or (bit_or (bit_and c 0x0F * 2 ^ 12) (tail_bits c1 6)) (tail_bits c2 0))
      (decode s)

abbrev pub decode_four : ℕ → Bytes → (Bytes → Option (List ℕ)) → Option (List ℕ)
decode_four c [] decode = none
decode_four c (c1 ∷ []) decode = none
decode_four c (c1 ∷ c2 ∷ []) decode = none
decode_four c (c1 ∷ c2 ∷ c3 ∷ s) decode =
    add_code
      (bit_or (bit_or (bit_or (bit_and c 0x07 * 2 ^ 18) (tail_bits c1 12)) (tail_bits c2 6))
        (tail_bits c3 0))
      (decode s)

-- At most `room` code points are read; the rest of the input is dropped.
unfoldable pub utf8_decode : ℕ → Bytes → Option (List ℕ)
utf8_decode zero s = some []
utf8_decode (suc room) [] = some []
utf8_decode (suc room) (c ∷ s) =
    let decode = utf8_decode room in
    if ltb c 0x80
    then add_code c (decode s)
    else if bit_and c 0xE0 == 0xC0
    then decode_two c s decode
    else if bit_and c 0xF0 == 0xE0
    then decode_three c s decode
    else if bit_and c 0xF8 == 0xF0
    then decode_four c s decode
    else none
