-- ===== src/Utils/Json/RoundTrip.antt =====
-- `utils_json_unescape` on what `utils_json_escape` writes.
use luci_app_komari_agent_c.Prelude.{
  ℕ, zero, suc, ◌+◌, ◌-◌, ◌*◌, ◌/◌, ◌%◌, ◌<◌, ◌≤◌, ◌≡◌, refl, [], ◌∷◌, ◌++◌, true, false, none,
  some, length, leb, ltb, arith, Option-cases, Bool-cases, inl, inr,
}
use luci_app_komari_agent_c.Prelude.Bits.{every_below, table_eq}
use luci_app_komari_agent_c.Prelude.Chars.{Bytes}
use luci_app_komari_agent_c.Utils.Json.{
  hex_digit, unicode_escape, short_escape, escape_loop, json_escape, read_hex, strtoul_hex,
  unescape_one, unescape_step, unescape_loop, json_unescape,
}

-- The four digits of a byte below 0x20 are read back.
strtoul_hex-unicode :
    (c : ℕ) → c < 32 → strtoul_hex (b'0' ∷ b'0' ∷ hex_digit (c / 16) ∷ hex_digit (c % 16) ∷ []) ≡ c
unfolding every_below strtoul_hex read_hex
strtoul_hex-unicode =
    table_eq (λ c. strtoul_hex (b'0' ∷ b'0' ∷ hex_digit (c / 16) ∷ hex_digit (c % 16) ∷ []))
      (λ c. c) 32 refl

short_back :
    (room c e : ℕ) (s : Bytes) → short_escape c ≡ some e → unescape_one room e s ≡ (c ∷ [], 1)
unfolding unescape_one
short_back room c e s h = grind arith

long_back :
    (room c : ℕ) (s : Bytes)
    → c < 32
    → 0 < room
    → unescape_one room b'u' (b'0' ∷ b'0' ∷ hex_digit (c / 16) ∷ hex_digit (c % 16) ∷ s)
      ≡ (c ∷ [], 5)
unfolding unescape_one
long_back room c s h r =
    let enough : leb 4 (suc (suc (suc (suc (length s))))) ≡ true = ground arith in
    rw (enough, strtoul_hex-unicode c h) (ground arith)

plain_back : (room c : ℕ) (s : Bytes) → short_escape c ≡ none → unescape_step room c s ≡ (c ∷ [], 0)
plain_back room c [] h = refl
plain_back room c (d ∷ s) h = ground arith

step_written :
    (room x c skip : ℕ) (u : Bytes)
    → unescape_step (suc room) x u ≡ (c ∷ [], skip)
    → unescape_loop 0 (suc room) (x ∷ u) ≡ c ∷ unescape_loop skip room u
unfolding unescape_loop
step_written room x c skip u h =
    let left : suc room - 1 ≡ room = omega arith in rw (unescape_loop, h, left) refl

pub escape_short :
    (space c e : ℕ) (s : Bytes)
    → short_escape c ≡ some e
    → escape_loop space (c ∷ s) ≡ b'\\' ∷ e ∷ escape_loop (space - 2) s
unfolding escape_loop
escape_short space c e s h = rw (escape_loop, h) refl

pub escape_long :
    (space c : ℕ) (s : Bytes)
    → short_escape c ≡ none
    → c < 32
    → 7 ≤ space
    → escape_loop space (c ∷ s) ≡ unicode_escape c ++ escape_loop (space - 6) s
unfolding escape_loop
escape_long space c s h l r =
    let low : ltb c 32 ≡ true = ground arith in
    let enough : ltb space 7 ≡ false = ground arith in rw (escape_loop, h, low, enough) refl

pub escape_plain :
    (space c : ℕ) (s : Bytes)
    → short_escape c ≡ none
    → 32 ≤ c
    → escape_loop space (c ∷ s) ≡ c ∷ escape_loop (space - 1) s
unfolding escape_loop
escape_plain space c s h l =
    let high : ltb c 32 ≡ false = ground arith in rw (escape_loop, h, high) refl

skip_over :
    (room a b c d e : ℕ) (t : Bytes)
    → unescape_loop 5 room (a ∷ b ∷ c ∷ d ∷ e ∷ t) ≡ unescape_loop 0 room t
unfolding unescape_loop
skip_over room a b c d e t = refl

skip_one : (room a : ℕ) (t : Bytes) → unescape_loop 1 room (a ∷ t) ≡ unescape_loop 0 room t
unfolding unescape_loop
skip_one room a t = refl

unescape_loop-escape_loop :
    (room space : ℕ) (s : Bytes)
    → length s ≤ room
    → length s * 6 < space
    → unescape_loop 0 room (escape_loop space s) ≡ s
unfolding unescape_loop escape_loop
unescape_loop-escape_loop room space [] h k = refl
unescape_loop-escape_loop zero space (c ∷ s) h k = absurd (omega arith)
unescape_loop-escape_loop (suc room) space (c ∷ s) h k = elim (Option-cases (short_escape c)) [
  | inr (e, q) ↦
      let t = escape_loop (space - 2) s in
      rw
        (
          escape_short space c e s q,
          step_written room b'\\' c 1 (e ∷ t) (short_back (suc room) c e t q),
          skip_one room e t,
          unescape_loop-escape_loop room (space - 2) s (omega arith) (omega arith),
        )
        refl
  | inl q ↦ elim (Bool-cases (ltb c 32)) [
    | inl l ↦
        let t = escape_loop (space - 6) s in
        let low : c < 32 = ground arith in
        let back = long_back (suc room) c t low (omega arith) in
        rw
          (
            escape_long space c s q low (omega arith),
            step_written room b'\\' c 5
                (b'u' ∷ b'0' ∷ b'0' ∷ hex_digit (c / 16) ∷ hex_digit (c % 16) ∷ t) back,
            skip_over room b'u' b'0' b'0' (hex_digit (c / 16)) (hex_digit (c % 16)) t,
            unescape_loop-escape_loop room (space - 6) s (omega arith) (omega arith),
          )
          refl
    | inr l ↦
        let t = escape_loop (space - 1) s in
        rw
          (
            escape_plain space c s q (ground arith),
            step_written room c c 0 t (plain_back (suc room) c t q),
            unescape_loop-escape_loop room (space - 1) s (omega arith) (omega arith),
          )
          refl
  ]
]

-- For every string and every buffer that has room for it and its NUL, `utils_json_unescape` gives back
-- what `utils_json_escape` has escaped.
pub json_unescape-json_escape :
    (s : Bytes) (out_len : ℕ) → length s < out_len → json_unescape (json_escape s) out_len ≡ some s
unfolding json_unescape json_escape
json_unescape-json_escape s zero h = absurd (omega arith)
json_unescape-json_escape s (suc n) h =
    ground (
      arith,
      unescape_loop-escape_loop (suc n - 1) (length s * 6 + 1) s (omega arith) (omega arith),
    )
