-- ===== src/Idn/Punycode.antt =====
-- The Punycode encoder of src/network/idn.c: `adapt`, `punycode_digit_to_char` and
-- `idn_punycode_encode`. `none` is -1 or -2, which the callers do not tell apart.
pub mod Integers
pub mod Ascii
pub mod Ends
mod Tests
use luci_app_komari_agent_c.Prelude.{
  ℕ, zero, suc, ◌+◌, ◌-◌, ◌*◌, ◌/◌, ◌%◌, [], ◌∷◌, ◌++◌, List, Option, none, some, Bool, true, false,
  not, ◌&&◌, length, leb, ltb, ◌==◌, if◌then◌else◌,
}
use luci_app_komari_agent_c.Prelude.Chain.{◌>>=◌}
use luci_app_komari_agent_c.Prelude.Chars.{Bytes}
use luci_app_komari_agent_c.Idn.Utf8.{max_input_len, utf8_decode}

abbrev pub base : ℕ
base = 36

abbrev pub tmin : ℕ
tmin = 1

abbrev pub tmax : ℕ
tmax = 26

abbrev pub skew : ℕ
skew = 38

abbrev pub damp : ℕ
damp = 700

abbrev pub initial_bias : ℕ
initial_bias = 72

abbrev pub initial_n : ℕ
initial_n = 0x80

-- `while (delta > ((BASE - TMIN) * TMAX) / 2)`, by fuel: `delta` shrinks.
unfoldable pub adapt_loop : ℕ → ℕ → ℕ → ℕ × ℕ
adapt_loop zero delta k = (delta, k)
adapt_loop (suc fuel) delta k =
    let next = adapt_loop fuel (delta / (base - tmin)) (k + base) in
    if ltb ((base - tmin) * tmax / 2) delta then next else (delta, k)

unfoldable pub adapt : ℕ → ℕ → Bool → ℕ
adapt delta numpoints first =
    let scaled = if first then delta / damp else delta / 2 in
    let spread = scaled + scaled / numpoints in
    let (d, k) = adapt_loop spread spread 0 in k + (base - tmin + 1) * d / (d + skew)

unfoldable pub punycode_digit_to_char : ℕ → ℕ
punycode_digit_to_char digit = if ltb digit 26 then b'a' + digit else b'0' + (digit - 26)

-- The threshold of the digit at `k`.
unfoldable pub threshold : ℕ → ℕ → ℕ
threshold bias k = if leb k bias then tmin else if leb (bias + tmax) k then tmax else k - bias

-- `if (out_idx >= output_size - 1) return -2; output[out_idx++] = c;`
unfoldable pub push : ℕ → ℕ → Bytes → Option Bytes
push output_size c out = if leb (output_size - 1) (length out) then none else some (out ++ (c ∷ []))

-- The digits of `q` from the one at `k` on. Each step makes `q` smaller, so that `q` is fuel enough.
unfoldable pub digits : ℕ → ℕ → ℕ → ℕ → List ℕ
digits zero bias k q = q ∷ []
digits (suc fuel) bias k q =
    let t = threshold bias k in
    let rest = digits fuel bias (k + base) ((q - t) / (base - t)) in
    if ltb q t then q ∷ [] else (t + (q - t) % (base - t)) ∷ rest

unfoldable pub push_digits : ℕ → List ℕ → Bytes → Option Bytes
push_digits output_size [] out = some out
push_digits output_size (d ∷ ds) out = do
  longer ← push output_size (punycode_digit_to_char d) out
  push_digits output_size ds longer

-- The state of the main loop. The numbers do not wrap: `delta` and `q` are below 2 ^ 31 for the at
-- most 1024 code points up to U+10FFFF.
pub record Encoder : Type 0 where
  pub out : Bytes
  pub delta : ℕ
  pub bias : ℕ
  pub h : ℕ

module _ (output_size b : ℕ) where
  -- A code point of the inner loop: smaller ones are counted, equal ones are written.
  unfoldable pub encode_point : ℕ → ℕ → Encoder → Option Encoder
  encode_point n c e =
      let written = (do
        out ← push_digits output_size (digits e.delta e.bias base e.delta) e.out
        some (record {
          out = out;
          delta = 0;
          bias = adapt e.delta (e.h + 1) (e.h == b);
          h = e.h + 1;
        })) in
      if ltb c n
      then some (record e { delta = e.delta + 1 })
      else if c == n
      then written
      else some e

  unfoldable pub encode_points : ℕ → List ℕ → Encoder → Option Encoder
  encode_points n [] e = some e
  encode_points n (c ∷ cs) e = do e' ← encode_point n c e; encode_points n cs e'

  -- The least code point that is at least `n`, and less than `m`.
  unfoldable pub least : ℕ → ℕ → List ℕ → ℕ
  least n m [] = m
  least n m (c ∷ cs) = least n (if leb n c && ltb c m then c else m) cs

  -- `while (h < num_codepoints)`, by fuel; `none` is an error of the code alone, and without fuel the
  -- loop stops early.
  unfoldable pub encode_turns : ℕ → List ℕ → ℕ → Encoder → Option Encoder
  encode_turns zero cps n e = some e
  encode_turns (suc fuel) cps n e =
      let m = least n 0xFFFFFFFF cps in
      let turn = (do
        e' ← encode_points m cps (record e { delta = e.delta + (m - n) * (e.h + 1) })
        encode_turns fuel cps (m + 1) (record e' { delta = e'.delta + 1 })) in
      if leb (length cps) e.h
      then some e
      else if ltb ((0xFFFFFFFF - e.delta) / (e.h + 1)) (m - n)
      then none
      else turn

-- The basic code points are copied.
unfoldable pub copy_basic : ℕ → List ℕ → Bytes → Option Bytes
copy_basic output_size [] out = some out
copy_basic output_size (c ∷ cs) out =
    if ltb c 0x80
    then (do longer ← push output_size c out; copy_basic output_size cs longer)
    else copy_basic output_size cs out

unfoldable pub delimited : ℕ → ℕ → ℕ → Bytes → Option Bytes
delimited output_size b count out =
    if ltb 0 b && ltb b count then push output_size b'-' out else some out

-- With a buffer of no size nothing is written.
unfoldable pub punycode_encode : Bytes → ℕ → Option Bytes
punycode_encode input zero = none
punycode_encode input (suc room) = do
  cps ← utf8_decode max_input_len input
  basic ← copy_basic (suc room) cps []
  start ← delimited (suc room) (length basic) (length cps) basic
  e ←
      encode_turns (suc room) (length basic) (length cps + 1) cps initial_n
        (record { out = start; delta = 0; bias = initial_bias; h = length basic })
  some e.out
