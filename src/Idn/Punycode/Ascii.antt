-- ===== src/Idn/Punycode/Ascii.antt =====
-- `idn_punycode_encode` of src/network/idn.c: the bytes that it writes, and their count.
use luci_app_komari_agent_c.Prelude.{
  ℕ, zero, suc, ◌+◌, ◌-◌, ◌*◌, ◌/◌, ◌<◌, [], ◌∷◌, ◌++◌, List, none, some, ◌&&◌, leb, ltb, ◌==◌,
  length, length-append, arith,
}
use luci_app_komari_agent_c.Prelude.Chain.{Yields, Yields-bind, Yields-if, Yields-any}
use luci_app_komari_agent_c.Prelude.Chars.{Bytes, All}
use luci_app_komari_agent_c.Idn.Utf8.{max_input_len, utf8_decode}
use luci_app_komari_agent_c.Idn.Punycode.{
  base, initial_bias, initial_n, push, punycode_digit_to_char, digits, push_digits, Encoder,
  encode_point, encode_points, least, encode_turns, copy_basic, delimited, punycode_encode,
}
use luci_app_komari_agent_c.Idn.Punycode.Integers.{digits-lt}

abbrev pub IsAscii : ℕ → Type 0
IsAscii c = c < 128

pub record IsText (size : ℕ) (out : Bytes) : Type 0 where
  pub ascii : All IsAscii out
  pub fits : length out < size

pub All-append : (xs ys : Bytes) → All IsAscii xs → All IsAscii ys → All IsAscii (xs ++ ys)
All-append [] ys h k = k
All-append (x ∷ xs) ys (h, hs) k = (h, All-append xs ys hs k)

punycode_digit_to_char-IsAscii : (d : ℕ) → d < base → IsAscii (punycode_digit_to_char d)
unfolding punycode_digit_to_char
punycode_digit_to_char-IsAscii d h = ground arith

push-IsText :
    (size c : ℕ) (out : Bytes)
    → IsAscii c
    → IsText size out
    → Yields (IsText size) (push size c out)
unfolding push
push-IsText size c out a t =
    Yields-if (IsText size) (leb (size - 1) (length out)) none (some (out ++ (c ∷ []))) (λ e. tt)
      (λ e. record {
        ascii = All-append out (c ∷ []) t.ascii (a, tt);
        fits = ground (arith, length-append out (c ∷ []));
      })

push_digits-IsText :
    (size : ℕ) (ds : List ℕ) (out : Bytes)
    → All (λ d. d < base) ds
    → IsText size out
    → Yields (IsText size) (push_digits size ds out)
unfolding push_digits
push_digits-IsText size [] out h t = t
push_digits-IsText size (d ∷ ds) out (h, hs) t =
    Yields-bind (IsText size) (IsText size) (push size (punycode_digit_to_char d) out)
      (push_digits size ds)
      (push-IsText size (punycode_digit_to_char d) out (punycode_digit_to_char-IsAscii d h) t)
      (λ longer k. push_digits-IsText size ds longer hs k)

abbrev Writes : ℕ → Encoder → Type 0
Writes size e = IsText size e.out

module _ (size b : ℕ) where
  encode_point-Writes :
      (n c : ℕ) (e : Encoder) → Writes size e → Yields (Writes size) (encode_point size b n c e)
  unfolding encode_point
  encode_point-Writes n c e w =
      Yields-if (Writes size) (ltb c n) _ _ (λ p. w)
        (λ p.
          Yields-if (Writes size) (c == n) _ _
            (λ q.
              Yields-bind (IsText size) (Writes size)
                (push_digits size (digits e.delta e.bias base e.delta) e.out) _
                (push_digits-IsText size (digits e.delta e.bias base e.delta) e.out
                  (digits-lt e.delta e.bias base e.delta (omega arith)) w)
                (λ out k. k))
            (λ q. w))

  encode_points-Writes :
      (n : ℕ) (cs : List ℕ) (e : Encoder)
      → Writes size e
      → Yields (Writes size) (encode_points size b n cs e)
  unfolding encode_points
  encode_points-Writes n [] e w = w
  encode_points-Writes n (c ∷ cs) e w =
      Yields-bind (Writes size) (Writes size) (encode_point size b n c e) _
        (encode_point-Writes n c e w) (λ e' k. encode_points-Writes n cs e' k)

  encode_turns-Writes :
      (fuel : ℕ) (cps : List ℕ) (n : ℕ) (e : Encoder)
      → Writes size e
      → Yields (Writes size) (encode_turns size b fuel cps n e)
  unfolding encode_turns
  encode_turns-Writes zero cps n e w = w
  encode_turns-Writes (suc fuel) cps n e w =
      let m = least size b n 0xFFFFFFFF cps in
      Yields-if (Writes size) (leb (length cps) e.h) _ _ (λ p. w)
        (λ p.
          Yields-if (Writes size) (ltb ((0xFFFFFFFF - e.delta) / (e.h + 1)) (m - n)) _ _ (λ q. tt)
            (λ q.
              Yields-bind (Writes size) (Writes size)
                (encode_points size b m cps (record e { delta = e.delta + (m - n) * (e.h + 1) })) _
                (encode_points-Writes m cps (record e { delta = e.delta + (m - n) * (e.h + 1) }) w)
                (λ e' k.
                  encode_turns-Writes fuel cps (m + 1) (record e' { delta = e'.delta + 1 }) k)))

copy_basic-IsText :
    (size : ℕ) (cs : List ℕ) (out : Bytes)
    → IsText size out
    → Yields (IsText size) (copy_basic size cs out)
unfolding copy_basic
copy_basic-IsText size [] out t = t
copy_basic-IsText size (c ∷ cs) out t =
    Yields-if (IsText size) (ltb c 0x80) _ _
      (λ p.
        Yields-bind (IsText size) (IsText size) (push size c out) _
          (push-IsText size c out (ground arith) t)
          (λ longer k. copy_basic-IsText size cs longer k))
      (λ p. copy_basic-IsText size cs out t)

delimited-IsText :
    (size b count : ℕ) (out : Bytes)
    → IsText size out
    → Yields (IsText size) (delimited size b count out)
unfolding delimited
delimited-IsText size b count out t =
    Yields-if (IsText size) (ltb 0 b && ltb b count) _ _
      (λ p. push-IsText size b'-' out (omega arith) t) (λ p. t)

pub punycode_encode-IsText :
    (input : Bytes) (size : ℕ) → Yields (IsText size) (punycode_encode input size)
unfolding punycode_encode
punycode_encode-IsText input zero = tt
punycode_encode-IsText input (suc room) =
    Yields-bind (λ cps. Unit) (IsText (suc room)) (utf8_decode max_input_len input) _
      (Yields-any (utf8_decode max_input_len input))
      (λ cps u.
        Yields-bind (IsText (suc room)) (IsText (suc room)) (copy_basic (suc room) cps []) _
          (copy_basic-IsText (suc room) cps [] (record { ascii = tt; fits = omega arith }))
          (λ basic t.
            Yields-bind (IsText (suc room)) (IsText (suc room))
              (delimited (suc room) (length basic) (length cps) basic) _
              (delimited-IsText (suc room) (length basic) (length cps) basic t)
              (λ start t'.
                Yields-bind (Writes (suc room)) (IsText (suc room))
                  (encode_turns (suc room) (length basic) (length cps + 1) cps initial_n
                    (record { out = start; delta = 0; bias = initial_bias; h = length basic }))
                  _
                  (encode_turns-Writes (suc room) (length basic) (length cps + 1) cps initial_n
                    (record { out = start; delta = 0; bias = initial_bias; h = length basic }) t')
                  (λ e k. k))))
