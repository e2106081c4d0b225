-- ===== src/Idn/Host/Ascii.antt =====
-- `idn_to_ascii` of src/network/idn.c: the bytes that it writes, and their count.
use luci_app_komari_agent_c.Prelude.{
  ℕ, zero, suc, ◌+◌, ◌≡◌, inl, inr, [], ◌∷◌, ◌++◌, List, none, some, false, ◌||◌, length, leb, ltb,
  ◌==◌, arith, Bool-cases,
}
use luci_app_komari_agent_c.Prelude.Chain.{Yields, Yields-bind, Yields-if, Yields_at}
use luci_app_komari_agent_c.Prelude.Chars.{Bytes, All, bytes, until_nul}
use luci_app_komari_agent_c.Websocket.Url.{printed}
use luci_app_komari_agent_c.Idn.Punycode.{punycode_encode}
use luci_app_komari_agent_c.Idn.Punycode.Ascii.{IsAscii, IsText, All-append, punycode_encode-IsText}
use luci_app_komari_agent_c.Idn.Host.{
  max_output_len, contains_non_ascii, encode_foreign, encode_label, split_dots, append,
  append_labels, idn_to_ascii,
}

abbrev AllAscii : Bytes → Type 0
AllAscii s = All IsAscii s

until_nul-AllAscii : (s : Bytes) → AllAscii s → AllAscii (until_nul s)
unfolding until_nul
until_nul-AllAscii [] h = tt
until_nul-AllAscii (c ∷ s) (h, hs) = elim (Bool-cases (c == 0)) [
  | inl e ↦ rw e tt
  | inr e ↦ rw e (h, until_nul-AllAscii s hs)
]

plain-AllAscii : (s : Bytes) → contains_non_ascii s ≡ false → AllAscii s
unfolding contains_non_ascii
plain-AllAscii [] h = tt
plain-AllAscii (c ∷ s) h = (ground arith, plain-AllAscii s (ground arith))

encode_foreign-AllAscii : (label : Bytes) (size : ℕ) → Yields AllAscii (encode_foreign label size)
unfolding encode_foreign
encode_foreign-AllAscii label size =
    Yields-bind (IsText max_output_len) AllAscii (punycode_encode label max_output_len) _
      (punycode_encode-IsText label max_output_len)
      (λ encoded t.
        let ace = bytes "xn--" ++ until_nul encoded in
        Yields-if AllAscii (leb size 4 || ltb size (length ace + 1)) none (some ace) (λ e. tt)
          (λ e.
            All-append (bytes "xn--") (until_nul encoded)
              (omega arith, (omega arith, (omega arith, (omega arith, tt))))
              (until_nul-AllAscii encoded t.ascii)))

printed-AllAscii : (size : ℕ) (s : Bytes) → AllAscii s → Yields AllAscii (printed size s)
printed-AllAscii size s h =
    Yields-if AllAscii (leb size (length s)) none (some s) (λ e. tt) (λ e. h)

encode_label-AllAscii : (label : Bytes) (size : ℕ) → Yields AllAscii (encode_label label size)
unfolding encode_label
encode_label-AllAscii [] size = tt
encode_label-AllAscii (c ∷ label) size =
    Yields-if AllAscii (contains_non_ascii (c ∷ label)) _ _
      (λ e. encode_foreign-AllAscii (c ∷ label) size)
      (λ e. printed-AllAscii size (c ∷ label) (plain-AllAscii (c ∷ label) e))

append-IsText :
    (size : ℕ) (out more : Bytes)
    → AllAscii out
    → AllAscii more
    → Yields (IsText size) (append size out more)
append-IsText size out more h k =
    Yields-if (IsText size) (leb size (length (out ++ more))) none (some (out ++ more)) (λ e. tt)
      (λ e. record { ascii = All-append out more h k; fits = ground arith })

append_labels-IsText :
    (size : ℕ) (ls : List Bytes) (out : Bytes)
    → IsText size out
    → Yields (IsText size) (append_labels size ls out)
unfolding append_labels
append_labels-IsText size [] out t = t
append_labels-IsText size (l ∷ []) out t =
    Yields-bind AllAscii (IsText size) (encode_label l max_output_len) _
      (encode_label-AllAscii l max_output_len)
      (λ encoded h. append-IsText size out encoded t.ascii h)
append_labels-IsText size (l ∷ l' ∷ ls) out t =
    Yields-bind AllAscii (IsText size) (encode_label l max_output_len) _
      (encode_label-AllAscii l max_output_len)
      (λ encoded h.
        Yields-bind (IsText size) (IsText size) (append size out encoded) _
          (append-IsText size out encoded t.ascii h)
          (λ longer t'.
            Yields-bind (IsText size) (IsText size) (append size longer (b'.' ∷ [])) _
              (append-IsText size longer (b'.' ∷ []) t'.ascii (omega arith, tt))
              (λ dotted t''. append_labels-IsText size (l' ∷ ls) dotted t'')))

idn_to_ascii-Yields :
    (hostname : Bytes) (size : ℕ) → Yields (IsText size) (idn_to_ascii hostname size)
unfolding idn_to_ascii
idn_to_ascii-Yields hostname zero = tt
idn_to_ascii-Yields [] (suc room) = record { ascii = tt; fits = omega arith }
idn_to_ascii-Yields (c ∷ hostname) (suc room) =
    append_labels-IsText (suc room) (split_dots (c ∷ hostname)) []
      (record { ascii = tt; fits = omega arith })

-- Whatever bytes the name holds, valid UTF-8 or not, if `idn_to_ascii` succeeds, what it writes is
-- ASCII and leaves room for the NUL in the buffer.
pub idn_to_ascii-IsText :
    (hostname : Bytes) (size : ℕ) (out : Bytes)
    → idn_to_ascii hostname size ≡ some out
    → IsText size out
idn_to_ascii-IsText hostname size out e =
    Yields_at (IsText size) (idn_to_ascii hostname size) out e (idn_to_ascii-Yields hostname size)
