-- ===== src/Idn/Host/Plain.antt =====
-- `idn_convert_host_to_ascii` and `idn_convert_url_to_ascii` of src/network/idn.c on ASCII text.
use luci_app_komari_agent_c.Prelude.{
  ℕ, zero, suc, ◌+◌, ◌-◌, ◌<◌, ◌≡◌, refl, sym, ap, ◌∙◌, ◌⊎◌, inl, inr, [], ◌∷◌, ◌++◌, List, Option,
  none, some, Bool, true, false, not, ◌||◌, length, length-append, length-take, take, drop,
  take_all, take-append-drop, leb, ltb, ◌==◌, if◌then◌else◌, arith, Bool-cases,
}
use luci_app_komari_agent_c.Prelude.Chars.{Bytes, All, bytes, starts_with}
use luci_app_komari_agent_c.Prelude.Strtol.{find_byte}
use luci_app_komari_agent_c.Websocket.Url.{printed}
use luci_app_komari_agent_c.Idn.Utf8.{max_input_len}
use luci_app_komari_agent_c.Idn.Host.{
  max_output_len, contains_non_ascii, encode_label, split_dots, in_front, append_labels,
  idn_to_ascii, port_text, reassemble_host, copied, count_byte, convert_name, split_port,
  convert_by_colon, split_scheme, split_host, convert_unless_address, convert_host_to_ascii,
  convert_url_to_ascii,
}
use mathlib.Core.List.{append_assoc, append-nil}

abbrev pub IsPlain : Bytes → Type 0
IsPlain s = contains_non_ascii s ≡ false

printed_fits : (size : ℕ) (s : Bytes) → length s < size → printed size s ≡ some s
printed_fits size s h = ground arith

encode_label-IsPlain :
    (label : Bytes)
    → IsPlain label
    → length label < max_output_len
    → encode_label label max_output_len ≡ some label
unfolding encode_label
encode_label-IsPlain [] p h = refl
encode_label-IsPlain (c ∷ label) p h = rw (p, printed_fits max_output_len (c ∷ label) h) refl

-- The labels with dots between them.
abbrev join : List Bytes → Bytes
join [] = []
join (label ∷ []) = label
join (label ∷ next ∷ labels) = label ++ (b'.' ∷ join (next ∷ labels))

join-in_front : (c : ℕ) (ls : List Bytes) → join (in_front c ls) ≡ c ∷ join ls
join-in_front c [] = refl
join-in_front c (l ∷ []) = refl
join-in_front c (l ∷ l' ∷ ls) = refl

split_dots_nonempty : (s : Bytes) → (l : Bytes) × (ls : List Bytes) × (split_dots s ≡ l ∷ ls)
unfolding split_dots
split_dots_nonempty [] = ([], [], refl)
split_dots_nonempty (c ∷ s) = elim (Bool-cases (c == b'.')) [
  | inl e ↦ ([], split_dots s, rw e refl)
  | inr e ↦ let (l, ls, p) = split_dots_nonempty s in (c ∷ l, ls, rw (e, p) refl)
]

join-split_dots : (s : Bytes) → join (split_dots s) ≡ s
unfolding split_dots
join-split_dots [] = refl
join-split_dots (c ∷ s) = elim (Bool-cases (c == b'.')) [
  | inl e ↦
      let (l, ls, p) = split_dots_nonempty s in
      let whole : join (l ∷ ls) ≡ s = sym (ap join p) ∙ join-split_dots s in
      let dot : b'.' ≡ c = ground arith in rw (e, p) (rw (whole, dot) refl)
  | inr e ↦ rw (e, join-in_front c (split_dots s), join-split_dots s) refl
]

in_front-IsPlain :
    (c : ℕ) (ls : List Bytes) → leb 0x80 c ≡ false → All IsPlain ls → All IsPlain (in_front c ls)
unfolding contains_non_ascii
in_front-IsPlain c [] h k = (rw h refl, tt)
in_front-IsPlain c (l ∷ ls) h (k, ks) = (rw h k, ks)

split_dots-IsPlain : (s : Bytes) → IsPlain s → All IsPlain (split_dots s)
unfolding split_dots contains_non_ascii
split_dots-IsPlain [] p = (refl, tt)
split_dots-IsPlain (c ∷ s) p =
    let first : leb 0x80 c ≡ false = ground arith in
    let rest : IsPlain s = ground arith in
    elim (Bool-cases (c == b'.')) [
      | inl e ↦ rw e (refl, split_dots-IsPlain s rest)
      | inr e ↦ rw e (in_front-IsPlain c (split_dots s) first (split_dots-IsPlain s rest))
    ]

append_labels-IsPlain :
    (ls : List Bytes) (out : Bytes)
    → All IsPlain ls
    → length out + length (join ls) < max_output_len
    → append_labels max_output_len ls out ≡ some (out ++ join ls)
unfolding append_labels
append_labels-IsPlain [] out p h = ap (λ (t : Bytes). some t) (sym (append-nil out))
append_labels-IsPlain (l ∷ []) out (p, ps) h =
    rw
      (
        encode_label-IsPlain l p (omega arith),
        printed_fits max_output_len (out ++ l) (omega (arith, length-append out l)),
      )
      refl
append_labels-IsPlain (l ∷ l' ∷ ls) out (p, ps) h =
    let size = length-append l (b'.' ∷ join (l' ∷ ls)) in
    let sizes = length-append out l in
    let dotted : Bytes = (out ++ l) ++ (b'.' ∷ []) in
    let dotted_size = length-append (out ++ l) (b'.' ∷ []) in
    let joined : dotted ++ join (l' ∷ ls) ≡ out ++ (l ++ (b'.' ∷ join (l' ∷ ls))) =
      simp append_assoc in
    rw
      (
        encode_label-IsPlain l p (omega (arith, size)),
        printed_fits max_output_len (out ++ l) (omega (arith, size, sizes)),
        printed_fits max_output_len dotted (omega (arith, size, sizes, dotted_size)),
        append_labels-IsPlain (l' ∷ ls) dotted ps (omega (arith, size, sizes, dotted_size)),
      )
      (ap (λ (t : Bytes). some t) joined)

-- A host name of ASCII bytes is its own ASCII form.
pub idn_to_ascii-IsPlain :
    (s : Bytes) → IsPlain s → length s < max_output_len → idn_to_ascii s max_output_len ≡ some s
unfolding idn_to_ascii
idn_to_ascii-IsPlain [] p h = refl
idn_to_ascii-IsPlain (c ∷ s) p h =
    let j = join-split_dots (c ∷ s) in
    let size : length (join (split_dots (c ∷ s))) < max_output_len = rw j h in
    append_labels-IsPlain (split_dots (c ∷ s)) [] (split_dots-IsPlain (c ∷ s) p)
      (omega (arith, size))
    ∙ ap (λ (t : Bytes). some t) j

IsPlain-take : (n : ℕ) (s : Bytes) → IsPlain s → IsPlain (take n s)
unfolding contains_non_ascii
IsPlain-take zero s p = refl
IsPlain-take (suc n) [] p = refl
IsPlain-take (suc n) (c ∷ s) p = ground (arith, IsPlain-take n s)

convert_name-IsPlain :
    (name : Bytes) (port : Option Bytes) (size : ℕ)
    → IsPlain name
    → length name < max_output_len
    → length (name ++ port_text port) < size
    → convert_name name port false size ≡ some (name ++ port_text port)
unfolding convert_name reassemble_host
convert_name-IsPlain name port size p small fits =
    let room : leb max_output_len (length name) ≡ false = ground arith in
    rw (room, idn_to_ascii-IsPlain name p small, printed_fits size (name ++ port_text port) fits)
      refl

copied_whole : (size : ℕ) (host : Bytes) → length host < size → copied size host ≡ some host
copied_whole size host h = ap (λ (t : Bytes). some t) (take_all (size - 1) host (omega arith))

split_port-IsPlain :
    (host : Bytes) (colon : Option ℕ) (size : ℕ)
    → IsPlain host
    → length host < max_output_len
    → length host < size
    → split_port host colon size ≡ some host
split_port-IsPlain host none size p small fits =
    let whole = append-nil host in
    convert_name-IsPlain host none size p small (rw whole fits) ∙ ap (λ (t : Bytes). some t) whole
split_port-IsPlain host (some i) size p small fits =
    let whole = take-append-drop i host in
    convert_name-IsPlain (take i host) (some (drop i host)) size (IsPlain-take i host p)
      (omega (arith, length-take i host)) (rw whole fits)
    ∙ ap (λ (t : Bytes). some t) whole

convert_by_colon-IsPlain :
    (host : Bytes) (size : ℕ)
    → IsPlain host
    → length host < max_output_len
    → length host < size
    → convert_by_colon host size ≡ some host
unfolding convert_by_colon
convert_by_colon-IsPlain host size p small fits = elim (Bool-cases (ltb 1 (count_byte b':' host))) [
  | inl e ↦ rw e (copied_whole size host fits)
  | inr e ↦ rw e (split_port-IsPlain host (find_byte b':' host) size p small fits)
]

-- No bracket stands in front.
abbrev pub unbracketed : Bytes → Bool
unbracketed [] = true
unbracketed (c ∷ s) = not (c == b'[')

starts_with-append : (s p : Bytes) → starts_with s p ≡ true → p ++ drop (length p) s ≡ s
starts_with-append s [] h = refl
starts_with-append [] (p ∷ ps) h = ground arith
starts_with-append (c ∷ s) (p ∷ ps) h =
    let same : p ≡ c = ground arith in
    let rest : starts_with s ps ≡ true = ground arith in
    rw (same, starts_with-append s ps rest) refl

-- Either no scheme was found, or its parts make up the text.
abbrev Splits : Bytes → Bytes → Bytes × Bytes → Type 0
Splits whole s r = ((r.0 ≡ []) × (r.1 ≡ whole)) ⊎ (r.0 ++ r.1 ≡ s)

split_scheme-Splits : (whole s : Bytes) → Splits whole s (split_scheme whole s)
unfolding split_scheme
split_scheme-Splits whole [] = inl (refl, refl)
split_scheme-Splits whole (c ∷ s) = elim (Bool-cases (starts_with (c ∷ s) (bytes "://"))) [
  | inl e ↦ rw e (inr (starts_with-append (c ∷ s) (bytes "://") e))
  | inr e ↦ rw e (found (split_scheme whole s) (split_scheme-Splits whole s))
]
  where
    found :
        (r : Bytes × Bytes)
        → Splits whole s r
        → Splits whole (c ∷ s) (if leb (length r.0) 0 then ([], whole) else (c ∷ r.0, r.1))
    found ([], after) h = inl (refl, refl)
    found (d ∷ before, after) h = inr (ground arith)

split_scheme-append :
    (url : Bytes) → let (scheme, after) = split_scheme url url in scheme ++ after ≡ url
split_scheme-append url = elim (split_scheme-Splits url url) [
  | inl (e, f) ↦ rw (e, f) refl
  | inr e ↦ e
]

split_host-append : (s : Bytes) → let (host, rest) = split_host s in host ++ rest ≡ s
unfolding split_host
split_host-append [] = refl
split_host-append (c ∷ s) = elim (Bool-cases (c == b'/' || c == b'?' || c == b'#')) [
  | inl e ↦ rw e refl
  | inr e ↦ rw (e, split_host-append s) refl
]

IsPlain-right : (xs ys : Bytes) → IsPlain (xs ++ ys) → IsPlain ys
unfolding contains_non_ascii
IsPlain-right [] ys h = h
IsPlain-right (x ∷ xs) ys h = IsPlain-right xs ys (ground arith)

IsPlain-left : (xs ys : Bytes) → IsPlain (xs ++ ys) → IsPlain xs
unfolding contains_non_ascii
IsPlain-left [] ys h = refl
IsPlain-left (x ∷ xs) ys h = ground (arith, IsPlain-left xs ys)

module _ (is_ipv4 is_ipv6 : Bytes → Bool) where
  convert_unless_address-IsPlain :
      (host : Bytes) (size : ℕ)
      → IsPlain host
      → unbracketed host ≡ true
      → length host < max_output_len
      → length host < size
      → convert_unless_address is_ipv4 is_ipv6 host size ≡ some host
  convert_unless_address-IsPlain [] size p u small fits =
      convert_by_colon-IsPlain [] size p small fits
  convert_unless_address-IsPlain (c ∷ s) size p u small fits =
      let e : (c == b'[') ≡ false = ground arith in
      rw e (convert_by_colon-IsPlain (c ∷ s) size p small fits)

  -- A host of ASCII bytes that does not begin with a bracket, with a port or without, is not changed
  -- if it is shorter than both buffers, whatever `inet_pton` takes for an address.
  pub convert_host_to_ascii-IsPlain :
      (host : Bytes) (size : ℕ)
      → IsPlain host
      → unbracketed host ≡ true
      → length host < max_output_len
      → length host < size
      → convert_host_to_ascii is_ipv4 is_ipv6 host size ≡ some host
  unfolding convert_host_to_ascii
  convert_host_to_ascii-IsPlain host zero p u small fits = absurd (omega arith)
  convert_host_to_ascii-IsPlain host (suc room) p u small fits =
      elim (Bool-cases (is_ipv4 host || is_ipv6 host)) [
        | inl e ↦ rw e (copied_whole (suc room) host fits)
        | inr e ↦ rw e (convert_unless_address-IsPlain host (suc room) p u small fits)
      ]

  -- The host of a URL: what stands between its scheme and its path, query or fragment.
  abbrev pub host_of : Bytes → Bytes
  host_of url = (split_host (split_scheme url url).1).0

  -- A URL of ASCII bytes whose host does not begin with a bracket and is shorter than 1024 bytes is
  -- not changed if it is shorter than the buffer, whatever `inet_pton` takes for an address.
  pub convert_url_to_ascii-IsPlain :
      (url : Bytes) (size : ℕ)
      → IsPlain url
      → unbracketed (host_of url) ≡ true
      → length (host_of url) < max_input_len
      → length url < size
      → convert_url_to_ascii is_ipv4 is_ipv6 url size ≡ some url
  unfolding convert_url_to_ascii
  convert_url_to_ascii-IsPlain url zero p u small fits = absurd (omega arith)
  convert_url_to_ascii-IsPlain url (suc room) p u small fits =
      let (scheme, after) = split_scheme url url in
      let (host, rest) = split_host after in
      let whole : scheme ++ (host ++ rest) ≡ url =
        ap (λ (t : Bytes). scheme ++ t) (split_host-append after) ∙ split_scheme-append url in
      let parts : IsPlain (scheme ++ (host ++ rest)) = rw whole p in
      let plain_host : IsPlain host =
        IsPlain-left host rest (IsPlain-right scheme (host ++ rest) parts) in
      let short : leb max_input_len (length host) ≡ false = ground arith in
      rw
        (
          short,
          convert_host_to_ascii-IsPlain host max_output_len plain_host u (omega arith)
              (omega arith),
        )
        (printed_fits (suc room) (scheme ++ (host ++ rest)) (rw whole fits)
          ∙ ap (λ (t : Bytes). some t) whole)
