-- ===== src/Websocket/Header/Lookup.antt =====
-- What `ws_extract_header` finds in a response that RFC 7230 allows.
use luci_app_komari_agent_c.Prelude.{
  ℕ, ◌+◌, ◌≡◌, ◌≢◌, refl, ◌∙◌, [], ◌∷◌, ◌++◌, List, true, false, Option, none, some, length, ltb,
  if◌then◌else◌, arith, Bool-cases, inl, inr,
}
use luci_app_komari_agent_c.Prelude.Chars.{Bytes, bytes}
use luci_app_komari_agent_c.Websocket.Header.{
  match_name, copy_value, is_end, scan, extract_header, server_accept,
}
use luci_app_komari_agent_c.Websocket.Header.Response.{
  crlf, in_line, is_name, Field, header_line, header_block, same_name, is_trimmed, well_formed,
  field_value, match_name-line, match_name_colon, scan_skip, scan_line,
}
use luci_app_komari_agent_c.Websocket.Header.Value.{copy_value-line}

-- The field's value if the buffer has room for it and its NUL.
abbrev pub fits : ℕ → Option Bytes → Option Bytes
fits size none = none
fits size (some v) = if ltb size (length v + 1) then none else some v

scan-true :
    (name : Bytes) (size c : ℕ) (s : Bytes)
    → is_end (c ∷ s) ≡ false
    → scan name size true (c ∷ s) ≡ elim (match_name name (c ∷ s)) [
      | some after ↦ copy_value size after
      | none ↦ scan name size false s
    ]
unfolding scan
scan-true name size c s h = rw (h) refl

name-in_line : (n : Bytes) → is_name n ≡ true → in_line n ≡ true
name-in_line [] h = refl
name-in_line (c ∷ n) h = ground (arith, name-in_line n)

name_start : (c : ℕ) (n s : Bytes) → is_name (c ∷ n) ≡ true → is_end (c ∷ s) ≡ false
unfolding is_end
name_start c n [] h = ground arith
name_start c n (d ∷ s) h = ground arith

-- A line that does not match is passed over.
line_passed :
    (name : Bytes) (size : ℕ) (n v rest : Bytes)
    → is_name n ≡ true
    → in_line v ≡ true
    → scan name size false (n ++ (b':' ∷ b' ' ∷ (v ++ (13 ∷ 10 ∷ rest)))) ≡ scan name size true rest
line_passed name size n v rest h k =
    scan_skip name size n (b':' ∷ b' ' ∷ (v ++ (13 ∷ 10 ∷ rest))) (name-in_line n h)
    ∙ scan_line name size (b':' ∷ b' ' ∷ v) rest k

-- One line examined: what the rest of the search gives, if the name is another.
scan-line :
    (name : Bytes) (size c : ℕ) (n v rest : Bytes)
    → is_name name ≡ true
    → is_name (c ∷ n) ≡ true
    → in_line v ≡ true
    → is_trimmed v ≡ true
    → scan name size true (header_line (c ∷ n, v) rest)
      ≡ (if same_name name (c ∷ n) then fits size (some v) else scan name size true rest)
scan-line name size c n v rest h k l t =
    let tail = b' ' ∷ (v ++ (13 ∷ 10 ∷ rest)) in
    let n_ok : is_name n ≡ true = ground arith in
    rw
      (
        scan-true name size c (n ++ (b':' ∷ tail)) (name_start c n (n ++ (b':' ∷ tail)) k),
        match_name-line name (c ∷ n) tail h k,
      )
      (elim (Bool-cases (same_name name (c ∷ n))) [
        | inl e ↦ rw (e) (copy_value-line size v rest l t)
        | inr e ↦ rw (e) (line_passed name size n v rest n_ok l)
      ])

scan-line_colon :
    (name : Bytes) (size c : ℕ) (n v rest : Bytes)
    → is_name name ≡ true
    → is_name (c ∷ n) ≡ true
    → in_line v ≡ true
    → scan (name ++ (b':' ∷ [])) size true (header_line (c ∷ n, v) rest)
      ≡ scan (name ++ (b':' ∷ [])) size true rest
scan-line_colon name size c n v rest h k l =
    let tail = b' ' ∷ (v ++ (13 ∷ 10 ∷ rest)) in
    let n_ok : is_name n ≡ true = ground arith in
    rw
      (
        scan-true (name ++ (b':' ∷ [])) size c (n ++ (b':' ∷ tail))
            (name_start c n (n ++ (b':' ∷ tail)) k),
        match_name_colon name (c ∷ n) (v ++ (13 ∷ 10 ∷ rest)) h k,
      )
      (line_passed (name ++ (b':' ∷ [])) size n v rest n_ok l)

scan-crlf : (name : Bytes) (size : ℕ) → scan name size true crlf ≡ none
unfolding scan is_end
scan-crlf name size = refl

scan-block :
    (name : Bytes) (size : ℕ) (fs : List Field)
    → is_name name ≡ true
    → well_formed fs ≡ true
    → scan name size true (header_block fs) ≡ fits size (field_value name fs)
scan-block name size [] h w = scan-crlf name size
scan-block name size (([], v) ∷ fs) h w = ground arith
scan-block name size ((c ∷ n, v) ∷ fs) h w =
    rw
      (
        scan-line name size c n v (header_block fs) h (ground arith) (ground arith) (ground arith),
        scan-block name size fs h (ground arith),
      )
      (elim (Bool-cases (same_name name (c ∷ n))) [ inl e ↦ rw (e) refl | inr e ↦ rw (e) refl ])

scan-block_colon :
    (name : Bytes) (size : ℕ) (fs : List Field)
    → is_name name ≡ true
    → well_formed fs ≡ true
    → scan (name ++ (b':' ∷ [])) size true (header_block fs) ≡ none
scan-block_colon name size [] h w = scan-crlf (name ++ (b':' ∷ [])) size
scan-block_colon name size (([], v) ∷ fs) h w = ground arith
scan-block_colon name size ((c ∷ n, v) ∷ fs) h w =
    rw (scan-line_colon name size c n v (header_block fs) h (ground arith) (ground arith))
      (scan-block_colon name size fs h (ground arith))

-- In a response with any status line and any well-formed header fields, `ws_extract_header` gives
-- the value of the first field whose name agrees with the given one up to case, provided that it
-- fits in `out_size` bytes with its NUL, and fails if no field has the name or the value is longer.
-- The given name is not empty and has no colon, CR or LF; `out_size` is positive.
pub extract_header-field_value :
    (name status : Bytes) (fs : List Field) (out_size : ℕ)
    → is_name name ≡ true
    → name ≢ []
    → in_line status ≡ true
    → well_formed fs ≡ true
    → out_size ≢ 0
    → extract_header (status ++ (13 ∷ 10 ∷ header_block fs)) name out_size
      ≡ fits out_size (field_value name fs)
unfolding extract_header
extract_header-field_value [] status fs size h ne l w p = absurd (ne refl)
extract_header-field_value (x ∷ name) status fs size h ne l w p =
    let found =
      scan_line (x ∷ name) size status (header_block fs) l ∙ scan-block (x ∷ name) size fs h w in
    ground (arith, found)

-- As the code stands, `ws_handshake` finds no Sec-WebSocket-Accept value in any response with a
-- status line and well-formed header fields, since the name that it looks for ends in a colon of its
-- own.
pub server_accept-none :
    (status : Bytes) (fs : List Field)
    → in_line status ≡ true
    → well_formed fs ≡ true
    → server_accept (status ++ (13 ∷ 10 ∷ header_block fs)) ≡ none
unfolding server_accept extract_header
server_accept-none status fs l w =
    scan_line (bytes "Sec-WebSocket-Accept:") 128 status (header_block fs) l
    ∙ scan-block_colon (bytes "Sec-WebSocket-Accept") 128 fs refl w
