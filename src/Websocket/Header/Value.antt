-- ===== src/Websocket/Header/Value.antt =====
-- How the value behind a header's colon is delimited.
use luci_app_komari_agent_c.Prelude.{
  ℕ, ◌+◌, ◌≡◌, refl, [], ◌∷◌, ◌++◌, true, none, some, length, ltb, if◌then◌else◌, arith,
}
use luci_app_komari_agent_c.Prelude.Chars.{Bytes}
use luci_app_komari_agent_c.Websocket.Header.{skip_blank, until_crlf, trim_blank_end, copy_value}
use luci_app_komari_agent_c.Websocket.Header.Response.{in_line, ends_well, is_trimmed}

until_crlf-line : (v rest : Bytes) → in_line v ≡ true → until_crlf (v ++ (13 ∷ 10 ∷ rest)) ≡ v
unfolding until_crlf
until_crlf-line [] rest h = refl
until_crlf-line (c ∷ []) rest h = ground arith
until_crlf-line (c ∷ d ∷ v) rest h = ground (arith, until_crlf-line (d ∷ v) rest)

trim_blank_end_kept : (v : Bytes) → ends_well v ≡ true → trim_blank_end v ≡ v
unfolding trim_blank_end
trim_blank_end_kept [] h = refl
trim_blank_end_kept (c ∷ []) h = ground arith
trim_blank_end_kept (c ∷ d ∷ v) h = rw (trim_blank_end_kept (d ∷ v) h) refl

skip_blank_kept :
    (v rest : Bytes)
    → is_trimmed v ≡ true
    → skip_blank (v ++ (13 ∷ 10 ∷ rest)) ≡ v ++ (13 ∷ 10 ∷ rest)
unfolding skip_blank
skip_blank_kept [] rest h = refl
skip_blank_kept (c ∷ v) rest h = ground arith

trimmed_ends : (v : Bytes) → is_trimmed v ≡ true → ends_well v ≡ true
trimmed_ends [] h = refl
trimmed_ends (c ∷ v) h = ground arith

skip_one : (s : Bytes) → skip_blank (b' ' ∷ s) ≡ skip_blank s
unfolding skip_blank
skip_one s = refl

pub copy_value-line :
    (size : ℕ) (v rest : Bytes)
    → in_line v ≡ true
    → is_trimmed v ≡ true
    → copy_value size (b' ' ∷ (v ++ (13 ∷ 10 ∷ rest)))
      ≡ (if ltb size (length v + 1) then none else some v)
unfolding copy_value
copy_value-line size v rest h t =
    rw
      (
        skip_one (v ++ (13 ∷ 10 ∷ rest)),
        skip_blank_kept v rest t,
        until_crlf-line v rest h,
        trim_blank_end_kept v (trimmed_ends v t),
      )
      refl
