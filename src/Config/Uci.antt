-- ===== src/Config/Uci.antt =====
-- The lines that `uci show` prints, and what the parser reads of them.
use luci_app_komari_agent_c.Prelude.{
  ℕ, ◌+◌, ◌<◌, ◌≡◌, refl, [], ◌∷◌, ◌++◌, Bool, true, false, not, none, some, length, ◌==◌, arith,
  length-append,
}
use luci_app_komari_agent_c.Prelude.Chars.{Bytes}
use luci_app_komari_agent_c.Prelude.Strtol.{absent}
use luci_app_komari_agent_c.Utils.Text.{set_string}
use luci_app_komari_agent_c.Config.{Doubles, Config}
use luci_app_komari_agent_c.Config.Load.{
  split_eq, after_dot, skip_quotes, is_end_quote, trim_quotes, uci_option, apply_option,
  config_parse_uci_line,
}

-- `section.option='value'` and the line's end.
abbrev pub uci_line : Bytes → Bytes → Bytes → Bytes
uci_line section key value =
    (section ++ (b'.' ∷ key)) ++ (b'=' ∷ b'\'' ∷ (value ++ (b'\'' ∷ 10 ∷ [])))

-- The value neither begins nor ends with a byte that the parser takes for a quote.
abbrev pub starts_plain : Bytes → Bool
starts_plain [] = true
starts_plain (c ∷ s) = not (is_end_quote c)

abbrev pub ends_plain : Bytes → Bool
ends_plain [] = true
ends_plain (c ∷ []) = not (is_end_quote c)
ends_plain (c ∷ d ∷ s) = ends_plain (d ∷ s)

split_eq_first :
    (s rest : Bytes) → absent b'=' s ≡ true → split_eq (s ++ (b'=' ∷ rest)) ≡ some (s, rest)
unfolding split_eq
split_eq_first [] rest h = refl
split_eq_first (c ∷ s) rest h =
    let other : (c == b'=') ≡ false = ground arith in
    rw (other, split_eq_first s rest (ground arith)) refl

after_dot-none : (s : Bytes) → absent b'.' s ≡ true → after_dot s ≡ none
unfolding after_dot
after_dot-none [] h = refl
after_dot-none (c ∷ s) h = ground (arith, after_dot-none s)

after_dot_last :
    (section key : Bytes) → absent b'.' key ≡ true → after_dot (section ++ (b'.' ∷ key)) ≡ some key
unfolding after_dot
after_dot_last [] key h = rw (after_dot-none key h) refl
after_dot_last (c ∷ section) key h = rw (after_dot_last section key h) refl

absent-append :
    (c : ℕ) (s t : Bytes) → absent c s ≡ true → absent c t ≡ true → absent c (s ++ t) ≡ true
absent-append c [] t h k = k
absent-append c (d ∷ s) t h k = ground (arith, absent-append c s t)

trim_quotes_plain :
    (value : Bytes) → ends_plain value ≡ true → trim_quotes (value ++ (b'\'' ∷ 10 ∷ [])) ≡ value
unfolding trim_quotes
trim_quotes_plain [] h = refl
trim_quotes_plain (c ∷ []) h = ground arith
trim_quotes_plain (c ∷ d ∷ s) h = rw (trim_quotes_plain (d ∷ s) h) refl

pub set_string_kept : (size : ℕ) (s : Bytes) → length s < size → set_string size s ≡ s
set_string_kept size s h = ground arith

value_read :
    (value : Bytes)
    → starts_plain value ≡ true
    → ends_plain value ≡ true
    → length value + 2 < 256
    → trim_quotes (set_string 256 (skip_quotes (b'\'' ∷ (value ++ (b'\'' ∷ 10 ∷ []))))) ≡ value
unfolding skip_quotes trim_quotes
value_read [] a b l = refl
value_read (c ∷ value) a b l =
    let whole = (c ∷ value) ++ (b'\'' ∷ 10 ∷ []) in
    let starts : skip_quotes (b'\'' ∷ whole) ≡ whole = ground arith in
    let short : length whole < 256 = omega (arith, length-append (c ∷ value) (b'\'' ∷ 10 ∷ [])) in
    rw (starts, set_string_kept 256 whole short) (trim_quotes_plain (c ∷ value) b)

option_read :
    (section key value : Bytes)
    → length (uci_line section key value) < 512
    → absent b'=' section ≡ true
    → absent b'=' key ≡ true
    → absent b'.' key ≡ true
    → length key < 64
    → starts_plain value ≡ true
    → ends_plain value ≡ true
    → length value + 2 < 256
    → uci_option (uci_line section key value) ≡ some (key, value)
unfolding uci_option
option_read section key value l a b c k d e f =
    rw
      (
        uci_option,
        set_string_kept 512 (uci_line section key value) l,
        split_eq_first (section ++ (b'.' ∷ key)) (b'\'' ∷ (value ++ (b'\'' ∷ 10 ∷ [])))
            (absent-append b'=' section (b'.' ∷ key) a b),
        after_dot_last section key c,
        set_string_kept 64 key k,
        value_read value d e f,
      )
      refl

-- A line within the limits of the buffers goes to the chain of comparisons as its option and value.
pub config_parse_uci_line-uci_line :
    {D : Doubles} (section key value : Bytes) (c : Config D)
    → length (uci_line section key value) < 512
    → absent b'=' section ≡ true
    → absent b'=' key ≡ true
    → absent b'.' key ≡ true
    → length key < 64
    → starts_plain value ≡ true
    → ends_plain value ≡ true
    → length value + 2 < 256
    → config_parse_uci_line (uci_line section key value) c ≡ some (apply_option key value c)
unfolding config_parse_uci_line
config_parse_uci_line-uci_line section key value c l a b d k e f g =
    rw (config_parse_uci_line, option_read section key value l a b d k e f g) refl
