-- ===== src/Idn/Host.antt =====
-- Labels, host names, hosts and URLs of src/network/idn.c: `punycode_encode_label`, `idn_to_ascii`,
-- `reassemble_host`, `idn_convert_host_to_ascii` and `idn_convert_url_to_ascii`.
pub mod Plain
pub mod Ascii
mod Tests
use luci_app_komari_agent_c.Prelude.{
  ℕ, zero, suc, ◌+◌, ◌-◌, [], ◌∷◌, ◌++◌, List, Option, none, some, Bool, true, false, ◌||◌, length,
  take, drop, leb, ltb, ◌==◌, if◌then◌else◌,
}
use luci_app_komari_agent_c.Prelude.Chain.{◌>>=◌}
use luci_app_komari_agent_c.Prelude.Chars.{Bytes, bytes, starts_with, until_nul}
use luci_app_komari_agent_c.Prelude.Strtol.{find_byte}
use luci_app_komari_agent_c.Websocket.Url.{printed}
use luci_app_komari_agent_c.Idn.Utf8.{max_input_len}
use luci_app_komari_agent_c.Idn.Punycode.{punycode_encode}
use mathlib.Core.Option

-- IDN_MAX_OUTPUT_LEN
abbrev pub max_output_len : ℕ
max_output_len = 2048

pub contains_non_ascii : Bytes → Bool
contains_non_ascii [] = false
contains_non_ascii (c ∷ s) = leb 0x80 c || contains_non_ascii s

-- A label with a byte outside ASCII.
pub encode_foreign : Bytes → ℕ → Option Bytes
encode_foreign label output_size = do
  encoded ← punycode_encode label max_output_len
  let ace = bytes "xn--" ++ until_nul encoded
  if leb output_size 4 || ltb output_size (length ace + 1) then none else some ace

pub encode_label : Bytes → ℕ → Option Bytes
encode_label [] output_size = some []
encode_label (c ∷ label) output_size =
    if contains_non_ascii (c ∷ label)
    then encode_foreign (c ∷ label) output_size
    else printed output_size (c ∷ label)

-- The parts between the dots.
abbrev pub in_front : ℕ → List Bytes → List Bytes
in_front c [] = (c ∷ []) ∷ []
in_front c (label ∷ labels) = (c ∷ label) ∷ labels

pub split_dots : Bytes → List Bytes
split_dots [] = [] ∷ []
split_dots (c ∷ s) = let rest = split_dots s in if c == b'.' then [] ∷ rest else in_front c rest

-- `if (out_idx + enc_len >= output_size) return -2;`
abbrev pub append : ℕ → Bytes → Bytes → Option Bytes
append output_size out more = printed output_size (out ++ more)

pub append_labels : ℕ → List Bytes → Bytes → Option Bytes
append_labels output_size [] out = some out
append_labels output_size (label ∷ []) out = do
  encoded ← encode_label label max_output_len
  append output_size out encoded
append_labels output_size (label ∷ next ∷ labels) out = do
  encoded ← encode_label label max_output_len
  longer ← append output_size out encoded
  dotted ← append output_size longer (b'.' ∷ [])
  append_labels output_size (next ∷ labels) dotted

pub idn_to_ascii : Bytes → ℕ → Option Bytes
idn_to_ascii hostname zero = none
idn_to_ascii [] (suc room) = some []
idn_to_ascii (c ∷ hostname) (suc room) = append_labels (suc room) (split_dots (c ∷ hostname)) []

-- The host with its brackets and its port, which begins with its colon.
abbrev pub port_text : Option Bytes → Bytes
port_text none = []
port_text (some port) = port

pub reassemble_host : Bytes → Option Bytes → Bool → ℕ → Option Bytes
reassemble_host ascii_host port wrap_brackets output_size = printed output_size (
    if wrap_brackets
    then (b'[' ∷ ascii_host) ++ (b']' ∷ port_text port)
    else ascii_host ++ port_text port)

-- `strncpy(output, host, output_size - 1)`
abbrev pub copied : ℕ → Bytes → Option Bytes
copied output_size host = some (take (output_size - 1) host)

pub count_byte : ℕ → Bytes → ℕ
count_byte c [] = 0
count_byte c (d ∷ s) = let n = count_byte c s in if d == c then suc n else n

-- A name that is converted, and put together with its port.
pub convert_name : Bytes → Option Bytes → Bool → ℕ → Option Bytes
convert_name hostname port wrap_brackets output_size =
    if leb max_output_len (length hostname) then none else (do
      encoded ← idn_to_ascii hostname max_output_len
      reassemble_host encoded port wrap_brackets output_size)

-- `close_bracket[1] == ':'`
abbrev pub port_behind : Bytes → Option Bytes
port_behind [] = none
port_behind (c ∷ s) = if c == b':' then some (c ∷ s) else none

-- Where the only colon is, if any.
abbrev pub split_port : Bytes → Option ℕ → ℕ → Option Bytes
split_port host none output_size = convert_name host none false output_size
split_port host (some i) output_size =
    convert_name (take i host) (some (drop i host)) false output_size

-- Two colons or more are taken for an IPv6 address.
pub convert_by_colon : Bytes → ℕ → Option Bytes
convert_by_colon host output_size =
    if ltb 1 (count_byte b':' host)
    then copied output_size host
    else split_port host (find_byte b':' host) output_size

-- What stands before the host, with its `://`, and what follows.
pub split_scheme : Bytes → Bytes → Bytes × Bytes
split_scheme whole [] = ([], whole)
split_scheme whole (c ∷ s) =
    let (before, after) = split_scheme whole s in
    if starts_with (c ∷ s) (bytes "://")
    then (bytes "://", drop 3 (c ∷ s))
    else if leb (length before) 0
    then ([], whole)
    else (c ∷ before, after)

-- The host ends at the first `/`, `?` or `#`.
pub split_host : Bytes → Bytes × Bytes
split_host [] = ([], [])
split_host (c ∷ s) =
    let (host, rest) = split_host s in
    if c == b'/' || c == b'?' || c == b'#' then ([], c ∷ s) else (c ∷ host, rest)

-- `inet_pton` for the two families says whether a text is an address.
module _ (is_ipv4 is_ipv6 : Bytes → Bool) where
  -- The text behind the opening bracket, by where the closing one is.
  abbrev pub convert_bracketed : Bytes → Option ℕ → ℕ → Option Bytes
  convert_bracketed inside none output_size = convert_by_colon (b'[' ∷ inside) output_size
  convert_bracketed inside (some i) output_size =
      let hostname = take i inside in
      let port = port_behind (drop (suc i) inside) in
      if leb max_output_len (length hostname)
      then none
      else if is_ipv6 hostname
      then reassemble_host hostname port true output_size
      else convert_name hostname port true output_size

  abbrev pub convert_unless_address : Bytes → ℕ → Option Bytes
  convert_unless_address [] output_size = convert_by_colon [] output_size
  convert_unless_address (c ∷ s) output_size =
      if c == b'['
      then convert_bracketed s (find_byte b']' s) output_size
      else convert_by_colon (c ∷ s) output_size

  pub convert_host_to_ascii : Bytes → ℕ → Option Bytes
  convert_host_to_ascii host zero = none
  convert_host_to_ascii host (suc room) =
      if is_ipv4 host || is_ipv6 host
      then copied (suc room) host
      else convert_unless_address host (suc room)

  pub convert_url_to_ascii : Bytes → ℕ → Option Bytes
  convert_url_to_ascii url zero = none
  convert_url_to_ascii url (suc room) =
      let (scheme, after) = split_scheme url url in
      let (host, rest) = split_host after in
      if leb max_input_len (length host) then none else (do
        ascii_host ← convert_host_to_ascii host max_output_len
        printed (suc room) (scheme ++ (ascii_host ++ rest)))
