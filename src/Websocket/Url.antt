-- ===== src/Websocket/Url.antt =====
-- `parse_url` of src/network/websocket.c.
pub mod Parse
pub mod Sound
mod Tests
use luci_app_komari_agent_c.Prelude.{
  ℕ, suc, ◌+◌, ◌<◌, [], ◌∷◌, Bool, true, false, not, ◌&&◌, ◌||◌, Option, none, some, length, take,
  drop, leb, ltb, ◌==◌, if◌then◌else◌,
}
use luci_app_komari_agent_c.Prelude.Chain.{◌>>=◌}
use luci_app_komari_agent_c.Prelude.Chars.{Bytes, bytes, starts_with}
use luci_app_komari_agent_c.Prelude.Strtol.{Number, find_byte, strtol}

abbrev pub host_max : ℕ
host_max = 256

abbrev pub path_max : ℕ
path_max = 512

pub record Url : Type 0 where
  pub scheme : Bytes
  pub host : Bytes
  pub port : ℕ
  pub path : Bytes

-- `snprintf` of a string into a buffer: the call fails where the string does not fit.
abbrev pub printed : ℕ → Bytes → Option Bytes
printed size s = if leb size (length s) then none else some s

-- The end of the text that `strtol` has read must be the end of the URL or a slash.
abbrev pub ends_port : Bytes → Bool
ends_port [] = true
ends_port (c ∷ s) = c == b'/'

abbrev pub port_of : Number → Option ℕ
port_of n =
    if Number.negative n || ltb (Number.magnitude n) 1 || ltb 65535 (Number.magnitude n)
    then none
    else if ends_port (Number.after n)
    then some (Number.magnitude n)
    else none

-- The port behind the colon.
unfoldable pub parse_port : Bytes → Option ℕ
parse_port s = do n ← strtol s; port_of n

-- `colon && (!slash || colon < slash)`
abbrev pub has_port : Option ℕ → Option ℕ → Option ℕ
has_port none slash = none
has_port (some colon) none = some colon
has_port (some colon) (some slash) = if ltb colon slash then some colon else none

-- The path begins at the slash; without one it is "/".
abbrev pub path_from : Option ℕ → Bytes → Bytes
path_from none url = bytes "/"
path_from (some slash) url = drop slash url

-- The host without a port ends at the slash or with the URL.
abbrev pub host_to : Option ℕ → Bytes → Bytes
host_to none url = url
host_to (some slash) url = take slash url

unfoldable pub with_port : Bytes → Option ℕ → ℕ → Bytes → Option Url
with_port scheme slash colon url = do
  host ← printed host_max (take colon url)
  port ← parse_port (drop (suc colon) url)
  path ← printed path_max (path_from slash url)
  some (record { scheme = scheme; host = host; port = port; path = path })

unfoldable pub without_port : Bytes → ℕ → Option ℕ → Bytes → Option Url
without_port scheme port slash url = do
  host ← printed host_max (host_to slash url)
  path ← printed path_max (path_from slash url)
  some (record { scheme = scheme; host = host; port = port; path = path })

-- The two cases of the authority, by the offset of the colon if it begins a port.
abbrev pub by_port : Bytes → ℕ → Option ℕ → Bytes → Option ℕ → Option Url
by_port scheme default_port slash url (some colon) = with_port scheme slash colon url
by_port scheme default_port slash url none = without_port scheme default_port slash url

-- What follows the scheme.
unfoldable pub parse_authority : Bytes → ℕ → Bytes → Option Url
parse_authority scheme default_port url =
    let slash = find_byte b'/' url in
    by_port scheme default_port slash url (has_port (find_byte b':' url) slash)

unfoldable pub parse_url : Bytes → Option Url
parse_url url =
    if starts_with url (bytes "ws://")
    then parse_authority (bytes "ws") 80 (drop 5 url)
    else if starts_with url (bytes "wss://")
    then parse_authority (bytes "wss") 443 (drop 6 url)
    else none
