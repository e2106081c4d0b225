-- ===== src/Config.antt =====
-- The agent's configuration: `agent_config_t` of src/config/config.h, and its defaults and its
-- validation in src/config/config.c. NULL arguments and log messages are not modelled.
pub mod Port
pub mod Endpoint
pub mod Load
pub mod Fits
pub mod Sound
pub mod Uci
pub mod Options
mod Tests
use luci_app_komari_agent_c.Prelude.{
  ℕ, ◌+◌, ◌-◌, ◌*◌, ◌<◌, ◌≡◌, [], ◌∷◌, Bool, true, false, not, ◌&&◌, ◌||◌, Option, none, some,
  length, drop, leb, ltb, ◌==◌, if◌then◌else◌,
}
use luci_app_komari_agent_c.Prelude.Chars.{Bytes, bytes, starts_with}
use luci_app_komari_agent_c.Prelude.Strtol.{is_digit}
use luci_app_komari_agent_c.Prelude.Integer.{ℤ, pos, negsuc, is_positive, is_const}

-- What the configuration needs of `double` and `atof`.
pub record Doubles : Type 1 where
  pub Value : Type 0
  pub atof : Bytes → Value
  pub one : Value
  pub le_zero : Value → Bool
  pub one_positive : le_zero one ≡ false

module _ (D : Doubles) where
  -- `agent_config_t`
  pub record Config : Type 0 where
    pub token : Bytes
    pub endpoint : Bytes
    pub custom_dns : Bytes
    pub include_nics : Bytes
    pub exclude_nics : Bytes
    pub include_mountpoints : Bytes
    pub cf_access_client_id : Bytes
    pub cf_access_client_secret : Bytes
    pub custom_ipv4 : Bytes
    pub custom_ipv6 : Bytes
    pub auto_discovery_key : Bytes
    pub config_file : Bytes
    pub interval : Doubles.Value D
    pub max_retries : ℤ
    pub reconnect_interval : ℤ
    pub info_report_interval : ℤ
    pub month_rotate : ℤ
    pub protocol_version : ℤ
    pub disable_auto_update : Bool
    pub disable_web_ssh : Bool
    pub ignore_unsafe_cert : Bool
    pub memory_include_cache : Bool
    pub enable_gpu : Bool
    pub get_ip_addr_from_nic : Bool
    pub show_warning : Bool
    pub disable_compression : Bool

  -- `config_init`
  abbrev pub config_init : Config
  config_init = record {
    token = [];
    endpoint = [];
    custom_dns = [];
    include_nics = [];
    exclude_nics = [];
    include_mountpoints = [];
    cf_access_client_id = [];
    cf_access_client_secret = [];
    custom_ipv4 = [];
    custom_ipv6 = [];
    auto_discovery_key = [];
    config_file = [];
    interval = Doubles.one D;
    max_retries = pos 5;
    reconnect_interval = pos 5;
    info_report_interval = pos 30;
    month_rotate = pos 0;
    protocol_version = pos 2;
    disable_auto_update = false;
    disable_web_ssh = false;
    ignore_unsafe_cert = false;
    memory_include_cache = false;
    enable_gpu = false;
    get_ip_addr_from_nic = false;
    show_warning = false;
    disable_compression = false;
  }

abbrev pub max_config_file_len : ℕ
max_config_file_len = 512

unfoldable pub contains_crlf : Bytes → Bool
contains_crlf [] = false
contains_crlf (c ∷ s) = c == 13 || c == 10 || contains_crlf s

-- Where the host part ends.
abbrev pub ends_host : ℕ → Bool
ends_host c = c == b'/' || c == b'?'

-- The scan of user and host: what follows the last colon behind the last `@`.
unfoldable pub find_port : Option Bytes → Bytes → Option Bytes
find_port start [] = start
find_port start (c ∷ s) =
    let after = find_port (if c == b'@' then none else if c == b':' then some s else start) s in
    if ends_host c then start else after

-- The digits of the port, with the value and the number of digits so far.
unfoldable pub read_port : ℕ → ℕ → Bytes → Option ℕ
read_port port digits [] = if digits == 0 then none else some port
read_port port digits (c ∷ s) =
    let next = port * 10 + (c - b'0') in
    let after = read_port next (digits + 1) s in
    if ends_host c
    then if digits == 0 then none else some port
    else if is_digit c
    then if ltb 65535 next then none else after
    else none

abbrev pub port_at : Option Bytes → Option ℕ
port_at none = none
port_at (some s) = read_port 0 0 s

abbrev pub strip_scheme : Bytes → Option Bytes
strip_scheme url =
    if starts_with url (bytes "http://")
    then some (drop 7 url)
    else if starts_with url (bytes "https://")
    then some (drop 8 url)
    else none

-- `parse_endpoint_port`; `none` is the result -1.
unfoldable pub parse_endpoint_port : Bytes → Option ℕ
parse_endpoint_port url = elim (strip_scheme url) [
  | none ↦ none
  | some rest ↦ port_at (find_port none rest)
]

-- The checks of the endpoint, in the order of the code; each may clear it.
abbrev pub without_crlf : Bytes → Bytes
without_crlf e = if contains_crlf e then [] else e

unfoldable pub is_http : Bytes → Bool
is_http e = starts_with e (bytes "http://") || starts_with e (bytes "https://")

abbrev pub with_scheme : Bytes → Bytes
with_scheme e = if is_http e then e else []

-- `port != -1 && (port < 1 || port > 65535)`
abbrev pub bad_port : Option ℕ → Bool
bad_port none = false
bad_port (some p) = ltb p 1 || ltb 65535 p

abbrev pub without_bad_port : Bytes → Bytes
without_bad_port e = if bad_port (parse_endpoint_port e) then [] else e

unfoldable pub check_endpoint : Bytes → Bytes
check_endpoint e = without_bad_port (with_scheme (without_crlf e))

abbrev pub positive_or : ℕ → ℤ → ℤ
positive_or d n = if is_positive n then n else pos d

abbrev pub known_version : ℤ → ℤ
known_version n = if is_const n 1 || is_const n 2 then n else pos 2

module _ {D : Doubles} where
  -- `config_validate`
  unfoldable pub config_validate : Config D → Config D
  config_validate c = record c {
    config_file =
        (if leb max_config_file_len (length (Config.config_file c))
          then []
          else Config.config_file c);
    endpoint = check_endpoint (Config.endpoint c);
    interval = (if Doubles.le_zero D (Config.interval c) then Doubles.one D else Config.interval c);
    max_retries = positive_or 5 (Config.max_retries c);
    reconnect_interval = positive_or 5 (Config.reconnect_interval c);
    info_report_interval = positive_or 30 (Config.info_report_interval c);
    protocol_version = known_version (Config.protocol_version c);
  }
