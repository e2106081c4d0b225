-- ===== src/Config/Load.antt =====
-- The environment and the lines of `uci show` as sources of the configuration, src/config/config.c.
use luci_app_komari_agent_c.Prelude.{
  ℕ, [], ◌∷◌, List, Bool, true, false, ◌&&◌, ◌||◌, Option, none, some, ◌==◌, if◌then◌else◌,
}
use luci_app_komari_agent_c.Prelude.Chars.{Bytes, bytes, str_eq, to_lower}
use luci_app_komari_agent_c.Prelude.Chain.{◌>>=◌}
use luci_app_komari_agent_c.Prelude.Integer.{ℤ, atoi}
use luci_app_komari_agent_c.Utils.Text.{set_string}
use luci_app_komari_agent_c.Config.{Doubles, Config, max_config_file_len}

-- The sizes of the buffers, from config.h.
abbrev pub max_token_len : ℕ
max_token_len = 256

abbrev pub max_endpoint_len : ℕ
max_endpoint_len = 512

abbrev pub max_dns_len : ℕ
max_dns_len = 128

abbrev pub max_nics_len : ℕ
max_nics_len = 512

abbrev pub max_mountpoints_len : ℕ
max_mountpoints_len = 512

abbrev pub max_cf_id_len : ℕ
max_cf_id_len = 128

abbrev pub max_cf_secret_len : ℕ
max_cf_secret_len = 256

abbrev pub max_ipv4_len : ℕ
max_ipv4_len = 64

abbrev pub max_ipv6_len : ℕ
max_ipv6_len = 128

abbrev pub max_discovery_key_len : ℕ
max_discovery_key_len = 256

-- `getenv`: the environment is a parameter.
abbrev pub Environment : Type 0
Environment = Bytes → Option Bytes

-- `get_env_or_empty`: a variable that is not set leaves the field as it is.
abbrev pub get_env_or_empty : Option Bytes → ℕ → Bytes → Bytes
get_env_or_empty none size old = old
get_env_or_empty (some v) size old = set_string size v

-- `strcasecmp(a, b) == 0`
abbrev pub str_eq_case : Bytes → Bytes → Bool
str_eq_case [] [] = true
str_eq_case [] (y ∷ ys) = false
str_eq_case (x ∷ xs) [] = false
str_eq_case (x ∷ xs) (y ∷ ys) = (to_lower x == to_lower y) && str_eq_case xs ys

abbrev pub get_env_bool : Option Bytes → Bool → Bool
get_env_bool none default = default
get_env_bool (some v) default =
    if str_eq_case v (bytes "true")
      || str_eq_case v (bytes "1")
      || str_eq_case v (bytes "yes")
      || str_eq_case v (bytes "on")
    then true
    else if str_eq_case v (bytes "false")
        || str_eq_case v (bytes "0")
        || str_eq_case v (bytes "no")
        || str_eq_case v (bytes "off")
    then false
    else default

abbrev pub get_env_int : Option Bytes → ℤ → ℤ
get_env_int none default = default
get_env_int (some v) default = atoi v

abbrev pub get_env_double : (D : Doubles) → Option Bytes → Doubles.Value D → Doubles.Value D
get_env_double D none default = default
get_env_double D (some v) default = Doubles.atof D v

module _ {D : Doubles} where
  -- `config_load_from_env`
  unfoldable pub config_load_from_env : Environment → Config D → Config D
  config_load_from_env env c = record {
    token = get_env_or_empty (env (bytes "AGENT_TOKEN")) max_token_len (Config.token c);
    endpoint = get_env_or_empty (env (bytes "AGENT_ENDPOINT")) max_endpoint_len (Config.endpoint c);
    custom_dns =
        get_env_or_empty (env (bytes "AGENT_CUSTOM_DNS")) max_dns_len (Config.custom_dns c);
    include_nics =
        get_env_or_empty (env (bytes "AGENT_INCLUDE_NICS")) max_nics_len (Config.include_nics c);
    exclude_nics =
        get_env_or_empty (env (bytes "AGENT_EXCLUDE_NICS")) max_nics_len (Config.exclude_nics c);
    include_mountpoints =
        get_env_or_empty (env (bytes "AGENT_INCLUDE_MOUNTPOINTS")) max_mountpoints_len
          (Config.include_mountpoints c);
    cf_access_client_id =
        get_env_or_empty (env (bytes "AGENT_CF_ACCESS_CLIENT_ID")) max_cf_id_len
          (Config.cf_access_client_id c);
    cf_access_client_secret =
        get_env_or_empty (env (bytes "AGENT_CF_ACCESS_CLIENT_SECRET")) max_cf_secret_len
          (Config.cf_access_client_secret c);
    custom_ipv4 =
        get_env_or_empty (env (bytes "AGENT_CUSTOM_IPV4")) max_ipv4_len (Config.custom_ipv4 c);
    custom_ipv6 =
        get_env_or_empty (env (bytes "AGENT_CUSTOM_IPV6")) max_ipv6_len (Config.custom_ipv6 c);
    auto_discovery_key =
        get_env_or_empty (env (bytes "AGENT_AUTO_DISCOVERY_KEY")) max_discovery_key_len
          (Config.auto_discovery_key c);
    config_file =
        get_env_or_empty (env (bytes "AGENT_CONFIG_FILE")) max_config_file_len
          (Config.config_file c);
    interval = get_env_double D (env (bytes "AGENT_INTERVAL")) (Config.interval c);
    max_retries = get_env_int (env (bytes "AGENT_MAX_RETRIES")) (Config.max_retries c);
    reconnect_interval =
        get_env_int (env (bytes "AGENT_RECONNECT_INTERVAL")) (Config.reconnect_interval c);
    info_report_interval =
        get_env_int (env (bytes "AGENT_INFO_REPORT_INTERVAL")) (Config.info_report_interval c);
    month_rotate = get_env_int (env (bytes "AGENT_MONTH_ROTATE")) (Config.month_rotate c);
    protocol_version =
        get_env_int (env (bytes "AGENT_PROTOCOL_VERSION")) (Config.protocol_version c);
    disable_auto_update =
        get_env_bool (env (bytes "AGENT_DISABLE_AUTO_UPDATE")) (Config.disable_auto_update c);
    disable_web_ssh = get_env_bool (env (bytes "AGENT_DISABLE_WEB_SSH")) (Config.disable_web_ssh c);
    ignore_unsafe_cert =
        get_env_bool (env (bytes "AGENT_IGNORE_UNSAFE_CERT")) (Config.ignore_unsafe_cert c);
    memory_include_cache =
        get_env_bool (env (bytes "AGENT_MEMORY_INCLUDE_CACHE")) (Config.memory_include_cache c);
    enable_gpu = get_env_bool (env (bytes "AGENT_ENABLE_GPU")) (Config.enable_gpu c);
    get_ip_addr_from_nic =
        get_env_bool (env (bytes "AGENT_GET_IP_ADDR_FROM_NIC")) (Config.get_ip_addr_from_nic c);
    show_warning = get_env_bool (env (bytes "AGENT_SHOW_WARNING")) (Config.show_warning c);
    disable_compression =
        get_env_bool (env (bytes "AGENT_DISABLE_COMPRESSION")) (Config.disable_compression c);
  }

-- What stands before and behind the first `=`.
unfoldable pub split_eq : Bytes → Option (Bytes × Bytes)
split_eq [] = none
split_eq (c ∷ s) =
    let onward = split_eq s in
    if c == b'='
    then some ([], s)
    else elim onward [ none ↦ none | some (before, after) ↦ some (c ∷ before, after) ]

-- What follows the last dot.
unfoldable pub after_dot : Bytes → Option Bytes
after_dot [] = none
after_dot (c ∷ s) = elim (after_dot s) [
  | some key ↦ some key
  | none ↦ if c == b'.' then some s else none
]

unfoldable pub skip_quotes : Bytes → Bytes
skip_quotes [] = []
skip_quotes (c ∷ s) = let rest = skip_quotes s in if c == b' ' || c == b'\'' then rest else c ∷ s

abbrev pub is_end_quote : ℕ → Bool
is_end_quote c = c == 10 || c == b'\'' || c == b' '

unfoldable pub trim_quotes : Bytes → Bytes
trim_quotes [] = []
trim_quotes (c ∷ s) = elim (trim_quotes s) [
  | [] ↦ if is_end_quote c then [] else c ∷ []
  | d ∷ t ↦ c ∷ d ∷ t
]

abbrev pub is_yes : Bytes → Bool
is_yes v = str_eq v (bytes "1") || str_eq v (bytes "true")

-- The name and the value of an option in a line, by the buffers `line`, `key` and `value`.
unfoldable pub uci_option : Bytes → Option (Bytes × Bytes)
uci_option raw_line = do
  (name, rest) ← split_eq (set_string 512 raw_line)
  key ← after_dot name
  some (set_string 64 key, trim_quotes (set_string 256 (skip_quotes rest)))

module _ {D : Doubles} where
  -- The chain of comparisons of the option's name.
  unfoldable pub apply_option : Bytes → Bytes → Config D → Config D
  apply_option key v c =
      if str_eq key (bytes "token")
      then record c { token = set_string max_token_len v }
      else if str_eq key (bytes "endpoint")
      then record c { endpoint = set_string max_endpoint_len v }
      else if str_eq key (bytes "interval")
      then record c { interval = Doubles.atof D v }
      else if str_eq key (bytes "disable_web_ssh")
      then record c { disable_web_ssh = is_yes v }
      else if str_eq key (bytes "ignore_unsafe_cert")
      then record c { ignore_unsafe_cert = is_yes v }
      else if str_eq key (bytes "custom_dns")
      then record c { custom_dns = set_string max_dns_len v }
      else if str_eq key (bytes "max_retries")
      then record c { max_retries = atoi v }
      else if str_eq key (bytes "reconnect_interval")
      then record c { reconnect_interval = atoi v }
      else if str_eq key (bytes "info_report_interval")
      then record c { info_report_interval = atoi v }
      else if str_eq key (bytes "month_rotate")
      then record c { month_rotate = atoi v }
      else if str_eq key (bytes "protocol_version")
      then record c { protocol_version = atoi v }
      else if str_eq key (bytes "enable_gpu")
      then record c { enable_gpu = is_yes v }
      else if str_eq key (bytes "disable_compression")
      then record c { disable_compression = is_yes v }
      else if str_eq key (bytes "disable_auto_update")
      then record c { disable_auto_update = is_yes v }
      else if str_eq key (bytes "auto_discovery_key")
      then record c { auto_discovery_key = set_string max_discovery_key_len v }
      else c

  -- `config_parse_uci_line`; `none` is the result -1.
  unfoldable pub config_parse_uci_line : Bytes → Config D → Option (Config D)
  config_parse_uci_line raw_line c = elim (uci_option raw_line) [
    | none ↦ none
    | some (key, v) ↦ some (apply_option key v c)
  ]

  -- A line that is not understood leaves the configuration as it is.
  unfoldable pub apply_line : Bytes → Config D → Config D
  apply_line line c = elim (config_parse_uci_line line c) [ none ↦ c | some c' ↦ c' ]

  -- The loop of `config_load_from_uci`.
  unfoldable pub config_load_from_uci : List Bytes → Config D → Config D
  config_load_from_uci [] c = c
  config_load_from_uci (l ∷ ls) c = config_load_from_uci ls (apply_line l c)
