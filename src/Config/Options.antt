-- ===== src/Config/Options.antt =====
-- The options of `uci show` that src/config/config.c reads, by the field that each stands for.
use luci_app_komari_agent_c.Prelude.{
  ◌+◌, ◌<◌, ◌≡◌, refl, ap, ◌∙◌, Bool, true, ◌&&◌, ◌||◌, some, length, ltb, arith,
}
use luci_app_komari_agent_c.Prelude.Chars.{Bytes, bytes, str_eq}
use luci_app_komari_agent_c.Prelude.Strtol.{absent}
use luci_app_komari_agent_c.Prelude.Integer.{atoi}
use luci_app_komari_agent_c.Config.{Doubles, Config}
use luci_app_komari_agent_c.Config.Load.{apply_option, config_parse_uci_line}
use luci_app_komari_agent_c.Config.Uci.{
  uci_line, starts_plain, ends_plain, set_string_kept, config_parse_uci_line-uci_line,
}

pub data UciOption : Type 0 where
  token_option : UciOption
  endpoint_option : UciOption
  interval_option : UciOption
  disable_web_ssh_option : UciOption
  ignore_unsafe_cert_option : UciOption
  custom_dns_option : UciOption
  max_retries_option : UciOption
  reconnect_interval_option : UciOption
  info_report_interval_option : UciOption
  month_rotate_option : UciOption
  protocol_version_option : UciOption
  enable_gpu_option : UciOption
  disable_compression_option : UciOption
  disable_auto_update_option : UciOption
  auto_discovery_key_option : UciOption

-- The name that LuCI gives it.
abbrev pub option_name : UciOption → Bytes
option_name token_option = bytes "token"
option_name endpoint_option = bytes "endpoint"
option_name interval_option = bytes "interval"
option_name disable_web_ssh_option = bytes "disable_web_ssh"
option_name ignore_unsafe_cert_option = bytes "ignore_unsafe_cert"
option_name custom_dns_option = bytes "custom_dns"
option_name max_retries_option = bytes "max_retries"
option_name reconnect_interval_option = bytes "reconnect_interval"
option_name info_report_interval_option = bytes "info_report_interval"
option_name month_rotate_option = bytes "month_rotate"
option_name protocol_version_option = bytes "protocol_version"
option_name enable_gpu_option = bytes "enable_gpu"
option_name disable_compression_option = bytes "disable_compression"
option_name disable_auto_update_option = bytes "disable_auto_update"
option_name auto_discovery_key_option = bytes "auto_discovery_key"

abbrev pub is_true : Bytes → Bool
is_true v = str_eq v (bytes "1") || str_eq v (bytes "true")

-- A value of a line fits the buffer of each option but the one for the name servers, of 128 bytes.
abbrev pub fits_option : UciOption → Bytes → Bool
fits_option custom_dns_option v = ltb (length v) 128
fits_option _ v = true

abbrev is_name : Bytes → Bool
is_name s = absent b'=' s && (absent b'.' s && ltb (length s) 64)

option_name-is_name : (o : UciOption) → is_name (option_name o) ≡ true
option_name-is_name token_option = refl
option_name-is_name endpoint_option = refl
option_name-is_name interval_option = refl
option_name-is_name disable_web_ssh_option = refl
option_name-is_name ignore_unsafe_cert_option = refl
option_name-is_name custom_dns_option = refl
option_name-is_name max_retries_option = refl
option_name-is_name reconnect_interval_option = refl
option_name-is_name info_report_interval_option = refl
option_name-is_name month_rotate_option = refl
option_name-is_name protocol_version_option = refl
option_name-is_name enable_gpu_option = refl
option_name-is_name disable_compression_option = refl
option_name-is_name disable_auto_update_option = refl
option_name-is_name auto_discovery_key_option = refl

equals_absent : (s : Bytes) → is_name s ≡ true → absent b'=' s ≡ true
equals_absent s h = ground arith

dot_absent : (s : Bytes) → is_name s ≡ true → absent b'.' s ≡ true
dot_absent s h = ground arith

name_short : (s : Bytes) → is_name s ≡ true → length s < 64
name_short s h = ground arith

module _ {D : Doubles} where
  -- The configuration with the field of the option as the value says: a text as it stands, a number by
  -- `atoi` or `atof`, and a switch that is on for 1 and true.
  abbrev pub with_option : UciOption → Bytes → Config D → Config D
  with_option token_option v c = record c { token = v }
  with_option endpoint_option v c = record c { endpoint = v }
  with_option interval_option v c = record c { interval = Doubles.atof D v }
  with_option disable_web_ssh_option v c = record c { disable_web_ssh = is_true v }
  with_option ignore_unsafe_cert_option v c = record c { ignore_unsafe_cert = is_true v }
  with_option custom_dns_option v c = record c { custom_dns = v }
  with_option max_retries_option v c = record c { max_retries = atoi v }
  with_option reconnect_interval_option v c = record c { reconnect_interval = atoi v }
  with_option info_report_interval_option v c = record c { info_report_interval = atoi v }
  with_option month_rotate_option v c = record c { month_rotate = atoi v }
  with_option protocol_version_option v c = record c { protocol_version = atoi v }
  with_option enable_gpu_option v c = record c { enable_gpu = is_true v }
  with_option disable_compression_option v c = record c { disable_compression = is_true v }
  with_option disable_auto_update_option v c = record c { disable_auto_update = is_true v }
  with_option auto_discovery_key_option v c = record c { auto_discovery_key = v }

  apply_option-with_option :
      (o : UciOption) (v : Bytes) (c : Config D)
      → length v + 2 < 256
      → fits_option o v ≡ true
      → apply_option (option_name o) v c ≡ with_option o v c
  unfolding apply_option
  apply_option-with_option token_option v c h f = rw (set_string_kept 256 v (omega arith)) refl
  apply_option-with_option endpoint_option v c h f = rw (set_string_kept 512 v (omega arith)) refl
  apply_option-with_option interval_option v c h f = refl
  apply_option-with_option disable_web_ssh_option v c h f = refl
  apply_option-with_option ignore_unsafe_cert_option v c h f = refl
  apply_option-with_option custom_dns_option v c h f =
      let short : length v < 128 = ground arith in rw (set_string_kept 128 v short) refl
  apply_option-with_option max_retries_option v c h f = refl
  apply_option-with_option reconnect_interval_option v c h f = refl
  apply_option-with_option info_report_interval_option v c h f = refl
  apply_option-with_option month_rotate_option v c h f = refl
  apply_option-with_option protocol_version_option v c h f = refl
  apply_option-with_option enable_gpu_option v c h f = refl
  apply_option-with_option disable_compression_option v c h f = refl
  apply_option-with_option disable_auto_update_option v c h f = refl
  apply_option-with_option auto_discovery_key_option v c h f =
      rw (set_string_kept 256 v (omega arith)) refl

-- A line `section.option='value'` of `uci show`, of at most 511 bytes with its line feed, for one of
-- the 15 options that the parser knows, sets the field of that option and no other: a text to the
-- value, a number to what `atoi` or `atof` reads, a switch to whether the value is 1 or true. The
-- section may hold dots but no `=`; the value has at most 253 bytes, for the name servers at most 127,
-- and neither begins nor ends with a blank, a quote or a line feed.
pub config_parse_uci_line-with_option :
    {D : Doubles} (o : UciOption) (section value : Bytes) (c : Config D)
    → length (uci_line section (option_name o) value) < 512
    → absent b'=' section ≡ true
    → starts_plain value ≡ true
    → ends_plain value ≡ true
    → length value + 2 < 256
    → fits_option o value ≡ true
    → config_parse_uci_line (uci_line section (option_name o) value) c
      ≡ some (with_option o value c)
config_parse_uci_line-with_option o section value c l a p q short f =
    let named = option_name-is_name o in
    config_parse_uci_line-uci_line section (option_name o) value c l a
      (equals_absent (option_name o) named) (dot_absent (option_name o) named)
      (name_short (option_name o) named) p q short
    ∙ ap (λ c'. some c') (apply_option-with_option o value c short f)
