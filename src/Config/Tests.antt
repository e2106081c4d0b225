-- ===== src/Config/Tests.antt =====
-- A configuration, with whole numbers for `double`.
use luci_app_komari_agent_c.Prelude.{ℕ, ◌≡◌, refl, [], ◌∷◌, ◌++◌, true, false, some, ◌==◌, arith}
use luci_app_komari_agent_c.Prelude.Chars.{Bytes, bytes, All}
use luci_app_komari_agent_c.Prelude.Integer.{pos, negsuc}
use luci_app_komari_agent_c.Prelude.Strtol.{decimal}
use luci_app_komari_agent_c.Config.{
  Doubles, Config, config_init, contains_crlf, is_http, find_port, read_port, parse_endpoint_port,
  check_endpoint, config_validate,
}
use luci_app_komari_agent_c.Config.Load.{
  Environment, config_load_from_env, apply_option, config_parse_uci_line,
}
use luci_app_komari_agent_c.Config.Endpoint.{check_endpoint_port}
use luci_app_komari_agent_c.Config.Fits.{Fits, buffers, initial, from_env, Loaded-FitsBuffers}
use luci_app_komari_agent_c.Config.Sound.{is_good, config_validate_good}
use luci_app_komari_agent_c.Config.Options.{token_option, config_parse_uci_line-with_option}

abbrev whole : Doubles
whole = record { Value = ℕ; atof = decimal; one = 1; le_zero = λ n. n == 0; one_positive = refl }

-- A broken configuration.
abbrev broken : Config whole
broken = record (config_init whole) {
  endpoint = bytes "ftp://komari.example";
  interval = 0;
  max_retries = negsuc 2;
  protocol_version = pos 7;
}

abbrev usable : Config whole
usable = record (config_init whole) { endpoint = bytes "https://komari.example:25774" }

config_validate_good_example : is_good (config_validate broken) ≡ true
config_validate_good_example = config_validate_good broken

usable_good : is_good usable ≡ true
unfolding contains_crlf is_http parse_endpoint_port find_port read_port
usable_good = refl

-- An environment with one variable.
abbrev one_variable : Environment
one_variable name = some (bytes "wan,lan")

Loaded-FitsBuffers_example :
    All Fits (buffers (config_load_from_env one_variable (config_init whole)))
Loaded-FitsBuffers_example =
    Loaded-FitsBuffers (config_load_from_env one_variable (config_init whole))
      (from_env initial one_variable)

high_crlf : contains_crlf (bytes "http://komari.example:70000") ≡ false
unfolding contains_crlf
high_crlf = refl

check_endpoint_port_example :
    check_endpoint (bytes "http://komari.example:70000") ≡ bytes "http://komari.example:70000"
check_endpoint_port_example =
    check_endpoint_port false (bytes "komari.example") [] b'7' (bytes "0000") refl refl refl
      high_crlf

abbrev token_line : Bytes
token_line = bytes "komari-agent-c.komari-agent-c.token='abc'" ++ (10 ∷ [])

config_parse_uci_line-with_option_example :
    config_parse_uci_line token_line (config_init whole)
    ≡ some (record (config_init whole) { token = bytes "abc" })
config_parse_uci_line-with_option_example =
    config_parse_uci_line-with_option token_option (bytes "komari-agent-c.komari-agent-c")
      (bytes "abc") (config_init whole) (omega arith) refl refl refl (omega arith) refl

-- An option that the init script passes by the environment, and that the parser does not know.
ignored_option :
    apply_option (bytes "include_nics") (bytes "wan") (config_init whole) ≡ config_init whole
unfolding apply_option
ignored_option = refl
