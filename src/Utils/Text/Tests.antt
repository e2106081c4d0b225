-- ===== src/Utils/Text/Tests.antt =====
-- Runs of the helpers.
use luci_app_komari_agent_c.Prelude.{◌≡◌, refl, true}
use luci_app_komari_agent_c.Prelude.Chars.{bytes}
use luci_app_komari_agent_c.Utils.Text.{str_trim, trim_start, trim_end, str_ends_with}

str_trim_blanks : str_trim (bytes "  a b  ") ≡ bytes "a b"
unfolding str_trim trim_start trim_end
str_trim_blanks = refl

str_ends_with_script : str_ends_with (bytes "agent.sh") (bytes ".sh") ≡ true
str_ends_with_script = refl
