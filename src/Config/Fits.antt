-- ===== src/Config/Fits.antt =====
-- The lengths of the strings of the configuration against its buffers.
use luci_app_komari_agent_c.Prelude.{
  ℕ, ◌-◌, ◌<◌, ◌≤◌, [], ◌∷◌, List, Bool, true, false, Option, none, some, length, leb,
  if◌then◌else◌, arith, length-take, Option-cases, inl, inr,
}
use luci_app_komari_agent_c.Prelude.Chars.{Bytes, bytes, All, str_eq}
use luci_app_komari_agent_c.Utils.Text.{set_string}
use luci_app_komari_agent_c.Config.{
  Doubles, Config, config_init, contains_crlf, is_http, without_crlf, with_scheme, check_endpoint,
  bad_port, parse_endpoint_port, config_validate,
}
use luci_app_komari_agent_c.Config.Load.{
  max_token_len, max_endpoint_len, max_dns_len, max_nics_len, max_mountpoints_len, max_cf_id_len,
  max_cf_secret_len, max_ipv4_len, max_ipv6_len, max_discovery_key_len, Environment,
  get_env_or_empty, config_load_from_env, apply_option, apply_line, uci_option,
  config_parse_uci_line, config_load_from_uci,
}

abbrev pub Fits : Bytes × ℕ → Type 0
Fits (s, size) = length s < size

module _ {D : Doubles} where
  -- The strings of the configuration with the sizes of their buffers.
  abbrev pub buffers : Config D → List (Bytes × ℕ)
  buffers c =
      (Config.token c, max_token_len)
      ∷ (Config.endpoint c, max_endpoint_len)
      ∷ (Config.custom_dns c, max_dns_len)
      ∷ (Config.include_nics c, max_nics_len)
      ∷ (Config.exclude_nics c, max_nics_len)
      ∷ (Config.include_mountpoints c, max_mountpoints_len)
      ∷ (Config.cf_access_client_id c, max_cf_id_len)
      ∷ (Config.cf_access_client_secret c, max_cf_secret_len)
      ∷ (Config.custom_ipv4 c, max_ipv4_len)
      ∷ (Config.custom_ipv6 c, max_ipv6_len)
      ∷ (Config.auto_discovery_key c, max_discovery_key_len)
      ∷ (Config.config_file c, 512)
      ∷ []

  -- Each string leaves room for its NUL.
  abbrev pub FitsBuffers : Config D → Type 0
  FitsBuffers c = All Fits (buffers c)

set_string_fits : (size : ℕ) (s : Bytes) → 0 < size → length (set_string size s) < size
set_string_fits size s h = ground (arith, length-take (size - 1) s)

env_fits :
    (v : Option Bytes) (size : ℕ) (old : Bytes)
    → 0 < size
    → length old < size
    → length (get_env_or_empty v size old) < size
env_fits none size old h k = k
env_fits (some v) size old h k = set_string_fits size v h

cleared_shorter : (b : Bool) (e : Bytes) → length (if b then [] else e) ≤ length e
cleared_shorter true e = omega arith
cleared_shorter false e = omega arith

kept_shorter : (b : Bool) (e : Bytes) → length (if b then e else []) ≤ length e
kept_shorter true e = omega arith
kept_shorter false e = omega arith

check_endpoint_shorter : (e : Bytes) → length (check_endpoint e) ≤ length e
unfolding check_endpoint
check_endpoint_shorter e =
    let a = without_crlf e in
    let b = with_scheme a in
    omega (
      arith,
      cleared_shorter (contains_crlf e) e,
      kept_shorter (is_http a) a,
      cleared_shorter (bad_port (parse_endpoint_port b)) b,
    )

module _ {D : Doubles} where
  pick :
      (b : Bool) (x y : Config D) → FitsBuffers x → FitsBuffers y → FitsBuffers (if b then x else y)
  pick true x y p q = p
  pick false x y p q = q

  env-FitsBuffers :
      (env : Environment) (c : Config D) → FitsBuffers c → FitsBuffers (config_load_from_env env c)
  unfolding config_load_from_env
  env-FitsBuffers env c (a, (b, (d, (e, (f, (g, (h, (i, (j, (k, (l, (m, n)))))))))))) = (
    env_fits (env (bytes "AGENT_TOKEN")) max_token_len (Config.token c) (omega arith) a,
    (
      env_fits (env (bytes "AGENT_ENDPOINT")) max_endpoint_len (Config.endpoint c) (omega arith) b,
      (
        env_fits (env (bytes "AGENT_CUSTOM_DNS")) max_dns_len (Config.custom_dns c) (omega arith) d,
        (
          env_fits (env (bytes "AGENT_INCLUDE_NICS")) max_nics_len (Config.include_nics c)
              (omega arith) e,
          (
            env_fits (env (bytes "AGENT_EXCLUDE_NICS")) max_nics_len (Config.exclude_nics c)
                (omega arith) f,
            (
              env_fits (env (bytes "AGENT_INCLUDE_MOUNTPOINTS")) max_mountpoints_len
                  (Config.include_mountpoints c) (omega arith) g,
              (
                env_fits (env (bytes "AGENT_CF_ACCESS_CLIENT_ID")) max_cf_id_len
                    (Config.cf_access_client_id c) (omega arith) h,
                (
                  env_fits (env (bytes "AGENT_CF_ACCESS_CLIENT_SECRET")) max_cf_secret_len
                      (Config.cf_access_client_secret c) (omega arith) i,
                  (
                    env_fits (env (bytes "AGENT_CUSTOM_IPV4")) max_ipv4_len (Config.custom_ipv4 c)
                        (omega arith) j,
                    (
                      env_fits (env (bytes "AGENT_CUSTOM_IPV6")) max_ipv6_len (Config.custom_ipv6 c)
                          (omega arith) k,
                      (
                        env_fits (env (bytes "AGENT_AUTO_DISCOVERY_KEY")) max_discovery_key_len
                            (Config.auto_discovery_key c) (omega arith) l,
                        (
                          env_fits (env (bytes "AGENT_CONFIG_FILE")) 512 (Config.config_file c)
                              (omega arith) m,
                          n,
                        ),
                      ),
                    ),
                  ),
                ),
              ),
            ),
          ),
        ),
      ),
    ),
  )

  validate-FitsBuffers : (c : Config D) → FitsBuffers c → FitsBuffers (config_validate c)
  unfolding config_validate
  validate-FitsBuffers c (a, (b, (d, (e, (f, (g, (h, (i, (j, (k, (l, (m, n)))))))))))) = (
    a,
    (
      omega (arith, check_endpoint_shorter (Config.endpoint c)),
      (
        d,
        (
          e,
          (
            f,
            (
              g,
              (
                h,
                (
                  i,
                  (
                    j,
                    (
                      k,
                      (
                        l,
                        (
                          omega (
                            arith,
                            cleared_shorter (leb 512 (length (Config.config_file c)))
                                (Config.config_file c),
                          ),
                          n,
                        ),
                      ),
                    ),
                  ),
                ),
              ),
            ),
          ),
        ),
      ),
    ),
  )

  option-FitsBuffers :
      (key v : Bytes) (c : Config D) → FitsBuffers c → FitsBuffers (apply_option key v c)
  unfolding apply_option
  option-FitsBuffers key v c fits =
      let (a, (b, (d, (e, (f, (g, (h, (i, (j, (k, (l, (m, n)))))))))))) = fits in
      pick (str_eq key (bytes "token")) _ _
        (
          set_string_fits max_token_len v (omega arith),
          (b, (d, (e, (f, (g, (h, (i, (j, (k, (l, (m, n))))))))))),
        )
        (pick (str_eq key (bytes "endpoint")) _ _
          (
            a,
            (
              set_string_fits max_endpoint_len v (omega arith),
              (d, (e, (f, (g, (h, (i, (j, (k, (l, (m, n)))))))))),
            ),
          )
          (pick (str_eq key (bytes "interval")) _ _ fits (
            pick (str_eq key (bytes "disable_web_ssh")) _ _ fits (
              pick (str_eq key (bytes "ignore_unsafe_cert")) _ _ fits (
                pick (str_eq key (bytes "custom_dns")) _ _
                  (
                    a,
                    (
                      b,
                      (
                        set_string_fits max_dns_len v (omega arith),
                        (e, (f, (g, (h, (i, (j, (k, (l, (m, n))))))))),
                      ),
                    ),
                  )
                  (pick (str_eq key (bytes "max_retries")) _ _ fits (
                    pick (str_eq key (bytes "reconnect_interval")) _ _ fits (
                      pick (str_eq key (bytes "info_report_interval")) _ _ fits (
                        pick (str_eq key (bytes "month_rotate")) _ _ fits (
                          pick (str_eq key (bytes "protocol_version")) _ _ fits (
                            pick (str_eq key (bytes "enable_gpu")) _ _ fits (
                              pick (str_eq key (bytes "disable_compression")) _ _ fits (
                                pick (str_eq key (bytes "disable_auto_update")) _ _ fits (
                                  pick (str_eq key (bytes "auto_discovery_key")) _ _
                                    (
                                      a,
                                      (
                                        b,
                                        (
                                          d,
                                          (
                                            e,
                                            (
                                              f,
                                              (
                                                g,
                                                (
                                                  h,
                                                  (
                                                    i,
                                                    (
                                                      j,
                                                      (
                                                        k,
                                                        (
                                                          set_string_fits max_discovery_key_len v
                                                            (omega arith),
                                                          (m, n),
                                                        ),
                                                      ),
                                                    ),
                                                  ),
                                                ),
                                              ),
                                            ),
                                          ),
                                        ),
                                      ),
                                    )
                                    (fits)))))))))))))))

  line-FitsBuffers : (line : Bytes) (c : Config D) → FitsBuffers c → FitsBuffers (apply_line line c)
  unfolding apply_line config_parse_uci_line
  line-FitsBuffers line c f = elim (Option-cases (uci_option line)) [
    | inl e ↦ rw (apply_line, config_parse_uci_line, e) f
    | inr ((key, v), e) ↦ rw (apply_line, config_parse_uci_line, e) (option-FitsBuffers key v c f)
  ]

  uci-FitsBuffers :
      (ls : List Bytes) (c : Config D) → FitsBuffers c → FitsBuffers (config_load_from_uci ls c)
  unfolding config_load_from_uci
  uci-FitsBuffers [] c f = f
  uci-FitsBuffers (l ∷ ls) c f = uci-FitsBuffers ls (apply_line l c) (line-FitsBuffers l c f)

  -- The configurations that the program makes: its sources are read in any order, and it may be
  -- validated in between.
  pub data Loaded : Config D → Type 0 where
    initial : Loaded (config_init D)
    from_env : {c : Config D} → Loaded c → (env : Environment) → Loaded (config_load_from_env env c)
    from_uci : {c : Config D} → Loaded c → (ls : List Bytes) → Loaded (config_load_from_uci ls c)
    validated : {c : Config D} → Loaded c → Loaded (config_validate c)

  -- Whatever the environment and the UCI lines hold, and in whatever order they are read and the
  -- configuration is validated, each string is shorter than its buffer.
  pub Loaded-FitsBuffers : (c : Config D) → Loaded c → FitsBuffers c
  Loaded-FitsBuffers c initial = ground arith
  Loaded-FitsBuffers c (from_env {c = old} l env) =
      env-FitsBuffers env old (Loaded-FitsBuffers old l)
  Loaded-FitsBuffers c (from_uci {c = old} l ls) = uci-FitsBuffers ls old (Loaded-FitsBuffers old l)
  Loaded-FitsBuffers c (validated {c = old} l) = validate-FitsBuffers old (Loaded-FitsBuffers old l)
