-- ===== src/Config/Sound.antt =====
-- What a validated configuration guarantees to the rest of the agent.
use luci_app_komari_agent_c.Prelude.{
  ℕ, zero, suc, ◌<◌, ◌≡◌, refl, ap, ◌∙◌, [], ◌∷◌, Bool, true, false, not, ◌&&◌, ◌||◌, none, length,
  leb, ltb, if◌then◌else◌, arith, Bool-cases, inl, inr,
}
use luci_app_komari_agent_c.Prelude.Chars.{Bytes, bytes, starts_with}
use luci_app_komari_agent_c.Prelude.Strtol.{absent}
use luci_app_komari_agent_c.Config.Port.{has_port_zero, behind_scheme, bad_port-behind_scheme}
use luci_app_komari_agent_c.Prelude.Integer.{ℤ, pos, negsuc, is_positive, is_const}
use luci_app_komari_agent_c.Config.{
  Doubles, Config, contains_crlf, is_http, parse_endpoint_port, bad_port, check_endpoint,
  positive_or, known_version, config_validate,
}

-- An endpoint without CR and LF, with a scheme of HTTP, and without a port of digits that is zero.
abbrev pub is_endpoint : Bytes → Bool
is_endpoint e =
    (absent 13 e && absent 10 e)
    && ((starts_with e (bytes "http://") || starts_with e (bytes "https://"))
        && not (has_port_zero (behind_scheme e)))

-- An empty endpoint counts as not configured.
abbrev pub is_usable : Bytes → Bool
is_usable [] = true
is_usable (c ∷ e) = is_endpoint (c ∷ e)

module _ {D : Doubles} where
  abbrev pub is_good : Config D → Bool
  is_good c =
      ltb (length (Config.config_file c)) 512
      && is_usable (Config.endpoint c)
      && not (Doubles.le_zero D (Config.interval c))
      && is_positive (Config.max_retries c)
      && is_positive (Config.reconnect_interval c)
      && is_positive (Config.info_report_interval c)
      && (is_const (Config.protocol_version c) 1 || is_const (Config.protocol_version c) 2)

empty_port : parse_endpoint_port [] ≡ none
unfolding parse_endpoint_port
empty_port = refl

empty_http : is_http [] ≡ false
unfolding is_http
empty_http = refl

contains_crlf-absent : (e : Bytes) → contains_crlf e ≡ not (absent 13 e && absent 10 e)
unfolding contains_crlf
contains_crlf-absent [] = refl
contains_crlf-absent (c ∷ e) = ground (arith, contains_crlf-absent e)

-- The tests of the code, in their order.
abbrev passes : Bytes → Bool
passes e = not (contains_crlf e) && is_http e && not (bad_port (parse_endpoint_port e))

passes-is_endpoint : (e : Bytes) → passes e ≡ is_endpoint e
unfolding is_http
passes-is_endpoint e = elim (Bool-cases (is_http e)) [
  | inl h ↦ rw (contains_crlf-absent e, bad_port-behind_scheme e h) (ground arith)
  | inr h ↦ rw (contains_crlf-absent e) (ground arith)
]

check_passing : (e : Bytes) → check_endpoint e ≡ (if passes e then e else [])
unfolding check_endpoint
check_passing e = elim (Bool-cases (contains_crlf e)) [
  | inl h ↦ rw (check_endpoint, h, empty_http, empty_port) refl
  | inr h ↦ elim (Bool-cases (is_http e)) [
    | inl k ↦ elim (Bool-cases (bad_port (parse_endpoint_port e))) [
      | inl l ↦ rw (check_endpoint, h, k, l) refl
      | inr l ↦ rw (check_endpoint, h, k, l) refl
    ]
    | inr k ↦ rw (check_endpoint, h, k, empty_port) refl
  ]
]

check_endpoint_if : (e : Bytes) → check_endpoint e ≡ (if is_endpoint e then e else [])
check_endpoint_if e =
    check_passing e ∙ ap (λ (b : Bool). if b then e else []) (passes-is_endpoint e)

usable_endpoint : (e : Bytes) → is_endpoint e ≡ true → is_usable e ≡ true
usable_endpoint [] h = refl
usable_endpoint (c ∷ e) h = h

check_endpoint-usable : (e : Bytes) → is_usable (check_endpoint e) ≡ true
check_endpoint-usable e = elim (Bool-cases (is_endpoint e)) [
  | inl h ↦ rw (check_endpoint_if e, h) (usable_endpoint e h)
  | inr h ↦ rw (check_endpoint_if e, h) refl
]

usable-check_endpoint : (e : Bytes) → is_usable e ≡ true → check_endpoint e ≡ e
unfolding contains_crlf
usable-check_endpoint [] h = check_endpoint_if []
usable-check_endpoint (c ∷ e) h = rw (check_endpoint_if (c ∷ e), h) refl

positive_or-positive : (d : ℕ) (n : ℤ) → 0 < d → is_positive (positive_or d n) ≡ true
positive_or-positive zero n h = absurd (omega arith)
positive_or-positive (suc d) (pos zero) h = refl
positive_or-positive (suc d) (pos (suc n)) h = refl
positive_or-positive (suc d) (negsuc n) h = refl

known_version_known :
    (n : ℤ) → (is_const (known_version n) 1 || is_const (known_version n) 2) ≡ true
known_version_known (pos n) = ground arith
known_version_known (negsuc n) = refl

cleared_fits : (s : Bytes) → ltb (length (if leb 512 (length s) then [] else s)) 512 ≡ true
cleared_fits s = ground arith

module _ (D : Doubles) where
  interval_positive :
      (v : Doubles.Value D)
      → Doubles.le_zero D (if Doubles.le_zero D v then Doubles.one D else v) ≡ false
  interval_positive v = elim (Bool-cases (Doubles.le_zero D v)) [
    | inl h ↦ rw (h) (Doubles.one_positive D)
    | inr h ↦ rw (h) h
  ]

module _ {D : Doubles} where
  -- After `config_validate` the path of the configuration file fits its buffer, the endpoint is empty
  -- or has a scheme of HTTP, no CR or LF and no port of digits that is zero, the interval is not zero or less, the retry
  -- and reporting numbers are positive, and the protocol version is 1 or 2.
  pub config_validate_good : (c : Config D) → is_good (config_validate c) ≡ true
  unfolding config_validate
  config_validate_good c =
      rw
        (
          cleared_fits (Config.config_file c),
          check_endpoint-usable (Config.endpoint c),
          interval_positive D (Config.interval c),
          positive_or-positive 5 (Config.max_retries c) (omega arith),
          positive_or-positive 5 (Config.reconnect_interval c) (omega arith),
          positive_or-positive 30 (Config.info_report_interval c) (omega arith),
          known_version_known (Config.protocol_version c),
        )
        refl

  -- A configuration that already satisfies these conditions is not changed.
  pub config_validate_kept : (c : Config D) → is_good c ≡ true → config_validate c ≡ c
  unfolding config_validate
  config_validate_kept c h =
      let file : leb 512 (length (Config.config_file c)) ≡ false = ground arith in
      let endpoint : is_usable (Config.endpoint c) ≡ true = ground arith in
      let interval : Doubles.le_zero D (Config.interval c) ≡ false = ground arith in
      let retries : is_positive (Config.max_retries c) ≡ true = ground arith in
      let reconnect : is_positive (Config.reconnect_interval c) ≡ true = ground arith in
      let report : is_positive (Config.info_report_interval c) ≡ true = ground arith in
      let version : (is_const (Config.protocol_version c) 1
            || is_const (Config.protocol_version c) 2)
          ≡ true =
        ground arith in
      rw
        (
          config_validate,
          file,
          usable-check_endpoint (Config.endpoint c) endpoint,
          interval,
          retries,
          reconnect,
          report,
          version,
        )
        refl
