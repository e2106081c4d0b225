-- ===== src/Websocket/Lifecycle/Connects.antt =====
-- When `ws_client_connect` succeeds, and what a connection over an open one does.
use luci_app_komari_agent_c.Prelude.{
  ℕ, ◌+◌, ◌-◌, ◌≡◌, refl, sym, ap, ◌∙◌, [], ◌∷◌, inl, inr, Bool-cases, List, Option, none, some,
  Bool, true, false, not, ltb, if◌then◌else◌, ◌&&◌, ◌||◌, arith,
}
use luci_app_komari_agent_c.Prelude.Chars.{Bytes, bytes, str_eq}
use luci_app_komari_agent_c.Protocol.State.{should_fallback_to_v1}
use luci_app_komari_agent_c.Protocol.Fallback.{Client, should_use_current_protocol}
use luci_app_komari_agent_c.Websocket.Url.{Url, parse_url}
use luci_app_komari_agent_c.Websocket.Lifecycle.{
  Handle, Answers, request_path, ws_client_disconnect, any, start_thread, finish, after_handshake,
  start_tls, on_addresses, on_url, ws_client_connect,
}
use luci_app_komari_agent_c.Websocket.Lifecycle.Invariant.{IsConsistent}

-- One of the addresses answers.
abbrev pub one_answers : List Bool → Bool
one_answers [] = false
one_answers (true ∷ bs) = true
one_answers (false ∷ bs) = one_answers bs

any-one_answers : (bs : List Bool) → any bs ≡ one_answers bs
any-one_answers [] = refl
any-one_answers (true ∷ bs) = refl
any-one_answers (false ∷ bs) = any-one_answers bs

abbrev pub some_address : Option (List Bool) → Bool
some_address none = false
some_address (some results) = one_answers results

-- The path that the server has for the protocol: the v2 one until three failures in a row.
abbrev pub path_of : ℕ → Bytes
path_of failures =
    if ltb failures 3 then bytes "/api/clients/v2/rpc" else bytes "/api/clients/report"

request_path_of : (c : Client) → request_path c ≡ path_of c.v2_state.fail_count
unfolding request_path should_use_current_protocol should_fallback_to_v1
request_path_of c = ground arith

-- The answers that a connection needs from a host, by whether it uses TLS.
abbrev host_accepts : Answers → Bool → Bytes → Client → Bool
host_accepts a tls host c =
    (not tls || a.context && (a.ssl && a.ssl_connect))
    && (a.handshake host (path_of c.v2_state.fail_count) && (not a.stopped && a.thread))

abbrev url_accepts : Answers → Option Url → Client → Bool
url_accepts a none c = false
url_accepts a (some url) c =
    some_address (a.addresses (Url.host url) (Url.port url))
    && host_accepts a (str_eq (Url.scheme url) (bytes "wss")) (Url.host url) c

-- The endpoint is a URL whose host has an address that answers, its TLS and its handshake succeed,
-- for the v2 path if fewer than three attempts in a row have failed and for the v1 path otherwise, nobody asks to stop meanwhile, and the thread starts.
abbrev pub accepts : Answers → Bytes → Client → Bool
accepts a endpoint c = url_accepts a (parse_url endpoint) c

-- A result with the state that it promises.
abbrev Promises : Bool → Handle × Bool → Type 0
Promises ok r = (r.1 ≡ ok) × (r.0.fd ≡ ok) × (r.0.connected ≡ ok)

-- No context is held, and `n` are not released.
abbrev Loses : ℕ → Handle × Bool → Type 0
Loses n r = (r.0.ssl_ctx ≡ false) × (r.0.contexts ≡ n)

module _ (a : Answers) where
  finish-Promises :
      (h : Handle)
      → h.fd ≡ true
      → h.connected ≡ false
      → Promises (not h.should_stop && (not a.stopped && a.thread)) (finish a h)
  unfolding finish start_thread
  finish-Promises h opened quiet = ground arith

  after_handshake-Promises :
      (host : Bytes) (h : Handle)
      → h.fd ≡ true
      → h.connected ≡ false
      → Promises
          (not h.should_stop
            && (a.handshake host (path_of h.client.v2_state.fail_count)
                && (not a.stopped && a.thread)))
          (after_handshake a host h)
  unfolding after_handshake
  after_handshake-Promises host h opened quiet =
      rw (request_path_of h.client) (ground (arith, finish-Promises h))

  start_tls-Promises :
      (host : Bytes) (h : Handle)
      → h.fd ≡ true
      → h.connected ≡ false
      → Promises (not h.should_stop && host_accepts a true host h.client) (start_tls a host h)
  unfolding start_tls
  start_tls-Promises host h opened quiet = ground (
    arith,
    after_handshake-Promises host
        (record h { ssl_ctx = true; contexts = h.contexts + 1; ssl = true; ssls = h.ssls + 1 }),
  )

  on_addresses-Promises :
      (host : Bytes) (o : Option (List Bool)) (h : Handle)
      → h.connected ≡ false
      → h.fd ≡ false
      → Promises
          (not h.should_stop && (some_address o && host_accepts a h.use_tls host h.client))
          (on_addresses a host o h)
  on_addresses-Promises host none h quiet closed = ground arith
  on_addresses-Promises host (some results) h quiet closed = rw (any-one_answers results) (
      ground (
        arith,
        start_tls-Promises host (record h { fd = true; sockets = h.sockets + 1 }),
        after_handshake-Promises host (record h { fd = true; sockets = h.sockets + 1 }),
      ))

  on_url-Promises :
      (o : Option Url) (h : Handle)
      → h.connected ≡ false
      → h.fd ≡ false
      → Promises (not h.should_stop && url_accepts a o h.client) (on_url a o h)
  on_url-Promises none h quiet closed = ground arith
  on_url-Promises (some url) h quiet closed =
      on_addresses-Promises (Url.host url) (a.addresses (Url.host url) (Url.port url))
        (record h { use_tls = str_eq (Url.scheme url) (bytes "wss") }) quiet closed

  connect_closed :
      (endpoint : Bytes) (h : Handle)
      → h.fd ≡ false
      → ws_client_connect a endpoint h
        ≡ on_url a (parse_url endpoint) (record h { should_stop = false })
  unfolding ws_client_connect
  connect_closed endpoint h e = rw e refl

  connect_open :
      (endpoint : Bytes) (h : Handle)
      → h.fd ≡ true
      → ws_client_connect a endpoint h
        ≡ on_url a
            (parse_url endpoint)
            (ws_client_disconnect a.receive_fails (record h { should_stop = false }))
  unfolding ws_client_connect
  connect_open endpoint h e = rw e refl

  closed-Promises :
      (endpoint : Bytes) (h : Handle)
      → h.fd ≡ false
      → h.connected ≡ false
      → Promises (accepts a endpoint h.client) (ws_client_connect a endpoint h)
  closed-Promises endpoint h closed quiet =
      rw (connect_closed endpoint h closed)
        (on_url-Promises (parse_url endpoint) (record h { should_stop = false }) quiet closed)

  open-Promises :
      (endpoint : Bytes) (h : Handle)
      → h.fd ≡ true
      → Promises false (ws_client_connect a endpoint h)
  unfolding ws_client_disconnect
  open-Promises endpoint h opened = rw (connect_open endpoint h opened) (
      on_url-Promises (parse_url endpoint)
        (ws_client_disconnect a.receive_fails (record h { should_stop = false })) refl refl)

  -- From a consistent state, a connection succeeds exactly if no socket was open before and every
  -- answer is as it needs; then the client has an open socket and is connected, and otherwise it has
  -- no socket and is not connected. Over a socket that is still open it fails, whatever the answers.
  pub ws_client_connect-accepts :
      (endpoint : Bytes) (h : Handle)
      → IsConsistent h
      → let (h', ok) = ws_client_connect a endpoint h in
        (ok ≡ not h.fd && accepts a endpoint h.client) × (h'.fd ≡ ok) × (h'.connected ≡ ok)
  ws_client_connect-accepts endpoint h k = elim (Bool-cases h.fd) [
    | inl opened ↦
        let (p, q, r) = open-Promises endpoint h opened in
        (
          p ∙ sym (ap (λ (b : Bool). not b && accepts a endpoint h.client) opened),
          q ∙ sym p,
          r ∙ sym p,
        )
    | inr closed ↦
        let (p, q, r) = closed-Promises endpoint h closed (grind arith) in
        (
          p ∙ sym (ap (λ (b : Bool). not b && accepts a endpoint h.client) closed),
          q ∙ sym p,
          r ∙ sym p,
        )
  ]

  finish-Loses :
      (h : Handle) → h.should_stop ≡ true → h.ssl_ctx ≡ true → Loses (h.contexts - 1) (finish a h)
  unfolding finish
  finish-Loses h stop held = ground arith

  after_handshake-Loses :
      (host : Bytes) (h : Handle)
      → h.should_stop ≡ true
      → h.ssl_ctx ≡ true
      → Loses (h.contexts - 1) (after_handshake a host h)
  unfolding after_handshake
  after_handshake-Loses host h stop held = ground (arith, finish-Loses h)

  start_tls-Loses :
      (host : Bytes) (h : Handle) → h.should_stop ≡ true → Loses h.contexts (start_tls a host h)
  unfolding start_tls
  start_tls-Loses host h stop = ground (
    arith,
    after_handshake-Loses host
        (record h { ssl_ctx = true; contexts = h.contexts + 1; ssl = true; ssls = h.ssls + 1 }),
  )

  on_addresses-Loses :
      (host : Bytes) (o : Option (List Bool)) (h : Handle)
      → h.should_stop ≡ true
      → h.use_tls ≡ true
      → some_address o ≡ true
      → Loses h.contexts (on_addresses a host o h)
  on_addresses-Loses host none h stop tls reached = ground arith
  on_addresses-Loses host (some results) h stop tls reached =
      rw (any-one_answers results)
        (ground (arith, start_tls-Loses host (record h { fd = true; sockets = h.sockets + 1 })))

  -- A connection by TLS that is made over an open socket loses the `SSL_CTX` of the earlier one: if
  -- the URL has an address that answers, then whatever OpenSSL answers the client holds no context at
  -- the end, and as many contexts as before are not released.
  pub ws_client_connect_leaks :
      (endpoint : Bytes) (url : Url) (h : Handle)
      → h.fd ≡ true
      → parse_url endpoint ≡ some url
      → str_eq (Url.scheme url) (bytes "wss") ≡ true
      → some_address (a.addresses (Url.host url) (Url.port url)) ≡ true
      → let (h', _) = ws_client_connect a endpoint h in
        (h'.ssl_ctx ≡ false) × (h'.contexts ≡ h.contexts)
  unfolding ws_client_disconnect
  ws_client_connect_leaks endpoint url h opened parsed tls reached =
      let ready = ws_client_disconnect a.receive_fails (record h { should_stop = false }) in
      rw (connect_open endpoint h opened, parsed)
        (on_addresses-Loses (Url.host url) (a.addresses (Url.host url) (Url.port url))
          (record ready { use_tls = str_eq (Url.scheme url) (bytes "wss") }) refl tls reached)
