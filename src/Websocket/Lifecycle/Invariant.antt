-- ===== src/Websocket/Lifecycle/Invariant.antt =====
-- The sockets and SSL objects that exist against those that the client holds.
use luci_app_komari_agent_c.Prelude.{
  ◌+◌, ◌≤◌, ◌≡◌, ◌≢◌, ◌⊎◌, refl, inl, List, Option, none, some, Bool, true, false, if◌then◌else◌,
  arith,
}
use luci_app_komari_agent_c.Prelude.Chars.{Bytes, bytes, str_eq}
use luci_app_komari_agent_c.Protocol.Fallback.{client_create}
use luci_app_komari_agent_c.Websocket.Url.{Url, parse_url}
use luci_app_komari_agent_c.Websocket.Lifecycle.{
  absent, running, Leaving, stop_seen, peer_closed, receive_failed, Handle, Answers, fail,
  ws_client_disconnect, ws_client_stop, thread_exits, ws_client_send_text, ws_client_send_ping,
  start_thread, finish, after_handshake, start_tls, on_addresses, on_url, ws_client_connect,
}

pub record IsConsistent (h : Handle) : Type 0 where
  pub sockets : h.sockets ≡ (if h.fd then 1 else 0)
  pub ssls : h.ssls ≡ (if h.ssl then 1 else 0)
  pub contexts : (if h.ssl_ctx then 1 else 0) ≤ h.contexts
  pub ssl_open : (h.ssl ≡ false) ⊎ (h.fd ≡ true)
  pub thread_open : (h.recv_thread ≡ absent) ⊎ (h.fd ≡ true)
  pub connection_open : (h.connected ≡ false) ⊎ (h.fd ≡ true)
  pub live : (h.connected ≡ false) ⊎ (h.recv_thread ≡ running) ⊎ (h.should_stop ≡ true)

-- `ws_client_create`
abbrev pub handle_create : Handle
handle_create = record {
  fd = false;
  ssl = false;
  ssl_ctx = false;
  recv_thread = absent;
  should_stop = false;
  connected = false;
  use_tls = false;
  client = client_create;
  sockets = 0;
  ssls = 0;
  contexts = 0;
}

ws_client_disconnect-IsConsistent :
    (b : Bool) (h : Handle) → IsConsistent h → IsConsistent (ws_client_disconnect b h)
unfolding ws_client_disconnect
ws_client_disconnect-IsConsistent b h k = grind arith

-- A connection that is being made: its socket is open and its thread not started.
record IsOpening (h : Handle) : Type 0 where
  consistent : IsConsistent h
  opened : h.fd ≡ true
  quiet : h.recv_thread ≡ absent
  closed : h.connected ≡ false

-- After the socket of an earlier connection is closed.
prepared :
    (b : Bool) (h : Handle)
    → IsConsistent h
    → let ready : Handle = record h { should_stop = false } in
      let h' = if h.fd then ws_client_disconnect b ready else ready in
      IsConsistent h' × (h'.fd ≡ false) × (h'.connected ≡ false)
unfolding ws_client_disconnect
prepared b h k = grind arith

-- A socket is opened, or none of the addresses answers.
opening :
    (h : Handle)
    → IsConsistent h
    → h.fd ≡ false
    → h.connected ≡ false
    → IsOpening (record h { fd = true; sockets = h.sockets + 1 }) × (h.ssl ≡ false)
opening h k closed quiet = grind arith

failed :
    (h : Handle)
    → IsConsistent h
    → h.fd ≡ false
    → h.connected ≡ false
    → IsConsistent (fail (record h { fd = false })).0
failed h k closed quiet = grind arith

module _ (a : Answers) where
  start_thread-IsConsistent :
      (h : Handle) → IsOpening h → IsConsistent (start_thread a (record h { connected = true })).0
  unfolding start_thread
  start_thread-IsConsistent h k = grind arith

  finish-IsConsistent : (h : Handle) → IsOpening h → IsConsistent (finish a h).0
  unfolding finish
  finish-IsConsistent h k = grind (arith, start_thread-IsConsistent)

  after_handshake-IsConsistent :
      (host : Bytes) (h : Handle) → IsOpening h → IsConsistent (after_handshake a host h).0
  unfolding after_handshake
  after_handshake-IsConsistent host h k = grind (arith, finish-IsConsistent)

  start_tls-IsConsistent :
      (host : Bytes) (h : Handle)
      → IsOpening h
      → h.ssl ≡ false
      → IsConsistent (start_tls a host h).0
  unfolding start_tls
  start_tls-IsConsistent host h k s = grind (arith, after_handshake-IsConsistent)

  on_addresses-IsConsistent :
      (host : Bytes) (o : Option (List Bool)) (h : Handle)
      → IsConsistent h
      → h.fd ≡ false
      → h.connected ≡ false
      → IsConsistent (on_addresses a host o h).0
  on_addresses-IsConsistent host none h k closed quiet = grind arith
  on_addresses-IsConsistent host (some results) h k closed quiet =
      let opened : Handle = record h { fd = true; sockets = h.sockets + 1 } in
      let o = opening h k closed quiet in
      ground (
        arith,
        failed h k closed quiet,
        start_tls-IsConsistent host opened o.0 o.1,
        after_handshake-IsConsistent host opened o.0,
      )

  on_url-IsConsistent :
      (o : Option Url) (h : Handle)
      → IsConsistent h
      → h.fd ≡ false
      → h.connected ≡ false
      → IsConsistent (on_url a o h).0
  on_url-IsConsistent none h k closed quiet = grind arith
  on_url-IsConsistent (some url) h k closed quiet =
      on_addresses-IsConsistent (Url.host url) (a.addresses (Url.host url) (Url.port url))
        (record h { use_tls = str_eq (Url.scheme url) (bytes "wss") })
        (record {
          sockets = k.sockets;
          ssls = k.ssls;
          contexts = k.contexts;
          ssl_open = k.ssl_open;
          thread_open = k.thread_open;
          connection_open = k.connection_open;
          live = k.live;
        })
        closed quiet

  ws_client_connect-IsConsistent :
      (endpoint : Bytes) (h : Handle)
      → IsConsistent h
      → IsConsistent (ws_client_connect a endpoint h).0
  unfolding ws_client_connect
  ws_client_connect-IsConsistent endpoint h k =
      let p = prepared a.receive_fails h k in on_url-IsConsistent (parse_url endpoint) _ p.0 p.1 p.2

-- What the program does with a client. A thread can only leave its loop while it runs, and for a stop
-- request only if there is one.
pub data Step (endpoint : Bytes) : Handle → Handle → Type 0 where
  connects : (a : Answers) (h : Handle) → Step endpoint h (ws_client_connect a endpoint h).0
  disconnects : (b : Bool) (h : Handle) → Step endpoint h (ws_client_disconnect b h)
  stops : (h : Handle) → Step endpoint h (ws_client_stop h)
  exits :
      (l : Leaving) (h : Handle)
      → h.recv_thread ≡ running
      → (l ≢ stop_seen) ⊎ (h.should_stop ≡ true)
      → Step endpoint h (thread_exits l h)
  sends : (sent : Bool) (h : Handle) → Step endpoint h (ws_client_send_text sent h).0
  pings : (sent : Bool) (h : Handle) → Step endpoint h (ws_client_send_ping sent h).0

pub data Reachable (endpoint : Bytes) : Handle → Type 0 where
  created : Reachable endpoint handle_create
  after : {h h' : Handle} → Reachable endpoint h → Step endpoint h h' → Reachable endpoint h'

Step-IsConsistent :
    (endpoint : Bytes) {h h' : Handle} → Step endpoint h h' → IsConsistent h → IsConsistent h'
unfolding ws_client_stop thread_exits ws_client_send_text ws_client_send_ping
Step-IsConsistent endpoint (connects a h) k = ws_client_connect-IsConsistent a endpoint h k
Step-IsConsistent endpoint (disconnects b h) k = ws_client_disconnect-IsConsistent b h k
Step-IsConsistent endpoint (stops h) k = grind arith
Step-IsConsistent endpoint (exits stop_seen h e s) k = grind arith
Step-IsConsistent endpoint (exits peer_closed h e s) k = grind arith
Step-IsConsistent endpoint (exits receive_failed h e s) k = grind arith
Step-IsConsistent endpoint (sends sent h) k = grind arith
Step-IsConsistent endpoint (pings sent h) k = grind arith

-- After any sequence of connections, disconnections, stop requests, sends and ends of the receive
-- thread from a new client, exactly the socket and the SSL object that the client holds are not
-- released, an SSL object, a thread that is not joined and a connected client have the socket open,
-- and a connected client has a thread that runs unless it was asked to stop.
pub Reachable-IsConsistent : (endpoint : Bytes) (h : Handle) → Reachable endpoint h → IsConsistent h
Reachable-IsConsistent endpoint h created = record {
  sockets = refl;
  ssls = refl;
  contexts = omega arith;
  ssl_open = inl refl;
  thread_open = inl refl;
  connection_open = inl refl;
  live = inl refl;
}
Reachable-IsConsistent endpoint h (after r s) =
    Step-IsConsistent endpoint s (Reachable-IsConsistent endpoint _ r)
