-- ===== src/Websocket/Lifecycle.antt =====
-- The life of a connection: `ws_client_connect`, `ws_client_disconnect`, `ws_client_stop`,
-- `ws_client_send_text` and `ws_client_send_ping` of src/network/websocket.c, over the resources that
-- they create and release. The operating system, OpenSSL and the handshake are answers.
pub mod Connects
pub mod Invariant
mod Tests
use luci_app_komari_agent_c.Prelude.{
  ℕ, ◌+◌, ◌-◌, [], ◌∷◌, List, Option, none, some, Bool, true, false, not, ◌&&◌, ◌||◌, if◌then◌else◌,
}
use luci_app_komari_agent_c.Prelude.Chars.{Bytes, bytes, str_eq}
use luci_app_komari_agent_c.Protocol.Fallback.{
  Client, note_protocol_result, should_use_current_protocol,
}
use luci_app_komari_agent_c.Websocket.Url.{Url, parse_url}

-- `client->recv_thread`: 0, or a thread that may have left its loop and is not joined yet.
pub data Thread : Type 0 where
  absent : Thread
  running : Thread
  exited : Thread

-- The part of `ws_client_t` that a connection uses. `fd` says whether `fd >= 0`, `ssl` and `ssl_ctx`
-- whether these are set. `sockets`, `ssls` and `contexts` count what was created and not released.
pub record Handle : Type 0 where
  pub fd : Bool
  pub ssl : Bool
  pub ssl_ctx : Bool
  pub recv_thread : Thread
  pub should_stop : Bool
  pub connected : Bool
  pub use_tls : Bool
  pub client : Client
  pub sockets : ℕ
  pub ssls : ℕ
  pub contexts : ℕ

-- The answers that a call of `ws_client_connect` meets: for a host and a port, the results of
-- `connect` for each address, or an error of `getaddrinfo`; `SSL_CTX_new`, `SSL_new` and
-- `SSL_connect`; the handshake for a host and a path; whether `ws_client_stop` is called meanwhile;
-- `pthread_create`; and whether a thread that is joined fails in a receive before it ends.
pub record Answers : Type 0 where
  pub addresses : Bytes → ℕ → Option (List Bool)
  pub context : Bool
  pub ssl : Bool
  pub ssl_connect : Bool
  pub handshake : Bytes → Bytes → Bool
  pub stopped : Bool
  pub thread : Bool
  pub receive_fails : Bool

abbrev pub v2_rpc_endpoint : Bytes
v2_rpc_endpoint = bytes "/api/clients/v2/rpc"

-- The request path by the protocol in use; both fit the buffer.
pub request_path : Client → Bytes
request_path c =
    if should_use_current_protocol c then v2_rpc_endpoint else bytes "/api/clients/report"

-- `SSL_shutdown`, `SSL_free` and `ssl = NULL`, where it is set.
abbrev pub free_ssl : Handle → Handle
free_ssl h = record h { ssl = false; ssls = if h.ssl then h.ssls - 1 else h.ssls }

abbrev pub free_context : Handle → Handle
free_context h = record h {
  ssl_ctx = false;
  contexts = if h.ssl_ctx then h.contexts - 1 else h.contexts;
}

-- `close(client->fd); client->fd = -1;`
abbrev pub close_fd : Handle → Handle
close_fd h = record h { fd = false; sockets = if h.fd then h.sockets - 1 else h.sockets }

abbrev pub release_all : Handle → Handle
release_all h = close_fd (free_context (free_ssl h))

-- `ws_client_note_protocol_result(client, false); return -1;`
abbrev pub fail : Handle → Handle × Bool
fail h = (record h { client = note_protocol_result false h.client }, false)

-- What a thread that still runs does before it can be joined.
abbrev pub thread_result : Thread → Bool → Client → Client
thread_result running true c = note_protocol_result false c
thread_result _ _ c = c

-- `ws_client_disconnect`; `receive_fails` says whether the thread meets the shutdown in a receive.
pub ws_client_disconnect : Bool → Handle → Handle
ws_client_disconnect receive_fails h = close_fd (
    free_ssl (record h {
      should_stop = true;
      connected = false;
      client = thread_result h.recv_thread receive_fails h.client;
      recv_thread = absent;
    }))

pub ws_client_stop : Handle → Handle
ws_client_stop h = record h { should_stop = true }

-- Why the receive thread leaves its loop: it saw a stop request; the peer closed the connection or a
-- message could not be assembled; or a receive failed.
pub data Leaving : Type 0 where
  stop_seen : Leaving
  peer_closed : Leaving
  receive_failed : Leaving

-- After a stop request `connected` stays as it is.
pub thread_exits : Leaving → Handle → Handle
thread_exits stop_seen h = record h { recv_thread = exited }
thread_exits peer_closed h = record h { connected = false; recv_thread = exited }
thread_exits receive_failed h = record h {
  connected = false;
  recv_thread = exited;
  client = note_protocol_result false h.client;
}

-- The results of the sends are what `ws_send_frame` gives.
pub ws_client_send_text : Bool → Handle → Handle × Bool
ws_client_send_text sent h =
    if not h.connected then (h, false) else if sent then (h, true) else fail h

pub ws_client_send_ping : Bool → Handle → Handle × Bool
ws_client_send_ping sent h = (h, h.connected && sent)

abbrev pub any : List Bool → Bool
any [] = false
any (b ∷ bs) = b || any bs

module _ (a : Answers) where
  -- `pthread_create`, and the result of a connection.
  pub start_thread : Handle → Handle × Bool
  start_thread h =
      if a.thread
      then (record h { recv_thread = running; client = note_protocol_result true h.client }, true)
      else fail (record (release_all h) { connected = false })

  -- After the handshake the stop request is read again.
  pub finish : Handle → Handle × Bool
  finish h =
      let asked = h.should_stop || a.stopped in
      let h' = record h { should_stop = asked } in
      if asked then (release_all h', false) else start_thread (record h' { connected = true })

  pub after_handshake : Bytes → Handle → Handle × Bool
  after_handshake host h =
      if a.handshake host (request_path h.client) then finish h else fail (release_all h)

  -- `SSL_CTX_new`, `SSL_new` and `SSL_connect`; `ssl_ctx` is overwritten, by NULL on a failure.
  pub start_tls : Bytes → Handle → Handle × Bool
  start_tls host h =
      let with_context = record h { ssl_ctx = true; contexts = h.contexts + 1 } in
      let with_ssl = record with_context { ssl = true; ssls = h.ssls + 1 } in
      if not a.context
      then fail (close_fd (record h { ssl_ctx = false }))
      else if not a.ssl
      then fail (close_fd (free_context with_context))
      else if not a.ssl_connect
      then fail (close_fd (free_context (free_ssl with_ssl)))
      else after_handshake host with_ssl

  -- The first address that answers.
  abbrev pub on_addresses : Bytes → Option (List Bool) → Handle → Handle × Bool
  on_addresses host none h = fail h
  on_addresses host (some results) h =
      let opened = record h { fd = true; sockets = h.sockets + 1 } in
      if not (any results)
      then fail (record h { fd = false })
      else if h.use_tls
      then start_tls host opened
      else after_handshake host opened

  abbrev pub on_url : Option Url → Handle → Handle × Bool
  on_url none h = fail h
  on_url (some url) h =
      on_addresses (Url.host url) (a.addresses (Url.host url) (Url.port url))
        (record h { use_tls = str_eq (Url.scheme url) (bytes "wss") })

  -- `ws_client_connect`: the stop request is withdrawn, an open connection is closed first.
  pub ws_client_connect : Bytes → Handle → Handle × Bool
  ws_client_connect endpoint h =
      let ready = record h { should_stop = false } in
      on_url (parse_url endpoint)
        (if h.fd then ws_client_disconnect a.receive_fails ready else ready)
