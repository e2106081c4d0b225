-- ===== src/Websocket/Lifecycle/Tests.antt =====
-- A connection by TLS, its loss, and the connection after it.
use luci_app_komari_agent_c.Prelude.{
  ◌≡◌, ◌≢◌, refl, inl, arith, [], ◌∷◌, some, true, false, not, ◌&&◌,
}
use luci_app_komari_agent_c.Prelude.Chars.{Bytes, bytes}
use luci_app_komari_agent_c.Prelude.Strtol.{find_byte}
use luci_app_komari_agent_c.Websocket.Url.{Url, parse_url, parse_authority, without_port}
use luci_app_komari_agent_c.Websocket.Lifecycle.{
  running, exited, ws_client_stop, receive_failed, stop_seen, Handle, Answers, ws_client_connect,
  ws_client_disconnect, thread_exits, finish, start_thread, after_handshake, start_tls,
}
use luci_app_komari_agent_c.Websocket.Lifecycle.Invariant.{
  IsConsistent, Reachable, created, after, connects, exits, handle_create, Reachable-IsConsistent,
}
use luci_app_komari_agent_c.Websocket.Lifecycle.Connects.{
  accepts, ws_client_connect-accepts, ws_client_connect_leaks,
}

-- The second address answers, and the handshake accepts every path.
abbrev all_well : Answers
all_well = record {
  addresses = λ host port. some (false ∷ true ∷ []);
  context = true;
  ssl = true;
  ssl_connect = true;
  handshake = λ host path. true;
  stopped = false;
  thread = true;
  receive_fails = false;
}

abbrev endpoint : Bytes
endpoint = bytes "wss://komari.example/"

abbrev parsed : Url
parsed = record {
  scheme = bytes "wss";
  host = bytes "komari.example";
  port = 443;
  path = bytes "/";
}

abbrev connected_once : Handle
connected_once = (ws_client_connect all_well endpoint handle_create).0

abbrev lost : Handle
lost = thread_exits receive_failed connected_once

endpoint_parsed : parse_url endpoint ≡ some parsed
unfolding parse_url parse_authority without_port find_byte
endpoint_parsed = refl

-- The first attempt succeeds, and the one over the lost connection fails with every answer as before.
attempts :
    ((ws_client_connect all_well endpoint handle_create).1 ≡ true)
    × ((ws_client_connect all_well endpoint lost).1 ≡ false)
unfolding ws_client_connect ws_client_disconnect thread_exits finish start_thread after_handshake
    start_tls parse_url parse_authority without_port find_byte
attempts = (refl, refl)

lost_open : lost.fd ≡ true
unfolding ws_client_connect thread_exits finish start_thread after_handshake start_tls parse_url
    parse_authority without_port find_byte
lost_open = refl

connected_running : connected_once.recv_thread ≡ running
unfolding ws_client_connect finish start_thread after_handshake start_tls parse_url parse_authority
    without_port find_byte
connected_running = refl

-- After a stop request the thread leaves its loop and the client stays connected.
abbrev stopped_handle : Handle
stopped_handle = thread_exits stop_seen (ws_client_stop connected_once)

stop_stays_connected : (stopped_handle.connected ≡ true) × (stopped_handle.recv_thread ≡ exited)
unfolding ws_client_connect ws_client_stop thread_exits finish start_thread after_handshake
    start_tls parse_url parse_authority without_port find_byte
stop_stays_connected = (refl, refl)

leaves_failed : receive_failed ≢ stop_seen
leaves_failed e = ground arith

lost-Reachable : Reachable endpoint lost
lost-Reachable =
    after (after created (connects all_well handle_create))
      (exits receive_failed connected_once connected_running (inl leaves_failed))

Reachable-IsConsistent_example : IsConsistent (ws_client_connect all_well endpoint lost).0
Reachable-IsConsistent_example =
    Reachable-IsConsistent endpoint (ws_client_connect all_well endpoint lost).0
      (after lost-Reachable (connects all_well lost))

lost-IsConsistent : IsConsistent lost
lost-IsConsistent = Reachable-IsConsistent endpoint lost lost-Reachable

ws_client_connect-accepts_example :
    let (h', ok) = ws_client_connect all_well endpoint lost in
    (ok ≡ not lost.fd && accepts all_well endpoint lost.client) × (h'.fd ≡ ok) × (h'.connected ≡ ok)
ws_client_connect-accepts_example =
    ws_client_connect-accepts all_well endpoint lost lost-IsConsistent

ws_client_connect_leaks_example :
    let (h', _) = ws_client_connect all_well endpoint lost in
    (h'.ssl_ctx ≡ false) × (h'.contexts ≡ lost.contexts)
ws_client_connect_leaks_example =
    ws_client_connect_leaks all_well endpoint parsed lost lost_open endpoint_parsed refl refl
