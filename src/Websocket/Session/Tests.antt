-- ===== src/Websocket/Session/Tests.antt =====
-- Runs of the receive thread on a message in three pieces with a ping between them.
use luci_app_komari_agent_c.Prelude.{
  ℕ, ◌≡◌, ◌+◌, ◌≤◌, ◌⊎◌, refl, inl, inr, [], ◌∷◌, ◌++◌, List, Option, none, some, Bool, true, false,
  arith, length, take, drop, map,
}
use luci_app_komari_agent_c.Prelude.Chars.{Bytes, bytes, All}
use luci_app_komari_agent_c.Protocol.State.{state_init}
use luci_app_komari_agent_c.Protocol.Fallback.{client_create}
use luci_app_komari_agent_c.Websocket.Mask.{apply_mask, apply_mask_from}
use luci_app_komari_agent_c.Websocket.Transport.{Connection, requeue}
use luci_app_komari_agent_c.Websocket.Transport.Read.{available}
use luci_app_komari_agent_c.Websocket.Frame.{is_reserved, is_control}
use luci_app_komari_agent_c.Websocket.Frame.Receive.{IsValid, IsKey}
use luci_app_komari_agent_c.Websocket.Fragment.{reset}
use luci_app_komari_agent_c.Websocket.Samples.{sample_context}
use luci_app_komari_agent_c.Websocket.Session.{
  Receiver, Call, send_call, dispatch_message, recv_thread,
}
use luci_app_komari_agent_c.Websocket.Session.Wires.{
  SentFrame, IsSendable, wires, at_end, run_frames, recv_thread-wires,
}
use luci_app_komari_agent_c.Websocket.Session.Delivers.{
  frame, Interleaved, last, piece, ping, recv_thread_delivers,
}
use luci_app_komari_agent_c.Websocket.Session.Safe.{IsSafe, recv_thread-IsSafe}
use luci_app_komari_agent_c.Websocket.Session.Ends.{recv_thread_ends}

-- A client whose last connection was lost inside a message.
abbrev started : Receiver
started = record {
  fragments = record { buffer = bytes "old"; capacity = 4096; opcode = 2 };
  client = client_create;
  should_stop = false;
  connected = true;
}

abbrev pieces : List SentFrame
pieces =
    (frame 1 false (bytes "ex"), none)
    ∷ (frame 0 false (bytes "ec "), some (1 ∷ 2 ∷ 3 ∷ 4 ∷ []))
    ∷ (frame 9 true (bytes "hi"), none)
    ∷ (frame 0 true (bytes "12"), none)
    ∷ []

-- The first three bytes came with the handshake.
abbrev connection : Connection
connection = record {
  pending = take 3 (wires pieces);
  incoming = requeue (drop 3 (wires pieces)) [];
}

connection_carries : available connection ≡ wires pieces
unfolding apply_mask apply_mask_from
connection_carries = refl

sendable :
    (opcode : ℕ) (fin : Bool) (payload : Bytes) (key : Option Bytes)
    → IsValid (frame opcode fin payload)
    → IsKey key
    → length payload ≤ 125
    → IsSendable (frame opcode fin payload, key)
sendable opcode fin payload key v k small = record { valid = v; key = k; fits = omega arith }

data-IsValid :
    (opcode : ℕ) (fin : Bool) (payload : Bytes) → opcode ≤ 2 → IsValid (frame opcode fin payload)
unfolding is_reserved is_control
data-IsValid opcode fin payload h = record {
  opcode_lt = omega arith;
  known = ground arith;
  control = inl (ground arith);
}

ping-IsValid : (payload : Bytes) → length payload ≤ 125 → IsValid (frame 9 true payload)
unfolding is_reserved
ping-IsValid payload h = record { opcode_lt = omega arith; known = refl; control = inr (refl, h) }

pieces-IsSendable : All IsSendable pieces
pieces-IsSendable = (
  sendable 1 false _ none (data-IsValid 1 false _ (omega arith)) tt (omega arith),
  (
    sendable 0 false _ (some (1 ∷ 2 ∷ 3 ∷ 4 ∷ [])) (data-IsValid 0 false _ (omega arith)) refl
        (omega arith),
    (
      sendable 9 true _ none (ping-IsValid _ (omega arith)) tt (omega arith),
      (sendable 0 true _ none (data-IsValid 0 true _ (omega arith)) tt (omega arith), tt),
    ),
  ),
)

abbrev pieces_mixed :
    Interleaved
      ((1, false, bytes "ex") ∷ (0, false, bytes "ec ") ∷ (0, true, bytes "12") ∷ [])
      (bytes "hi" ∷ [])
      pieces
pieces_mixed = piece 1 (bytes "ex") none (omega arith) (
    piece 0 (bytes "ec ") (some (1 ∷ 2 ∷ 3 ∷ 4 ∷ [])) (omega arith)
      (ping (bytes "hi") none (last 0 (bytes "12") none (omega arith))))

recv_thread_delivers_example :
    (r' : Receiver) × (recv_thread sample_context 5 connection started
      ≡ some (
        r',
        map (send_call 0x0A) (bytes "hi" ∷ [])
            ++ (dispatch_message sample_context 1 (bytes "exec 12") state_init).1,
      ))
recv_thread_delivers_example =
    recv_thread_delivers sample_context 1 (bytes "ex") (bytes "ec " ∷ []) (bytes "12")
      (bytes "hi" ∷ []) pieces 5 connection started refl refl (inl refl) (omega arith) pieces_mixed
      pieces-IsSendable connection_carries (omega arith)

recv_thread-wires_example :
    recv_thread sample_context 5 connection started
    ≡ some (
        at_end sample_context (
          run_frames sample_context pieces
            (record started { fragments = reset started.fragments })))
recv_thread-wires_example =
    recv_thread-wires sample_context pieces 5 connection started refl pieces-IsSendable
      connection_carries (omega arith)

recv_thread_ends_example :
    (end : Receiver) × (calls : List Call) × (recv_thread sample_context
        (length (available connection) + 1)
        connection
        started
      ≡ some (end, calls))
    × (end.should_stop ≡ false)
    × ((false ≡ true) ⊎ (end.connected ≡ false))
recv_thread_ends_example = recv_thread_ends sample_context connection started

abbrev session : Receiver × List Call
session =
    at_end sample_context
      (run_frames sample_context pieces (record started { fragments = reset started.fragments }))

session_run : recv_thread sample_context 5 connection started ≡ some session
session_run =
    recv_thread-wires sample_context pieces 5 connection started refl pieces-IsSendable
      connection_carries (omega arith)

recv_thread-IsSafe_example : All IsSafe session.1
recv_thread-IsSafe_example =
    recv_thread-IsSafe sample_context 5 connection started session.0 session.1 session_run
