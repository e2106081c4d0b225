-- ===== src/Websocket/Session.antt =====
-- The receive thread of the client, `ws_recv_thread` of src/network/websocket.c, over the frames, the
-- assembly of messages, the v2 events and the protocol fallback.
pub mod Turns
pub mod Ends
pub mod Wires
pub mod Delivers
pub mod Safe
mod Tests
use luci_app_komari_agent_c.Prelude.{
  ℕ, zero, suc, ◌*◌, [], ◌∷◌, ◌++◌, List, Option, none, some, Bool, true, false, not, ◌&&◌, ◌||◌,
  map, ◌==◌, if◌then◌else◌,
}
use luci_app_komari_agent_c.Prelude.Chars.{Bytes, bytes, str_eq, until_nul}
use luci_app_komari_agent_c.Protocol.State.{V2State}
use luci_app_komari_agent_c.Protocol.Fallback.{Client, note_protocol_result}
use luci_app_komari_agent_c.Websocket.Transport.{Connection}
use luci_app_komari_agent_c.Websocket.Frame.{Frame, recv_frame}
use luci_app_komari_agent_c.Websocket.Fragment.{
  Fragments, Outcome, waiting, complete, failure, reset, fragment_accumulate,
}
use luci_app_komari_agent_c.Websocket.Message.{
  Cjson, Message, empty_message, contains_crlf, text_at, message_parse_from_json,
}
use luci_app_komari_agent_c.Websocket.Event.{handle_v2_event}
use mathlib.Core.Option

-- WS_MAX_MESSAGE_SIZE
abbrev pub max_message_size : ℕ
max_message_size = 64 * 1024

-- What the thread meets: cJSON, LONG_MAX, where memory can be had (for the assembly, for the arrays
-- of the v2 state and for copies of strings), and which handlers are set.
pub record Context (Node : Type 0) : Type 0 where
  pub cjson : Cjson Node
  pub long_max : ℕ
  pub can_alloc : ℕ → Bool
  pub can_alloc_entries : ℕ → Bool
  pub can_copy : Bytes → Bool
  pub raw_handler : Bool
  pub handler : Bool

-- The fields of `ws_client_t` that the thread uses, beside its connection. Another thread may set
-- the two flags; here they change by the thread alone.
pub record Receiver : Type 0 where
  pub fragments : Fragments
  pub client : Client
  pub should_stop : Bool
  pub connected : Bool

-- The calls that the thread makes: `ws_send_frame`, `raw_handler` and `handler`.
pub data Call : Type 0 where
  send_call : ℕ → Bytes → Call
  raw_call : Bytes → Call
  handler_call : Message → Call

-- A turn of the loop: the state, the calls, and whether the loop goes on.
abbrev pub Turn : Type 0
Turn = Receiver × List Call × Bool

-- `connected = false`, and the loop is left.
abbrev pub disconnected : Receiver → Receiver
disconnected r = record r { connected = false }

-- A failed receive counts against the protocol.
abbrev pub receive_failed : Receiver → Receiver
receive_failed r = record r { client = note_protocol_result false r.client; connected = false }

abbrev pub is_text : Option Bytes → Bytes → Bool
is_text none literal = false
is_text (some s) literal = str_eq s literal

abbrev pub is_some : Option Bytes → Bool
is_some none = false
is_some (some s) = true

module _ {Node : Type 0} (ctx : Context Node) where
  abbrev pub cj : Cjson Node
  cj = ctx.cjson

  -- `jsonrpc` is the text "2.0" and `method` is a text.
  pub is_v2_event : Node → Bool
  is_v2_event root =
      is_text (text_at cj root (bytes "jsonrpc")) (bytes "2.0")
      && is_some (text_at cj root (bytes "method"))

  -- A v1 message with a line break in a panel-controlled field is dropped.
  pub dispatch_v1 : Node → List Message
  dispatch_v1 root =
      let msg = message_parse_from_json cj root empty_message in
      if contains_crlf msg.terminal_id || contains_crlf msg.ping_target then [] else msg ∷ []

  -- What `cJSON_Parse` gave; a text that is no JSON gives an empty message.
  abbrev pub dispatch_json : Option Node → V2State → V2State × List Message
  dispatch_json none s = (s, empty_message ∷ [])
  dispatch_json (some root) s =
      if is_v2_event root
      then handle_v2_event cj ctx.long_max ctx.can_alloc_entries ctx.can_copy ctx.handler root s
      else (s, dispatch_v1 root)

  -- The dispatch of a complete message. `msg_data[msg_len] = '\0'` makes it a C string, which ends at its
  -- first NUL.
  pub dispatch_message : ℕ → Bytes → V2State → V2State × List Call
  dispatch_message opcode msg s =
      let (s', messages) = dispatch_json (cj.parse (until_nul msg)) s in
      if opcode == 1
      then (if ctx.raw_handler
          then (s, raw_call msg ∷ [])
          else if ctx.handler
          then (s', map handler_call messages)
          else (s, []))
      else if opcode == 2
      then (s, if ctx.raw_handler then raw_call msg ∷ [] else [])
      else (s, [])

  abbrev pub on_outcome : Outcome → Receiver → Turn
  on_outcome failure r = (disconnected r, [], false)
  on_outcome waiting r = (r, [], true)
  on_outcome (complete opcode msg) r =
      let (s, calls) = dispatch_message opcode msg r.client.v2_state in
      (record r { client = record r.client { v2_state = s } }, calls, true)

  pub on_data : Frame → Receiver → Turn
  on_data f r =
      let (fragments, outcome) =
        fragment_accumulate ctx.can_alloc f.opcode f.fin f.payload r.fragments in
      on_outcome outcome (record r { fragments = fragments })

  -- Close, ping, pong, and the frames of messages.
  pub on_frame : Frame → Receiver → Turn
  on_frame f r =
      if f.opcode == 0x08
      then (disconnected r, [], false)
      else if f.opcode == 0x09
      then (r, send_call 0x0A f.payload ∷ [], true)
      else if f.opcode == 0x0A
      then (r, [], true)
      else on_data f r

  -- The rest of the loop is run where it goes on.
  abbrev pub go_on : Turn → Option (Receiver × List Call) → Option (Receiver × List Call)
  go_on (r, calls, false) rest = some (r, calls)
  go_on (r, calls, true) rest =
      Option.map (λ (end : Receiver × List Call). (end.0, calls ++ end.1)) rest

  -- The turn by what `ws_recv_frame` gave, and the turns after it, `loop`.
  abbrev pub on_received :
      Option (Frame × Connection)
      → Receiver
      → (Connection → Receiver → Option (Receiver × List Call))
      → Option (Receiver × List Call)
  on_received none r loop = some (receive_failed r, [])
  on_received (some (f, c')) r loop = go_on (on_frame f r) (loop c' (on_frame f r).0)

  -- `if (should_stop || !connected) break;`
  abbrev pub unless_stopped :
      Receiver → Option (Receiver × List Call) → Option (Receiver × List Call)
  unless_stopped r rest = if r.should_stop || not r.connected then some (r, []) else rest

  -- `while (1)`, by fuel; `none` is a loop that needs more.
  pub recv_turns : ℕ → Connection → Receiver → Option (Receiver × List Call)
  recv_turns zero c r = none
  recv_turns (suc n) c r =
      unless_stopped r (on_received (recv_frame max_message_size c) r (recv_turns n))

  -- The assembly of an earlier connection is dropped first.
  pub recv_thread : ℕ → Connection → Receiver → Option (Receiver × List Call)
  recv_thread n c r = recv_turns n c (record r { fragments = reset r.fragments })
