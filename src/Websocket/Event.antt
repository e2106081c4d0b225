-- ===== src/Websocket/Event.antt =====
-- The v2 events: `jsonrpc_parse_event_from_json` of src/protocol/jsonrpc.c, and `ws_handle_v2_event`
-- of src/network/websocket.c with its helpers.
pub mod Once
pub mod Safe
mod Tests
use luci_app_komari_agent_c.Prelude.{
  ℕ, zero, suc, ◌-◌, ◌%◌, ◌^◌, [], ◌∷◌, List, Option, none, some, Bool, true, false, ◌&&◌, ◌||◌,
  length, ltb, min, if◌then◌else◌,
}
use luci_app_komari_agent_c.Prelude.Chars.{Bytes, bytes, str_eq}
use luci_app_komari_agent_c.Prelude.Integer.{ℤ, pos, negsuc}
use luci_app_komari_agent_c.Prelude.Print.{print_decimal}
use luci_app_komari_agent_c.Prelude.Strtol.{Number, strtol}
use luci_app_komari_agent_c.Protocol.State.{V2State, is_event_seen, add_seen_event, add_ack_event}
use luci_app_komari_agent_c.Websocket.Message.{
  Cjson, Message, empty_message, contains_crlf, copy_string, number_of, text_at, uint32_at,
}

-- `jsonrpc_event_t`; `none` is NULL.
pub record Event (Node : Type 0) : Type 0 where
  pub event_id : Option Bytes
  pub method : Option Bytes
  pub params : Option Node
  pub created_at : Option Bytes
  pub expires_at : Option Bytes

-- `(int)val` of a positive `long`: the low 32 bits, read in two's complement.
abbrev pub to_int32 : ℕ → ℤ
to_int32 val =
    let low = val % 2 ^ 32 in if ltb low (2 ^ 31) then pos low else negsuc (2 ^ 32 - 1 - low)

-- `endp != event.id && val > 0`; `strtol` stops at `long_max`.
abbrev pub ack_of_text : ℕ → Option Number → ℤ
ack_of_text long_max none = pos 0
ack_of_text long_max (some n) =
    if Number.negative n then pos 0 else to_int32 (min (Number.magnitude n) long_max)

-- `id_str` and `ack_id`.
abbrev pub Ids : Type 0
Ids = Option Bytes × ℤ

-- A numeric id is a `long`, which the buffer `id_buf` holds.
abbrev pub ids_of_number : Option ℤ → Ids
ids_of_number none = (none, pos 0)
ids_of_number (some (negsuc n)) = (none, pos 0)
ids_of_number (some (pos zero)) = (none, pos 0)
ids_of_number (some (pos (suc n))) =
    let text = print_decimal (suc n) in
    (if ltb (length text) 32 then some text else none, to_int32 (suc n))

-- `if (event.id && event.id[0] != '\0') ... else ...`
abbrev pub event_ids : ℕ → Option Bytes → Option ℤ → Ids
event_ids long_max none number = ids_of_number number
event_ids long_max (some []) number = ids_of_number number
event_ids long_max (some (c ∷ text)) number =
    (some (c ∷ text), ack_of_text long_max (strtol (c ∷ text)))

-- `jsonrpc_strdup_safe`, which gives NULL without memory.
abbrev pub strdup_of : (Bytes → Bool) → Option Bytes → Option Bytes
strdup_of can_copy none = none
strdup_of can_copy (some s) = if can_copy s then some s else none

-- `if (client->handler) client->handler(client, &msg);`: the calls that are made.
abbrev pub call_handler : Bool → Message → List Message
call_handler true msg = msg ∷ []
call_handler false msg = []

module _ {Node : Type 0} (cjson : Cjson Node) where
  -- `v2_extract_string` and `v2_extract_uint32` from `event.params`, where it is there.
  abbrev pub v2_extract_string : Option Node → Bytes → ℕ → Bytes → Bytes
  v2_extract_string none key size dst = dst
  v2_extract_string (some params) key size dst = copy_string size dst (text_at cjson params key)

  abbrev pub v2_extract_uint32 : Option Node → Bytes → ℕ
  v2_extract_uint32 none key = 0
  v2_extract_uint32 (some params) key = uint32_at cjson params key 0

  abbrev pub exec_message : Option Node → Message
  exec_message params = record empty_message {
    message = bytes "exec";
    exec_task_id = v2_extract_string params (bytes "task_id") 64 [];
    exec_command = v2_extract_string params (bytes "command") 1024 [];
  }

  abbrev pub ping_message : Option Node → Message
  ping_message params = record empty_message {
    message = bytes "ping";
    ping_task_id = v2_extract_uint32 params (bytes "ping_task_id");
    ping_type = v2_extract_string params (bytes "ping_type") 16 [];
    ping_target = v2_extract_string params (bytes "ping_target") 256 [];
  }

  abbrev pub terminal_message : Option Node → Message
  terminal_message params = record empty_message {
    terminal_id = v2_extract_string params (bytes "request_id") 64 [];
  }

  -- The dispatch by method: whether the event was processed, and the calls of the handler.
  unfoldable pub dispatch_method : Bool → Bytes → Option Node → Bool × List Message
  dispatch_method handler method params =
      let ping = ping_message params in
      let terminal = terminal_message params in
      if str_eq method (bytes "agent.exec")
      then (true, call_handler handler (exec_message params))
      else if str_eq method (bytes "agent.ping")
      then (true, if contains_crlf ping.ping_target then [] else call_handler handler ping)
      else if str_eq method (bytes "agent.terminal.request")
      then (true, if contains_crlf terminal.terminal_id then [] else call_handler handler terminal)
      else if str_eq method (bytes "agent.message") || str_eq method (bytes "agent.event")
      then (true, [])
      else (false, [])

  -- `if (!is_duplicate && event.method)`
  abbrev pub dispatch : Bool → Bool → Option Bytes → Option Node → Bool × List Message
  dispatch handler true method params = (false, [])
  dispatch handler false none params = (false, [])
  dispatch handler false (some method) params = dispatch_method handler method params

  abbrev pub duplicate_of : Option Node → Option Node
  duplicate_of none = none
  duplicate_of (some params) = cjson.duplicate params

  -- `can_copy s` says whether `strdup` gets memory for the copy of `s`.
  unfoldable pub parse_event_from_json : (Bytes → Bool) → Node → Event Node
  parse_event_from_json can_copy root = record {
    event_id = strdup_of can_copy (text_at cjson root (bytes "id"));
    method = strdup_of can_copy (text_at cjson root (bytes "method"));
    params = duplicate_of (cjson.get_object_item root (bytes "params"));
    created_at = strdup_of can_copy (text_at cjson root (bytes "created_at"));
    expires_at = strdup_of can_copy (text_at cjson root (bytes "expires_at"));
  }

  -- `can_alloc n` says whether `realloc` to `n` entries gets memory.
  module _ (long_max : ℕ) (can_alloc : ℕ → Bool) (can_copy : Bytes → Bool) where
    -- The test for a duplicate, which records the event if it is none.
    abbrev pub mark_seen : Option Bytes → V2State → V2State × Bool
    mark_seen none s = (s, false)
    mark_seen (some text) s =
        if is_event_seen s text
        then (s, true)
        else ((add_seen_event can_alloc (can_copy text) text s).0, false)

    -- `if (ack_id > 0 && (is_duplicate || processed))`
    abbrev pub accumulate_ack : ℤ → Bool → V2State → V2State
    accumulate_ack (pos (suc n)) true s = (add_ack_event can_alloc (suc n) s).0
    accumulate_ack _ _ s = s

    -- The state after the event, and the calls of the handler.
    abbrev pub handle_event : Bool → Event Node → Option ℤ → V2State → V2State × List Message
    handle_event handler event number s =
        let (id_str, ack_id) = event_ids long_max event.event_id number in
        let (marked, is_duplicate) = mark_seen id_str s in
        let (processed, calls) = dispatch handler is_duplicate event.method event.params in
        (accumulate_ack ack_id (is_duplicate || processed) marked, calls)

    unfoldable pub handle_v2_event : Bool → Node → V2State → V2State × List Message
    handle_v2_event handler root s =
        handle_event handler (parse_event_from_json can_copy root)
          (number_of cjson (cjson.get_object_item root (bytes "id"))) s
