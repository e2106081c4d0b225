-- ===== src/Websocket/Event/Tests.antt =====
-- Runs of the handler of v2 events.
use luci_app_komari_agent_c.Prelude.{
  ℕ, ◌≡◌, refl, ap, [], ◌∷◌, List, some, Bool, true, false, arith,
}
use luci_app_komari_agent_c.Prelude.Chars.{Bytes, bytes}
use luci_app_komari_agent_c.Prelude.Integer.{pos}
use luci_app_komari_agent_c.Prelude.Strtol.{
  strtol, skip_space, read_signed, read_number, read_digits,
}
use luci_app_komari_agent_c.Protocol.State.{
  V2State, state_init, contains, is_event_seen, add_seen_event, add_ack_event,
}
use luci_app_komari_agent_c.Websocket.Message.{Message, empty_message}
use luci_app_komari_agent_c.Websocket.Event.{
  Ids, handle_v2_event, parse_event_from_json, dispatch_method, accumulate_ack,
}
use luci_app_komari_agent_c.Websocket.Event.Once.{
  Memory, ids_of, handle_events, handle_v2_event_once,
}
use luci_app_komari_agent_c.Websocket.Samples.{Sample, exec_event, sample_json}

abbrev at_hand : ℕ → Bool
at_hand n = true

abbrev copies : Bytes → Bool
copies s = true

abbrev handle : Sample → V2State → V2State × List Message
handle = handle_v2_event sample_json 2147483647 at_hand copies true

-- The first event is executed and acknowledged.
first_event : handle (exec_event (bytes "12")) state_init ≡ (
  record {
    fail_count = 0;
    seen_events = bytes "12" ∷ [];
    seen_capacity = 64;
    ack_ids = 12 ∷ [];
    ack_capacity = 16;
  },
  record empty_message {
    message = bytes "exec";
    exec_task_id = bytes "7";
    exec_command = bytes "uptime";
  }
      ∷ [],
)
unfolding handle_v2_event parse_event_from_json dispatch_method is_event_seen contains
    add_seen_event add_ack_event strtol skip_space read_signed read_number read_digits
first_event = refl

-- The low 32 bits of an identifier are acknowledged: 2 ^ 32 + 1 as 1.
large_id :
    (handle_v2_event sample_json 9223372036854775807 at_hand copies true
      (exec_event (bytes "4294967297"))
      state_init).0.ack_ids
    ≡ 1 ∷ []
unfolding handle_v2_event parse_event_from_json dispatch_method is_event_seen contains
    add_seen_event add_ack_event strtol skip_space read_signed read_number read_digits
large_id = refl

event_12 :
    ids_of sample_json 2147483647 at_hand copies (exec_event (bytes "12"))
    ≡ (some (bytes "12"), pos 12)
unfolding parse_event_from_json strtol skip_space read_signed read_number read_digits
event_12 = refl

fresh_12 : is_event_seen state_init (bytes "12") ≡ false
unfolding is_event_seen contains
fresh_12 = refl

recorded_12 : (add_seen_event at_hand true (bytes "12") state_init).1 ≡ true
unfolding add_seen_event contains
recorded_12 = refl

-- Memory at hand, and none.
abbrev plenty : Memory
plenty = record { can_alloc = at_hand; can_copy = copies }

abbrev short : Memory
short = record { can_alloc = λ n. false; can_copy = λ s. false }

abbrev later : V2State
later =
    (handle_events sample_json 2147483647 true
      ((plenty, exec_event (bytes "12")) ∷ (short, exec_event (bytes "13")) ∷ []) state_init).0

handle_v2_event_once_example :
    handle (exec_event (bytes "12")) later
    ≡ (accumulate_ack sample_json 2147483647 at_hand copies (pos 12) true later, [])
handle_v2_event_once_example =
    handle_v2_event_once sample_json 2147483647 true plenty plenty (exec_event (bytes "12"))
      (exec_event (bytes "12")) ((short, exec_event (bytes "13")) ∷ []) state_init (bytes "12")
      (pos 12) (ap (λ (p : Ids). p.0) event_12) event_12 fresh_12 recorded_12 (omega arith)
