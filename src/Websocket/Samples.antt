-- ===== src/Websocket/Samples.antt =====
-- A small JSON for the tests of the receive thread: an event with a text identifier, and a v1 message
-- with a ping target.
use luci_app_komari_agent_c.Prelude.{Option, none, some, true, false, if◌then◌else◌, drop}
use luci_app_komari_agent_c.Prelude.Chars.{Bytes, bytes, str_eq, starts_with}
use luci_app_komari_agent_c.Websocket.Message.{Cjson}
use luci_app_komari_agent_c.Websocket.Session.{Context}

pub data Sample : Type 0 where
  text : Bytes → Sample
  exec_params : Sample
  exec_event : Bytes → Sample
  ping_v1 : Bytes → Sample

abbrev pub sample_item : Sample → Bytes → Option Sample
sample_item (text s) key = none
sample_item exec_params key =
    if str_eq key (bytes "task_id")
    then some (text (bytes "7"))
    else if str_eq key (bytes "command")
    then some (text (bytes "uptime"))
    else none
sample_item (exec_event id') key =
    if str_eq key (bytes "jsonrpc")
    then some (text (bytes "2.0"))
    else if str_eq key (bytes "method")
    then some (text (bytes "agent.exec"))
    else if str_eq key (bytes "id")
    then some (text id')
    else if str_eq key (bytes "params")
    then some exec_params
    else none
sample_item (ping_v1 target) key =
    if str_eq key (bytes "message")
    then some (text (bytes "ping"))
    else if str_eq key (bytes "ping_target")
    then some (text target)
    else none

abbrev pub sample_text : Sample → Option Bytes
sample_text (text s) = some s
sample_text _ = none

abbrev pub sample_parse : Bytes → Option Sample
sample_parse s =
    if starts_with s (bytes "exec ")
    then some (exec_event (drop 5 s))
    else if starts_with s (bytes "ping ")
    then some (ping_v1 (drop 5 s))
    else none

abbrev pub sample_json : Cjson Sample
sample_json = record {
  parse = sample_parse;
  get_object_item = sample_item;
  string_value = sample_text;
  number_value = λ node. none;
  duplicate = λ node. some node;
}

-- A client with a handler for messages, and memory at hand.
abbrev pub sample_context : Context Sample
sample_context = record {
  cjson = sample_json;
  long_max = 2147483647;
  can_alloc = λ n. true;
  can_alloc_entries = λ n. true;
  can_copy = λ s. true;
  raw_handler = false;
  handler = true;
}
