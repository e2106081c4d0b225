-- ===== src/Websocket/Message/Checks.antt =====
-- What a message promises to its handler: each text fits its array, and the two that the panel puts
-- into requests hold no line break.
use luci_app_komari_agent_c.Prelude.{
  ℕ, ◌-◌, ◌<◌, ◌^◌, ◌≡◌, refl, [], Option, none, some, false, length, length-take, arith,
}
use luci_app_komari_agent_c.Prelude.Chars.{Bytes}
use luci_app_komari_agent_c.Prelude.Integer.{ℤ, pos, negsuc}
use luci_app_komari_agent_c.Websocket.Message.{
  Cjson, Message, empty_message, contains_crlf, copy_string, copy_uint32, message_parse_from_json,
}

pub record Fits (m : Message) : Type 0 where
  pub message : length m.message < 32
  pub terminal_id : length m.terminal_id < 64
  pub exec_command : length m.exec_command < 1024
  pub exec_task_id : length m.exec_task_id < 64
  pub ping_task_id : m.ping_task_id < 2 ^ 32
  pub ping_type : length m.ping_type < 16
  pub ping_target : length m.ping_target < 256

pub record IsClean (m : Message) : Type 0 where
  pub fits : Fits m
  pub terminal_id : contains_crlf m.terminal_id ≡ false
  pub ping_target : contains_crlf m.ping_target ≡ false

pub length-copy_string :
    (size : ℕ) (dst : Bytes) (text : Option Bytes)
    → 0 < size
    → length dst < size
    → length (copy_string size dst text) < size
length-copy_string size dst none p h = h
length-copy_string size dst (some s) p h = omega (arith, length-take (size - 1) s)

pub copy_uint32-lt : (old : ℕ) (v : Option ℤ) → old < 2 ^ 32 → copy_uint32 old v < 2 ^ 32
copy_uint32-lt old none h = h
copy_uint32-lt old (some (pos n)) h = omega arith
copy_uint32-lt old (some (negsuc n)) h = omega arith

pub message_parse_from_json-Fits :
    {Node : Type 0} (cjson : Cjson Node) (root : Node) (m : Message)
    → Fits m
    → Fits (message_parse_from_json cjson root m)
unfolding message_parse_from_json
message_parse_from_json-Fits cjson root m f = record {
  message = length-copy_string 32 m.message _ (omega arith) f.message;
  terminal_id = length-copy_string 64 m.terminal_id _ (omega arith) f.terminal_id;
  exec_command = length-copy_string 1024 m.exec_command _ (omega arith) f.exec_command;
  exec_task_id = length-copy_string 64 m.exec_task_id _ (omega arith) f.exec_task_id;
  ping_task_id = copy_uint32-lt m.ping_task_id _ f.ping_task_id;
  ping_type = length-copy_string 16 m.ping_type _ (omega arith) f.ping_type;
  ping_target = length-copy_string 256 m.ping_target _ (omega arith) f.ping_target;
}

pub empty_message-Fits : Fits empty_message
empty_message-Fits = record {
  message = omega arith;
  terminal_id = omega arith;
  exec_command = omega arith;
  exec_task_id = omega arith;
  ping_task_id = omega arith;
  ping_type = omega arith;
  ping_target = omega arith;
}

pub contains_crlf_empty : contains_crlf [] ≡ false
unfolding contains_crlf
contains_crlf_empty = refl
