-- ===== src/Websocket/Message.antt =====
-- `ws_message_t` of src/network/websocket.h, and `ws_message_parse_from_json` of
-- src/network/websocket.c, which fills it from a v1 message. cJSON is a parameter.
pub mod Checks
use luci_app_komari_agent_c.Prelude.{
  ℕ, ◌-◌, ◌%◌, ◌^◌, [], ◌∷◌, Option, none, some, Bool, true, false, ◌||◌, take, ◌==◌, if◌then◌else◌,
}
use luci_app_komari_agent_c.Prelude.Chars.{Bytes, bytes}
use luci_app_komari_agent_c.Prelude.Integer.{ℤ, pos, negsuc}

-- What the code calls of cJSON, on nodes that it does not look into: `cJSON_Parse` of a C string,
-- `cJSON_GetObjectItem`, `valuestring` where `cJSON_IsString`, `valuedouble` cut to an integer where
-- `cJSON_IsNumber`, and `cJSON_Duplicate`, which may lack memory.
pub record Cjson (Node : Type 0) : Type 0 where
  pub parse : Bytes → Option Node
  pub get_object_item : Node → Bytes → Option Node
  pub string_value : Node → Option Bytes
  pub number_value : Node → Option ℤ
  pub duplicate : Node → Option Node

-- `type`, which nothing reads or writes, is left out.
pub record Message : Type 0 where
  pub message : Bytes
  pub terminal_id : Bytes
  pub exec_command : Bytes
  pub exec_task_id : Bytes
  pub ping_task_id : ℕ
  pub ping_type : Bytes
  pub ping_target : Bytes

-- `ws_message_t msg = {0};`
abbrev pub empty_message : Message
empty_message = record {
  message = [];
  terminal_id = [];
  exec_command = [];
  exec_task_id = [];
  ping_task_id = 0;
  ping_type = [];
  ping_target = [];
}

pub contains_crlf : Bytes → Bool
contains_crlf [] = false
contains_crlf (c ∷ s) = c == b'\r' || c == b'\n' || contains_crlf s

-- `(uint32_t)valuedouble`: the low 32 bits. Out of range the cast is undefined behaviour.
abbrev pub to_uint32 : ℤ → ℕ
to_uint32 (pos n) = n % 2 ^ 32
to_uint32 (negsuc n) = 2 ^ 32 - 1 - n % 2 ^ 32

-- `strncpy(dst, item->valuestring, size - 1); dst[size - 1] = '\0';` over the text that was there.
abbrev pub copy_string : ℕ → Bytes → Option Bytes → Bytes
copy_string size dst none = dst
copy_string size dst (some s) = take (size - 1) s

abbrev pub copy_uint32 : ℕ → Option ℤ → ℕ
copy_uint32 old none = old
copy_uint32 old (some v) = to_uint32 v

module _ {Node : Type 0} (cjson : Cjson Node) where
  -- `item = cJSON_GetObjectItem(root, key)`, then `item && cJSON_IsString(item)` and its text.
  abbrev pub text_of : Option Node → Option Bytes
  text_of none = none
  text_of (some item) = cjson.string_value item

  abbrev pub number_of : Option Node → Option ℤ
  number_of none = none
  number_of (some item) = cjson.number_value item

  abbrev pub text_at : Node → Bytes → Option Bytes
  text_at root key = text_of (cjson.get_object_item root key)

  -- `if (!item) item = cJSON_GetObjectItem(root, other);`
  abbrev pub or_item : Option Node → Option Node → Option Node
  or_item none other = other
  or_item (some item) other = some item

  abbrev pub text_at_either : Node → Bytes → Bytes → Option Bytes
  text_at_either root key other =
      text_of (or_item (cjson.get_object_item root key) (cjson.get_object_item root other))

  -- A number that is absent leaves what was there.
  abbrev pub uint32_at : Node → Bytes → ℕ → ℕ
  uint32_at root key old = copy_uint32 old (number_of (cjson.get_object_item root key))

  unfoldable pub message_parse_from_json : Node → Message → Message
  message_parse_from_json root msg = record {
    message = copy_string 32 msg.message (text_at root (bytes "message"));
    terminal_id =
        copy_string 64 msg.terminal_id
          (text_at_either root (bytes "terminal_id") (bytes "request_id"));
    exec_command =
        copy_string 1024 msg.exec_command
          (text_at_either root (bytes "exec_command") (bytes "command"));
    exec_task_id =
        copy_string 64 msg.exec_task_id
          (text_at_either root (bytes "exec_task_id") (bytes "task_id"));
    ping_type = copy_string 16 msg.ping_type (text_at root (bytes "ping_type"));
    ping_target = copy_string 256 msg.ping_target (text_at root (bytes "ping_target"));
    ping_task_id = uint32_at root (bytes "ping_task_id") msg.ping_task_id;
  }
