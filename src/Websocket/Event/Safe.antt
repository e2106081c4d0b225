-- ===== src/Websocket/Event/Safe.antt =====
-- The messages that `ws_handle_v2_event` passes to the handler.
use luci_app_komari_agent_c.Prelude.{
  ℕ, ◌<◌, ◌^◌, ◌≡◌, refl, [], List, Option, none, some, Bool, true, false, length, arith,
  if◌then◌else◌,
}
use luci_app_komari_agent_c.Prelude.Chars.{Bytes, All}
use luci_app_komari_agent_c.Protocol.State.{V2State}
use luci_app_komari_agent_c.Websocket.Message.{Cjson, Message, contains_crlf}
use luci_app_komari_agent_c.Websocket.Message.Checks.{
  IsClean, length-copy_string, copy_uint32-lt, empty_message-Fits, contains_crlf_empty,
}
use luci_app_komari_agent_c.Websocket.Event.{
  call_handler, v2_extract_string, v2_extract_uint32, exec_message, ping_message, terminal_message,
  dispatch_method, dispatch, handle_v2_event, parse_event_from_json,
}

call_handler-IsClean :
    (handler : Bool) (m : Message) → IsClean m → All IsClean (call_handler handler m)
call_handler-IsClean true m c = (c, tt)
call_handler-IsClean false m c = tt

record CleanCalls (r : Bool × List Message) : Type 0 where
  calls : All IsClean r.1

clean : (b : Bool) (calls : List Message) → All IsClean calls → CleanCalls (b, calls)
clean b calls h = record { calls = h }

choose-CleanCalls :
    (b : Bool) (x y : Bool × List Message)
    → CleanCalls x
    → CleanCalls y
    → CleanCalls (if b then x else y)
choose-CleanCalls true x y p q = p
choose-CleanCalls false x y p q = q

module _ {Node : Type 0} (cjson : Cjson Node) where
  length-v2_extract_string :
      (params : Option Node) (key : Bytes) (size : ℕ)
      → 0 < size
      → length (v2_extract_string cjson params key size []) < size
  length-v2_extract_string none key size h = h
  length-v2_extract_string (some params) key size h = length-copy_string size [] _ h h

  v2_extract_uint32-lt :
      (params : Option Node) (key : Bytes) → v2_extract_uint32 cjson params key < 2 ^ 32
  v2_extract_uint32-lt none key = omega arith
  v2_extract_uint32-lt (some params) key = copy_uint32-lt 0 _ (omega arith)

  exec_message-IsClean : (params : Option Node) → IsClean (exec_message cjson params)
  exec_message-IsClean params = record {
    fits = record {
      message = omega arith;
      terminal_id = empty_message-Fits.terminal_id;
      exec_command = length-v2_extract_string params _ 1024 (omega arith);
      exec_task_id = length-v2_extract_string params _ 64 (omega arith);
      ping_task_id = empty_message-Fits.ping_task_id;
      ping_type = empty_message-Fits.ping_type;
      ping_target = empty_message-Fits.ping_target;
    };
    terminal_id = contains_crlf_empty;
    ping_target = contains_crlf_empty;
  }

  ping_message-IsClean :
      (params : Option Node)
      → contains_crlf (ping_message cjson params).ping_target ≡ false
      → IsClean (ping_message cjson params)
  ping_message-IsClean params e = record {
    fits = record {
      message = omega arith;
      terminal_id = empty_message-Fits.terminal_id;
      exec_command = empty_message-Fits.exec_command;
      exec_task_id = empty_message-Fits.exec_task_id;
      ping_task_id = v2_extract_uint32-lt params _;
      ping_type = length-v2_extract_string params _ 16 (omega arith);
      ping_target = length-v2_extract_string params _ 256 (omega arith);
    };
    terminal_id = contains_crlf_empty;
    ping_target = e;
  }

  terminal_message-IsClean :
      (params : Option Node)
      → contains_crlf (terminal_message cjson params).terminal_id ≡ false
      → IsClean (terminal_message cjson params)
  terminal_message-IsClean params e = record {
    fits = record {
      message = empty_message-Fits.message;
      terminal_id = length-v2_extract_string params _ 64 (omega arith);
      exec_command = empty_message-Fits.exec_command;
      exec_task_id = empty_message-Fits.exec_task_id;
      ping_task_id = empty_message-Fits.ping_task_id;
      ping_type = empty_message-Fits.ping_type;
      ping_target = empty_message-Fits.ping_target;
    };
    terminal_id = e;
    ping_target = contains_crlf_empty;
  }

  -- The test on one field, `b`, decides whether the call is made.
  guarded-IsClean :
      (handler b : Bool) (m : Message)
      → (b ≡ false → IsClean m)
      → All IsClean (if b then [] else call_handler handler m)
  guarded-IsClean handler true m c = tt
  guarded-IsClean handler false m c = call_handler-IsClean handler m (c refl)

  dispatch_method-CleanCalls :
      (handler : Bool) (method : Bytes) (params : Option Node)
      → CleanCalls (dispatch_method cjson handler method params)
  unfolding dispatch_method
  dispatch_method-CleanCalls handler method params =
      choose-CleanCalls _ _ _
        (clean true _ (call_handler-IsClean handler _ (exec_message-IsClean params)))
        (choose-CleanCalls _ _ _
          (clean true _ (guarded-IsClean handler _ _ (ping_message-IsClean params)))
          (choose-CleanCalls _ _ _
            (clean true _ (guarded-IsClean handler _ _ (terminal_message-IsClean params)))
            (choose-CleanCalls _ _ _ (clean true [] tt) (clean false [] tt))))

  dispatch-IsClean :
      (handler duplicate : Bool) (method : Option Bytes) (params : Option Node)
      → All IsClean (dispatch cjson handler duplicate method params).1
  dispatch-IsClean handler true method params = tt
  dispatch-IsClean handler false none params = tt
  dispatch-IsClean handler false (some method) params =
      (dispatch_method-CleanCalls handler method params).calls

  pub handle_v2_event-IsClean :
      (long_max : ℕ) (can_alloc : ℕ → Bool) (can_copy : Bytes → Bool) (handler : Bool) (root : Node)
      (s : V2State)
      → All IsClean (handle_v2_event cjson long_max can_alloc can_copy handler root s).1
  unfolding handle_v2_event
  handle_v2_event-IsClean long_max can_alloc can_copy handler root s =
      dispatch-IsClean handler _ (parse_event_from_json cjson can_copy root).method _
