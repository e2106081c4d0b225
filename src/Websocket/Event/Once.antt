-- ===== src/Websocket/Event/Once.antt =====
-- `ws_handle_v2_event` on an event that the server sends again.
use luci_app_komari_agent_c.Prelude.{
  ℕ, zero, suc, ◌+◌, ◌≤◌, ◌<◌, ◌≡◌, refl, [], ◌∷◌, ◌++◌, List, Option, none, some, Bool, true,
  false, length, arith,
}
use luci_app_komari_agent_c.Prelude.Chars.{Bytes, bytes}
use luci_app_komari_agent_c.Prelude.Integer.{ℤ, pos, negsuc}
use luci_app_komari_agent_c.Protocol.State.{V2State, seen_events_max, is_event_seen, add_seen_event}
use luci_app_komari_agent_c.Protocol.State.Recent.{
  Recent, Recent-transfer, Recent-suc, add_seen_event-Recent, add_seen_event_last,
  is_event_seen-Recent, seen_events-add_ack_event,
}
use luci_app_komari_agent_c.Websocket.Message.{Cjson, Message, number_of}
use luci_app_komari_agent_c.Websocket.Event.{
  Ids, event_ids, mark_seen, accumulate_ack, handle_v2_event, parse_event_from_json,
}

module _ {Node : Type 0} (cjson : Cjson Node) (long_max : ℕ) (can_alloc : ℕ → Bool)
    (can_copy : Bytes → Bool) where
  -- The identifiers that the handler finds in an event.
  abbrev pub ids_of : Node → Ids
  ids_of root =
      event_ids long_max (parse_event_from_json cjson can_copy root).event_id
        (number_of cjson (cjson.get_object_item root (bytes "id")))

  handle_v2_event_duplicate :
      (handler : Bool) (root : Node) (s : V2State) (text : Bytes) (ack : ℤ)
      → ids_of root ≡ (some text, ack)
      → is_event_seen s text ≡ true
      → handle_v2_event cjson long_max can_alloc can_copy handler root s
        ≡ (accumulate_ack cjson long_max can_alloc can_copy ack true s, [])
  unfolding handle_v2_event
  handle_v2_event_duplicate handler root s text ack e seen = rw (e, seen) refl

  seen_events-accumulate_ack :
      (ack : ℤ) (b : Bool) (s : V2State)
      → (accumulate_ack cjson long_max can_alloc can_copy ack b s).seen_events ≡ s.seen_events
  seen_events-accumulate_ack (pos (suc n)) true s = seen_events-add_ack_event can_alloc (suc n) s
  seen_events-accumulate_ack (pos (suc n)) false s = refl
  seen_events-accumulate_ack (pos zero) b s = refl
  seen_events-accumulate_ack (negsuc n) b s = refl

  mark_seen-Recent :
      (id_str : Option Bytes) (k : ℕ) (s : V2State) (e : Bytes)
      → k < seen_events_max
      → Recent k s.seen_events e
      → Recent (suc k) (mark_seen cjson long_max can_alloc can_copy id_str s).0.seen_events e
  mark_seen-Recent none k s e lt h = Recent-suc k s.seen_events e h
  mark_seen-Recent (some text) k s e lt h = ground (
    arith,
    Recent-suc k s.seen_events e,
    add_seen_event-Recent can_alloc (can_copy text) text e k s,
  )

  handle_v2_event-Recent :
      (handler : Bool) (root : Node) (k : ℕ) (s : V2State) (e : Bytes)
      → k < seen_events_max
      → Recent k s.seen_events e
      → Recent
          (suc k)
          (handle_v2_event cjson long_max can_alloc can_copy handler root s).0.seen_events
          e
  unfolding handle_v2_event
  handle_v2_event-Recent handler root k s e lt h =
      rw (seen_events-accumulate_ack) (mark_seen-Recent (ids_of root).0 k s e lt h)

  -- The first time an event is handled it is recorded, where memory can be had.
  handle_v2_event_recorded :
      (handler : Bool) (root : Node) (s : V2State) (text : Bytes)
      → (ids_of root).0 ≡ some text
      → is_event_seen s text ≡ false
      → (add_seen_event can_alloc (can_copy text) text s).1 ≡ true
      → Recent 1
          (handle_v2_event cjson long_max can_alloc can_copy handler root s).0.seen_events
          text
  unfolding handle_v2_event
  handle_v2_event_recorded handler root s text e new recorded =
      rw (seen_events-accumulate_ack, e, new)
        (add_seen_event_last can_alloc (can_copy text) text s new recorded)

-- The memory that an event finds: what `realloc` gives, and which texts `strdup` copies.
pub record Memory : Type 0 where
  pub can_alloc : ℕ → Bool
  pub can_copy : Bytes → Bool

module _ {Node : Type 0} (cjson : Cjson Node) (long_max : ℕ) where
  -- The handler of an event, with the memory that it finds.
  abbrev pub handle_in : Bool → Memory → Node → V2State → V2State × List Message
  handle_in handler m root s = handle_v2_event cjson long_max m.can_alloc m.can_copy handler root s

  -- The events of a session, oldest first, each with its memory, and all calls of the handler.
  pub handle_events : Bool → List (Memory × Node) → V2State → V2State × List Message
  handle_events handler [] s = (s, [])
  handle_events handler ((m, root) ∷ roots) s =
      let (s', calls) = handle_in handler m root s in
      let (end, more) = handle_events handler roots s' in (end, calls ++ more)

  handle_events-Recent :
      (handler : Bool) (roots : List (Memory × Node)) (k : ℕ) (s : V2State) (e : Bytes)
      → length roots + k ≤ seen_events_max
      → Recent k s.seen_events e
      → Recent (length roots + k) (handle_events handler roots s).0.seen_events e
  unfolding handle_events
  handle_events-Recent handler [] k s e le h =
      Recent-transfer (0 + k) k s.seen_events e (omega arith) h
  handle_events-Recent handler ((m, root) ∷ roots) k s e le h =
      let s' = (handle_in handler m root s).0 in
      Recent-transfer (length ((m, root) ∷ roots) + k) (length roots + suc k) _ e (omega arith) (
        handle_events-Recent handler roots (suc k) s' e (omega arith) (
          handle_v2_event-Recent cjson long_max m.can_alloc m.can_copy handler root k s e
            (omega arith) h))

  -- A new event that is recorded when it is handled is not handed to the handler a second time: after
  -- at most 999 other events, whatever memory each of them finds, an event with the same identifier
  -- causes no call and changes the state by its acknowledgement alone, if its identifier is a positive
  -- number.
  pub handle_v2_event_once :
      (handler : Bool) (m m' : Memory) (first again : Node) (between : List (Memory × Node))
      (s : V2State) (text : Bytes) (ack : ℤ)
      → (ids_of cjson long_max m.can_alloc m.can_copy first).0 ≡ some text
      → ids_of cjson long_max m'.can_alloc m'.can_copy again ≡ (some text, ack)
      → is_event_seen s text ≡ false
      → (add_seen_event m.can_alloc (m.can_copy text) text s).1 ≡ true
      → length between + 1 ≤ seen_events_max
      → let (later, _) = handle_events handler ((m, first) ∷ between) s in
        handle_in handler m' again later
        ≡ (accumulate_ack cjson long_max m'.can_alloc m'.can_copy ack true later, [])
  unfolding handle_events
  handle_v2_event_once handler m m' first again between s text ack e e' new recorded few =
      let s' = (handle_in handler m first s).0 in
      handle_v2_event_duplicate cjson long_max m'.can_alloc m'.can_copy handler again
        (handle_events handler between s').0 text ack e'
        (is_event_seen-Recent (length between + 1) (handle_events handler between s').0 text (
          handle_events-Recent handler between 1 s' text few (
            handle_v2_event_recorded cjson long_max m.can_alloc m.can_copy handler first s text e
              new recorded)))
