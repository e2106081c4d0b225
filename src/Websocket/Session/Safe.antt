-- ===== src/Websocket/Session/Safe.antt =====
-- What the receive thread passes on, whatever the server sends.
use luci_app_komari_agent_c.Prelude.{
  ℕ, zero, suc, ◌≤◌, ◌≡◌, refl, ap, inl, inr, [], ◌∷◌, ◌++◌, List, Option, none, some, Bool, true,
  false, not, ◌||◌, map, arith, length, ◌==◌, if◌then◌else◌, Bool-cases, Option-cases,
}
use luci_app_komari_agent_c.Prelude.Chars.{Bytes, All, until_nul}
use luci_app_komari_agent_c.Protocol.State.{V2State}
use luci_app_komari_agent_c.Websocket.Transport.{Connection}
use luci_app_komari_agent_c.Websocket.Frame.{Frame, recv_frame}
use luci_app_komari_agent_c.Websocket.Frame.Receive.{IsValid}
use luci_app_komari_agent_c.Websocket.Frame.Checks.{recv_frame-IsValid, ping_short}
use luci_app_komari_agent_c.Websocket.Fragment.{
  Fragments, Outcome, waiting, complete, failure, reset, fragment_accumulate, fragment_max_size,
}
use luci_app_komari_agent_c.Websocket.Fragment.Invariant.{fragment_accumulate_complete}
use luci_app_komari_agent_c.Websocket.Message.{
  Message, empty_message, contains_crlf, message_parse_from_json,
}
use luci_app_komari_agent_c.Websocket.Message.Checks.{
  IsClean, Fits, empty_message-Fits, contains_crlf_empty, message_parse_from_json-Fits,
}
use luci_app_komari_agent_c.Websocket.Event.Safe.{handle_v2_event-IsClean}
use luci_app_komari_agent_c.Websocket.Session.{
  Context, Receiver, Call, send_call, raw_call, handler_call, Turn, max_message_size, disconnected,
  cj, is_v2_event, dispatch_v1, dispatch_json, dispatch_message, on_outcome, on_data, on_frame,
  go_on, recv_turns, recv_thread,
}
use mathlib.Core.Path.{subst}

-- A pong fits a control frame; a raw message is at most 1 MiB; a message for the handler fits its
-- arrays and has no line break where one would be put into a request.
abbrev pub IsSafe : Call → Type 0
IsSafe (send_call opcode payload) = (opcode ≡ 0x0A) × (length payload ≤ 125)
IsSafe (raw_call msg) = length msg ≤ fragment_max_size
IsSafe (handler_call m) = IsClean m

All-map-handler_call : (ms : List Message) → All IsClean ms → All IsSafe (map handler_call ms)
All-map-handler_call [] h = tt
All-map-handler_call (m ∷ ms) (c, cs) = (c, All-map-handler_call ms cs)

All-append : (xs ys : List Call) → All IsSafe xs → All IsSafe ys → All IsSafe (xs ++ ys)
All-append [] ys h k = k
All-append (x ∷ xs) ys (h, hs) k = (h, All-append xs ys hs k)

empty_message-IsClean : IsClean empty_message
empty_message-IsClean = record {
  fits = empty_message-Fits;
  terminal_id = contains_crlf_empty;
  ping_target = contains_crlf_empty;
}

-- The two tests on a message decide whether it is passed on.
tested-IsClean :
    (m : Message) (a b : Bool)
    → Fits m
    → contains_crlf m.terminal_id ≡ a
    → contains_crlf m.ping_target ≡ b
    → All IsClean (if a || b then [] else m ∷ [])
tested-IsClean m true b f p q = tt
tested-IsClean m false true f p q = tt
tested-IsClean m false false f p q = (record { fits = f; terminal_id = p; ping_target = q }, tt)

raw_call-IsSafe :
    (b : Bool) (m : Bytes)
    → length m ≤ fragment_max_size
    → All IsSafe (if b then raw_call m ∷ [] else [])
raw_call-IsSafe true m h = (h, tt)
raw_call-IsSafe false m h = tt

record SafeCalls (r : V2State × List Call) : Type 0 where
  calls : All IsSafe r.1

safe : (s : V2State) (calls : List Call) → All IsSafe calls → SafeCalls (s, calls)
safe s calls h = record { calls = h }

choose-SafeCalls :
    (b : Bool) (x y : V2State × List Call)
    → SafeCalls x
    → SafeCalls y
    → SafeCalls (if b then x else y)
choose-SafeCalls true x y p q = p
choose-SafeCalls false x y p q = q

record SafeTurn (t : Turn) : Type 0 where
  calls : All IsSafe t.1

quiet : (r : Receiver) (calls : List Call) (on : Bool) → All IsSafe calls → SafeTurn (r, calls, on)
quiet r calls on h = record { calls = h }

choose-SafeTurn :
    (b : Bool) (x y : Turn) → (b ≡ true → SafeTurn x) → SafeTurn y → SafeTurn (if b then x else y)
choose-SafeTurn true x y p q = p refl
choose-SafeTurn false x y p q = q

-- A run that needs more fuel makes no claim.
abbrev SafeResult : Option (Receiver × List Call) → Type 0
SafeResult none = Unit
SafeResult (some (end, calls)) = All IsSafe calls

module _ {Node : Type 0} (ctx : Context Node) where
  dispatch_v1-IsClean : (root : Node) → All IsClean (dispatch_v1 ctx root)
  unfolding dispatch_v1
  dispatch_v1-IsClean root =
      let m = message_parse_from_json (cj ctx) root empty_message in
      tested-IsClean m _ _
        (message_parse_from_json-Fits (cj ctx) root empty_message empty_message-Fits) refl refl

  dispatch_json-IsClean : (o : Option Node) (s : V2State) → All IsClean (dispatch_json ctx o s).1
  dispatch_json-IsClean none s = (empty_message-IsClean, tt)
  dispatch_json-IsClean (some root) s = elim (Bool-cases (is_v2_event ctx root)) [
    | inl e ↦ rw e (
        handle_v2_event-IsClean (cj ctx) ctx.long_max ctx.can_alloc_entries ctx.can_copy ctx.handler
          root s)
    | inr e ↦ rw e (dispatch_v1-IsClean root)
  ]

  dispatch_message-SafeCalls :
      (opcode : ℕ) (msg : Bytes) (s : V2State)
      → length msg ≤ fragment_max_size
      → SafeCalls (dispatch_message ctx opcode msg s)
  unfolding dispatch_message
  dispatch_message-SafeCalls opcode msg s h =
      let (s', messages) = dispatch_json ctx ((cj ctx).parse (until_nul msg)) s in
      let clean = dispatch_json-IsClean ((cj ctx).parse (until_nul msg)) s in
      choose-SafeCalls _ _ _
        (choose-SafeCalls _ _ _ (safe s (raw_call msg ∷ []) (h, tt)) (
          choose-SafeCalls _ _ _
            (safe s' (map handler_call messages) (All-map-handler_call messages clean))
            (safe s [] tt)))
        (choose-SafeCalls _ _ _ (safe s _ (raw_call-IsSafe ctx.raw_handler msg h)) (safe s [] tt))

  -- A complete message from a frame that fits the buffer.
  on_outcome-IsSafe :
      (o : Outcome) (r : Receiver)
      → ((op : ℕ) (m : Bytes) → o ≡ complete op m → length m ≤ fragment_max_size)
      → All IsSafe (on_outcome ctx o r).1
  on_outcome-IsSafe waiting r h = tt
  on_outcome-IsSafe failure r h = tt
  on_outcome-IsSafe (complete op m) r h =
      (dispatch_message-SafeCalls op m r.client.v2_state (h op m refl)).calls

  length-complete :
      (f : Frame) (s : Fragments) (op : ℕ) (m : Bytes)
      → length f.payload ≤ max_message_size
      → (fragment_accumulate ctx.can_alloc f.opcode f.fin f.payload s).1 ≡ complete op m
      → length m ≤ fragment_max_size
  length-complete f s op m small e =
      let acc = fragment_accumulate ctx.can_alloc f.opcode f.fin f.payload s in
      grind (
        arith,
        fragment_accumulate_complete ctx.can_alloc f.opcode f.fin f.payload s {s' = acc.0} {op = op}
            {m = m} (ap (λ (o : Outcome). (acc.0, o)) e),
      )

  on_data-IsSafe :
      (f : Frame) (r : Receiver)
      → length f.payload ≤ max_message_size
      → All IsSafe (on_data ctx f r).1
  unfolding on_data
  on_data-IsSafe f r small =
      on_outcome-IsSafe _ _ (λ op m e. length-complete f r.fragments op m small e)

  on_frame-IsSafe :
      (f : Frame) (r : Receiver)
      → IsValid f
      → length f.payload ≤ max_message_size
      → All IsSafe (on_frame ctx f r).1
  unfolding on_frame
  on_frame-IsSafe f r v small =
      let turn : SafeTurn (on_frame ctx f r) =
        choose-SafeTurn _ _ _ (λ e. quiet (disconnected r) [] false tt)
          (choose-SafeTurn _ _ _
            (λ e. quiet r (send_call 0x0A f.payload ∷ []) true ((refl, ping_short f v e), tt))
            (choose-SafeTurn (f.opcode == 0x0A) _ (on_data ctx f r) (λ e. quiet r [] true tt)
              (record { calls = on_data-IsSafe f r small }))) in
      turn.calls

  go_on-IsSafe :
      (t : Turn) (rest : Option (Receiver × List Call))
      → All IsSafe t.1
      → SafeResult rest
      → SafeResult (go_on ctx t rest)
  go_on-IsSafe (r, done, false) rest h k = h
  go_on-IsSafe (r, done, true) none h k = tt
  go_on-IsSafe (r, done, true) (some (r', more)) h k = All-append done more h k

  recv_turns-IsSafe : (n : ℕ) (c : Connection) (r : Receiver) → SafeResult (recv_turns ctx n c r)
  unfolding recv_turns
  recv_turns-IsSafe zero c r = tt
  recv_turns-IsSafe (suc n) c r = elim (Bool-cases (r.should_stop || not r.connected)) [
    | inl e ↦ rw e tt
    | inr e ↦ elim (Option-cases (recv_frame max_message_size c)) [
      | inl p ↦ rw (e, p) tt
      | inr ((f, c'), p) ↦
          let (v, small) = recv_frame-IsValid max_message_size c f c' p in
          rw (e, p)
            (go_on-IsSafe (on_frame ctx f r) _ (on_frame-IsSafe f r v small)
              (recv_turns-IsSafe n c' (on_frame ctx f r).0))
    ]
  ]

  -- Every call that the thread makes is safe, whatever arrives and in whatever state it starts: it
  -- sends nothing but pongs of at most 125 bytes; a raw message has at most 1 MiB; and each message
  -- for the handler has texts that fit their arrays and no CR or LF in the terminal identifier and the
  -- ping target.
  pub recv_thread-IsSafe :
      (n : ℕ) (c : Connection) (r end : Receiver) (calls : List Call)
      → recv_thread ctx n c r ≡ some (end, calls)
      → All IsSafe calls
  unfolding recv_thread
  recv_thread-IsSafe n c r end calls e =
      subst SafeResult e (recv_turns-IsSafe n c (record r { fragments = reset r.fragments }))
