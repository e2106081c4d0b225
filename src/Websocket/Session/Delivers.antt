-- ===== src/Websocket/Session/Delivers.antt =====
-- The receive thread on a message in pieces, with pings and pongs between them.
use luci_app_komari_agent_c.Prelude.{
  ℕ, ◌+◌, ◌<◌, ◌≤◌, ◌≡◌, refl, sym, ap, ◌∙◌, ◌⊎◌, inl, inr, [], ◌∷◌, ◌++◌, List, Option, some, Bool,
  true, false, map, arith, length,
}
use luci_app_komari_agent_c.Prelude.Chars.{Bytes, All}
use luci_app_komari_agent_c.Websocket.Transport.{Connection}
use luci_app_komari_agent_c.Websocket.Transport.Read.{available}
use luci_app_komari_agent_c.Websocket.Frame.{Frame}
use luci_app_komari_agent_c.Websocket.Fragment.{
  Fragments, Outcome, waiting, complete, failure, reset, fragment_accumulate, fragment_max_size,
}
use luci_app_komari_agent_c.Websocket.Fragment.Assemble.{
  DataFrame, feed, feed_message, continued, flat,
}
use luci_app_komari_agent_c.Websocket.Fragment.Invariant.{fragment_accumulate_unfinished}
use luci_app_komari_agent_c.Websocket.Session.{
  Context, Receiver, Call, send_call, Turn, dispatch_message, on_outcome, on_data, on_frame,
  recv_thread,
}
use luci_app_komari_agent_c.Websocket.Session.Wires.{
  SentFrame, IsSendable, Runs, wires, run_frames, at_end, recv_thread-wires,
}
use mathlib.Core.List.{append-nil}

abbrev pub frame : ℕ → Bool → Bytes → Frame
frame opcode fin payload = record { opcode = opcode; fin = fin; payload = payload }

-- The data frames of a message, the payloads of the pings among them, and all frames as they are
-- sent. The last frame of the message, which alone is final, is the last of all.
pub data Interleaved : List DataFrame → List Bytes → List SentFrame → Type 0 where
  last :
      (opcode : ℕ) (payload : Bytes) (key : Option Bytes)
      → opcode ≤ 2
      → Interleaved ((opcode, true, payload) ∷ []) [] ((frame opcode true payload, key) ∷ [])
  piece :
      {frames : List DataFrame} {pings : List Bytes} {sent : List SentFrame} (opcode : ℕ)
      (payload : Bytes) (key : Option Bytes)
      → opcode ≤ 2
      → Interleaved frames pings sent
      → Interleaved
          ((opcode, false, payload) ∷ frames)
          pings
          ((frame opcode false payload, key) ∷ sent)
  ping :
      {frames : List DataFrame} {pings : List Bytes} {sent : List SentFrame} (payload : Bytes)
      (key : Option Bytes)
      → Interleaved frames pings sent
      → Interleaved frames (payload ∷ pings) ((frame 0x09 true payload, key) ∷ sent)
  pong :
      {frames : List DataFrame} {pings : List Bytes} {sent : List SentFrame} (payload : Bytes)
      (key : Option Bytes)
      → Interleaved frames pings sent
      → Interleaved frames pings ((frame 0x0A true payload, key) ∷ sent)

module _ {Node : Type 0} (ctx : Context Node) where
  on_frame_data : (f : Frame) (r : Receiver) → f.opcode ≤ 2 → on_frame ctx f r ≡ on_data ctx f r
  unfolding on_frame
  on_frame_data f r h = ground arith

  on_frame_outcome :
      (f : Frame) (r : Receiver) (s : Fragments) (o : Outcome)
      → f.opcode ≤ 2
      → fragment_accumulate ctx.can_alloc f.opcode f.fin f.payload r.fragments ≡ (s, o)
      → on_frame ctx f r ≡ on_outcome ctx o (record r { fragments = s })
  unfolding on_data
  on_frame_outcome f r s o h e = on_frame_data f r h ∙ rw e refl

  on_frame_ping :
      (payload : Bytes) (r : Receiver)
      → on_frame ctx (frame 0x09 true payload) r ≡ (r, send_call 0x0A payload ∷ [], true)
  unfolding on_frame
  on_frame_ping payload r = refl

  on_frame_pong :
      (payload : Bytes) (r : Receiver) → on_frame ctx (frame 0x0A true payload) r ≡ (r, [], true)
  unfolding on_frame
  on_frame_pong payload r = refl

  -- The state and the calls at the end of the message.
  abbrev delivered : List Bytes → Fragments → ℕ → Bytes → Receiver → Turn
  delivered pings s opcode msg r =
      let (v, calls) = dispatch_message ctx opcode msg r.client.v2_state in
      (
        record r { fragments = s; client = record r.client { v2_state = v } },
        map (send_call 0x0A) pings ++ calls,
        true,
      )

  -- What `feed` does with what the first frame gave.
  abbrev feed_by : Fragments × Outcome → List DataFrame → Fragments × Outcome
  feed_by p rest = elim p.1 [
    | waiting ↦ feed ctx.can_alloc rest p.0
    | complete opcode msg ↦ (p.0, complete opcode msg)
    | failure ↦ (p.0, failure)
  ]

  feed_one : (p : Fragments × Outcome) → feed_by p [] ≡ p
  feed_one (s, waiting) = refl
  feed_one (s, complete opcode msg) = refl
  feed_one (s, failure) = refl

  feed_waiting :
      (p : Fragments × Outcome) (rest : List DataFrame)
      → p.1 ≡ waiting
      → feed_by p rest ≡ feed ctx.can_alloc rest p.0
  feed_waiting (s, o) rest e = rw e refl

  feed_failure :
      (p : Fragments × Outcome) (rest : List DataFrame) (s : Fragments) (opcode : ℕ) (msg : Bytes)
      → p.1 ≡ failure
      → ¬ (feed_by p rest ≡ (s, complete opcode msg))
  feed_failure (s', waiting) rest s opcode msg f e = ground arith
  feed_failure (s', complete op m) rest s opcode msg f e = ground arith
  feed_failure (s', failure) rest s opcode msg f e = ground arith

  piece_step :
      (f : Frame) (key : Option Bytes) (rest : List SentFrame) (r : Receiver) (s : Fragments)
      → f.opcode ≤ 2
      → fragment_accumulate ctx.can_alloc f.opcode f.fin f.payload r.fragments ≡ (s, waiting)
      → run_frames ctx ((f, key) ∷ rest) r ≡ run_frames ctx rest (record r { fragments = s })
  piece_step f key rest r s h e = rw (on_frame_outcome f r s waiting h e) refl

  run_frames-Interleaved :
      {frames : List DataFrame} {pings : List Bytes} {sent : List SentFrame}
      (i : Interleaved frames pings sent) (r : Receiver) (s : Fragments) (opcode : ℕ) (msg : Bytes)
      → feed ctx.can_alloc frames r.fragments ≡ (s, complete opcode msg)
      → run_frames ctx sent r ≡ delivered pings s opcode msg r
  run_frames-Interleaved (last op payload key h) r s opcode msg e =
      rw
        (on_frame_outcome (frame op true payload) r s (complete opcode msg) h
          (sym (feed_one (fragment_accumulate ctx.can_alloc op true payload r.fragments)) ∙ e))
        (ap (λ (calls : List Call). ((delivered [] s opcode msg r).0, calls, true)) (append-nil _))
  run_frames-Interleaved (piece op payload key h i) r s opcode msg e =
      let acc = fragment_accumulate ctx.can_alloc op false payload r.fragments in
      elim (fragment_accumulate_unfinished ctx.can_alloc op payload r.fragments) [
        | inl w ↦
            piece_step (frame op false payload) key _ r acc.0 h (ap (λ (o : Outcome). (acc.0, o)) w)
            ∙ run_frames-Interleaved i (record r { fragments = acc.0 }) s opcode msg
                (sym (feed_waiting acc _ w) ∙ e)
        | inr f ↦ absurd (feed_failure acc _ s opcode msg f e)
      ]
  run_frames-Interleaved (ping payload key i) r s opcode msg e =
      rw (on_frame_ping payload r, run_frames-Interleaved i r s opcode msg e) refl
  run_frames-Interleaved (pong payload key i) r s opcode msg e =
      rw (on_frame_pong payload r, run_frames-Interleaved i r s opcode msg e) refl

  -- A text or binary message of at most 1 MiB, cut into two pieces or more, with pings and pongs
  -- between them, is all that the server sends before the stream ends. However the bytes are cut into
  -- packets, the running thread, with memory at hand for the assembly, answers each ping by a pong
  -- with its payload, in their order, and then makes exactly the calls that the dispatch of the whole
  -- message makes.
  pub recv_thread_delivers :
      (opcode : ℕ) (head : Bytes) (middle : List Bytes) (end : Bytes) (pings : List Bytes)
      (sent : List SentFrame) (n : ℕ) (c : Connection) (r : Receiver)
      → Runs r
      → ctx.can_alloc ≡ (λ k. true)
      → (opcode ≡ 1) ⊎ (opcode ≡ 2)
      → length head + length (flat middle) + length end ≤ fragment_max_size
      → Interleaved ((opcode, false, head) ∷ continued middle end) pings sent
      → All IsSendable sent
      → available c ≡ wires sent
      → length sent < n
      → (r' : Receiver) × (recv_thread ctx n c r
          ≡ some (
            r',
            map (send_call 0x0A) pings
                ++ (dispatch_message ctx opcode (head ++ (flat middle ++ end)) r.client.v2_state).1,
          ))
  recv_thread_delivers opcode head middle end pings sent n c r runs memory kind small i ok e h =
      let start : Receiver = record r { fragments = reset r.fragments } in
      let frames : List DataFrame = (opcode, false, head) ∷ continued middle end in
      let whole : Bytes = head ++ (flat middle ++ end) in
      let fed = feed (λ k. true) frames start.fragments in
      let (out, _, _) = feed_message opcode head middle end start.fragments refl kind small in
      let given : feed ctx.can_alloc frames start.fragments ≡ (fed.0, complete opcode whole) =
        rw memory (ap (λ (o : Outcome). (fed.0, o)) out) in
      (
        _,
        recv_thread-wires ctx sent n c r runs ok e h
            ∙ ap (λ (t : Turn). some (at_end ctx t))
                (run_frames-Interleaved i start fed.0 opcode whole given),
      )
