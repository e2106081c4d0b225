-- ===== src/Websocket/Session/Turns.antt =====
-- One turn of the receive loop.
use luci_app_komari_agent_c.Prelude.{
  ℕ, suc, ◌≡◌, refl, [], none, some, true, false, not, ◌||◌, if◌then◌else◌, arith,
}
use luci_app_komari_agent_c.Websocket.Fragment.{
  Outcome, waiting, complete, failure, fragment_accumulate,
}
use luci_app_komari_agent_c.Websocket.Transport.{Connection}
use luci_app_komari_agent_c.Websocket.Frame.{Frame, recv_frame}
use luci_app_komari_agent_c.Websocket.Session.{
  Context, Receiver, Turn, max_message_size, receive_failed, on_outcome, on_data, on_frame, go_on,
  recv_turns,
}

-- The flags after a turn: none is touched where the loop goes on, and it ends by a disconnection.
pub record Keeps (r : Receiver) (t : Turn) : Type 0 where
  pub stop : t.0.should_stop ≡ r.should_stop
  pub connection : t.0.connected ≡ (if t.2 then r.connected else false)

module _ {Node : Type 0} (ctx : Context Node) where
  on_outcome-Keeps : (o : Outcome) (r : Receiver) → Keeps r (on_outcome ctx o r)
  on_outcome-Keeps failure r = record { stop = refl; connection = refl }
  on_outcome-Keeps waiting r = record { stop = refl; connection = refl }
  on_outcome-Keeps (complete op m) r = record { stop = refl; connection = refl }

  on_data-Keeps : (f : Frame) (r : Receiver) → Keeps r (on_data ctx f r)
  unfolding on_data
  on_data-Keeps f r =
      let accumulated = fragment_accumulate ctx.can_alloc f.opcode f.fin f.payload r.fragments in
      let k = on_outcome-Keeps accumulated.1 (record r { fragments = accumulated.0 }) in
      record { stop = k.stop; connection = k.connection }

  pub on_frame-Keeps : (f : Frame) (r : Receiver) → Keeps r (on_frame ctx f r)
  unfolding on_frame
  on_frame-Keeps f r = grind (arith, on_data-Keeps f r)

  -- The turns by what `ws_recv_frame` gives.
  pub recv_turns_stopped :
      (n : ℕ) (c : Connection) (r : Receiver)
      → r.should_stop || not r.connected ≡ true
      → recv_turns ctx (suc n) c r ≡ some (r, [])
  unfolding recv_turns
  recv_turns_stopped n c r e = rw e refl

  pub recv_turns_failed :
      (n : ℕ) (c : Connection) (r : Receiver)
      → r.should_stop || not r.connected ≡ false
      → recv_frame max_message_size c ≡ none
      → recv_turns ctx (suc n) c r ≡ some (receive_failed r, [])
  unfolding recv_turns
  recv_turns_failed n c r e p = rw (e, p) refl

  pub recv_turns_frame :
      (n : ℕ) (c c' : Connection) (r : Receiver) (f : Frame)
      → r.should_stop || not r.connected ≡ false
      → recv_frame max_message_size c ≡ some (f, c')
      → recv_turns ctx (suc n) c r
        ≡ go_on ctx (on_frame ctx f r) (recv_turns ctx n c' (on_frame ctx f r).0)
  unfolding recv_turns
  recv_turns_frame n c c' r f e p = rw (e, p) refl
