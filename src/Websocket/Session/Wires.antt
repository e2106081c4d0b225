-- ===== src/Websocket/Session/Wires.antt =====
-- The receive thread over a socket against a machine on whole frames.
use luci_app_komari_agent_c.Prelude.{
  ℕ, zero, suc, ◌<◌, ◌≤◌, ◌≡◌, refl, ap, ◌∙◌, inl, inr, [], ◌∷◌, ◌++◌, List, Option, some, true,
  false, not, ◌||◌, arith, Option-cases, length,
}
use luci_app_komari_agent_c.Prelude.Chars.{Bytes, All}
use luci_app_komari_agent_c.Websocket.Transport.{Connection}
use luci_app_komari_agent_c.Websocket.Transport.Read.{available}
use luci_app_komari_agent_c.Websocket.Frame.{Frame, recv_frame}
use luci_app_komari_agent_c.Websocket.Frame.Consumes.{recv_frame_consumes, remaining-available}
use luci_app_komari_agent_c.Websocket.Frame.Wire.{wire}
use luci_app_komari_agent_c.Websocket.Frame.Receive.{IsValid, IsKey, recv_frame-wire}
use luci_app_komari_agent_c.Websocket.Fragment.{reset}
use luci_app_komari_agent_c.Websocket.Session.{
  Context, Receiver, Call, Turn, max_message_size, receive_failed, on_frame, go_on, recv_turns,
  recv_thread,
}
use luci_app_komari_agent_c.Websocket.Session.Turns.{
  Keeps, on_frame-Keeps, recv_turns_failed, recv_turns_frame,
}

-- A frame with the key that masks it, if any.
abbrev pub SentFrame : Type 0
SentFrame = Frame × Option Bytes

-- The server keeps to the protocol, and the payload fits the buffer of the thread.
pub record IsSendable (s : SentFrame) : Type 0 where
  pub valid : IsValid s.0
  pub key : IsKey s.1
  pub fits : length s.0.payload ≤ max_message_size

abbrev pub wires : List SentFrame → Bytes
wires [] = []
wires (s ∷ rest) = wire s.0 s.1 ++ wires rest

-- The loop is not asked to stop, and the connection is open.
abbrev pub Runs : Receiver → Type 0
Runs r = (r.should_stop || not r.connected) ≡ false

module _ {Node : Type 0} (ctx : Context Node) where
  -- A turn and the turns after it.
  abbrev pub then_turn : Turn → Turn → Turn
  then_turn (r, calls, false) next = (r, calls, false)
  then_turn (r, calls, true) (r', more, on) = (r', calls ++ more, on)

  -- The machine on frames.
  abbrev pub run_frames : List SentFrame → Receiver → Turn
  run_frames [] r = (r, [], true)
  run_frames (s ∷ rest) r = then_turn (on_frame ctx s.0 r) (run_frames rest (on_frame ctx s.0 r).0)

  -- If the machine goes on when the stream ends, the receive fails.
  abbrev pub at_end : Turn → Receiver × List Call
  at_end (r, calls, false) = (r, calls)
  at_end (r, calls, true) = (receive_failed r, calls)

  go_on-at_end :
      (t next : Turn) (rest : Option (Receiver × List Call))
      → (t.2 ≡ true → rest ≡ some (at_end next))
      → go_on ctx t rest ≡ some (at_end (then_turn t next))
  go_on-at_end (r, calls, false) next rest e = refl
  go_on-at_end (r, calls, true) (r', more, false) rest e = rw (e refl) refl
  go_on-at_end (r, calls, true) (r', more, true) rest e = rw (e refl) refl

  Keeps-Runs : (r : Receiver) (t : Turn) → Keeps r t → Runs r → t.2 ≡ true → Runs t.0
  Keeps-Runs r t k runs on = grind arith

  recv_turns-wires :
      (sent : List SentFrame) (n : ℕ) (c : Connection) (r : Receiver)
      → Runs r
      → All IsSendable sent
      → available c ≡ wires sent
      → length sent < n
      → recv_turns ctx n c r ≡ some (at_end (run_frames sent r))
  recv_turns-wires sent zero c r runs ok e h = absurd (omega arith)
  recv_turns-wires [] (suc n) c r runs ok e h =
      elim (Option-cases (recv_frame max_message_size c)) [
        | inl failed ↦ recv_turns_failed ctx n c r runs failed
        | inr ((f, c'), p) ↦
            let empty : length (available c) ≡ 0 = ap (λ (t : Bytes). length t) e in
            absurd (
              omega (
                arith,
                recv_frame_consumes max_message_size c f c' p,
                remaining-available c,
                empty,
              ))
      ]
  recv_turns-wires (s ∷ rest) (suc n) c r runs (ok, oks) e h =
      let (c', p, q) =
        recv_frame-wire max_message_size s.0 s.1 (wires rest) c ok.valid ok.key ok.fits
          (omega (arith, ok.fits)) e in
      let t = on_frame ctx s.0 r in
      recv_turns_frame ctx n c c' r s.0 runs p
      ∙ go_on-at_end t (run_frames rest t.0) _ (λ on.
        recv_turns-wires rest n c' t.0 (Keeps-Runs r t (on_frame-Keeps ctx s.0 r) runs on) oks q
          (omega arith))

  -- For every sequence of valid frames that the server sends before the stream ends, masked or not,
  -- and however the bytes are cut into packets, interrupted or left over from the handshake, the
  -- running thread ends with enough fuel in the state and with the calls of the machine on these
  -- frames, from an assembly that is reset; if that machine still runs, a failed receive follows.
  pub recv_thread-wires :
      (sent : List SentFrame) (n : ℕ) (c : Connection) (r : Receiver)
      → Runs r
      → All IsSendable sent
      → available c ≡ wires sent
      → length sent < n
      → recv_thread ctx n c r
        ≡ some (at_end (run_frames sent (record r { fragments = reset r.fragments })))
  unfolding recv_thread
  recv_thread-wires sent n c r runs ok e h =
      recv_turns-wires sent n c (record r { fragments = reset r.fragments }) runs ok e h
