-- ===== src/Websocket/Session/Ends.antt =====
-- The turns of the receive thread.
use luci_app_komari_agent_c.Prelude.{
  ℕ, zero, suc, ◌+◌, ◌<◌, ◌≡◌, refl, ◌∙◌, ◌⊎◌, inl, inr, [], ◌++◌, List, Option, some, true, false,
  not, ◌||◌, arith, Bool-cases, Option-cases, length,
}
use luci_app_komari_agent_c.Websocket.Transport.{Connection}
use luci_app_komari_agent_c.Websocket.Transport.Read.{available}
use luci_app_komari_agent_c.Websocket.Frame.{recv_frame}
use luci_app_komari_agent_c.Websocket.Frame.Consumes.{
  recv_frame_consumes, remaining, remaining-available,
}
use luci_app_komari_agent_c.Websocket.Fragment.{reset}
use luci_app_komari_agent_c.Websocket.Session.{
  Context, Receiver, Call, Turn, max_message_size, receive_failed, on_frame, go_on, recv_turns,
  recv_thread,
}
use luci_app_komari_agent_c.Websocket.Session.Turns.{
  Keeps, on_frame-Keeps, recv_turns_stopped, recv_turns_failed, recv_turns_frame,
}

-- A result, which leaves the stop request as it was, and otherwise the connection closed.
abbrev Ended : Receiver → Option (Receiver × List Call) → Type 0
Ended r result =
    (end : Receiver) × (calls : List Call) × (result ≡ some (end, calls))
    × (end.should_stop ≡ r.should_stop)
    × ((r.should_stop ≡ true) ⊎ (end.connected ≡ false))

module _ {Node : Type 0} (ctx : Context Node) where
  go_on-Ended :
      (r : Receiver) (t : Turn) (rest : Option (Receiver × List Call))
      → Keeps r t
      → (t.2 ≡ true → Ended t.0 rest)
      → Ended r (go_on ctx t rest)
  go_on-Ended r (r', calls, false) rest k e = (r', calls, refl, k.stop, inr k.connection)
  go_on-Ended r (r', calls, true) rest k e =
      let (end, more, result, stop, closed) = e refl in
      (end, calls ++ more, rw result refl, stop ∙ k.stop, grind arith)

  recv_turns-Ended :
      (n : ℕ) (c : Connection) (r : Receiver) → remaining c < n → Ended r (recv_turns ctx n c r)
  recv_turns-Ended zero c r h = absurd (omega arith)
  recv_turns-Ended (suc n) c r h = elim (Bool-cases (r.should_stop || not r.connected)) [
    | inl stopped ↦ (r, [], recv_turns_stopped ctx n c r stopped, refl, grind arith)
    | inr runs ↦ elim (Option-cases (recv_frame max_message_size c)) [
      | inl e ↦ (receive_failed r, [], recv_turns_failed ctx n c r runs e, refl, inr refl)
      | inr ((f, c'), e) ↦ rw (recv_turns_frame ctx n c c' r f runs e) (
          go_on-Ended r (on_frame ctx f r) _ (on_frame-Keeps ctx f r) (λ t.
            recv_turns-Ended n c' (on_frame ctx f r).0
              (omega (arith, recv_frame_consumes max_message_size c f c' e))))
    ]
  ]

  -- Whatever arrives, the thread ends after at most one turn more than there are bytes on the stream;
  -- it does not touch a request to stop, and without one it leaves the client disconnected.
  pub recv_thread_ends :
      (c : Connection) (r : Receiver)
      → (end : Receiver) × (calls : List Call) × (recv_thread ctx (length (available c) + 1) c r
          ≡ some (end, calls))
        × (end.should_stop ≡ r.should_stop)
        × ((r.should_stop ≡ true) ⊎ (end.connected ≡ false))
  unfolding recv_thread
  recv_thread_ends c r =
      recv_turns-Ended (length (available c) + 1) c (record r { fragments = reset r.fragments })
        (omega (arith, remaining-available c))
