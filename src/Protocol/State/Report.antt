-- ===== src/Protocol/State/Report.antt =====
-- The ACK part of a report cycle of `report_thread` in src/core/main.c, which runs beside the receive
-- thread.
use luci_app_komari_agent_c.Prelude.{
  ℕ, ◌<◌, ◌≡◌, [], List, Bool, true, false, ◌&&◌, length, take_all, ltb, if◌then◌else◌, arith,
}
use luci_app_komari_agent_c.Protocol.State.{V2State, ack_ids_max, snapshot_ack_ids, clear_acks}
use luci_app_komari_agent_c.Protocol.State.Invariant.{IsValid}

-- A v2 cycle: the snapshot, then what the receive thread does meanwhile (`meanwhile`), then the clear
-- if the report was sent and carried identifiers. The reported identifiers come first.
pub report_acks : (V2State → V2State) → Bool → V2State → List ℕ × V2State
report_acks meanwhile sent s =
    let ack_buf = snapshot_ack_ids ack_ids_max s in
    let later = meanwhile s in
    (ack_buf, if sent && ltb 0 (length ack_buf) then clear_acks later else later)

-- In a valid state a cycle reports every pending identifier. If the report is not sent, or there was
-- none to report, nothing is cleared; if it is sent, nothing is pending, and the events that were
-- seen are still known, so that a retransmitted event is not executed again.
pub report_acks_all :
    (meanwhile : V2State → V2State) (sent : Bool) (s : V2State)
    → IsValid s
    → let (reported, s') = report_acks meanwhile sent s in
      (reported ≡ s.ack_ids)
      × (s'.seen_events ≡ (meanwhile s).seen_events)
      × (sent ≡ false → s' ≡ meanwhile s)
      × (sent ≡ true → 0 < length s.ack_ids → s'.ack_ids ≡ [])
unfolding report_acks snapshot_ack_ids clear_acks
report_acks_all meanwhile sent s v = ground (arith, take_all 1024 s.ack_ids)
