-- ===== src/Protocol/State/Tests.antt =====
-- Runs of the state's operations.
use luci_app_komari_agent_c.Prelude.{ℕ, ◌≡◌, ◌<◌, refl, [], ◌∷◌, Bool, true, false, arith, length}
use luci_app_komari_agent_c.Prelude.Chars.{bytes}
use luci_app_komari_agent_c.Protocol.State.{V2State, state_init, contains, add_seen_event}
use luci_app_komari_agent_c.Protocol.State.Invariant.{IsValid}
use luci_app_komari_agent_c.Protocol.State.Queue.{distinct}
use luci_app_komari_agent_c.Protocol.State.Reach.{created, after, sees, Reached-IsValid}
use luci_app_komari_agent_c.Protocol.State.Report.{report_acks, report_acks_all}

abbrev two_events : V2State
two_events = record {
  fail_count = 0;
  seen_events = bytes "e1" ∷ bytes "e2" ∷ [];
  seen_capacity = 64;
  ack_ids = 7 ∷ 8 ∷ [];
  ack_capacity = 16;
}

abbrev no_memory : ℕ → Bool
no_memory n = false

two_events-IsValid : IsValid two_events
two_events-IsValid = omega arith

add_seen_event_again : (add_seen_event no_memory false (bytes "e2") two_events) ≡ (two_events, true)
unfolding add_seen_event contains
add_seen_event_again = refl

report_acks_all_example :
    let (reported, s') = report_acks (λ s. s) true two_events in
    (reported ≡ 7 ∷ 8 ∷ [])
    × (s'.seen_events ≡ two_events.seen_events)
    × (true ≡ false → s' ≡ two_events)
    × (true ≡ true → 0 < length two_events.ack_ids → s'.ack_ids ≡ [])
report_acks_all_example = report_acks_all (λ s. s) true two_events two_events-IsValid

abbrev one_seen : V2State
one_seen = (add_seen_event no_memory true (bytes "e1") state_init).0

Reached-IsValid_example : IsValid one_seen × (distinct one_seen.seen_events ≡ true)
Reached-IsValid_example =
    Reached-IsValid one_seen (after created (sees no_memory true (bytes "e1") state_init))
