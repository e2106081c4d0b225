-- ===== src/Protocol/Fallback.antt =====
-- The protocol fallback of src/network/websocket.c: `ws_client_note_protocol_result` over the
-- failure count of `v2_state_t`.
mod Tests
use luci_app_komari_agent_c.Prelude.{
  ℕ, ◌+◌, ◌≤◌, ◌<◌, ◌≡◌, ◌↔◌, refl, [], ◌∷◌, List, Bool, true, false, not, leb, if◌then◌else◌,
  arith, ◌&&◌,
}
use luci_app_komari_agent_c.Protocol.State.{
  V2State, state_init, note_attempt_result, should_fallback_to_v1, fallback_threshold,
}

pub data ProtocolVersion : Type 0 where
  v1 : ProtocolVersion
  v2 : ProtocolVersion

-- The part of `ws_client_t` that the fallback uses.
pub record Client : Type 0 where
  pub protocol_version : ProtocolVersion
  pub v2_state : V2State

-- `ws_client_create` starts with v2 and a fresh state.
abbrev pub client_create : Client
client_create = record { protocol_version = v2; v2_state = state_init }

pub note_protocol_result : Bool → Client → Client
note_protocol_result true c =
    let (s, _) = note_attempt_result true c.v2_state in
    record { protocol_version = v2; v2_state = s }
note_protocol_result false c =
    let (s, _) = note_attempt_result false c.v2_state in
    record {
      protocol_version = if should_fallback_to_v1 s then v1 else c.protocol_version;
      v2_state = s;
    }

unfoldable pub should_use_current_protocol : Client → Bool
should_use_current_protocol c = not (should_fallback_to_v1 c.v2_state)

-- The results of a session, oldest first.
pub run_results : List Bool → Client → Client
run_results [] c = c
run_results (r ∷ rs) c = run_results rs (note_protocol_result r c)

-- The failures since the last success, given those before the history.
pub trailing_failures : ℕ → List Bool → ℕ
trailing_failures n [] = n
trailing_failures n (true ∷ rs) = trailing_failures 0 rs
trailing_failures n (false ∷ rs) = trailing_failures (n + 1) rs

-- The version that the client records and the version that it uses agree.
abbrev pub Agree : Client → ℕ → Type 0
Agree c n =
    (c.v2_state.fail_count ≡ n)
    × (c.protocol_version ≡ (if leb fallback_threshold n then v1 else v2))
    × (should_use_current_protocol c ≡ not (leb fallback_threshold n))

run_results-Agree :
    (rs : List Bool) (c : Client) (n : ℕ)
    → Agree c n
    → Agree (run_results rs c) (trailing_failures n rs)
unfolding run_results trailing_failures
run_results-Agree [] c n h = h
run_results-Agree (true ∷ rs) c n h = run_results-Agree rs (note_protocol_result true c) 0 (
    unfold note_protocol_result note_attempt_result should_use_current_protocol
      should_fallback_to_v1 in
    ground arith)
run_results-Agree (false ∷ rs) c n h = run_results-Agree rs (note_protocol_result false c) (n + 1) (
    unfold note_protocol_result note_attempt_result should_use_current_protocol
      should_fallback_to_v1 in
    ground arith)

-- After any history of a new client, the failure count is the number of failures since the last
-- success; the client has fallen back to v1, and uses v1, exactly when that number is at least 3.
pub run_results_fallback :
    (rs : List Bool) → Agree (run_results rs client_create) (trailing_failures 0 rs)
unfolding should_use_current_protocol should_fallback_to_v1
run_results_fallback rs = run_results-Agree rs client_create 0 (refl, refl, refl)
