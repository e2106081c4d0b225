-- ===== src/Protocol/Fallback/Tests.antt =====
-- A history with four failures.
use luci_app_komari_agent_c.Prelude.{◌≡◌, refl, [], ◌∷◌, true, false}
use luci_app_komari_agent_c.Protocol.State.{note_attempt_result, should_fallback_to_v1}
use luci_app_komari_agent_c.Protocol.Fallback.{
  v2, client_create, note_protocol_result, run_results, trailing_failures, Agree,
  run_results_fallback,
}

two_failures_keep_v2 :
    (run_results (false ∷ true ∷ false ∷ false ∷ []) client_create).protocol_version ≡ v2
unfolding run_results note_protocol_result note_attempt_result should_fallback_to_v1
two_failures_keep_v2 = refl

run_results_fallback_example :
    Agree (run_results (true ∷ false ∷ false ∷ false ∷ false ∷ []) client_create) 4
unfolding trailing_failures
run_results_fallback_example = run_results_fallback (true ∷ false ∷ false ∷ false ∷ false ∷ [])
