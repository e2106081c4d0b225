-- ===== src/Websocket/Fragment/Tests.antt =====
-- Runs of the assembly.
use luci_app_komari_agent_c.Prelude.{
  ℕ, ◌≡◌, ◌≢◌, ◌≤◌, ◌⊎◌, refl, inl, inr, [], ◌++◌, Bool, true, false, arith, length,
}
use luci_app_komari_agent_c.Prelude.Chars.{bytes}
use luci_app_komari_agent_c.Websocket.Fragment.{
  Fragments, complete, failure, continuation, fragment_accumulate, fragment_max_size,
}
use luci_app_komari_agent_c.Websocket.Fragment.Invariant.{
  IsValid, fragment_accumulate-IsValid, fragment_accumulate_complete,
}

abbrev idle_state : Fragments
idle_state = record { buffer = []; capacity = 0; opcode = 0 }

abbrev open_state : Fragments
open_state = record { buffer = bytes "ab"; capacity = 4096; opcode = 1 }

abbrev no_memory : ℕ → Bool
no_memory n = false

open_state-IsValid : IsValid open_state
open_state-IsValid = record {
  small = omega arith;
  room = inr (omega arith);
  idle = inl (omega arith);
  kind = omega arith;
}

-- A text frame inside an open message is an error that closes it.
interleaved_text :
    fragment_accumulate no_memory 1 true (bytes "x") open_state
    ≡ (record open_state { buffer = []; opcode = 0 }, failure)
unfolding fragment_accumulate
interleaved_text = refl

last_piece :
    fragment_accumulate no_memory 0 true (bytes "cd") open_state
    ≡ (record idle_state { capacity = 4096 }, complete 1 (bytes "abcd"))
unfolding fragment_accumulate continuation
last_piece = refl

fragment_accumulate-IsValid_example :
    IsValid (fragment_accumulate no_memory 0 false (bytes "cd") open_state).0
fragment_accumulate-IsValid_example =
    fragment_accumulate-IsValid no_memory 0 false (bytes "cd") open_state open_state-IsValid

fragment_accumulate_complete_example :
    ((true ≡ true)
      × (◌≢◌ {A = ℕ} 0 0)
      × (open_state.opcode ≡ 0)
      × (◌≡◌ {A = ℕ} 1 0)
      × (bytes "abcd" ≡ bytes "cd")
      × (record idle_state { capacity = 4096 } ≡ open_state))
    ⊎ ((true ≡ true)
        × (◌≡◌ {A = ℕ} 0 0)
        × (open_state.opcode ≢ 0)
        × (1 ≡ open_state.opcode)
        × (bytes "abcd" ≡ open_state.buffer ++ bytes "cd")
        × (length (bytes "abcd") ≤ fragment_max_size)
        × (idle_state.opcode ≡ 0))
fragment_accumulate_complete_example =
    fragment_accumulate_complete no_memory 0 true (bytes "cd") open_state
      {s' = record idle_state { capacity = 4096 }} {op = 1} {m = bytes "abcd"} last_piece
