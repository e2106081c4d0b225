-- ===== src/Protocol/State/Reach.antt =====
-- Every state that the operations of `v2_state_t` reach.
use luci_app_komari_agent_c.Prelude.{ℕ, ◌≡◌, refl, Bool, true, arith}
use luci_app_komari_agent_c.Prelude.Chars.{Bytes}
use luci_app_komari_agent_c.Protocol.State.{
  V2State, state_init, note_attempt_result, add_seen_event, add_ack_event, clear_acks,
  state_cleanup,
}
use luci_app_komari_agent_c.Protocol.State.Invariant.{
  IsValid, add_seen_event-IsValid, add_ack_event-IsValid,
}
use luci_app_komari_agent_c.Protocol.State.Queue.{distinct, add_seen_event-distinct}

-- One operation, by any thread; memory may lack at any of them.
pub data Step : V2State → V2State → Type 0 where
  notes : (success : Bool) (s : V2State) → Step s (note_attempt_result success s).0
  sees :
      (can_alloc : ℕ → Bool) (can_copy : Bool) (event : Bytes) (s : V2State)
      → Step s (add_seen_event can_alloc can_copy event s).0
  acks : (can_alloc : ℕ → Bool) (ack : ℕ) (s : V2State) → Step s (add_ack_event can_alloc ack s).0
  clears : (s : V2State) → Step s (clear_acks s)
  cleans : (s : V2State) → Step s (state_cleanup s)

pub data Reached : V2State → Type 0 where
  created : Reached state_init
  after : {s s' : V2State} → Reached s → Step s s' → Reached s'

Step-IsValid : {s s' : V2State} → Step s s' → IsValid s → IsValid s'
unfolding note_attempt_result clear_acks state_cleanup
Step-IsValid (notes success s) v = grind arith
Step-IsValid (sees can_alloc can_copy event s) v =
    add_seen_event-IsValid can_alloc can_copy event s v
Step-IsValid (acks can_alloc ack s) v = add_ack_event-IsValid can_alloc ack s v
Step-IsValid (clears s) v = grind arith
Step-IsValid (cleans s) v = omega arith

distinct-add_ack_event :
    (can_alloc : ℕ → Bool) (ack : ℕ) (s : V2State)
    → distinct s.seen_events ≡ true
    → distinct (add_ack_event can_alloc ack s).0.seen_events ≡ true
unfolding add_ack_event
distinct-add_ack_event can_alloc ack s d = ground arith

Step-distinct :
    {s s' : V2State} → Step s s' → distinct s.seen_events ≡ true → distinct s'.seen_events ≡ true
unfolding note_attempt_result clear_acks state_cleanup
Step-distinct (notes success s) d = d
Step-distinct (sees can_alloc can_copy event s) d =
    (add_seen_event-distinct can_alloc can_copy event s d).0
Step-distinct (acks can_alloc ack s) d = distinct-add_ack_event can_alloc ack s d
Step-distinct (clears s) d = d
Step-distinct (cleans s) d = refl

-- In every state that operations reach from the initial one, in any order and whether memory can be
-- had or not, the arrays are within their limits and capacities, and no event is held twice.
pub Reached-IsValid : (s : V2State) → Reached s → IsValid s × (distinct s.seen_events ≡ true)
Reached-IsValid s created = (omega arith, refl)
Reached-IsValid s (after r step) =
    let (v, d) = Reached-IsValid _ r in (Step-IsValid step v, Step-distinct step d)
