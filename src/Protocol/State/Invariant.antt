-- ===== src/Protocol/State/Invariant.antt =====
-- The arrays of `v2_state_t` against their capacities and limits.
use luci_app_komari_agent_c.Prelude.{
  ℕ, suc, ◌≤◌, ◌≡◌, [], ◌∷◌, List, Bool, length, length-append, arith,
}
use luci_app_komari_agent_c.Prelude.Chars.{Bytes}
use luci_app_komari_agent_c.Protocol.State.{
  V2State, seen_events_max, ack_ids_max, drop_oldest, add_seen_event, add_ack_event,
}

pub record IsValid (s : V2State) : Type 0 where
  pub seen_bounded : length s.seen_events ≤ seen_events_max
  pub seen_fits : length s.seen_events ≤ s.seen_capacity
  pub ack_bounded : length s.ack_ids ≤ ack_ids_max
  pub ack_fits : length s.ack_ids ≤ s.ack_capacity
  pub ack_capacity_bounded : s.ack_capacity ≤ ack_ids_max

length-drop_oldest {ℓ} : {A : Type ℓ} (xs : List A) → length (drop_oldest xs) ≤ length xs
length-drop_oldest [] = omega arith
length-drop_oldest (x ∷ xs) = omega arith

length-drop_oldest_full {ℓ} :
    {A : Type ℓ} (xs : List A) (n : ℕ)
    → suc n ≤ length xs
    → suc (length (drop_oldest xs)) ≡ length xs
length-drop_oldest_full [] n h = absurd (omega arith)
length-drop_oldest_full (x ∷ xs) n h = omega arith

-- Recording an event keeps both arrays inside their limits and capacities, memory or not.
pub add_seen_event-IsValid :
    (can_alloc : ℕ → Bool) (can_copy : Bool) (id' : Bytes) (s : V2State)
    → IsValid s
    → IsValid (add_seen_event can_alloc can_copy id' s).0
unfolding add_seen_event
add_seen_event-IsValid can_alloc can_copy id' s v = ground (
  arith,
  length-drop_oldest_full s.seen_events 999,
  length-append (drop_oldest s.seen_events) (id' ∷ []),
  length-append s.seen_events (id' ∷ []),
)

pub add_ack_event-IsValid :
    (can_alloc : ℕ → Bool) (id' : ℕ) (s : V2State)
    → IsValid s
    → IsValid (add_ack_event can_alloc id' s).0
unfolding add_ack_event
add_ack_event-IsValid can_alloc id' s v = ground (
  arith,
  length-drop_oldest_full s.ack_ids 1023,
  length-append (drop_oldest s.ack_ids) (id' ∷ []),
  length-append s.ack_ids (id' ∷ []),
)
