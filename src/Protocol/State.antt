-- ===== src/Protocol/State.antt =====
-- `v2_state_t` of src/protocol/v2.h and its operations in src/protocol/v2.c. Each runs under the
-- state's mutex, so it is one step. A NULL state is not modelled.
pub mod Invariant
pub mod Queue
pub mod Report
pub mod Recent
pub mod Reach
mod Tests
use luci_app_komari_agent_c.Prelude.{
  ℕ, ◌+◌, ◌*◌, ◌-◌, [], ◌∷◌, ◌++◌, List, Bool, true, false, not, ◌&&◌, ◌||◌, length, take, ltb, leb,
  ◌==◌, if◌then◌else◌,
}
use luci_app_komari_agent_c.Prelude.Chars.{Bytes, str_eq}

-- Both arrays are oldest first, up to their counts; an ACK identifier is only moved.
pub record V2State : Type 0 where
  pub fail_count : ℕ
  pub seen_events : List Bytes
  pub seen_capacity : ℕ
  pub ack_ids : List ℕ
  pub ack_capacity : ℕ

abbrev pub seen_events_max : ℕ
seen_events_max = 1000

abbrev pub ack_ids_max : ℕ
ack_ids_max = 1024

abbrev pub fallback_threshold : ℕ
fallback_threshold = 3

-- `v2_state_init`
abbrev pub state_init : V2State
state_init = record {
  fail_count = 0;
  seen_events = [];
  seen_capacity = 0;
  ack_ids = [];
  ack_capacity = 0;
}

unfoldable pub note_attempt_result : Bool → V2State → V2State × ℕ
note_attempt_result success s =
    let count = if success then 0 else s.fail_count + 1 in (record s { fail_count = count }, count)

unfoldable pub should_fallback_to_v1 : V2State → Bool
should_fallback_to_v1 s = leb fallback_threshold s.fail_count

unfoldable pub contains : List Bytes → Bytes → Bool
contains [] id' = false
contains (e ∷ es) id' = str_eq e id' || contains es id'

unfoldable pub is_event_seen : V2State → Bytes → Bool
is_event_seen s id' = contains s.seen_events id'

-- `memmove` of the whole array down by one entry.
abbrev pub drop_oldest {ℓ} : {A : Type ℓ} → List A → List A
drop_oldest [] = []
drop_oldest (x ∷ xs) = xs

-- `can_alloc n` says whether `realloc` to `n` entries succeeds, `can_copy` whether `malloc` does for
-- the copy of the identifier.
unfoldable pub add_seen_event : (ℕ → Bool) → Bool → Bytes → V2State → V2State × Bool
add_seen_event can_alloc can_copy id' s =
    let seen =
      if leb seen_events_max (length s.seen_events)
      then drop_oldest s.seen_events
      else s.seen_events in
    let new_cap = if s.seen_capacity == 0 then 64 else s.seen_capacity * 2 in
    let full = leb s.seen_capacity (length seen) in
    let capacity = if full then new_cap else s.seen_capacity in
    if contains s.seen_events id'
    then (s, true)
    else if full && not (can_alloc new_cap)
    then (record s { seen_events = seen }, false)
    else if not can_copy
    then (record s { seen_events = seen; seen_capacity = capacity }, false)
    else (record s { seen_events = seen ++ (id' ∷ []); seen_capacity = capacity }, true)

unfoldable pub add_ack_event : (ℕ → Bool) → ℕ → V2State → V2State × Bool
add_ack_event can_alloc id' s =
    let acks = if leb ack_ids_max (length s.ack_ids) then drop_oldest s.ack_ids else s.ack_ids in
    let doubled =
      if ltb ack_ids_max (s.ack_capacity * 2) then ack_ids_max else s.ack_capacity * 2 in
    let new_cap = if s.ack_capacity == 0 then 16 else doubled in
    let full = leb s.ack_capacity (length acks) && ltb s.ack_capacity ack_ids_max in
    if full && not (can_alloc new_cap) then (record s { ack_ids = acks }, false) else (
      record s {
        ack_ids = acks ++ (id' ∷ []);
        ack_capacity = if full then new_cap else s.ack_capacity;
      },
      true,
    )

-- `v2_snapshot_ack_ids` into a buffer of `max_count` entries.
pub snapshot_ack_ids : ℕ → V2State → List ℕ
snapshot_ack_ids max_count s = take max_count s.ack_ids

pub clear_acks : V2State → V2State
clear_acks s = record s { ack_ids = [] }

-- `v2_state_cleanup`, up to the release of the memory.
pub state_cleanup : V2State → V2State
state_cleanup s = state_init
