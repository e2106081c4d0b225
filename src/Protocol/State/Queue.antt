-- ===== src/Protocol/State/Queue.antt =====
-- The arrays of `v2_state_t` as bounded queues.
use luci_app_komari_agent_c.Prelude.{
  ℕ, suc, ◌-◌, ◌<◌, ◌≡◌, refl, ap, [], ◌∷◌, ◌++◌, List, Bool, true, false, not, ◌&&◌, ◌||◌, length,
  length-append, drop, arith, if◌then◌else◌,
}
use luci_app_komari_agent_c.Prelude.Chars.{Bytes, str_eq}
use luci_app_komari_agent_c.Protocol.State.{
  V2State, seen_events_max, ack_ids_max, contains, drop_oldest, add_seen_event, add_ack_event,
  is_event_seen,
}
use luci_app_komari_agent_c.Protocol.State.Invariant.{IsValid}

-- The last `n` entries.
abbrev pub keep_last {ℓ} : {A : Type ℓ} → ℕ → List A → List A
keep_last n xs = drop (length xs - n) xs

push_full {ℓ} :
    {A : Type ℓ} (n : ℕ) (xs : List A) (y : A)
    → suc n ≡ length xs
    → keep_last (suc n) (xs ++ (y ∷ [])) ≡ drop_oldest xs ++ (y ∷ [])
push_full n [] y h = absurd (omega arith)
push_full n (x ∷ xs) y h =
    let e : length ((x ∷ xs) ++ (y ∷ [])) - suc n ≡ 1 =
      omega (arith, length-append (x ∷ xs) (y ∷ [])) in
    ap (λ (k : ℕ). drop k (x ∷ (xs ++ (y ∷ [])))) e

push_room {ℓ} :
    {A : Type ℓ} (n : ℕ) (xs : List A) (y : A)
    → length xs < n
    → keep_last n (xs ++ (y ∷ [])) ≡ xs ++ (y ∷ [])
push_room n xs y h =
    let e : length (xs ++ (y ∷ [])) - n ≡ 0 = omega (arith, length-append xs (y ∷ [])) in
    ap (λ (k : ℕ). drop k (xs ++ (y ∷ []))) e

-- With memory at hand, recording an event does nothing if the event is held, and otherwise appends
-- it and forgets all but the last 1000; nothing else of the state but the capacity changes.
pub add_seen_event_queue :
    (id' : Bytes) (s : V2State)
    → IsValid s
    → let (s', r) = add_seen_event (λ n. true) true id' s in
      (r ≡ true)
      × (s'.seen_events ≡ (
          if is_event_seen s id'
          then s.seen_events
          else keep_last seen_events_max (s.seen_events ++ (id' ∷ []))))
      × (s'.ack_ids ≡ s.ack_ids)
      × (s'.fail_count ≡ s.fail_count)
unfolding add_seen_event is_event_seen
add_seen_event_queue id' s v =
    ground (arith, push_full 999 s.seen_events id', push_room 1000 s.seen_events id')

-- The same of the pending ACK identifiers, of which the last 1024 are kept, repeated or not.
pub add_ack_event_queue :
    (id' : ℕ) (s : V2State)
    → IsValid s
    → let (s', r) = add_ack_event (λ n. true) id' s in
      (r ≡ true)
      × (s'.ack_ids ≡ keep_last ack_ids_max (s.ack_ids ++ (id' ∷ [])))
      × (s'.seen_events ≡ s.seen_events)
      × (s'.fail_count ≡ s.fail_count)
unfolding add_ack_event
add_ack_event_queue id' s v =
    ground (arith, push_full 1023 s.ack_ids id', push_room 1024 s.ack_ids id')

str_eq_refl : (s : Bytes) → str_eq s s ≡ true
str_eq_refl [] = refl
str_eq_refl (x ∷ s) = ground (arith, str_eq_refl s)

str_eq_comm : (s t : Bytes) → str_eq s t ≡ str_eq t s
str_eq_comm [] [] = refl
str_eq_comm [] (y ∷ t) = refl
str_eq_comm (x ∷ s) [] = refl
str_eq_comm (x ∷ s) (y ∷ t) = ground (arith, str_eq_comm s t)

pub contains-append :
    (xs ys : List Bytes) (e : Bytes) → contains (xs ++ ys) e ≡ contains xs e || contains ys e
unfolding contains
contains-append [] ys e = refl
contains-append (x ∷ xs) ys e = ground (arith, contains-append xs ys e)

-- No event is held twice.
abbrev pub distinct : List Bytes → Bool
distinct [] = true
distinct (x ∷ xs) = not (contains xs x) && distinct xs

distinct-push :
    (xs : List Bytes) (y : Bytes)
    → distinct xs ≡ true
    → contains xs y ≡ false
    → distinct (xs ++ (y ∷ [])) ≡ true
unfolding contains
distinct-push [] y d h = refl
distinct-push (x ∷ xs) y d h =
    ground (arith, contains-append xs (y ∷ []) x, str_eq_comm x y, distinct-push xs y)

distinct-drop_oldest : (xs : List Bytes) → distinct xs ≡ true → distinct (drop_oldest xs) ≡ true
distinct-drop_oldest [] d = d
distinct-drop_oldest (x ∷ xs) d = ground arith

contains-drop_oldest :
    (xs : List Bytes) (y : Bytes) → contains xs y ≡ false → contains (drop_oldest xs) y ≡ false
unfolding contains
contains-drop_oldest [] y h = h
contains-drop_oldest (x ∷ xs) y h = ground arith

pub contains_last : (xs : List Bytes) (y : Bytes) → contains (xs ++ (y ∷ [])) y ≡ true
unfolding contains
contains_last xs y = ground (arith, contains-append xs (y ∷ []) y, str_eq_refl y)

-- Recording an event keeps the recorded events distinct, and when it succeeds the event is seen.
pub add_seen_event-distinct :
    (can_alloc : ℕ → Bool) (can_copy : Bool) (id' : Bytes) (s : V2State)
    → distinct s.seen_events ≡ true
    → let (s', r) = add_seen_event can_alloc can_copy id' s in
      (distinct s'.seen_events ≡ true) × (r ≡ true → is_event_seen s' id' ≡ true)
unfolding add_seen_event is_event_seen
add_seen_event-distinct can_alloc can_copy id' s d = ground (
  arith,
  distinct-drop_oldest s.seen_events,
  contains-drop_oldest s.seen_events id',
  distinct-push s.seen_events id',
  distinct-push (drop_oldest s.seen_events) id',
  contains_last s.seen_events id',
  contains_last (drop_oldest s.seen_events) id',
)
