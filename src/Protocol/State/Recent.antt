-- ===== src/Protocol/State/Recent.antt =====
-- How long `v2_add_seen_event` remembers an event: until a thousand newer ones are recorded.
use luci_app_komari_agent_c.Prelude.{
  ℕ, zero, suc, ◌-◌, ◌≤◌, ◌<◌, ◌≡◌, refl, sym, ap, ◌∙◌, [], ◌∷◌, ◌++◌, List, Bool, true, false,
  length, length-append, drop, drop-append_left, arith,
}
use luci_app_komari_agent_c.Prelude.Chars.{Bytes}
use luci_app_komari_agent_c.Protocol.State.{
  V2State, seen_events_max, contains, drop_oldest, is_event_seen, add_seen_event, add_ack_event,
}
use luci_app_komari_agent_c.Protocol.State.Queue.{keep_last, contains-append, contains_last}

contains-drop :
    (m n : ℕ) (xs : List Bytes) (e : Bytes)
    → m ≤ n
    → contains (drop n xs) e ≡ true
    → contains (drop m xs) e ≡ true
unfolding contains
contains-drop zero zero xs e le h = h
contains-drop zero (suc n) [] e le h = h
contains-drop zero (suc n) (x ∷ xs) e le h = ground (arith, contains-drop zero n xs e)
contains-drop (suc m) zero xs e le h = absurd (omega arith)
contains-drop (suc m) (suc n) [] e le h = h
contains-drop (suc m) (suc n) (x ∷ xs) e le h = contains-drop m n xs e (omega arith) h

-- Among the last `k` recorded events.
abbrev pub Recent : ℕ → List Bytes → Bytes → Type 0
Recent k xs e = contains (keep_last k xs) e ≡ true

pub Recent-transfer :
    (j k : ℕ) (xs : List Bytes) (e : Bytes) → j ≡ k → Recent k xs e → Recent j xs e
Recent-transfer j k xs e p h = ap (λ (t : ℕ). contains (keep_last t xs) e) p ∙ h

pub Recent-suc : (k : ℕ) (xs : List Bytes) (e : Bytes) → Recent k xs e → Recent (suc k) xs e
Recent-suc k xs e = contains-drop (length xs - suc k) (length xs - k) xs e (omega arith)

pub Recent-seen : (k : ℕ) (xs : List Bytes) (e : Bytes) → Recent k xs e → contains xs e ≡ true
Recent-seen k xs e = contains-drop 0 (length xs - k) xs e (omega arith)

Recent-drop_oldest :
    (k : ℕ) (xs : List Bytes) (e : Bytes)
    → k < length xs
    → Recent k xs e
    → Recent k (drop_oldest xs) e
Recent-drop_oldest k [] e lt h = h
Recent-drop_oldest k (x ∷ xs) e lt h =
    let n : suc (length xs) - k ≡ suc (length xs - k) = omega arith in
    ap (λ (t : ℕ). contains (drop t (x ∷ xs)) e) (sym n) ∙ h

Recent-push :
    (k : ℕ) (xs : List Bytes) (e y : Bytes) → Recent k xs e → Recent (suc k) (xs ++ (y ∷ [])) e
Recent-push k xs e y h =
    let n : length (xs ++ (y ∷ [])) - suc k ≡ length xs - k =
      omega (arith, length-append xs (y ∷ [])) in
    let split : drop (length xs - k) (xs ++ (y ∷ [])) ≡ drop (length xs - k) xs ++ (y ∷ []) =
      drop-append_left (length xs - k) xs (y ∷ []) (omega arith) in
    rw (n, split, contains-append (drop (length xs - k) xs) (y ∷ []) e, h) refl

Recent-last : (xs : List Bytes) (e : Bytes) → Recent 1 (xs ++ (e ∷ [])) e
Recent-last xs e =
    let n : length (xs ++ (e ∷ [])) - 1 ≡ length xs = omega (arith, length-append xs (e ∷ [])) in
    let split : drop (length xs) (xs ++ (e ∷ [])) ≡ drop (length xs) xs ++ (e ∷ []) =
      drop-append_left (length xs) xs (e ∷ []) (omega arith) in
    rw (n, split) (contains_last (drop (length xs) xs) e)

pub add_seen_event-Recent :
    (can_alloc : ℕ → Bool) (can_copy : Bool) (y e : Bytes) (k : ℕ) (s : V2State)
    → k < seen_events_max
    → Recent k s.seen_events e
    → Recent (suc k) (add_seen_event can_alloc can_copy y s).0.seen_events e
unfolding add_seen_event
add_seen_event-Recent can_alloc can_copy y e k s lt h = ground (
  arith,
  Recent-suc k s.seen_events e,
  Recent-suc k (drop_oldest s.seen_events) e,
  Recent-drop_oldest k s.seen_events e,
  Recent-push k s.seen_events e y,
  Recent-push k (drop_oldest s.seen_events) e y,
)

pub add_seen_event_last :
    (can_alloc : ℕ → Bool) (can_copy : Bool) (e : Bytes) (s : V2State)
    → is_event_seen s e ≡ false
    → (add_seen_event can_alloc can_copy e s).1 ≡ true
    → Recent 1 (add_seen_event can_alloc can_copy e s).0.seen_events e
unfolding add_seen_event is_event_seen
add_seen_event_last can_alloc can_copy e s new recorded =
    ground (arith, Recent-last s.seen_events e, Recent-last (drop_oldest s.seen_events) e)

pub is_event_seen-Recent :
    (k : ℕ) (s : V2State) (e : Bytes) → Recent k s.seen_events e → is_event_seen s e ≡ true
unfolding is_event_seen
is_event_seen-Recent k s e = Recent-seen k s.seen_events e

pub seen_events-add_ack_event :
    (can_alloc : ℕ → Bool) (n : ℕ) (s : V2State)
    → (add_ack_event can_alloc n s).0.seen_events ≡ s.seen_events
unfolding add_ack_event
seen_events-add_ack_event can_alloc n s = ground arith
