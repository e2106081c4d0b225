-- ===== src/Websocket/Fragment/Assemble.antt =====
-- The assembly of a message from its fragments.
use luci_app_komari_agent_c.Prelude.{
  ℕ, ◌+◌, ◌≤◌, ◌≡◌, ◌≢◌, refl, sym, ◌∙◌, ap, ◌⊎◌, [], ◌∷◌, ◌++◌, List, Bool, true, false, length,
  length-append, arith,
}
use luci_app_komari_agent_c.Prelude.Chars.{Bytes}
use luci_app_komari_agent_c.Websocket.Fragment.{
  Fragments, Outcome, waiting, complete, failure, fragment_max_size, first_fragment, continuation,
  fragment_accumulate,
}
use mathlib.Core.List.{append_assoc}

-- A data frame: its opcode, its FIN bit and its payload.
abbrev pub DataFrame : Type 0
DataFrame = ℕ × Bool × Bytes

-- The frames of a message that is cut into `head`, the pieces `middle` and `last`.
abbrev pub continued : List Bytes → Bytes → List DataFrame
continued [] last = (0, true, last) ∷ []
continued (d ∷ middle) last = (0, false, d) ∷ continued middle last

abbrev pub flat : List Bytes → Bytes
flat [] = []
flat (d ∷ ds) = d ++ flat ds

module _ (can_alloc : ℕ → Bool) where
  -- The receive loop as far as assembly goes: frames are fed until one gives a message or an error.
  abbrev pub feed : List DataFrame → Fragments → Fragments × Outcome
  feed [] s = (s, waiting)
  feed ((opcode, fin, d) ∷ rest) s =
      let (s', o) = fragment_accumulate can_alloc opcode fin d s in
      elim o [
        | waiting ↦ feed rest s'
        | complete op m ↦ (s', complete op m)
        | failure ↦ (s', failure)
      ]

-- With memory at hand.
abbrev always : ℕ → Bool
always n = true

abbrev Ends : ℕ → Bytes → Fragments × Outcome → Type 0
Ends op m r = (r.1 ≡ complete op m) × (r.0.opcode ≡ 0) × (r.0.buffer ≡ [])

last_step :
    (s : Fragments) (last : Bytes)
    → s.opcode ≢ 0
    → length s.buffer + length last ≤ fragment_max_size
    → Ends s.opcode (s.buffer ++ last) (fragment_accumulate always 0 true last s)
unfolding fragment_accumulate continuation
last_step s last open_ h = ground arith

abbrev Opens : ℕ → Bytes → Fragments × Outcome → Type 0
Opens op m r = (r.1 ≡ waiting) × (r.0.opcode ≡ op) × (r.0.buffer ≡ m)

middle_step :
    (s : Fragments) (d : Bytes)
    → s.opcode ≢ 0
    → length s.buffer + length d ≤ fragment_max_size
    → Opens s.opcode (s.buffer ++ d) (fragment_accumulate always 0 false d s)
unfolding fragment_accumulate continuation
middle_step s d open_ h = ground arith

first_step :
    (op : ℕ) (s : Fragments) (d : Bytes)
    → s.opcode ≡ 0
    → (op ≡ 1) ⊎ (op ≡ 2)
    → length d ≤ fragment_max_size
    → Opens op d (fragment_accumulate always op false d s)
unfolding fragment_accumulate first_fragment
first_step op s d idle kind h = ground arith

feed-continued :
    (middle : List Bytes) (last : Bytes) (s : Fragments)
    → s.opcode ≢ 0
    → length s.buffer + length (flat middle) + length last ≤ fragment_max_size
    → Ends s.opcode (s.buffer ++ (flat middle ++ last)) (feed always (continued middle last) s)
feed-continued [] last s open_ h =
    let (a, b, c) = last_step s last open_ (omega arith) in rw (a, feed) (refl, b, c)
feed-continued (d ∷ middle) last s open_ h =
    let bound = length-append d (flat middle) in
    let (a, b, c) = middle_step s d open_ (omega (arith, bound)) in
    let s' : Fragments = (fragment_accumulate always 0 false d s).0 in
    let size : length s'.buffer ≡ length s.buffer + length d =
      ap (λ (t : Bytes). length t) c ∙ length-append s.buffer d in
    let rest =
      feed-continued middle last s' (λ e. open_ (sym b ∙ e)) (omega (arith, bound, size)) in
    let joined : s'.buffer ++ (flat middle ++ last) ≡ s.buffer ++ ((d ++ flat middle) ++ last) =
      ap (λ (t : Bytes). t ++ (flat middle ++ last)) c ∙ simp append_assoc in
    rw (a, feed) (rest.0 ∙ cc (b, joined), rest.1, rest.2)

-- From an idle state, the frames of a text or binary message of at most WS_FRAGMENT_MAX_SIZE bytes
-- give the message with its opcode and its whole payload, and leave the state idle, however the
-- payload is cut, while `realloc` succeeds.
pub feed_message :
    (op : ℕ) (head : Bytes) (middle : List Bytes) (last : Bytes) (s : Fragments)
    → s.opcode ≡ 0
    → (op ≡ 1) ⊎ (op ≡ 2)
    → length head + length (flat middle) + length last ≤ fragment_max_size
    → let (s', o) = feed (λ n. true) ((op, false, head) ∷ continued middle last) s in
      (o ≡ complete op (head ++ (flat middle ++ last))) × (s'.opcode ≡ 0) × (s'.buffer ≡ [])
feed_message op head middle last s idle kind h =
    let (a, b, c) = first_step op s head idle kind (omega arith) in
    let s' : Fragments = (fragment_accumulate always op false head s).0 in
    let size : length s'.buffer ≡ length head = ap (λ (t : Bytes). length t) c in
    let rest = feed-continued middle last s' (ground arith) (omega (arith, size)) in
    rw (a, feed) (rest.0 ∙ cc (b, c), rest.1, rest.2)
