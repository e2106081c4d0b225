-- ===== src/Websocket/Fragment/Invariant.antt =====
-- The assembly buffer against its capacity and WS_FRAGMENT_MAX_SIZE.
use luci_app_komari_agent_c.Prelude.{
  ℕ, ◌<◌, ◌≤◌, ◌≡◌, ◌≢◌, ◌⊎◌, ◌++◌, Bool, true, false, length, length-append, arith,
}
use luci_app_komari_agent_c.Prelude.Chars.{Bytes}
use luci_app_komari_agent_c.Websocket.Fragment.{
  Fragments, waiting, complete, failure, fragment_max_size, first_fragment, continuation,
  fragment_accumulate,
}

-- An open message is text or binary and its bytes fit the buffer with a NUL; without one there are
-- no bytes.
pub record IsValid (s : Fragments) : Type 0 where
  pub small : length s.buffer ≤ fragment_max_size
  pub room : (s.opcode ≡ 0) ⊎ (length s.buffer < s.capacity)
  pub idle : (s.opcode ≢ 0) ⊎ (length s.buffer ≡ 0)
  pub kind : s.opcode ≤ 2

module _ (can_alloc : ℕ → Bool) where
  first_fragment-IsValid :
      (opcode : ℕ) (d : Bytes) (s : Fragments)
      → IsValid s
      → (opcode ≡ 1) ⊎ (opcode ≡ 2)
      → IsValid (first_fragment can_alloc opcode d s).0
  unfolding first_fragment
  first_fragment-IsValid opcode d s v h = ground arith

  continuation-IsValid :
      (fin : Bool) (d : Bytes) (s : Fragments)
      → IsValid s
      → IsValid (continuation can_alloc fin d s).0
  unfolding continuation
  continuation-IsValid fin d s v = ground (arith, length-append s.buffer d)

  -- Every frame keeps the invariant, whatever its opcode and whether memory can be had.
  pub fragment_accumulate-IsValid :
      (opcode : ℕ) (fin : Bool) (d : Bytes) (s : Fragments)
      → IsValid s
      → IsValid (fragment_accumulate can_alloc opcode fin d s).0
  unfolding fragment_accumulate
  fragment_accumulate-IsValid opcode fin d s v =
      ground (arith, first_fragment-IsValid opcode d s v, continuation-IsValid fin d s v)

  continuation_complete :
      (fin : Bool) (d : Bytes) (s : Fragments) {s' : Fragments} {op : ℕ} {m : Bytes}
      → continuation can_alloc fin d s ≡ (s', complete op m)
      → (fin ≡ true)
        × (s.opcode ≢ 0)
        × (op ≡ s.opcode)
        × (m ≡ s.buffer ++ d)
        × (length m ≤ fragment_max_size)
        × (s'.opcode ≡ 0)
  unfolding continuation
  continuation_complete fin d s h = ground (arith, length-append s.buffer d)

  -- Only a frame with FIN set completes a message. The message is either the payload of an
  -- unfragmented frame, whose opcode is not 0, with no message open, which leaves the state as it is;
  -- or the open message with the payload of a continuation frame behind it, with the opcode of the
  -- first frame; then it has at most WS_FRAGMENT_MAX_SIZE bytes, and the assembly is closed.
  pub fragment_accumulate_complete :
      (opcode : ℕ) (fin : Bool) (d : Bytes) (s : Fragments) {s' : Fragments} {op : ℕ} {m : Bytes}
      → fragment_accumulate can_alloc opcode fin d s ≡ (s', complete op m)
      → ((fin ≡ true) × (opcode ≢ 0) × (s.opcode ≡ 0) × (op ≡ opcode) × (m ≡ d) × (s' ≡ s))
        ⊎ ((fin ≡ true)
            × (opcode ≡ 0)
            × (s.opcode ≢ 0)
            × (op ≡ s.opcode)
            × (m ≡ s.buffer ++ d)
            × (length m ≤ fragment_max_size)
            × (s'.opcode ≡ 0))
  unfolding fragment_accumulate first_fragment
  fragment_accumulate_complete opcode fin d s {s'} {op} {m} h =
      ground (arith, continuation_complete fin d s {s' = s'} {op = op} {m = m})

  -- A frame that is not final completes nothing.
  pub fragment_accumulate_unfinished :
      (opcode : ℕ) (d : Bytes) (s : Fragments)
      → ((fragment_accumulate can_alloc opcode false d s).1 ≡ waiting)
        ⊎ ((fragment_accumulate can_alloc opcode false d s).1 ≡ failure)
  unfolding fragment_accumulate first_fragment continuation
  fragment_accumulate_unfinished opcode d s = ground arith
