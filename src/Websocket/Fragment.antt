-- ===== src/Websocket/Fragment.antt =====
-- `ws_fragment_accumulate` of src/network/websocket.c: the assembly of fragmented messages of
-- RFC 6455, section 5.4.
pub mod Invariant
pub mod Assemble
mod Tests
use luci_app_komari_agent_c.Prelude.{
  ℕ, ◌+◌, ◌*◌, [], ◌++◌, Bool, true, false, not, ◌&&◌, ◌||◌, length, ltb, ◌==◌, if◌then◌else◌,
}
use luci_app_komari_agent_c.Prelude.Chars.{Bytes}

-- The part of `ws_client_t` that assembly uses. `buffer` is the first `fragment_len` bytes of
-- `fragment_buf`; the capacity is 0 while that is NULL; the opcode is 0 while no message is open.
pub record Fragments : Type 0 where
  pub buffer : Bytes
  pub capacity : ℕ
  pub opcode : ℕ

-- The result: 0, 1 with the message, or -1.
pub data Outcome : Type 0 where
  waiting : Outcome
  complete : ℕ → Bytes → Outcome
  failure : Outcome

-- WS_FRAGMENT_MAX_SIZE
abbrev pub fragment_max_size : ℕ
fragment_max_size = 1048576

-- Both fields that mark an open message are reset.
abbrev pub reset : Fragments → Fragments
reset s = record s { buffer = []; opcode = 0 }

-- The capacity after a growth to `new_cap` where fewer than `needed` bytes are there.
abbrev pub grown : ℕ → ℕ → ℕ → ℕ
grown capacity needed new_cap = if ltb capacity needed then new_cap else capacity

-- `can_alloc n` says whether `realloc` to `n` bytes succeeds.
module _ (can_alloc : ℕ → Bool) where
  -- FIN clear and opcode 1 or 2: a message begins.
  pub first_fragment : ℕ → Bytes → Fragments → Fragments × Outcome
  first_fragment opcode data' s =
      let needed = length data' + 1 in
      let cap' = if ltb 4096 needed then needed else 4096 in
      if not (s.opcode == 0)
      then (reset s, failure)
      else if ltb fragment_max_size (length data')
      then (s, failure)
      else if ltb s.capacity cap' && not (can_alloc cap')
      then (s, failure)
      else (
        record { buffer = data'; capacity = grown s.capacity cap' cap'; opcode = opcode },
        waiting,
      )

  -- Opcode 0: a message goes on, and ends where FIN is set.
  pub continuation : Bool → Bytes → Fragments → Fragments × Outcome
  continuation fin data' s =
      let total = length s.buffer + length data' in
      let needed = total + 1 in
      let new_cap = if ltb (s.capacity * 2) needed then needed else s.capacity * 2 in
      let whole = s.buffer ++ data' in
      let capacity' = grown s.capacity needed new_cap in
      if s.opcode == 0
      then (s, failure)
      else if ltb fragment_max_size total
      then (reset s, failure)
      else if ltb s.capacity needed && not (can_alloc new_cap)
      then (reset s, failure)
      else if fin
      then (record { buffer = []; capacity = capacity'; opcode = 0 }, complete s.opcode whole)
      else (record { buffer = whole; capacity = capacity'; opcode = s.opcode }, waiting)

  pub fragment_accumulate : ℕ → Bool → Bytes → Fragments → Fragments × Outcome
  fragment_accumulate opcode fin data' s =
      if fin && not (opcode == 0)
      then (if not (s.opcode == 0) then (reset s, failure) else (s, complete opcode data'))
      else if not fin && (opcode == 1 || opcode == 2)
      then first_fragment opcode data' s
      else if opcode == 0
      then continuation fin data' s
      else (s, failure)
