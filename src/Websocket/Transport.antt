-- ===== src/Websocket/Transport.antt =====
-- `read_full` and `send_full` of src/network/websocket.c over a socket whose calls may be partial.
-- The operating system (`recv`, `send`, OpenSSL) is a list of the answers that its calls give.
pub mod Read
pub mod Send
mod Tests
use luci_app_komari_agent_c.Prelude.{
  ℕ, zero, suc, ◌-◌, [], ◌∷◌, ◌++◌, List, Option, none, some, Bool, true, false, length, take, drop,
  leb, min, if◌then◌else◌,
}
use luci_app_komari_agent_c.Prelude.Chars.{Bytes}
use mathlib.Core.Option

-- What the peer's side of the stream holds for the calls of `recv`: one or more bytes, a call that a
-- signal interrupts (-1 with EINTR), or the end of the stream or another error.
pub data Event : Type 0 where
  packet : ℕ → Bytes → Event
  interrupted : Event
  failed : Event

-- The part of `ws_client_t` that reading uses: `pending_buf[pending_off .. pending_len)` and the
-- socket.
pub record Connection : Type 0 where
  pub pending : Bytes
  pub incoming : List Event

-- What `recv` leaves of a packet stays for the next call.
abbrev pub requeue : Bytes → List Event → List Event
requeue [] es = es
requeue (b ∷ bs) es = packet b bs ∷ es

-- `while (got < len)`: `recv` takes at most the bytes that are still wanted. A socket with nothing
-- left to answer fails by its receive timeout.
unfoldable pub recv_loop : ℕ → List Event → Option (Bytes × List Event)
recv_loop zero es = some ([], es)
recv_loop (suc n) [] = none
recv_loop (suc n) (interrupted ∷ es) = recv_loop (suc n) es
recv_loop (suc n) (failed ∷ es) = none
recv_loop (suc n) (packet b bs ∷ es) =
    let got = take (suc n) (b ∷ bs) in
    let more = recv_loop (n - length bs) es in
    if leb (length bs) n
    then Option.map (λ (r : Bytes × List Event). (got ++ r.0, r.1)) more
    else some (got, requeue (drop n bs) es)

-- First the bytes that the handshake left over, then the socket.
unfoldable pub read_full : ℕ → Connection → Option (Bytes × Connection)
read_full len c =
    let head = take len c.pending in
    Option.map
      (λ (r : Bytes × List Event).
        (head ++ r.0, record { pending = drop len c.pending; incoming = r.1 }))
      (recv_loop (len - length head) c.incoming)

-- What a call of `send` or `SSL_write` answers: a positive number of bytes taken (one more than the
-- argument, at most what was given), an interruption, or an error.
pub data Sent : Type 0 where
  accepted : ℕ → Sent
  again : Sent
  broken : Sent

-- `send_full`: whether all was sent, and the bytes that went out.
pub send_full : Bytes → List Sent → Bool × Bytes
send_full [] answers = (true, [])
send_full (b ∷ bs) [] = (false, [])
send_full (b ∷ bs) (again ∷ answers) = send_full (b ∷ bs) answers
send_full (b ∷ bs) (broken ∷ answers) = (false, [])
send_full (b ∷ bs) (accepted k ∷ answers) =
    let (done, out) = send_full (drop k bs) answers in (done, b ∷ take k bs ++ out)
