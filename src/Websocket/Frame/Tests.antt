-- ===== src/Websocket/Frame/Tests.antt =====
-- Runs of the frame functions, and the theorems at concrete frames.
use luci_app_komari_agent_c.Prelude.{
  ◌≤◌, ◌≡◌, refl, [], ◌∷◌, ◌++◌, none, some, true, inl, arith, length,
}
use luci_app_komari_agent_c.Prelude.Chars.{bytes}
use luci_app_komari_agent_c.Websocket.Mask.{apply_mask_from, apply_mask}
use luci_app_komari_agent_c.Websocket.Transport.{
  packet, interrupted, Connection, recv_loop, read_full,
}
use luci_app_komari_agent_c.Websocket.Transport.Read.{available}
use luci_app_komari_agent_c.Websocket.Frame.{
  Frame, is_reserved, is_control, read_length, read_mask, recv_payload, recv_frame, length_field,
  send_frame,
}
use luci_app_komari_agent_c.Websocket.Frame.Wire.{wire, send_frame-wire}
use luci_app_komari_agent_c.Websocket.Frame.Receive.{IsValid, recv_frame-wire}
use luci_app_komari_agent_c.Websocket.Frame.Checks.{recv_frame-IsValid}

abbrev hello : Frame
hello = record { opcode = 1; fin = true; payload = bytes "Hello" }

abbrev hello_ping : Frame
hello_ping = record { opcode = 9; fin = true; payload = [] }

-- RFC 6455, section 5.7: an unmasked text frame, here in two packets, the header's first byte left
-- over from the handshake, and a ping behind it.
abbrev split_hello : Connection
split_hello = record {
  pending = 0x81 ∷ [];
  incoming =
      packet 0x05 (bytes "He") ∷ interrupted ∷ packet b'l' (bytes "lo" ++ (0x89 ∷ 0x00 ∷ [])) ∷ [];
}

recv_frame-hello :
    recv_frame 16 split_hello
    ≡ some (hello, record { pending = []; incoming = packet 0x89 (0x00 ∷ []) ∷ [] })
unfolding recv_frame recv_payload read_length read_mask is_reserved is_control read_full recv_loop
recv_frame-hello = refl

-- RFC 6455, section 5.7: the masked form.
send_frame_hello :
    send_frame 1 (0x37 ∷ 0xfa ∷ 0x21 ∷ 0x3d ∷ []) (bytes "Hello")
    ≡ 0x81 ∷ 0x85 ∷ 0x37 ∷ 0xfa ∷ 0x21 ∷ 0x3d ∷ 0x7f ∷ 0x9f ∷ 0x4d ∷ 0x51 ∷ 0x58 ∷ []
unfolding send_frame length_field apply_mask apply_mask_from
send_frame_hello = refl

-- A fragmented ping is refused.
recv_frame_fragmented_ping :
    recv_frame 16 (record { pending = []; incoming = packet 0x09 (0x00 ∷ []) ∷ [] }) ≡ none
unfolding recv_frame recv_payload read_length read_mask is_reserved is_control read_full recv_loop
recv_frame_fragmented_ping = refl

hello-IsValid : IsValid hello
unfolding is_reserved is_control
hello-IsValid = record { opcode_lt = omega arith; known = refl; control = inl refl }

send_frame-wire_example :
    send_frame 1 (1 ∷ 2 ∷ 3 ∷ 4 ∷ []) (bytes "Hello") ≡ wire hello (some (1 ∷ 2 ∷ 3 ∷ 4 ∷ []))
send_frame-wire_example = send_frame-wire 1 (1 ∷ 2 ∷ 3 ∷ 4 ∷ []) (bytes "Hello") (omega arith)

recv_frame-wire_example :
    (c' : Connection) × (recv_frame 16 split_hello ≡ some (hello, c'))
    × (available c' ≡ 0x89 ∷ 0x00 ∷ [])
recv_frame-wire_example =
    recv_frame-wire 16 hello none (0x89 ∷ 0x00 ∷ []) split_hello hello-IsValid tt (omega arith)
      (omega arith) refl

recv_frame-IsValid_example : IsValid hello × (length hello.payload ≤ 16)
recv_frame-IsValid_example =
    recv_frame-IsValid 16 split_hello hello
      (record { pending = []; incoming = packet 0x89 (0x00 ∷ []) ∷ [] }) recv_frame-hello
