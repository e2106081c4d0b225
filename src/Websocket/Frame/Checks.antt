-- ===== src/Websocket/Frame/Checks.antt =====
-- The frames that `ws_recv_frame` accepts.
use luci_app_komari_agent_c.Prelude.{
  ℕ, ◌≤◌, ◌≡◌, refl, ◌⊎◌, some, Bool, true, false, length, ◌==◌, if◌then◌else◌, arith, length-take,
}
use luci_app_komari_agent_c.Prelude.Chars.{Bytes}
use luci_app_komari_agent_c.Websocket.Mask.{apply_mask, length-apply_mask}
use luci_app_komari_agent_c.Websocket.Transport.{Connection, read_full}
use luci_app_komari_agent_c.Websocket.Transport.Read.{available, read_full_reads, read_full_short}
use luci_app_komari_agent_c.Websocket.Frame.{Frame, is_control, recv_payload, recv_frame}
use luci_app_komari_agent_c.Websocket.Frame.Receive.{IsValid}
use native.Mathlib.Decide.{dec_lt}

length-read_full :
    (n : ℕ) (c c' : Connection) (d : Bytes) → read_full n c ≡ some (d, c') → length d ≡ n
length-read_full n c c' d h = elim (dec_lt (length (available c)) n) [
  | yes short ↦ cc (read_full_short n c short)
  | no p ↦
      let (_, e, _) = read_full_reads n c (omega arith) in
      ground (arith, e, length-take n (available c))
]

length-unmask : (b : Bool) (d mask : Bytes) → length (if b then apply_mask d mask else d) ≡ length d
length-unmask true d mask = length-apply_mask d mask
length-unmask false d mask = refl

recv_payload_accepts :
    (cap' op len7 : ℕ) (fin masked : Bool) (c : Connection) (f : Frame) (c' : Connection)
    → recv_payload cap' fin op masked len7 c ≡ some (f, c')
    → (f.opcode ≡ op)
      × (f.fin ≡ fin)
      × (length f.payload ≤ cap')
      × ((is_control op ≡ false) ⊎ ((fin ≡ true) × (length f.payload ≤ 125)))
unfolding recv_payload
recv_payload_accepts cap' op len7 fin masked c f c' h =
    grind (arith, length-read_full, length-unmask)

-- Every frame that `ws_recv_frame` returns has a known opcode; a control frame is final and holds at
-- most 125 bytes; and the payload fits the buffer of `cap'` bytes.
pub recv_frame-IsValid :
    (cap' : ℕ) (c : Connection) (f : Frame) (c' : Connection)
    → recv_frame cap' c ≡ some (f, c')
    → IsValid f × (length f.payload ≤ cap')
unfolding recv_frame
recv_frame-IsValid cap' c f c' h = grind (arith, recv_payload_accepts)

-- A valid ping is short enough to be sent back.
pub ping_short : (f : Frame) → IsValid f → (f.opcode == 0x09) ≡ true → length f.payload ≤ 125
unfolding is_control
ping_short f v e = grind (arith, v.control)
