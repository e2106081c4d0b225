-- ===== src/Websocket/Frame/Receive.antt =====
-- `ws_recv_frame` on frames by RFC 6455.
use luci_app_komari_agent_c.Prelude.{
  ℕ, zero, suc, ◌+◌, ◌*◌, ◌/◌, ◌%◌, ◌^◌, ◌<◌, ◌≤◌, ◌≡◌, refl, sym, ap, ◌∙◌, [], ◌∷◌, ◌++◌, Option,
  none, some, Bool, true, false, not, ◌&&◌, ◌==◌, length, length-append, leb, ltb, if◌then◌else◌,
  bit_or, bit_and, arith, inl, inr, ◌⊎◌, Bool-cases,
}
use luci_app_komari_agent_c.Prelude.Chars.{Bytes}
use luci_app_komari_agent_c.Prelude.Bits.{bit_or-shift, bit_and_0x80, bit_and_0x70}
use luci_app_komari_agent_c.Websocket.Mask.{apply_mask, apply_mask_twice, length-apply_mask}
use luci_app_komari_agent_c.Websocket.Transport.{Connection, read_full}
use luci_app_komari_agent_c.Websocket.Transport.Read.{available, read_full_exact}
use luci_app_komari_agent_c.Websocket.Frame.{
  Frame, is_reserved, is_control, read_be, read_length, read_mask, recv_payload, recv_frame, M,
  ◌>>=◌,
}
use luci_app_komari_agent_c.Websocket.Frame.Wire.{
  big_endian, length7, extension, mask_bit, wire_payload, wire,
}
use native.Mathlib.Nat.{pow-suc}
use mathlib.Core.List.{append_assoc}

-- The frames that the protocol allows: a known opcode, and a control frame is short and final.
pub record IsValid (f : Frame) : Type 0 where
  pub opcode_lt : f.opcode < 16
  pub known : is_reserved f.opcode ≡ false
  pub control : (is_control f.opcode ≡ false) ⊎ ((f.fin ≡ true) × (length f.payload ≤ 125))

-- A masking key has four bytes.
abbrev pub IsKey : Option Bytes → Type 0
IsKey none = Unit
IsKey (some key) = length key ≡ 4

read_be-append :
    (acc : ℕ) (xs : Bytes) (y : ℕ)
    → read_be acc (xs ++ (y ∷ [])) ≡ bit_or (read_be acc xs * 2 ^ 8 % 2 ^ 64) y
unfolding read_be
read_be-append acc [] y = refl
read_be-append acc (x ∷ xs) y = read_be-append (bit_or (acc * 2 ^ 8 % 2 ^ 64) x) xs y

read_be-big_endian : (k n : ℕ) → n < 256 ^ k → n < 2 ^ 64 → read_be 0 (big_endian k n) ≡ n
read_be-big_endian zero n h w = unfold read_be in omega arith
read_be-big_endian (suc k) n h w =
    rw
      (
        read_be-append 0 (big_endian k (n / 256)) (n % 256),
        read_be-big_endian k (n / 256) (omega (arith, pow-suc 256 k)) (omega arith),
      )
      (ground (arith, bit_or-shift 8 (n / 256) (n % 256)))

length-big_endian : (k n : ℕ) → length (big_endian k n) ≡ k
length-big_endian zero n = refl
length-big_endian (suc k) n =
    omega
      (arith, length-append (big_endian k (n / 256)) (n % 256 ∷ []), length-big_endian k (n / 256))

abbrev is_masked : Option Bytes → Bool
is_masked none = false
is_masked (some key) = true

abbrev key_bytes : Option Bytes → Bytes
key_bytes none = []
key_bytes (some key) = key

abbrev key_or_zero : Option Bytes → Bytes
key_or_zero none = 0 ∷ 0 ∷ 0 ∷ 0 ∷ []
key_or_zero (some key) = key

abbrev on_wire : Option Bytes → Bytes → Bytes
on_wire none payload = payload
on_wire (some key) payload = apply_mask payload key

-- The conclusion of each lemma on a step: it gives `a` and leaves `tail`.
abbrev Gives : {A : Type 0} → M A → A → Bytes → Connection → Type 0
Gives m a tail c = (c' : Connection) × (m c ≡ some (a, c')) × (available c' ≡ tail)

read_length_wire :
    (n : ℕ) (tail : Bytes) (c : Connection)
    → n < 2 ^ 64
    → available c ≡ extension n ++ tail
    → Gives (read_length (length7 n)) n tail c
unfolding read_length
read_length_wire n tail c w e = elim (Bool-cases (leb n 125)) [
  | inl a ↦ (c, rw a (ground arith), rw a at e)
  | inr a ↦ elim (Bool-cases (leb n 65535)) [
    | inl b ↦
        let e7 : length7 n ≡ 126 = rw (a, b) in
        let e2 : available c ≡ big_endian 2 n ++ tail = rw (a, b) at e in
        let (c', p, q) = read_full_exact 2 c (big_endian 2 n) tail e2 refl in
        let v : bit_or (n / 256 % 256 * 256) (n % 256) ≡ n =
          ground (arith, bit_or-shift 8 (n / 256 % 256) (n % 256)) in
        (c', ap (λ (k : ℕ). read_length k c) e7 ∙ rw (p, ◌>>=◌, v), q)
    | inr b ↦
        let e7 : length7 n ≡ 127 = rw (a, b) in
        let e8 : available c ≡ big_endian 8 n ++ tail = rw (a, b) at e in
        let (c', p, q) = read_full_exact 8 c (big_endian 8 n) tail e8 refl in
        (c', ap (λ (k : ℕ). read_length k c) e7 ∙ rw (p, ◌>>=◌, read_be-big_endian 8 n w w), q)
  ]
]

read_mask_wire :
    (key : Option Bytes) (tail : Bytes) (c : Connection)
    → IsKey key
    → available c ≡ key_bytes key ++ tail
    → Gives (read_mask (is_masked key)) (key_or_zero key) tail c
unfolding read_mask
read_mask_wire none tail c h e = (c, refl, e)
read_mask_wire (some key) tail c h e = read_full_exact 4 c key tail e (sym h)

abbrev byte0 : Bool → ℕ → ℕ
byte0 fin op = (if fin then 128 else 0) + op

byte0_fields :
    (fin : Bool) (op : ℕ)
    → op < 16
    → ((bit_and (byte0 fin op) 0x70 == 0) ≡ true)
      × (not (bit_and (byte0 fin op) 0x80 == 0) ≡ fin)
      × (byte0 fin op % 16 ≡ op)
byte0_fields true op h = ground (arith, bit_and_0x80 (128 + op), bit_and_0x70 (128 + op))
byte0_fields false op h = ground (arith, bit_and_0x80 (0 + op), bit_and_0x70 (0 + op))

byte1_fields :
    (key : Option Bytes) (n : ℕ)
    → (not (bit_and (mask_bit key + length7 n) 0x80 == 0) ≡ is_masked key)
      × ((mask_bit key + length7 n) % 128 ≡ length7 n)
byte1_fields none n = ground (arith, bit_and_0x80 (0 + length7 n))
byte1_fields (some key) n = ground (arith, bit_and_0x80 (128 + length7 n))

wire_payload_split :
    (key : Option Bytes) (p : Bytes) → wire_payload key p ≡ key_bytes key ++ on_wire key p
wire_payload_split none p = refl
wire_payload_split (some key) p = refl

length-on_wire : (key : Option Bytes) (p : Bytes) → length (on_wire key p) ≡ length p
length-on_wire none p = refl
length-on_wire (some key) p = length-apply_mask p key

unmask :
    (key : Option Bytes) (p : Bytes)
    → (if is_masked key then apply_mask (on_wire key p) (key_or_zero key) else on_wire key p) ≡ p
unmask none p = refl
unmask (some key) p = apply_mask_twice p key

control_guards :
    (f : Frame)
    → IsValid f
    → (is_control f.opcode && ltb 125 (length f.payload) ≡ false)
      × (is_control f.opcode && not f.fin ≡ false)
control_guards f v = ground arith

-- The run of `ws_recv_frame` when each of its reads gives the part of the frame that it should.
recv_payload_run :
    (cap' : ℕ) (f : Frame) (key : Option Bytes) (c1 c2 c3 c4 : Connection)
    → IsValid f
    → length f.payload ≤ cap'
    → read_length (length7 (length f.payload)) c1 ≡ some (length f.payload, c2)
    → read_mask (is_masked key) c2 ≡ some (key_or_zero key, c3)
    → read_full (length f.payload) c3 ≡ some (on_wire key f.payload, c4)
    → recv_payload cap' f.fin f.opcode (is_masked key) (length7 (length f.payload)) c1
      ≡ some (f, c4)
unfolding recv_payload
recv_payload_run cap' f key c1 c2 c3 c4 v fits p2 p3 p4 =
    let (short, final) = control_guards f v in
    let room : ltb cap' (length f.payload) ≡ false = ground arith in
    rw (p2, ◌>>=◌, short, final, p3, ◌>>=◌, room, p4, ◌>>=◌)
      (ap (λ (d : Bytes). some (record f { payload = d }, c4)) (unmask key f.payload))

recv_frame_run :
    (cap' : ℕ) (f : Frame) (key : Option Bytes) (c c1 : Connection)
    → IsValid f
    → read_full 2 c
      ≡ some (byte0 f.fin f.opcode ∷ (mask_bit key + length7 (length f.payload)) ∷ [], c1)
    → recv_frame cap' c
      ≡ recv_payload cap' f.fin f.opcode (is_masked key) (length7 (length f.payload)) c1
unfolding recv_frame
recv_frame_run cap' f key c c1 v p1 =
    let (rsv, fin, op) = byte0_fields f.fin f.opcode v.opcode_lt in
    let (masked, len7) = byte1_fields key (length f.payload) in
    rw (p1, ◌>>=◌, rsv, op, v.known, fin, masked, len7)

-- `ws_recv_frame` reads every valid frame, masked or not, final or not, that fits the buffer of
-- `cap'` bytes: it returns that frame and leaves what follows it on the stream, whatever the packets.
pub recv_frame-wire :
    (cap' : ℕ) (f : Frame) (key : Option Bytes) (rest : Bytes) (c : Connection)
    → IsValid f
    → IsKey key
    → length f.payload ≤ cap'
    → length f.payload < 2 ^ 64
    → available c ≡ wire f key ++ rest
    → (c' : Connection) × (recv_frame cap' c ≡ some (f, c')) × (available c' ≡ rest)
recv_frame-wire cap' f key rest c v k fits w e =
    let n : ℕ = length f.payload in
    let body : Bytes = on_wire key f.payload in
    let header : Bytes = byte0 f.fin f.opcode ∷ (mask_bit key + length7 n) ∷ [] in
    let e1 : available c ≡ header ++ (extension n ++ (key_bytes key ++ (body ++ rest))) =
      rw (e, wire_payload_split key f.payload) (simp append_assoc) in
    let (c1, p1, q1) = read_full_exact 2 c header _ e1 refl in
    let (c2, p2, q2) = read_length_wire n (key_bytes key ++ (body ++ rest)) c1 w q1 in
    let (c3, p3, q3) = read_mask_wire key (body ++ rest) c2 k q2 in
    let (c4, p4, q4) = read_full_exact n c3 body rest q3 (sym (length-on_wire key f.payload)) in
    (
      c4,
      recv_frame_run cap' f key c c1 v p1 ∙ recv_payload_run cap' f key c1 c2 c3 c4 v fits p2 p3 p4,
      q4,
    )
