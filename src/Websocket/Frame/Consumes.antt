-- ===== src/Websocket/Frame/Consumes.antt =====
-- The bytes that `ws_recv_frame` takes from the stream.
use luci_app_komari_agent_c.Prelude.{
  ℕ, ◌+◌, ◌≤◌, ◌≡◌, refl, some, Bool, true, false, length, length-drop, Option, none, not, ◌&&◌,
  ltb, ◌==◌, bit_and, get_or, ◌%◌, if◌then◌else◌, arith,
}
use luci_app_komari_agent_c.Prelude.Chars.{Bytes}
use luci_app_komari_agent_c.Websocket.Mask.{apply_mask}
use luci_app_komari_agent_c.Websocket.Transport.{Connection, read_full}
use luci_app_komari_agent_c.Websocket.Transport.Read.{available, read_full_reads, read_full_short}
use luci_app_komari_agent_c.Websocket.Frame.{
  Frame, M, ◌>>=◌, return, fail_if, read_length, read_mask, recv_payload, recv_frame, is_control,
  is_reserved,
}
use native.Mathlib.Decide.{dec_lt}

pub remaining : Connection → ℕ
remaining c = length (available c)

pub remaining-available : (c : Connection) → remaining c ≡ length (available c)
unfolding remaining
remaining-available c = refl

remaining-read_full :
    (n : ℕ) (c c' : Connection) (d : Bytes)
    → read_full n c ≡ some (d, c')
    → remaining c' + n ≡ remaining c
unfolding remaining
remaining-read_full n c c' d h = elim (dec_lt (length (available c)) n) [
  | yes short ↦ cc (read_full_short n c short)
  | no p ↦
      let (_, e, _) = read_full_reads n c (omega arith) in
      ground (arith, e, length-drop n (available c))
]

-- A step that takes at least `k` bytes when it succeeds.
record Takes (k : ℕ) {A : Type 0} (m : M A) : Type 0 where
  takes :
      (c : Connection) (a : A) (c' : Connection)
      → m c ≡ some (a, c')
      → remaining c' + k ≤ remaining c

Takes-read_full : (n : ℕ) → Takes n (read_full n)
Takes-read_full n = record { takes = λ c d c' h. omega (arith, remaining-read_full n c c' d h) }

Takes-zero : (n : ℕ) → Takes 0 (read_full n)
Takes-zero n = record { takes = λ c d c' h. omega (arith, remaining-read_full n c c' d h) }

Takes-return : {A : Type 0} (a : A) → Takes 0 (return a)
Takes-return a = record { takes = λ c b c' h. grind arith }

Takes-fail_if : {A : Type 0} (b : Bool) (m : M A) → Takes 0 m → Takes 0 (fail_if b m)
Takes-fail_if true m t = record { takes = λ c a c' h. cc h }
Takes-fail_if false m t = t

Takes-bind :
    (k : ℕ) {A B : Type 0} (m : M A) (f : A → M B)
    → Takes k m
    → ((a : A) → Takes 0 (f a))
    → Takes k (m >>= f)
Takes-bind k {A} {B} m f t u = record { takes = λ c b c' h. at_result c b c' (m c) refl h }
  where
    at_result :
        (c : Connection) (b : B) (c' : Connection) (r : Option (A × Connection))
        → m c ≡ r
        → elim r [ none ↦ none | some (a, c1) ↦ f a c1 ] ≡ some (b, c')
        → remaining c' + k ≤ remaining c
    at_result c b c' none e h = ground arith
    at_result c b c' (some (a, c1)) e h = omega (arith, t.takes c a c1 e, (u a).takes c1 b c' h)

Takes-if :
    (k : ℕ) {A : Type 0} (b : Bool) (m n : M A)
    → Takes k m
    → Takes k n
    → Takes k (if b then m else n)
Takes-if k true m n t u = t
Takes-if k false m n t u = u

Takes-read_length : (len7 : ℕ) → Takes 0 (read_length len7)
unfolding read_length
Takes-read_length len7 =
    Takes-if 0 _ _ _ (Takes-bind 0 _ _ (Takes-zero 2) (λ ext. Takes-return _))
      (Takes-if 0 _ _ _ (Takes-bind 0 _ _ (Takes-zero 8) (λ ext. Takes-return _)) (Takes-return _))

Takes-read_mask : (b : Bool) → Takes 0 (read_mask b)
unfolding read_mask
Takes-read_mask b = Takes-if 0 _ _ _ (Takes-zero 4) (Takes-return _)

Takes-recv_payload :
    (cap' op len7 : ℕ) (fin masked : Bool) → Takes 0 (recv_payload cap' fin op masked len7)
unfolding recv_payload
Takes-recv_payload cap' op len7 fin masked =
    Takes-bind 0 _ _ (Takes-read_length len7) (λ payload_len.
      Takes-fail_if (is_control op && ltb 125 payload_len) _ (
        Takes-fail_if (is_control op && not fin) _ (
          Takes-bind 0 _ _ (Takes-read_mask masked) (λ mask.
            Takes-fail_if (ltb cap' payload_len) _ (
              Takes-bind 0 _ _ (Takes-zero payload_len) (λ payload. Takes-return (record {
                opcode = op;
                fin = fin;
                payload = if masked then apply_mask payload mask else payload;
              })))))))

Takes-recv_frame : (cap' : ℕ) → Takes 2 (recv_frame cap')
unfolding recv_frame
Takes-recv_frame cap' = Takes-bind 2 _ _ (Takes-read_full 2) (λ header.
    let b0 = get_or header 0 0 in
    let b1 = get_or header 1 0 in
    Takes-fail_if (not (bit_and b0 0x70 == 0)) _ (
      Takes-fail_if (is_reserved (b0 % 16)) _ (
        Takes-recv_payload cap' (b0 % 16) (b1 % 128) (not (bit_and b0 0x80 == 0))
          (not (bit_and b1 0x80 == 0)))))

pub recv_frame_consumes :
    (cap' : ℕ) (c : Connection) (f : Frame) (c' : Connection)
    → recv_frame cap' c ≡ some (f, c')
    → remaining c' + 2 ≤ remaining c
recv_frame_consumes cap' = (Takes-recv_frame cap').takes
