-- ===== src/Websocket/Mask.antt =====
-- `ws_apply_mask` of src/network/websocket.c: the masking of RFC 6455, section 5.3.
use luci_app_komari_agent_c.Prelude.{
  ℕ, suc, ◌+◌, ◌%◌, ◌≡◌, refl, [], ◌∷◌, length, get_or, bit_xor, ap,
}
use luci_app_komari_agent_c.Prelude.Chars.{Bytes}
use luci_app_komari_agent_c.Prelude.Xor.{bit_xor_twice}

-- The bytes from index `i` on: `data[i] ^= mask[i % 4]`.
unfoldable pub apply_mask_from : ℕ → Bytes → Bytes → Bytes
apply_mask_from i mask [] = []
apply_mask_from i mask (d ∷ data') =
    bit_xor d (get_or mask (i % 4) 0) ∷ apply_mask_from (i + 1) mask data'

unfoldable pub apply_mask : Bytes → Bytes → Bytes
apply_mask data' mask = apply_mask_from 0 mask data'

apply_mask_from_twice :
    (i : ℕ) (mask d : Bytes) → apply_mask_from i mask (apply_mask_from i mask d) ≡ d
unfolding apply_mask_from
apply_mask_from_twice i mask [] = refl
apply_mask_from_twice i mask (x ∷ d) = simp (bit_xor_twice, apply_mask_from_twice (i + 1) mask d)

-- Masking with the same key twice gives the payload back, for every key and payload.
pub apply_mask_twice : (d mask : Bytes) → apply_mask (apply_mask d mask) mask ≡ d
unfolding apply_mask
apply_mask_twice d mask = apply_mask_from_twice 0 mask d

length-apply_mask_from : (i : ℕ) (mask d : Bytes) → length (apply_mask_from i mask d) ≡ length d
unfolding apply_mask_from
length-apply_mask_from i mask [] = refl
length-apply_mask_from i mask (x ∷ d) = ap suc (length-apply_mask_from (i + 1) mask d)

pub length-apply_mask : (d mask : Bytes) → length (apply_mask d mask) ≡ length d
unfolding apply_mask
length-apply_mask d mask = length-apply_mask_from 0 mask d
