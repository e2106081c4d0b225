-- ===== src/Ping/Reply.antt =====
-- The tests of `ping_task_icmp` on a datagram against the form of an ICMP echo reply.
use luci_app_komari_agent_c.Prelude.{
  ℕ, zero, suc, ◌+◌, ◌*◌, ◌%◌, ◌<◌, ◌≤◌, ◌≡◌, refl, [], ◌∷◌, some, Bool, ◌&&◌, length, get_elem?,
  ltb, leb, ◌==◌, arith, Bool-cases, inl, inr,
}
use luci_app_komari_agent_c.Prelude.Chars.{Bytes}
use luci_app_komari_agent_c.Ping.{
  word, Datagram, echoes, is_reply, ip_header_size, icmp_header_size, icmp_echo_reply,
}

-- The byte at a place, 0 behind the end.
abbrev pub byte : Bytes → ℕ → ℕ
byte [] i = 0
byte (c ∷ s) zero = c
byte (c ∷ s) (suc i) = byte s i

get_elem?-byte : (s : Bytes) (i : ℕ) → i < length s → get_elem? s i ≡ some (byte s i)
get_elem?-byte [] i h = absurd (omega arith)
get_elem?-byte (c ∷ s) zero h = refl
get_elem?-byte (c ∷ s) (suc i) h = get_elem?-byte s i (omega arith)

-- An ICMP echo reply with the identifier, in an IP datagram of the host with room for its headers.
abbrev pub wants : Bool → ℕ → ℕ → Datagram → Bool
wants big_endian echo_id host d =
    let at = byte d.payload 0 % 16 * 4 in
    (d.source == host)
    && (leb ip_header_size (length d.payload)
        && (leb 20 at
            && (leb (at + icmp_header_size) (length d.payload)
                && ((byte d.payload 9 == 1)
                    && ((byte d.payload at == icmp_echo_reply)
                        && (word big_endian (byte d.payload (at + 4)) (byte d.payload (at + 5))
                            == echo_id))))))

module _ (big_endian : Bool) (echo_id : ℕ) where
  echoes_read :
      (s : Bytes) (at : ℕ)
      → at + icmp_header_size ≤ length s
      → echoes big_endian echo_id s at
        ≡ some (
            (byte s at == icmp_echo_reply)
            && (word big_endian (byte s (at + 4)) (byte s (at + 5)) == echo_id))
  unfolding echoes
  echoes_read s at h =
      rw
        (
          get_elem?-byte s at (omega arith),
          get_elem?-byte s (at + 4) (omega arith),
          get_elem?-byte s (at + 5) (omega arith),
        )
        refl

  -- Whatever datagram arrives, no byte behind it is read, and it is accepted exactly if it is from the
  -- host, holds an IP header of at least 20 bytes with its options and an ICMP header behind it, and
  -- is an ICMP echo reply with the identifier.
  pub is_reply-wants :
      (host : ℕ) (d : Datagram)
      → is_reply big_endian echo_id host d ≡ some (wants big_endian echo_id host d)
  unfolding is_reply
  is_reply-wants host d = elim (Bool-cases (ltb (length d.payload) ip_header_size)) [
    | inl e ↦ ground arith
    | inr e ↦
        let long : 20 ≤ length d.payload = ground arith in
        rw (get_elem?-byte d.payload 0 (omega arith), get_elem?-byte d.payload 9 (omega arith))
          (ground (arith, echoes_read d.payload (byte d.payload 0 % 16 * 4)))
  ]
