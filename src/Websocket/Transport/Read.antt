-- ===== src/Websocket/Transport/Read.antt =====
-- `read_full` on a stream that is cut into packets.
use luci_app_komari_agent_c.Prelude.{
  ℕ, zero, suc, ◌-◌, ◌≤◌, ◌<◌, [], ◌∷◌, ◌++◌, List, ◌≡◌, refl, none, some, true, ap, ◌∙◌, arith,
  take, drop, length, leb, inl, inr, Bool-cases, length-append, length-take, take-append,
  drop-append, take_all, take-append_left, take-append_right, drop-append_left, drop-append_right,
  leb→le,
}
use luci_app_komari_agent_c.Prelude.Chars.{Bytes}
use luci_app_komari_agent_c.Websocket.Transport.{
  Event, packet, interrupted, failed, Connection, requeue, recv_loop, read_full,
}

-- The bytes that arrive before the stream ends.
abbrev pub stream : List Event → Bytes
stream [] = []
stream (packet b bs ∷ es) = b ∷ bs ++ stream es
stream (interrupted ∷ es) = stream es
stream (failed ∷ es) = []

abbrev pub available : Connection → Bytes
available c = c.pending ++ stream c.incoming

stream-requeue : (bs : Bytes) (es : List Event) → stream (requeue bs es) ≡ bs ++ stream es
stream-requeue [] es = refl
stream-requeue (b ∷ bs) es = refl

abbrev Reads : ℕ → List Event → Type 0
Reads n es =
    (rest : List Event) × (recv_loop n es ≡ some (take n (stream es), rest))
    × (stream rest ≡ drop n (stream es))

recv_loop-Reads : (n : ℕ) (es : List Event) → n ≤ length (stream es) → Reads n es
unfolding recv_loop
recv_loop-Reads zero es h = (es, refl, refl)
recv_loop-Reads (suc n) [] h = absurd (omega arith)
recv_loop-Reads (suc n) (interrupted ∷ es) h = recv_loop-Reads (suc n) es h
recv_loop-Reads (suc n) (failed ∷ es) h = absurd (omega arith)
recv_loop-Reads (suc n) (packet b bs ∷ es) h = elim (Bool-cases (leb (length bs) n)) [
  | inl e ↦
      let le : length bs ≤ n = leb→le (length bs) n e in
      let (rest, p, q) =
        recv_loop-Reads (n - length bs) es (omega (arith, length-append bs (stream es))) in
      (
        rest,
        rw (e, p, take_all n bs le, take-append_right n bs (stream es) le),
        rw (drop-append_right n bs (stream es) le) q,
      )
  | inr e ↦
      let lt : n ≤ length bs = ground arith in
      (
        requeue (drop n bs) es,
        rw (e, take-append_left n bs (stream es) lt),
        rw (stream-requeue, drop-append_left n bs (stream es) lt),
      )
]

recv_loop_short : (n : ℕ) (es : List Event) → length (stream es) < n → recv_loop n es ≡ none
unfolding recv_loop
recv_loop_short zero es h = absurd (omega arith)
recv_loop_short (suc n) [] h = refl
recv_loop_short (suc n) (interrupted ∷ es) h = recv_loop_short (suc n) es h
recv_loop_short (suc n) (failed ∷ es) h = refl
recv_loop_short (suc n) (packet b bs ∷ es) h =
    let shorter : length (stream es) < n - length bs =
      omega (arith, length-append bs (stream es)) in
    let e : leb (length bs) n ≡ true = ground (arith, length-append bs (stream es)) in
    rw (e, recv_loop_short (n - length bs) es shorter)

-- If the stream still holds `n` bytes, `read_full` returns exactly those and leaves the rest: the
-- left-over bytes of the handshake first, whatever the packets and interruptions.
pub read_full_reads :
    (n : ℕ) (c : Connection)
    → n ≤ length (available c)
    → (c' : Connection) × (read_full n c ≡ some (take n (available c), c'))
      × (available c' ≡ drop n (available c))
unfolding read_full
read_full_reads n c h =
    let head : Bytes = take n c.pending in
    let (rest, p, q) =
      recv_loop-Reads (n - length head) c.incoming
        (omega (arith, length-append c.pending (stream c.incoming), length-take n c.pending)) in
    (
      record { pending = drop n c.pending; incoming = rest },
      rw (p, take-append n c.pending (stream c.incoming)),
      rw (q, drop-append n c.pending (stream c.incoming)),
    )

-- Otherwise it fails.
pub read_full_short : (n : ℕ) (c : Connection) → length (available c) < n → read_full n c ≡ none
unfolding read_full
read_full_short n c h = rw (
    recv_loop_short (n - length (take n c.pending)) c.incoming
      (omega (arith, length-append c.pending (stream c.incoming), length-take n c.pending)))

take_prefix : (xs ys : Bytes) → take (length xs) (xs ++ ys) ≡ xs
take_prefix xs ys = take-append_left (length xs) xs ys (omega arith) ∙ take_all _ xs (omega arith)

drop_prefix : (xs ys : Bytes) → drop (length xs) (xs ++ ys) ≡ ys
drop_prefix [] ys = refl
drop_prefix (x ∷ xs) ys = drop_prefix xs ys

-- The form in which a parser's proof uses it: the next bytes are `head`.
pub read_full_exact :
    (n : ℕ) (c : Connection) (head tail : Bytes)
    → available c ≡ head ++ tail
    → n ≡ length head
    → (c' : Connection) × (read_full n c ≡ some (head, c')) × (available c' ≡ tail)
read_full_exact n c head tail e h =
    let enough : n ≤ length (available c) = rw e (omega (arith, length-append head tail)) in
    let (c', p, q) = read_full_reads n c enough in
    let t : take n (available c) ≡ head =
      ap (λ (s : Bytes). take n s) e
      ∙ ap (λ (k : ℕ). take k (head ++ tail)) h
      ∙ take_prefix head tail in
    let d : drop n (available c) ≡ tail =
      ap (λ (s : Bytes). drop n s) e
      ∙ ap (λ (k : ℕ). drop k (head ++ tail)) h
      ∙ drop_prefix head tail in
    (c', p ∙ ap (λ (s : Bytes). some (s, c')) t, q ∙ d)
