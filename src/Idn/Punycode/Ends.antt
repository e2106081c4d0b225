-- ===== src/Idn/Punycode/Ends.antt =====
-- The turns of the main loop of `idn_punycode_encode`.
use luci_app_komari_agent_c.Prelude.{
  ℕ, zero, suc, ◌+◌, ◌-◌, ◌*◌, ◌/◌, ◌<◌, ◌≤◌, ◌≡◌, refl, ap, ◌∙◌, ◌⊎◌, inl, inr, [], ◌∷◌, ◌++◌,
  List, none, some, false, leb, ltb, ◌==◌, length, length-append, if◌then◌else◌, arith, Bool-cases,
  Option-cases,
}
use luci_app_komari_agent_c.Prelude.Chain.{
  Yields, Yields-bind, Yields-if, Yields-any, Yields-map, Yields_at, Yields-self,
}
use luci_app_komari_agent_c.Prelude.Chars.{Bytes, All}
use luci_app_komari_agent_c.Idn.Punycode.{
  base, digits, push, push_digits, initial_n, initial_bias, copy_basic, Encoder, encode_point,
  encode_points, least, encode_turns,
}

abbrev pub count_below : ℕ → List ℕ → ℕ
count_below n [] = 0
count_below n (c ∷ cs) = (if ltb c n then 1 else 0) + count_below n cs

abbrev count_eq : ℕ → List ℕ → ℕ
count_eq n [] = 0
count_eq n (c ∷ cs) = (if c == n then 1 else 0) + count_eq n cs

count_below-suc : (n : ℕ) (cs : List ℕ) → count_below (n + 1) cs ≡ count_below n cs + count_eq n cs
count_below-suc n [] = omega arith
count_below-suc n (c ∷ cs) = ground (arith, count_below-suc n cs)

count_below-All : (n : ℕ) (cs : List ℕ) → All (λ c. c < n) cs → count_below n cs ≡ length cs
count_below-All n [] h = refl
count_below-All n (c ∷ cs) (h, hs) = ground (arith, count_below-All n cs hs)

count_below-le : (n : ℕ) (cs : List ℕ) → count_below n cs ≤ length cs
count_below-le n [] = omega arith
count_below-le n (c ∷ cs) = ground (arith, count_below-le n cs)

module _ (size b : ℕ) where
  least-le : (n m : ℕ) (cs : List ℕ) → least size b n m cs ≤ m
  unfolding least
  least-le n m [] = omega arith
  least-le n m (c ∷ cs) = ground (arith, least-le n m cs, least-le n c cs)

  -- No code point lies between `n` and the least one.
  least_gap :
      (n m x : ℕ) (cs : List ℕ)
      → n ≤ x
      → x ≤ least size b n m cs
      → count_below x cs ≡ count_below n cs
  unfolding least
  least_gap n m x [] h k = refl
  least_gap n m x (c ∷ cs) h k =
      ground (arith, least_gap n m x cs h, least_gap n c x cs h, least-le n m cs, least-le n c cs)

  least_found :
      (n m : ℕ) (cs : List ℕ) → (least size b n m cs ≡ m) ⊎ (0 < count_eq (least size b n m cs) cs)
  unfolding least
  least_found n m [] = inl refl
  least_found n m (c ∷ cs) = ground (arith, least_found n m cs, least_found n c cs)

  least-ge : (n m : ℕ) (cs : List ℕ) → n ≤ m → n ≤ least size b n m cs
  unfolding least
  least-ge n m [] h = h
  least-ge n m (c ∷ cs) h = ground (arith, least-ge n m cs, least-ge n c cs)

  -- A code point adds to the written ones if it is the one that is looked for.
  abbrev Counts : ℕ → Encoder → Encoder → Type 0
  Counts k e e' = e'.h ≡ e.h + k

  encode_point-Counts :
      (n c : ℕ) (e : Encoder)
      → Yields (Counts (if c == n then 1 else 0) e) (encode_point size b n c e)
  unfolding encode_point
  encode_point-Counts n c e =
      Yields-if (Counts (if c == n then 1 else 0) e) (ltb c n) _ _ (λ p. ground arith)
        (λ p.
          Yields-if (Counts (if c == n then 1 else 0) e) (c == n) _ _
            (λ q.
              Yields-bind (λ (out : Bytes). Unit) (Counts (if c == n then 1 else 0) e)
                (push_digits size (digits e.delta e.bias base e.delta) e.out) _
                (Yields-any (push_digits size (digits e.delta e.bias base e.delta) e.out))
                (λ out u. ground arith))
            (λ q. ground arith))

  encode_points-Counts :
      (n : ℕ) (cs : List ℕ) (e : Encoder)
      → Yields (Counts (count_eq n cs) e) (encode_points size b n cs e)
  unfolding encode_points
  encode_points-Counts n [] e = omega arith
  encode_points-Counts n (c ∷ cs) e =
      Yields-bind (Counts (if c == n then 1 else 0) e) (Counts (count_eq n (c ∷ cs)) e)
        (encode_point size b n c e) _ (encode_point-Counts n c e)
        (λ e' p.
          Yields-map (Counts (count_eq n cs) e') (Counts (count_eq n (c ∷ cs)) e)
            (encode_points size b n cs e') (λ e'' q. omega (arith, p, q))
            (encode_points-Counts n cs e'))

  count_eq_lt : (n m : ℕ) (cs : List ℕ) → All (λ c. c < m) cs → 0 < count_eq n cs → n < m
  count_eq_lt n m [] h k = absurd (omega arith)
  count_eq_lt n m (c ∷ cs) (h, hs) k = ground (arith, count_eq_lt n m cs hs)

  -- A turn keeps the count of the written code points, and adds to it.
  turn_progress :
      (cps : List ℕ) (n : ℕ) (e : Encoder)
      → All (λ c. c < 0xFFFFFFFF) cps
      → n ≤ 0xFFFFFFFF
      → e.h ≡ count_below n cps
      → leb (length cps) e.h ≡ false
      → let m = least size b n 0xFFFFFFFF cps in
        (e' : Encoder)
        → encode_points size b m cps (record e { delta = e.delta + (m - n) * (e.h + 1) }) ≡ some e'
        → (e'.h ≡ count_below (m + 1) cps) × (m + 1 ≤ 0xFFFFFFFF) × (e.h < e'.h)
  turn_progress cps n e small le written more e' p =
      let m = least size b n 0xFFFFFFFF cps in
      let begun : Encoder = record e { delta = e.delta + (m - n) * (e.h + 1) } in
      let ge : n ≤ m = least-ge n 0xFFFFFFFF cps le in
      let gap : count_below m cps ≡ count_below n cps =
        least_gap n 0xFFFFFFFF m cps ge (omega arith) in
      let counts : e'.h ≡ e.h + count_eq m cps =
        Yields_at (Counts (count_eq m cps) begun) _ e' p (encode_points-Counts m cps begun) in
      let some_found : 0 < count_eq m cps = elim (least_found n 0xFFFFFFFF cps) [
        | inl e ↦
            let all : count_below m cps ≡ length cps =
              ap (λ (t : ℕ). count_below t cps) e ∙ count_below-All 0xFFFFFFFF cps small in
            ground (arith, gap, all)
        | inr f ↦ f
      ] in
      (
        omega (arith, count_below-suc m cps),
        omega (arith, count_eq_lt m 0xFFFFFFFF cps small some_found),
        omega arith,
      )

  -- One more turn than there are code points to be written is enough: more fuel changes nothing.
  encode_turns_more :
      (fuel : ℕ) (cps : List ℕ) (n : ℕ) (e : Encoder)
      → All (λ c. c < 0xFFFFFFFF) cps
      → n ≤ 0xFFFFFFFF
      → e.h ≡ count_below n cps
      → length cps < e.h + fuel
      → encode_turns size b (suc fuel) cps n e ≡ encode_turns size b fuel cps n e
  unfolding encode_turns
  encode_turns_more zero cps n e small le written enough =
      absurd (omega (arith, count_below-le n cps))
  encode_turns_more (suc fuel) cps n e small le written enough =
      let m = least size b n 0xFFFFFFFF cps in
      let begun : Encoder = record e { delta = e.delta + (m - n) * (e.h + 1) } in
      elim (Bool-cases (leb (length cps) e.h)) [
        | inl done ↦ rw done refl
        | inr more ↦ elim (Bool-cases (ltb ((0xFFFFFFFF - e.delta) / (e.h + 1)) (m - n))) [
          | inl over ↦ rw (more, over) refl
          | inr fits ↦ elim (Option-cases (encode_points size b m cps begun)) [
            | inl p ↦ rw (more, fits, p) refl
            | inr (e', p) ↦
                let (written', lt, longer) = turn_progress cps n e small le written more e' p in
                rw (more, fits, p)
                  (encode_turns_more fuel cps (m + 1) (record e' { delta = e'.delta + 1 }) small lt
                    written' (omega arith))
          ]
        ]
      ]

  -- If the loop gives an encoder, it has left by its own test: every code point is written.
  encode_turns-All :
      (fuel : ℕ) (cps : List ℕ) (n : ℕ) (e : Encoder)
      → All (λ c. c < 0xFFFFFFFF) cps
      → n ≤ 0xFFFFFFFF
      → e.h ≡ count_below n cps
      → length cps < e.h + fuel
      → Yields (λ (e' : Encoder). e'.h ≡ length cps) (encode_turns size b fuel cps n e)
  unfolding encode_turns
  encode_turns-All zero cps n e small le written enough =
      absurd (omega (arith, count_below-le n cps))
  encode_turns-All (suc fuel) cps n e small le written enough =
      let m = least size b n 0xFFFFFFFF cps in
      let begun : Encoder = record e { delta = e.delta + (m - n) * (e.h + 1) } in
      let All_written = λ (e' : Encoder). e'.h ≡ length cps in
      Yields-if All_written (leb (length cps) e.h) _ _
        (λ done. ground (arith, count_below-le n cps))
        (λ more.
          Yields-if All_written (ltb ((0xFFFFFFFF - e.delta) / (e.h + 1)) (m - n)) none _
            (λ over. tt)
            (λ fits.
              Yields-bind (λ (e' : Encoder). encode_points size b m cps begun ≡ some e') All_written
                (encode_points size b m cps begun) _
                (Yields-self (encode_points size b m cps begun))
                (λ e' p.
                  let (written', lt, longer) = turn_progress cps n e small le written more e' p in
                  encode_turns-All fuel cps (m + 1) (record e' { delta = e'.delta + 1 }) small lt
                    written' (omega arith))))

  encode_turns_enough :
      (k fuel : ℕ) (cps : List ℕ) (n : ℕ) (e : Encoder)
      → All (λ c. c < 0xFFFFFFFF) cps
      → n ≤ 0xFFFFFFFF
      → e.h ≡ count_below n cps
      → length cps < e.h + fuel
      → encode_turns size b (k + fuel) cps n e ≡ encode_turns size b fuel cps n e
  encode_turns_enough zero fuel cps n e small le written enough =
      ap (λ (t : ℕ). encode_turns size b t cps n e) (omega arith)
  encode_turns_enough (suc k) fuel cps n e small le written enough =
      let next : suc k + fuel ≡ suc (k + fuel) = omega arith in
      rw next (
        encode_turns_more (k + fuel) cps n e small le written (omega arith)
        ∙ encode_turns_enough k fuel cps n e small le written enough)

length-push :
    (size c : ℕ) (out : Bytes)
    → Yields (λ (longer : Bytes). length longer ≡ length out + 1) (push size c out)
unfolding push
length-push size c out =
    Yields-if (λ (longer : Bytes). length longer ≡ length out + 1) (leb (size - 1) (length out))
      none (some (out ++ (c ∷ []))) (λ e. tt) (λ e. omega (arith, length-append out (c ∷ [])))

-- The basic code points are those below the first `n`.
length-copy_basic :
    (size : ℕ) (cps : List ℕ) (out : Bytes)
    → Yields
        (λ (basic : Bytes). length basic ≡ length out + count_below initial_n cps)
        (copy_basic size cps out)
unfolding copy_basic
length-copy_basic size [] out = omega arith
length-copy_basic size (c ∷ cs) out =
    let P : Bytes → Type 0 =
      λ (basic : Bytes). length basic ≡ length out + count_below initial_n (c ∷ cs) in
    Yields-if P (ltb c 0x80) _ _
      (λ p.
        Yields-bind (λ (longer : Bytes). length longer ≡ length out + 1) P (push size c out) _
          (length-push size c out)
          (λ longer q.
            Yields-map (λ (basic : Bytes). length basic ≡ length longer + count_below initial_n cs)
              P (copy_basic size cs longer) (λ basic r. ground arith)
              (length-copy_basic size cs longer)))
      (λ p.
        Yields-map (λ (basic : Bytes). length basic ≡ length out + count_below initial_n cs) P
          (copy_basic size cs out) (λ basic r. ground arith) (length-copy_basic size cs out))

-- For code points below 0xFFFFFFFF, of which the basic ones were copied, the fuel that the encoder
-- gives its main loop is enough: if the loop fails, it is by an error of the code (a full buffer or
-- an overflow), otherwise every code point was written, and any greater fuel gives the same.
pub punycode_encode_ends :
    (size k : ℕ) (cps : List ℕ) (basic start : Bytes)
    → All (λ c. c < 0xFFFFFFFF) cps
    → copy_basic size cps [] ≡ some basic
    → let begun : Encoder = record {
      out = start;
      delta = 0;
      bias = initial_bias;
      h = length basic;
    } in
      let loop = λ (fuel : ℕ). encode_turns size (length basic) fuel cps initial_n begun in
      Yields (λ (e : Encoder). e.h ≡ length cps) (loop (length cps + 1))
      × (loop (k + (length cps + 1)) ≡ loop (length cps + 1))
punycode_encode_ends size k cps basic start small copied =
    let counted =
      Yields_at (λ (out : Bytes). length out ≡ 0 + count_below initial_n cps) _ basic copied
        (length-copy_basic size cps []) in
    let written : length basic ≡ count_below initial_n cps = omega (arith, counted) in
    let enough : length cps < length basic + (length cps + 1) = omega arith in
    let b = length basic in
    (
      encode_turns-All size b (length cps + 1) cps initial_n _ small (omega arith) written enough,
      encode_turns_enough size b k (length cps + 1) cps initial_n _ small (omega arith) written
          enough,
    )
