-- ===== src/Ping/Checksum.antt =====
-- The sums of `compute_checksum` of src/ping/ping.c modulo 65535.
use luci_app_komari_agent_c.Prelude.{
  ℕ, zero, suc, ◌+◌, ◌-◌, ◌*◌, ◌/◌, ◌%◌, ◌<◌, ◌≤◌, ◌≡◌, refl, ◌∷◌, ◌++◌, Bool, ltb, arith,
  Bool-cases, inl, inr,
}
use luci_app_komari_agent_c.Prelude.Chars.{Bytes}
use luci_app_komari_agent_c.Ping.{word, word_bytes, sum_words, fold_carries, compute_checksum}

-- What folding leaves of a sum: a 16-bit number that differs by a multiple of 65535 from it, and is
-- zero only for zero.
pub record Folded (sum f : ℕ) : Type 0 where
  pub small : f ≤ 65535
  pub turns : ℕ
  pub same : sum ≡ f + 65535 * turns
  pub positive : 0 < sum → 0 < f

fold_carries-Folded : (fuel sum : ℕ) → sum ≤ fuel → Folded sum (fold_carries fuel sum)
unfolding fold_carries
fold_carries-Folded zero sum h = record {
  small = omega arith;
  turns = 0;
  same = omega arith;
  positive = λ p. p;
}
fold_carries-Folded (suc fuel) sum h = elim (Bool-cases (ltb 0 (sum / 0x10000))) [
  | inl e ↦
      let high : 0 < sum / 0x10000 = ground arith in
      let next : Folded (sum % 0x10000 + sum / 0x10000)
          (fold_carries fuel (sum % 0x10000 + sum / 0x10000)) =
        fold_carries-Folded fuel (sum % 0x10000 + sum / 0x10000) (omega arith) in
      rw e (record {
        small = next.small;
        turns = sum / 0x10000 + next.turns;
        same = omega (arith, next.same);
        positive = λ p. next.positive (omega arith);
      })
  | inr e ↦
      let low : sum / 0x10000 ≤ 0 = ground arith in
      rw e (record { small = omega arith; turns = 0; same = omega arith; positive = λ p. p })
]

-- A positive multiple of 65535.
pub record Whole (n : ℕ) : Type 0 where
  pub times : ℕ
  pub multiple : n ≡ 65535 * (times + 1)

complement :
    (before f after : ℕ)
    → after ≡ before + (0xFFFFFFFF - f) % 0x10000
    → Folded before f
    → Whole after
complement before f after total first =
    let small : f ≤ 65535 = first.small in
    let same : before ≡ f + 65535 * first.turns = first.same in
    record { times = first.turns; multiple = omega arith }

module _ (big_endian : Bool) where
  word-word_bytes :
      (w : ℕ) (s : Bytes)
      → sum_words big_endian (word_bytes big_endian w ++ s) ≡ w + sum_words big_endian s
  unfolding word word_bytes sum_words
  word-word_bytes w s = elim (Bool-cases big_endian) [
    | inl e ↦ rw e (omega arith)
    | inr e ↦ rw e (omega arith)
  ]

  word_zero : word big_endian 0 0 ≡ 0
  unfolding word
  word_zero = elim (Bool-cases big_endian) [ inl e ↦ rw e refl | inr e ↦ rw e refl ]

  -- The sum behind a packet whose checksum stands in its place is a positive multiple of 65535.
  pub with_checksum :
      (a b : ℕ) (rest : Bytes)
      → let checksum = compute_checksum big_endian (a ∷ b ∷ 0 ∷ 0 ∷ rest) in
        Whole (sum_words big_endian (a ∷ b ∷ (word_bytes big_endian checksum ++ rest)))
  unfolding compute_checksum sum_words word
  with_checksum a b rest =
      let before = sum_words big_endian (a ∷ b ∷ 0 ∷ 0 ∷ rest) in
      let checksum = (0xFFFFFFFF - fold_carries before before) % 0x10000 in
      let after = sum_words big_endian (a ∷ b ∷ (word_bytes big_endian checksum ++ rest)) in
      let total : after ≡ before + checksum =
        omega (arith, word-word_bytes checksum rest, word_zero) in
      complement before (fold_carries before before) after total
        (fold_carries-Folded before before (omega arith))
