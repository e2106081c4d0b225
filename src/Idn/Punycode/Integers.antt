-- ===== src/Idn/Punycode/Integers.antt =====
-- The digits that the encoder writes, as the integers of RFC 3492, section 3.3.
use luci_app_komari_agent_c.Prelude.{
  ℕ, zero, min, max, suc, ◌+◌, ◌-◌, ◌*◌, ◌/◌, ◌%◌, ◌<◌, ◌≤◌, ◌≡◌, refl, [], ◌∷◌, List, true, false,
  ltb, if◌then◌else◌, arith, inl, inr, Bool-cases,
}
use luci_app_komari_agent_c.Prelude.Chars.{All}
use native.Mathlib.Nat.{mod-add-div, mod-lt, div-le_self}
use luci_app_komari_agent_c.Idn.Punycode.{adapt_loop, base, threshold, digits}

-- The threshold of RFC 3492, section 6.2: k - bias, but at least 1 and at most 26.
pub clamped : ℕ → ℕ → ℕ
clamped bias k = min 26 (max 1 (k - bias))

-- The value by the decoder of RFC 3492, section 6.2, in base 36: a digit below its threshold is the
-- last, and the weight of the next one is 36 less the threshold.
abbrev pub value : ℕ → ℕ → List ℕ → ℕ
value bias k [] = 0
value bias k (d ∷ ds) =
    let rest = value bias (k + 36) ds in
    if ltb d (clamped bias k) then d else d + (36 - clamped bias k) * rest

threshold-clamped : (bias k : ℕ) → threshold bias k ≡ clamped bias k
unfolding threshold clamped
threshold-clamped bias k = ground arith

pub threshold_bounds : (bias k : ℕ) → (1 ≤ threshold bias k) × (threshold bias k ≤ 26)
unfolding threshold
threshold_bounds bias k = ground arith

-- One division step.
division : (q t w : ℕ) → t ≤ q → t + (q - t) % w + w * ((q - t) / w) ≡ q
division q t w h = omega (arith, mod-add-div (q - t) w)

digit_range : (q t w : ℕ) → 0 < w → t + (q - t) % w < t + w
digit_range q t w p = omega (arith, mod-lt (q - t) p)

-- With `q` for fuel, the digits of `q` are read back as `q`, for every bias and from every position.
pub value-digits : (fuel bias k q : ℕ) → q ≤ fuel → value bias k (digits fuel bias k q) ≡ q
unfolding digits
value-digits zero bias k q h =
    let (low, high) = threshold_bounds bias k in
    let last : ltb q (threshold bias k) ≡ true = ground arith in
    rw (← threshold-clamped bias k, last) refl
value-digits (suc fuel) bias k q h = elim (Bool-cases (ltb q (threshold bias k))) [
  | inl e ↦ rw (e, ← threshold-clamped bias k, e) refl
  | inr e ↦
      let (low, high) = threshold_bounds bias k in
      let t = threshold bias k in
      let w = base - t in
      let onward : ltb (t + (q - t) % w) t ≡ false = ground arith in
      let above : t ≤ q = ground arith in
      let smaller : (q - t) / w ≤ fuel = omega (arith, div-le_self (q - t) w, low) in
      rw
        (
          e,
          ← threshold-clamped bias k,
          onward,
          value-digits fuel bias (k + base) ((q - t) / w) smaller,
        )
        (division q t w above)
]

-- Every digit has a character.
pub digits-lt : (fuel bias k q : ℕ) → q ≤ fuel → All (λ d. d < base) (digits fuel bias k q)
unfolding digits
digits-lt zero bias k q h = (omega arith, tt)
digits-lt (suc fuel) bias k q h = elim (Bool-cases (ltb q (threshold bias k))) [
  | inl e ↦
      let (low, high) = threshold_bounds bias k in
      let small : q < base = ground arith in rw e (small, tt)
  | inr e ↦
      let (low, high) = threshold_bounds bias k in
      let t = threshold bias k in
      let w = base - t in
      let above : t ≤ q = ground arith in
      let smaller : (q - t) / w ≤ fuel = omega (arith, div-le_self (q - t) w, low) in
      let small : t + (q - t) % w < base =
        omega (arith, digit_range q t w (omega (arith, high)), high) in
      rw e (small, digits-lt fuel bias (k + base) ((q - t) / w) smaller)
]

-- The loop of `adapt` leaves by its own test.
pub adapt_loop-le : (fuel delta k : ℕ) → delta ≤ fuel → (adapt_loop fuel delta k).0 ≤ 455
unfolding adapt_loop
adapt_loop-le zero delta k h = omega arith
adapt_loop-le (suc fuel) delta k h = elim (Bool-cases (ltb 455 delta)) [
  | inl e ↦ rw e (adapt_loop-le fuel (delta / 35) (k + 36) (omega (arith, mod-add-div delta 35)))
  | inr e ↦ rw e (ground arith)
]
