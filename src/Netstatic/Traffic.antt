-- ===== src/Netstatic/Traffic.antt =====
-- Counters, the samples made of them, and the month's sum.
use luci_app_komari_agent_c.Prelude.{
  ℕ, ◌+◌, ◌<◌, ◌≤◌, ◌≡◌, ◌≢◌, refl, ap, [], ◌∷◌, ◌++◌, List, Bool, true, ◌&&◌, none, some, length,
  min, leb, if◌then◌else◌, arith, length-append, Option-cases, ◌∙◌, Bool-cases, inl, inr,
}
use luci_app_komari_agent_c.Prelude.Chars.{Bytes, str_eq}
use luci_app_komari_agent_c.Netstatic.{
  TrafficData, InterfaceStats, Netstatic, uint64_max, max_samples, delta, make_room, append_sample,
  record_counters, new_interface, add_clamped, add_month, monthly_traffic,
}
use luci_app_komari_agent_c.Netstatic.Invariant.{
  IsInterface, new_interface-IsInterface, record_counters-IsInterface,
}

-- The sums without a limit.
abbrev pub month_tx : (ℕ → Bool) → List TrafficData → ℕ
month_tx this_month [] = 0
month_tx this_month (d ∷ ds) =
    (if this_month (TrafficData.timestamp d) then TrafficData.tx d else 0) + month_tx this_month ds

abbrev pub month_rx : (ℕ → Bool) → List TrafficData → ℕ
month_rx this_month [] = 0
month_rx this_month (d ∷ ds) =
    (if this_month (TrafficData.timestamp d) then TrafficData.rx d else 0) + month_rx this_month ds

-- The samples of the first interface of that name.
abbrev pub samples_of : Bytes → Netstatic → List TrafficData
samples_of name [] = []
samples_of name (is ∷ ns) =
    if str_eq (InterfaceStats.name is) name then InterfaceStats.samples is else samples_of name ns

add_clamped-min : (t v : ℕ) → add_clamped (min t uint64_max) v ≡ min (t + v) uint64_max
add_clamped-min t v = ground arith

min_clamped : (t : ℕ) → t ≤ uint64_max → min t uint64_max ≡ t
min_clamped t h = omega arith

clamped_pair :
    {a b c d : ℕ}
    → a ≡ b
    → c ≡ d
    → ◌≡◌ {A = ℕ × ℕ} (min a uint64_max, min c uint64_max) (min b uint64_max, min d uint64_max)
clamped_pair p q = rw (p, q) refl

add_month-min :
    (this_month : ℕ → Bool) (ds : List TrafficData) (t r : ℕ)
    → add_month this_month ds (min t uint64_max, min r uint64_max)
      ≡ (min (t + month_tx this_month ds) uint64_max, min (r + month_rx this_month ds) uint64_max)
unfolding add_month
add_month-min this_month [] t r = clamped_pair (omega arith) (omega arith)
add_month-min this_month (d ∷ ds) t r = elim (Bool-cases (this_month (TrafficData.timestamp d))) [
  | inl e ↦
      rw
        (
          e,
          add_clamped-min t (TrafficData.tx d),
          add_clamped-min r (TrafficData.rx d),
          add_month-min this_month ds (t + TrafficData.tx d) (r + TrafficData.rx d),
        )
        (clamped_pair (omega arith) (omega arith))
  | inr e ↦ rw (e, add_month-min this_month ds t r) (clamped_pair (omega arith) (omega arith))
]

-- `netstatic_get_monthly_traffic` gives, for each direction, the sum over the samples of the
-- interface that fall into the month, or UINT64_MAX if the sum is larger, and zero if the interface
-- is not tracked.
pub monthly_traffic-min :
    (this_month : ℕ → Bool) (name : Bytes) (ns : Netstatic)
    → monthly_traffic this_month name ns ≡ (
      min (month_tx this_month (samples_of name ns)) uint64_max,
      min (month_rx this_month (samples_of name ns)) uint64_max,
    )
unfolding monthly_traffic
monthly_traffic-min this_month name [] = refl
monthly_traffic-min this_month name (is ∷ ns) = ground (
  arith,
  add_month-min this_month (InterfaceStats.samples is) 0 0,
  monthly_traffic-min this_month name ns,
)

-- What `record_counters` does of an interface when memory can be had.
abbrev sample_of : ℕ → ℕ → ℕ → InterfaceStats → TrafficData
sample_of now tx rx is = record {
  timestamp = now;
  tx = delta (InterfaceStats.last_tx is) tx;
  rx = delta (InterfaceStats.last_rx is) rx;
}

append_fits :
    (d : TrafficData) (is : InterfaceStats)
    → length (InterfaceStats.samples is) < InterfaceStats.data_capacity is
    → append_sample d is ≡ record is { samples = InterfaceStats.samples is ++ (d ∷ []) }
unfolding append_sample
append_fits d is h = ground arith

-- A reading of the counters.
pub record Reading : Type 0 where
  pub now : ℕ
  pub tx : ℕ
  pub rx : ℕ

make_room_kept :
    (memory : Bool) (is r : InterfaceStats)
    → length (InterfaceStats.samples is) < max_samples
    → make_room memory is ≡ some r
    → InterfaceStats.samples r ≡ InterfaceStats.samples is
unfolding make_room
make_room_kept memory is r h e = grind arith

make_room_fits :
    (memory : Bool) (is r : InterfaceStats)
    → IsInterface is
    → length (InterfaceStats.samples is) < max_samples
    → make_room memory is ≡ some r
    → length (InterfaceStats.samples r) < InterfaceStats.data_capacity r
unfolding make_room
make_room_fits memory is r v h e = grind arith

make_room_last :
    (memory : Bool) (is r : InterfaceStats)
    → make_room memory is ≡ some r
    → (InterfaceStats.last_tx r ≡ InterfaceStats.last_tx is)
      × (InterfaceStats.last_rx r ≡ InterfaceStats.last_rx is)
unfolding make_room
make_room_last memory is r e = grind arith

make_room_some : (is : InterfaceStats) → make_room true is ≢ none
unfolding make_room
make_room_some is e = ground arith

append_sample_last :
    (d : TrafficData) (is : InterfaceStats)
    → (InterfaceStats.last_tx (append_sample d is) ≡ InterfaceStats.last_tx is)
      × (InterfaceStats.last_rx (append_sample d is) ≡ InterfaceStats.last_rx is)
unfolding append_sample
append_sample_last d is = grind arith

append_sample_samples :
    (d : TrafficData) (is : InterfaceStats)
    → length (InterfaceStats.samples is) < InterfaceStats.data_capacity is
    → InterfaceStats.samples (append_sample d is) ≡ InterfaceStats.samples is ++ (d ∷ [])
unfolding append_sample
append_sample_samples d is h = grind arith

-- With memory at hand and below the hard cap, a reading appends one sample and becomes the last one.
pub record_counters_append :
    (now tx rx : ℕ) (is : InterfaceStats)
    → IsInterface is
    → length (InterfaceStats.samples is) < max_samples
    → (InterfaceStats.samples (record_counters true now tx rx is)
        ≡ InterfaceStats.samples is ++ (sample_of now tx rx is ∷ []))
      × (InterfaceStats.last_tx (record_counters true now tx rx is) ≡ tx)
      × (InterfaceStats.last_rx (record_counters true now tx rx is) ≡ rx)
unfolding record_counters
record_counters_append now tx rx is v h =
    let updated : InterfaceStats = record is { last_tx = tx; last_rx = rx } in
    let w : IsInterface updated = record {
      name_fits = v.name_fits;
      samples_fit = v.samples_fit;
      capacity_pos = v.capacity_pos;
      capacity_max = v.capacity_max;
    } in
    elim (Option-cases (make_room true updated)) [
      | inl e ↦ absurd (make_room_some updated e)
      | inr (r, e) ↦
          let d = sample_of now tx rx is in
          let last = make_room_last true updated r e in
          rw (record_counters, e)
            (
              append_sample_samples d r (make_room_fits true updated r w h e)
                  ∙ ap (λ s. s ++ (d ∷ [])) (make_room_kept true updated r h e),
              (append_sample_last d r).0 ∙ last.0,
              (append_sample_last d r).1 ∙ last.1,
            )
    ]

abbrev pub sum_tx : List TrafficData → ℕ
sum_tx [] = 0
sum_tx (d ∷ ds) = TrafficData.tx d + sum_tx ds

abbrev pub sum_rx : List TrafficData → ℕ
sum_rx [] = 0
sum_rx (d ∷ ds) = TrafficData.rx d + sum_rx ds

sum_tx-append : (ds es : List TrafficData) → sum_tx (ds ++ es) ≡ sum_tx ds + sum_tx es
sum_tx-append [] es = omega arith
sum_tx-append (d ∷ ds) es = omega (arith, sum_tx-append ds es)

sum_rx-append : (ds es : List TrafficData) → sum_rx (ds ++ es) ≡ sum_rx ds + sum_rx es
sum_rx-append [] es = omega arith
sum_rx-append (d ∷ ds) es = omega (arith, sum_rx-append ds es)

-- Readings of counters that do not go back, and the last of them.
abbrev pub rising : ℕ → ℕ → List Reading → Bool
rising tx rx [] = true
rising tx rx (r ∷ rs) =
    leb tx (Reading.tx r) && leb rx (Reading.rx r) && rising (Reading.tx r) (Reading.rx r) rs

abbrev pub final : ℕ × ℕ → List Reading → ℕ × ℕ
final last [] = last
final last (r ∷ rs) = final (Reading.tx r, Reading.rx r) rs

abbrev pub read_all : List Reading → InterfaceStats → InterfaceStats
read_all [] is = is
read_all (r ∷ rs) is =
    read_all rs (record_counters true (Reading.now r) (Reading.tx r) (Reading.rx r) is)

delta_rise : (last current : ℕ) → 0 < last → last ≤ current → delta last current + last ≡ current
delta_rise last current p h = ground arith

read_all_from :
    (rs : List Reading) (is : InterfaceStats) (t r : ℕ)
    → IsInterface is
    → InterfaceStats.last_tx is ≡ t
    → InterfaceStats.last_rx is ≡ r
    → 0 < t
    → 0 < r
    → rising t r rs ≡ true
    → length (InterfaceStats.samples is) + length rs ≤ max_samples
    → (sum_tx (InterfaceStats.samples (read_all rs is)) + t
        ≡ sum_tx (InterfaceStats.samples is) + (final (t, r) rs).0)
      × (sum_rx (InterfaceStats.samples (read_all rs is)) + r
          ≡ sum_rx (InterfaceStats.samples is) + (final (t, r) rs).1)
read_all_from [] is t r v a b p q g l = (refl, refl)
read_all_from (x ∷ rs) is t r v a b p q g l =
    let next = record_counters true (Reading.now x) (Reading.tx x) (Reading.rx x) is in
    let d = sample_of (Reading.now x) (Reading.tx x) (Reading.rx x) is in
    let (s, a', b') =
      record_counters_append (Reading.now x) (Reading.tx x) (Reading.rx x) is v (omega arith) in
    let t_rise : t ≤ Reading.tx x = ground arith in
    let r_rise : r ≤ Reading.rx x = ground arith in
    let count : length (InterfaceStats.samples next) ≡ length (InterfaceStats.samples is) + 1 =
      ap (λ z. length z) s ∙ length-append (InterfaceStats.samples is) (d ∷ []) in
    let onward =
      read_all_from rs next (Reading.tx x) (Reading.rx x)
        (record_counters-IsInterface true (Reading.now x) (Reading.tx x) (Reading.rx x) is v) a' b'
        (omega arith) (omega arith) (ground arith) (omega arith) in
    let tx_next = ap (λ z. sum_tx z) s ∙ sum_tx-append (InterfaceStats.samples is) (d ∷ []) in
    let rx_next = ap (λ z. sum_rx z) s ∙ sum_rx-append (InterfaceStats.samples is) (d ∷ []) in
    let tx_rise : TrafficData.tx d + t ≡ Reading.tx x =
      rw (a) (delta_rise t (Reading.tx x) p t_rise) in
    let rx_rise : TrafficData.rx d + r ≡ Reading.rx x =
      rw (b) (delta_rise r (Reading.rx x) q r_rise) in
    (omega (arith, onward.0, tx_next, tx_rise), omega (arith, onward.1, rx_next, rx_rise))

-- A new interface is read with counters that start above zero, do not go back and are read at most
-- 200000 times, with memory at hand: the samples of each direction then add up to the growth of the
-- counter from the first reading to the last.
pub read_all_total :
    (name : Bytes) (x : Reading) (rs : List Reading)
    → 0 < Reading.tx x
    → 0 < Reading.rx x
    → rising (Reading.tx x) (Reading.rx x) rs ≡ true
    → length (x ∷ rs) ≤ max_samples
    → (sum_tx (InterfaceStats.samples (read_all (x ∷ rs) (new_interface name))) + Reading.tx x
        ≡ (final (Reading.tx x, Reading.rx x) rs).0)
      × (sum_rx (InterfaceStats.samples (read_all (x ∷ rs) (new_interface name))) + Reading.rx x
          ≡ (final (Reading.tx x, Reading.rx x) rs).1)
read_all_total name x rs p q g l =
    let start = new_interface name in
    let v = new_interface-IsInterface name in
    let first = record_counters true (Reading.now x) (Reading.tx x) (Reading.rx x) start in
    let (s, a, b) =
      record_counters_append (Reading.now x) (Reading.tx x) (Reading.rx x) start v (omega arith) in
    let count : length (InterfaceStats.samples first) ≡ 1 = ap (λ z. length z) s in
    let tx_first : sum_tx (InterfaceStats.samples first) ≡ 0 = ap (λ z. sum_tx z) s in
    let rx_first : sum_rx (InterfaceStats.samples first) ≡ 0 = ap (λ z. sum_rx z) s in
    let onward =
      read_all_from rs first (Reading.tx x) (Reading.rx x)
        (record_counters-IsInterface true (Reading.now x) (Reading.tx x) (Reading.rx x) start v) a b
        p q g (omega arith) in
    (omega (arith, onward.0, tx_first), omega (arith, onward.1, rx_first))
