-- ===== src/Netstatic/Cleanup.antt =====
-- What the cleanup keeps.
use luci_app_komari_agent_c.Prelude.{
  ℕ, zero, suc, ◌+◌, sym, Bool-cases, inl, inr, length, drop, ltb, ◌-◌, ◌^◌, ◌<◌, ◌≤◌, ◌≡◌, refl,
  [], ◌∷◌, List, Bool, true, ◌&&◌, leb, if◌then◌else◌, arith, map,
}
use luci_app_komari_agent_c.Prelude.Chars.{All}
use luci_app_komari_agent_c.Netstatic.{
  TrafficData, InterfaceStats, Netstatic, cutoff, max_samples, drop_older, keep_newest,
  cleanup_interface, cleanup_old_data,
}

-- Every sample was taken at or after the time `t`, and each not before the one in front of it.
abbrev pub chronological_from : ℕ → List TrafficData → Bool
chronological_from t [] = true
chronological_from t (d ∷ ds) =
    leb t (TrafficData.timestamp d) && chronological_from (TrafficData.timestamp d) ds

abbrev pub not_before : ℕ → List TrafficData → List TrafficData
not_before limit [] = []
not_before limit (d ∷ ds) =
    let rest = not_before limit ds in if leb limit (TrafficData.timestamp d) then d ∷ rest else rest

abbrev pub IsChronological : InterfaceStats → Type 0
IsChronological is = chronological_from 0 (InterfaceStats.samples is) ≡ true

all_fresh :
    (limit t : ℕ) (ds : List TrafficData)
    → limit ≤ t
    → chronological_from t ds ≡ true
    → not_before limit ds ≡ ds
all_fresh limit t [] h c = refl
all_fresh limit t (d ∷ ds) h c = ground (arith, all_fresh limit (TrafficData.timestamp d) ds)

drop_older-not_before :
    (limit t : ℕ) (ds : List TrafficData)
    → chronological_from t ds ≡ true
    → drop_older limit ds ≡ not_before limit ds
unfolding drop_older
drop_older-not_before limit t [] c = refl
drop_older-not_before limit t (d ∷ ds) c = ground (
  arith,
  all_fresh limit (TrafficData.timestamp d) ds,
  drop_older-not_before limit (TrafficData.timestamp d) ds,
)

-- The last `n` samples: samples are given up from the front while there are more.
abbrev pub last_samples : ℕ → List TrafficData → List TrafficData
last_samples n [] = []
last_samples n (d ∷ ds) =
    let later = last_samples n ds in if ltb n (length (d ∷ ds)) then later else d ∷ ds

last_samples_all : (n : ℕ) (ds : List TrafficData) → length ds ≤ n → last_samples n ds ≡ ds
last_samples_all n [] h = refl
last_samples_all n (d ∷ ds) h = ground arith

drop-last_samples :
    (n k : ℕ) (ds : List TrafficData) → length ds ≡ n + k → drop k ds ≡ last_samples n ds
drop-last_samples n zero ds h = sym (last_samples_all n ds (omega arith))
drop-last_samples n (suc k) [] h = refl
drop-last_samples n (suc k) (d ∷ ds) h =
    let more : ltb n (length (d ∷ ds)) ≡ true = ground arith in
    rw more (drop-last_samples n k ds (omega arith))

keep_newest-last_samples : (ds : List TrafficData) → keep_newest ds ≡ last_samples 200000 ds
keep_newest-last_samples ds = elim (Bool-cases (ltb max_samples (length ds))) [
  | inl e ↦
      let more : max_samples ≤ length ds = ground arith in
      rw e (drop-last_samples 200000 (length ds - max_samples) ds (omega arith))
  | inr e ↦
      let few : length ds ≤ 200000 = ground arith in rw e (sym (last_samples_all 200000 ds few))
]

-- What is left of an interface: the newest 200000 of the samples that are at most `preserve` seconds old.
abbrev pub kept : ℕ → ℕ → InterfaceStats → InterfaceStats
kept now preserve is = record is {
  samples = last_samples 200000 (not_before (now - preserve) (InterfaceStats.samples is));
}

cutoff_past :
    (now preserve : ℕ) → preserve ≤ now → now < 2 ^ 64 → cutoff now preserve ≡ now - preserve
cutoff_past now preserve h k = omega arith

-- Where the clock is past the preserve window and the samples of each interface are in chronological
-- order, the cleanup keeps, of each interface, the newest 200000 of the samples inside the window,
-- and nothing else of it changes.
pub cleanup_old_data-kept :
    (now preserve : ℕ) (ns : Netstatic)
    → preserve ≤ now
    → now < 2 ^ 64
    → All IsChronological ns
    → cleanup_old_data now preserve ns ≡ map (kept now preserve) ns
unfolding cleanup_old_data cleanup_interface
cleanup_old_data-kept now preserve [] h k a = refl
cleanup_old_data-kept now preserve (is ∷ ns) h k a =
    rw
      (
        cutoff_past now preserve h k,
        drop_older-not_before (now - preserve) 0 (InterfaceStats.samples is) a.0,
        keep_newest-last_samples (not_before (now - preserve) (InterfaceStats.samples is)),
        cleanup_old_data-kept now preserve ns h k a.1,
      )
      refl

abbrev pub emptied : InterfaceStats → InterfaceStats
emptied is = record is { samples = [] }

-- The samples were taken up to a time.
abbrev pub taken_by : ℕ → List TrafficData → Bool
taken_by now [] = true
taken_by now (d ∷ ds) = leb (TrafficData.timestamp d) now && taken_by now ds

abbrev pub IsTakenBy : ℕ → InterfaceStats → Type 0
IsTakenBy now is = taken_by now (InterfaceStats.samples is) ≡ true

drop_all_older :
    (limit now : ℕ) (ds : List TrafficData)
    → now < limit
    → taken_by now ds ≡ true
    → drop_older limit ds ≡ []
unfolding drop_older
drop_all_older limit now [] h t = refl
drop_all_older limit now (d ∷ ds) h t = ground (arith, drop_all_older limit now ds)

-- As the code stands, a clock that shows less than the preserve window makes the subtraction wrap,
-- and the cleanup then removes every sample that is not from the future.
pub cleanup_old_data_wrap :
    (now preserve : ℕ) (ns : Netstatic)
    → now < preserve
    → preserve < 2 ^ 64
    → All (IsTakenBy now) ns
    → cleanup_old_data now preserve ns ≡ map emptied ns
unfolding cleanup_old_data cleanup_interface
cleanup_old_data_wrap now preserve [] h k a = refl
cleanup_old_data_wrap now preserve (is ∷ ns) h k a =
    let past : now < cutoff now preserve = omega arith in
    rw
      (
        drop_all_older (cutoff now preserve) now (InterfaceStats.samples is) past a.0,
        cleanup_old_data_wrap now preserve ns h k a.1,
      )
      refl
