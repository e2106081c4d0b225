-- ===== src/Netstatic.antt =====
-- Traffic statistics of src/monitoring/netstatic.c: the tracked interfaces, their samples, and the
-- operations that run under the mutex. The allocator's answers and the clock are arguments.
pub mod Invariant
pub mod Interfaces
pub mod Cleanup
pub mod Traffic
mod Tests
use luci_app_komari_agent_c.Prelude.{
  ℕ, suc, ◌+◌, ◌-◌, ◌*◌, ◌%◌, ◌^◌, ◌<◌, [], ◌∷◌, ◌++◌, List, Bool, true, false, not, ◌&&◌, ◌||◌,
  Option, none, some, length, take, drop, leb, ltb, ◌==◌, if◌then◌else◌,
}
use luci_app_komari_agent_c.Prelude.Chars.{Bytes, str_eq}

-- `traffic_data_t`
pub record TrafficData : Type 0 where
  pub timestamp : ℕ
  pub tx : ℕ
  pub rx : ℕ

-- `interface_stats_t`: the samples up to `data_count`, oldest first.
pub record InterfaceStats : Type 0 where
  pub name : Bytes
  pub samples : List TrafficData
  pub data_capacity : ℕ
  pub last_tx : ℕ
  pub last_rx : ℕ

-- The part of `netstatic_t` that the operations change: `interfaces` up to `interface_count`.
abbrev pub Netstatic : Type 0
Netstatic = List InterfaceStats

abbrev pub max_interfaces : ℕ
max_interfaces = 32

abbrev pub max_name_len : ℕ
max_name_len = 32

abbrev pub max_samples : ℕ
max_samples = 200000

abbrev pub uint64_max : ℕ
uint64_max = 18446744073709551615

-- The growth of a counter; nothing at the first reading and when the counter has gone back.
abbrev pub delta : ℕ → ℕ → ℕ
delta last current = if ltb 0 last && leb last current then current - last else 0

-- A full buffer at the hard cap loses its oldest sample; a smaller one is doubled, if memory can be
-- had.
unfoldable pub make_room : Bool → InterfaceStats → Option InterfaceStats
make_room memory is =
    if ltb (length (InterfaceStats.samples is)) (InterfaceStats.data_capacity is)
    then some is
    else if leb max_samples (InterfaceStats.data_capacity is)
    then some (record is { samples = drop 1 (InterfaceStats.samples is) })
    else if memory
    then some (record is {
      data_capacity =
          (if ltb max_samples (InterfaceStats.data_capacity is * 2)
            then max_samples
            else InterfaceStats.data_capacity is * 2);
    })
    else none

-- `if (is->data_count < is->data_capacity)`
unfoldable pub append_sample : TrafficData → InterfaceStats → InterfaceStats
append_sample d is =
    if ltb (length (InterfaceStats.samples is)) (InterfaceStats.data_capacity is)
    then record is { samples = InterfaceStats.samples is ++ (d ∷ []) }
    else is

-- The counters of the interface are read at a time.
unfoldable pub record_counters : Bool → ℕ → ℕ → ℕ → InterfaceStats → InterfaceStats
record_counters memory now tx_bytes rx_bytes is =
    let sample : TrafficData = record {
      timestamp = now;
      tx = delta (InterfaceStats.last_tx is) tx_bytes;
      rx = delta (InterfaceStats.last_rx is) rx_bytes;
    } in
    let updated : InterfaceStats = record is { last_tx = tx_bytes; last_rx = rx_bytes } in
    elim (make_room memory updated) [ none ↦ updated | some roomy ↦ append_sample sample roomy ]

-- A line of /proc/net/dev as `sscanf` splits it, with the time and the allocator's answer that the
-- loop would meet there.
pub record Line : Type 0 where
  pub iface : Bytes
  pub rx_bytes : ℕ
  pub tx_bytes : ℕ
  pub now : ℕ
  pub memory : Bool

-- `while (*p == ' ') p++;`
unfoldable pub skip_spaces : Bytes → Bytes
skip_spaces [] = []
skip_spaces (c ∷ s) = let rest = skip_spaces s in if c == b' ' then rest else c ∷ s

-- The first interface of that name is updated.
unfoldable pub update_first : Bytes → (InterfaceStats → InterfaceStats) → Netstatic → Netstatic
update_first name f [] = []
update_first name f (is ∷ ns) =
    let rest = update_first name f ns in
    if str_eq (InterfaceStats.name is) name then f is ∷ ns else is ∷ rest

unfoldable pub collect_line : Line → Netstatic → Netstatic
collect_line l ns =
    update_first (skip_spaces (Line.iface l))
      (record_counters (Line.memory l) (Line.now l) (Line.tx_bytes l) (Line.rx_bytes l)) ns

unfoldable pub collect : List Line → Netstatic → Netstatic
collect [] ns = ns
collect (l ∷ ls) ns = collect ls (collect_line l ns)

-- `now - (uint64_t)(ns->data_preserve_days * 86400)` on uint64_t.
abbrev pub cutoff : ℕ → ℕ → ℕ
cutoff now preserve = (now + 2 ^ 64 - preserve) % 2 ^ 64

unfoldable pub drop_older : ℕ → List TrafficData → List TrafficData
drop_older limit [] = []
drop_older limit (d ∷ ds) =
    let rest = drop_older limit ds in if ltb (TrafficData.timestamp d) limit then rest else d ∷ ds

abbrev pub keep_newest : List TrafficData → List TrafficData
keep_newest ds = if ltb max_samples (length ds) then drop (length ds - max_samples) ds else ds

unfoldable pub cleanup_interface : ℕ → InterfaceStats → InterfaceStats
cleanup_interface limit is = record is {
  samples = keep_newest (drop_older limit (InterfaceStats.samples is));
}

unfoldable pub cleanup_old_data : ℕ → ℕ → Netstatic → Netstatic
cleanup_old_data now preserve [] = []
cleanup_old_data now preserve (is ∷ ns) =
    cleanup_interface (cutoff now preserve) is ∷ cleanup_old_data now preserve ns

abbrev pub is_tracked : Bytes → Netstatic → Bool
is_tracked name [] = false
is_tracked name (is ∷ ns) = str_eq (InterfaceStats.name is) name || is_tracked name ns

-- `strncpy` into the name field, which keeps its last byte for the NUL.
abbrev pub new_interface : Bytes → InterfaceStats
new_interface name = record {
  name = take (max_name_len - 1) name;
  samples = [];
  data_capacity = 1024;
  last_tx = 0;
  last_rx = 0;
}

-- `netstatic_add_interface`; the Boolean is false for the result -1.
unfoldable pub add_interface : Bool → Bytes → Netstatic → Netstatic × Bool
add_interface memory name ns =
    if leb max_interfaces (length ns)
    then (ns, false)
    else if is_tracked name ns
    then (ns, true)
    else if memory
    then (ns ++ (new_interface name ∷ []), true)
    else (ns, false)

-- `netstatic_remove_interface`
unfoldable pub remove_interface : Bytes → Netstatic → Netstatic × Bool
remove_interface name [] = ([], false)
remove_interface name (is ∷ ns) =
    let (rest, found) = remove_interface name ns in
    if str_eq (InterfaceStats.name is) name then (ns, true) else (is ∷ rest, found)

-- `if (v > UINT64_MAX - *total) *total = UINT64_MAX; else *total += v;`
abbrev pub add_clamped : ℕ → ℕ → ℕ
add_clamped total v = if ltb (uint64_max - total) v then uint64_max else total + v

-- The loop over the samples of `netstatic_get_monthly_traffic`. Whether `localtime` puts a timestamp
-- into the current month and year is a parameter.
unfoldable pub add_month : (ℕ → Bool) → List TrafficData → ℕ × ℕ → ℕ × ℕ
add_month this_month [] totals = totals
add_month this_month (d ∷ ds) (tx, rx) = add_month this_month ds (
    if this_month (TrafficData.timestamp d)
    then (add_clamped tx (TrafficData.tx d), add_clamped rx (TrafficData.rx d))
    else (tx, rx))

unfoldable pub monthly_traffic : (ℕ → Bool) → Bytes → Netstatic → ℕ × ℕ
monthly_traffic this_month iface [] = (0, 0)
monthly_traffic this_month iface (is ∷ ns) =
    let rest = monthly_traffic this_month iface ns in
    if str_eq (InterfaceStats.name is) iface
    then add_month this_month (InterfaceStats.samples is) (0, 0)
    else rest
