-- ===== src/Netstatic/Invariant.antt =====
-- The sample buffers against their capacities, and the table of interfaces against its size.
use luci_app_komari_agent_c.Prelude.{
  ℕ, ◌-◌, ◌<◌, ◌≤◌, ◌≡◌, refl, [], ◌∷◌, ◌++◌, List, Bool, some, length, leb, arith, length-append,
  length-drop, length-take, Bool-cases, Option-cases, inl, inr,
}
use luci_app_komari_agent_c.Prelude.Chars.{Bytes, All, str_eq}
use luci_app_komari_agent_c.Netstatic.{
  TrafficData, InterfaceStats, Netstatic, Line, max_interfaces, max_name_len, max_samples,
  make_room, append_sample, record_counters, update_first, collect_line, collect, drop_older,
  cleanup_interface, cutoff, cleanup_old_data, new_interface, is_tracked, add_interface, delta,
  remove_interface, skip_spaces,
}

pub record IsInterface (is : InterfaceStats) : Type 0 where
  pub name_fits : length (InterfaceStats.name is) < max_name_len
  pub samples_fit : length (InterfaceStats.samples is) ≤ InterfaceStats.data_capacity is
  pub capacity_pos : 1 ≤ InterfaceStats.data_capacity is
  pub capacity_max : InterfaceStats.data_capacity is ≤ max_samples

pub record IsValid (ns : Netstatic) : Type 0 where
  pub count : length ns ≤ max_interfaces
  pub each : All IsInterface ns

make_room-IsInterface :
    (memory : Bool) (is r : InterfaceStats)
    → IsInterface is
    → make_room memory is ≡ some r
    → IsInterface r × (length (InterfaceStats.samples r) < InterfaceStats.data_capacity r)
unfolding make_room
make_room-IsInterface memory is r v e = grind (arith, length-drop 1 (InterfaceStats.samples is))

append_sample-IsInterface :
    (d : TrafficData) (is : InterfaceStats) → IsInterface is → IsInterface (append_sample d is)
unfolding append_sample
append_sample-IsInterface d is v = grind (arith, length-append (InterfaceStats.samples is) (d ∷ []))

pub record_counters-IsInterface :
    (memory : Bool) (now tx rx : ℕ) (is : InterfaceStats)
    → IsInterface is
    → IsInterface (record_counters memory now tx rx is)
unfolding record_counters
record_counters-IsInterface memory now tx rx is v =
    let updated : InterfaceStats = record is { last_tx = tx; last_rx = rx } in
    let w : IsInterface updated = record {
      name_fits = v.name_fits;
      samples_fit = v.samples_fit;
      capacity_pos = v.capacity_pos;
      capacity_max = v.capacity_max;
    } in
    elim (Option-cases (make_room memory updated)) [
      | inl e ↦ rw (record_counters, e) w
      | inr (r, e) ↦
          rw (record_counters, e)
            (append_sample-IsInterface
              (record {
                timestamp = now;
                tx = delta (InterfaceStats.last_tx is) tx;
                rx = delta (InterfaceStats.last_rx is) rx;
              })
              r ((make_room-IsInterface memory updated r w e).0))
    ]

drop_older_shorter : (limit : ℕ) (ds : List TrafficData) → length (drop_older limit ds) ≤ length ds
unfolding drop_older
drop_older_shorter limit [] = omega arith
drop_older_shorter limit (d ∷ ds) = ground (arith, drop_older_shorter limit ds)

cleanup-IsInterface :
    (limit : ℕ) (is : InterfaceStats) → IsInterface is → IsInterface (cleanup_interface limit is)
unfolding cleanup_interface
cleanup-IsInterface limit is v =
    let ds = drop_older limit (InterfaceStats.samples is) in
    grind (
      arith,
      drop_older_shorter limit (InterfaceStats.samples is),
      length-drop (length ds - max_samples) ds,
    )

update_first-All :
    (name : Bytes) (f : InterfaceStats → InterfaceStats) (ns : Netstatic)
    → ((is : InterfaceStats) → IsInterface is → IsInterface (f is))
    → All IsInterface ns
    → All IsInterface (update_first name f ns)
unfolding update_first
update_first-All name f [] k a = a
update_first-All name f (is ∷ ns) k a = elim (Bool-cases (str_eq (InterfaceStats.name is) name)) [
  | inl e ↦ rw (update_first, e) (k is a.0, a.1)
  | inr e ↦ rw (update_first, e) (a.0, update_first-All name f ns k a.1)
]

pub length-update_first :
    (name : Bytes) (f : InterfaceStats → InterfaceStats) (ns : Netstatic)
    → length (update_first name f ns) ≡ length ns
unfolding update_first
length-update_first name f [] = refl
length-update_first name f (is ∷ ns) = ground (arith, length-update_first name f ns)

collect_line-IsValid : (l : Line) (ns : Netstatic) → IsValid ns → IsValid (collect_line l ns)
unfolding collect_line
collect_line-IsValid l ns v =
    let f = record_counters (Line.memory l) (Line.now l) (Line.tx_bytes l) (Line.rx_bytes l) in
    let name = skip_spaces (Line.iface l) in
    record {
      count = rw (length-update_first name f ns) v.count;
      each =
          update_first-All name f ns
            (record_counters-IsInterface (Line.memory l) (Line.now l) (Line.tx_bytes l)
              (Line.rx_bytes l))
            v.each;
    }

-- Reading /proc/net/dev keeps the statistics valid, whatever the lines and the allocator's answers:
-- at most 32 interfaces with names of at most 31 bytes, no more samples than the buffer's capacity,
-- and a capacity from 1 to 200000.
pub collect-IsValid : (ls : List Line) (ns : Netstatic) → IsValid ns → IsValid (collect ls ns)
unfolding collect
collect-IsValid [] ns v = v
collect-IsValid (l ∷ ls) ns v = collect-IsValid ls (collect_line l ns) (collect_line-IsValid l ns v)

append-All :
    (ns : Netstatic) (is : InterfaceStats)
    → All IsInterface ns
    → IsInterface is
    → All IsInterface (ns ++ (is ∷ []))
append-All [] is a v = (v, tt)
append-All (x ∷ ns) is a v = (a.0, append-All ns is a.1 v)

pub new_interface-IsInterface : (name : Bytes) → IsInterface (new_interface name)
new_interface-IsInterface name = record {
  name_fits = omega (arith, length-take 31 name);
  samples_fit = omega arith;
  capacity_pos = omega arith;
  capacity_max = omega arith;
}

cleanup-All :
    (now preserve : ℕ) (ns : Netstatic)
    → All IsInterface ns
    → All IsInterface (cleanup_old_data now preserve ns)
unfolding cleanup_old_data
cleanup-All now preserve [] a = a
cleanup-All now preserve (is ∷ ns) a =
    (cleanup-IsInterface (cutoff now preserve) is a.0, cleanup-All now preserve ns a.1)

length-cleanup :
    (now preserve : ℕ) (ns : Netstatic) → length (cleanup_old_data now preserve ns) ≡ length ns
unfolding cleanup_old_data
length-cleanup now preserve [] = refl
length-cleanup now preserve (is ∷ ns) = ground (arith, length-cleanup now preserve ns)

pub cleanup_old_data-IsValid :
    (now preserve : ℕ) (ns : Netstatic) → IsValid ns → IsValid (cleanup_old_data now preserve ns)
cleanup_old_data-IsValid now preserve ns v = record {
  count = rw (length-cleanup now preserve ns) v.count;
  each = cleanup-All now preserve ns v.each;
}

added-IsValid :
    (name : Bytes) (ns : Netstatic)
    → IsValid ns
    → length ns < max_interfaces
    → IsValid (ns ++ (new_interface name ∷ []))
added-IsValid name ns v h = record {
  count = omega (arith, length-append ns (new_interface name ∷ []));
  each = append-All ns (new_interface name) v.each (new_interface-IsInterface name);
}

-- Tracking an interface keeps the statistics valid on every branch.
pub add_interface-IsValid :
    (memory : Bool) (name : Bytes) (ns : Netstatic)
    → IsValid ns
    → IsValid ((add_interface memory name ns).0)
unfolding add_interface
add_interface-IsValid memory name ns v = elim (Bool-cases (leb max_interfaces (length ns))) [
  | inl e ↦ rw (add_interface, e) v
  | inr e ↦ elim (Bool-cases (is_tracked name ns)) [
    | inl t ↦ rw (add_interface, e, t) v
    | inr t ↦ elim (Bool-cases memory) [
      | inl m ↦ rw (add_interface, e, t, m) (added-IsValid name ns v (ground arith))
      | inr m ↦ rw (add_interface, e, t, m) v
    ]
  ]
]

remove_shorter : (name : Bytes) (ns : Netstatic) → length ((remove_interface name ns).0) ≤ length ns
unfolding remove_interface
remove_shorter name [] = omega arith
remove_shorter name (is ∷ ns) = ground (arith, remove_shorter name ns)

remove-All :
    (name : Bytes) (ns : Netstatic)
    → All IsInterface ns
    → All IsInterface ((remove_interface name ns).0)
unfolding remove_interface
remove-All name [] a = a
remove-All name (is ∷ ns) a = elim (Bool-cases (str_eq (InterfaceStats.name is) name)) [
  | inl e ↦ rw (remove_interface, e) a.1
  | inr e ↦ rw (remove_interface, e) (a.0, remove-All name ns a.1)
]

pub remove_interface-IsValid :
    (name : Bytes) (ns : Netstatic) → IsValid ns → IsValid ((remove_interface name ns).0)
remove_interface-IsValid name ns v = record {
  count = omega (arith, remove_shorter name ns, v.count);
  each = remove-All name ns v.each;
}

-- What the agent can do with the statistics, in any order.
pub data Reachable : Netstatic → Type 0 where
  created : Reachable []
  collected : {ns : Netstatic} → Reachable ns → (ls : List Line) → Reachable (collect ls ns)
  cleaned :
      {ns : Netstatic}
      → Reachable ns
      → (now preserve : ℕ) → Reachable (cleanup_old_data now preserve ns)
  added :
      {ns : Netstatic}
      → Reachable ns
      → (memory : Bool) (name : Bytes) → Reachable ((add_interface memory name ns).0)
  removed :
      {ns : Netstatic} → Reachable ns → (name : Bytes) → Reachable ((remove_interface name ns).0)

-- Whatever is collected, cleaned up, added and removed, in any order and with any allocator: at most
-- 32 interfaces with names of at most 31 bytes, no more samples than the buffer's capacity, and a
-- capacity from 1 to 200000.
pub Reachable-IsValid : (ns : Netstatic) → Reachable ns → IsValid ns
Reachable-IsValid ns created = record { count = omega arith; each = tt }
Reachable-IsValid ns (collected {ns = old} r ls) = collect-IsValid ls old (Reachable-IsValid old r)
Reachable-IsValid ns (cleaned {ns = old} r now preserve) =
    cleanup_old_data-IsValid now preserve old (Reachable-IsValid old r)
Reachable-IsValid ns (added {ns = old} r memory name) =
    add_interface-IsValid memory name old (Reachable-IsValid old r)
Reachable-IsValid ns (removed {ns = old} r name) =
    remove_interface-IsValid name old (Reachable-IsValid old r)
