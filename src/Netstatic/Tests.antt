-- ===== src/Netstatic/Tests.antt =====
-- Small statistics.
use luci_app_komari_agent_c.Prelude.{ℕ, ◌+◌, ◌≡◌, refl, [], ◌∷◌, List, Bool, true, arith, map}
use luci_app_komari_agent_c.Prelude.Chars.{bytes}
use luci_app_komari_agent_c.Netstatic.{
  TrafficData, InterfaceStats, Netstatic, Line, uint64_max, make_room, append_sample,
  record_counters, update_first, collect_line, collect, skip_spaces, cleanup_old_data,
  new_interface, add_interface,
}
use luci_app_komari_agent_c.Netstatic.Invariant.{
  IsValid, created, added, collected, Reachable-IsValid,
}
use luci_app_komari_agent_c.Netstatic.Cleanup.{cleanup_old_data-kept, cleanup_old_data_wrap}
use luci_app_komari_agent_c.Netstatic.Traffic.{Reading, sum_tx, sum_rx, read_all, read_all_total}

abbrev sample : ℕ → ℕ → ℕ → TrafficData
sample t x r = record { timestamp = t; tx = x; rx = r }

abbrev wan : InterfaceStats
wan = record {
  name = bytes "wan";
  samples = sample 100 5 7 ∷ sample 200 11 13 ∷ [];
  data_capacity = 1024;
  last_tx = 16;
  last_rx = 20;
}

abbrev line : ℕ → ℕ → ℕ → Line
line t r x = record { iface = bytes "   wan"; rx_bytes = r; tx_bytes = x; now = t; memory = true }

abbrev fresh : Netstatic
fresh = (add_interface true (bytes "wan") []).0

-- The counters go back at 300: the sample is zero.
collect_reset :
    map
      (λ (is : InterfaceStats). InterfaceStats.samples is)
      (collect (line 200 20 16 ∷ line 300 3 2 ∷ line 400 4 9 ∷ []) fresh)
    ≡ (sample 200 0 0 ∷ sample 300 0 0 ∷ sample 400 7 1 ∷ []) ∷ []
unfolding collect collect_line update_first skip_spaces record_counters make_room append_sample
    add_interface
collect_reset = refl

Reachable-IsValid_example : IsValid (collect (line 200 20 16 ∷ []) fresh)
Reachable-IsValid_example =
    Reachable-IsValid (collect (line 200 20 16 ∷ []) fresh)
      (collected (added created true (bytes "wan")) (line 200 20 16 ∷ []))

cleanup_old_data-kept_example :
    cleanup_old_data 1000 850 (wan ∷ []) ≡ record wan { samples = sample 200 11 13 ∷ [] } ∷ []
cleanup_old_data-kept_example =
    cleanup_old_data-kept 1000 850 (wan ∷ []) (omega arith) (omega arith) (refl, tt)

cleanup_old_data_wrap_example :
    cleanup_old_data 1000 2678400 (wan ∷ []) ≡ record wan { samples = [] } ∷ []
cleanup_old_data_wrap_example =
    cleanup_old_data_wrap 1000 2678400 (wan ∷ []) (omega arith) (omega arith) (refl, tt)

abbrev every_time : ℕ → Bool
every_time t = true

abbrev busy : InterfaceStats
busy = record wan { samples = sample 100 uint64_max 7 ∷ sample 200 11 13 ∷ [] }

abbrev reading : ℕ → ℕ → ℕ → Reading
reading t x r = record { now = t; tx = x; rx = r }

abbrev later : List Reading
later = reading 20 15 9 ∷ reading 30 40 9 ∷ []

read_all_total_example :
    (sum_tx
          (InterfaceStats.samples (read_all (reading 10 5 8 ∷ later) (new_interface (bytes "wan"))))
        + 5
      ≡ 40)
    × (sum_rx (
            InterfaceStats.samples
              (read_all (reading 10 5 8 ∷ later) (new_interface (bytes "wan"))))
          + 8
        ≡ 9)
read_all_total_example =
    read_all_total (bytes "wan") (reading 10 5 8) later (omega arith) (omega arith) refl
      (omega arith)
