-- ===== src/Protocol/Compress/Tests.antt =====
-- A stream that expands: each call fills the room that it is given, as long as the stream lasts.
use luci_app_komari_agent_c.Prelude.{
  ◌≡◌, ◌<◌, ◌≤◌, length, ℕ, ◌-◌, [], true, some, replicate, min, leb, if◌then◌else◌, arith,
  length-replicate,
}
use luci_app_komari_agent_c.Protocol.Compress.{
  ok, buf_error, stream_end, Inflated, IsInflate, compress_gunzip,
}
use luci_app_komari_agent_c.Protocol.Compress.Bounds.{Ends, Small, compress_gunzip_bounded}

-- The stream is the number of zero bytes that it still holds; one call gives at most 4000 of them.
unfoldable zeros : ℕ → ℕ → Inflated ℕ
zeros left n =
    if leb left (min n 4000)
    then record { code = stream_end; written = replicate left 0; stream = 0 }
    else if leb n 0
    then record { code = buf_error; written = []; stream = left }
    else record { code = ok; written = replicate (min n 4000) 0; stream = left - min n 4000 }

zeros_room : (s n : ℕ) → length (Inflated.written (zeros s n)) ≤ n
unfolding zeros
zeros_room s n =
    ground (arith, length-replicate {A = ℕ} s 0, length-replicate {A = ℕ} (min n 4000) 0)

zeros_progress : (s n : ℕ) → Inflated.code (zeros s n) ≡ ok → Inflated.stream (zeros s n) < s
unfolding zeros
zeros_progress s n e = grind arith

zeros_stalled : (s n : ℕ) → Inflated.stream (zeros s n) ≤ s
unfolding zeros
zeros_stalled s n = ground arith

abbrev zeros_inflate : IsInflate zeros
zeros_inflate = record {
  rank = λ left. left;
  room = zeros_room;
  progress = zeros_progress;
  stalled = zeros_stalled;
}

compress_gunzip_bounded_example :
    Ends (compress_gunzip zeros (λ n. true) 16800000 (some 10000) 1000)
    × Small (compress_gunzip zeros (λ n. true) 16800000 (some 10000) 1000)
compress_gunzip_bounded_example =
    compress_gunzip_bounded zeros (λ n. true) zeros_inflate 16800000 10000 1000 (omega arith)
