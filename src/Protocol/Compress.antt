-- ===== src/Protocol/Compress.antt =====
-- `compress_gunzip` of src/protocol/compress.c. zlib is a parameter: a state and a call of `inflate` on
-- it, with the room in the output buffer.
pub mod Bounds
mod Tests
use luci_app_komari_agent_c.Prelude.{
  ℕ, zero, suc, ◌+◌, ◌-◌, ◌*◌, ◌/◌, ◌<◌, ◌≤◌, ◌≡◌, [], ◌++◌, Bool, true, false, not, Option, none,
  some, length, leb, ltb, ◌==◌, if◌then◌else◌,
}
use luci_app_komari_agent_c.Prelude.Chars.{Bytes}

-- COMPRESS_CHUNK_SIZE
abbrev pub chunk_size : ℕ
chunk_size = 4096

-- DECOMPRESS_INITIAL_FACTOR
abbrev pub initial_factor : ℕ
initial_factor = 4

-- MAX_DECOMPRESSED_SIZE
abbrev pub max_decompressed_size : ℕ
max_decompressed_size = 16777216

-- The results of `inflate`; `fatal` stands for all that are not listed in the code.
pub data Code : Type 0 where
  ok : Code
  stream_end : Code
  buf_error : Code
  fatal : Code

-- A call of `inflate`: the result, the bytes that were written and the stream after it.
pub record Inflated (S : Type 0) : Type 0 where
  pub code : Code
  pub written : Bytes
  pub stream : S

-- What zlib documents: no more is written than there is room for, and Z_OK means progress, which a
-- stream can make only so often.
pub record IsInflate {S : Type 0} (inflate : S → ℕ → Inflated S) : Type 0 where
  pub rank : S → ℕ
  pub room : (s : S) (n : ℕ) → length (Inflated.written (inflate s n)) ≤ n
  pub progress :
      (s : S) (n : ℕ)
      → Inflated.code (inflate s n) ≡ ok
      → rank (Inflated.stream (inflate s n)) < rank s
  pub stalled : (s : S) (n : ℕ) → rank (Inflated.stream (inflate s n)) ≤ rank s

-- The outcome: -1, the output, or more turns of the loop than the fuel allows.
pub data Gunzip : Type 0 where
  failed : Gunzip
  done : Bytes → Gunzip
  out_of_fuel : Gunzip

-- The doubled buffer, at most the limit.
abbrev pub new_size : ℕ → ℕ
new_size size = if ltb max_decompressed_size (size * 2) then max_decompressed_size else size * 2

-- A full buffer is grown, unless it has the limit or memory cannot be had.
abbrev pub expand : (ℕ → Bool) → ℕ → Gunzip → Gunzip
expand can_alloc size grown =
    if leb max_decompressed_size size
    then failed
    else if can_alloc (new_size size)
    then grown
    else failed

-- What follows a call of `inflate`, with the room that is left in the buffer.
abbrev pub after_inflate : (ℕ → Bool) → Code → ℕ → ℕ → Bytes → Gunzip → Gunzip → Gunzip
after_inflate can_alloc stream_end size avail total again grown = done total
after_inflate can_alloc fatal size avail total again grown = failed
after_inflate can_alloc buf_error size avail total again grown =
    if ltb 0 avail then failed else expand can_alloc size grown
after_inflate can_alloc ok size avail total again grown =
    if avail == 0 then expand can_alloc size grown else again

-- Four times the input, at least a chunk.
abbrev pub initial_size : ℕ → ℕ
initial_size input_len =
    if ltb (input_len * initial_factor) chunk_size then chunk_size else input_len * initial_factor

module _ {S : Type 0} (inflate : S → ℕ → Inflated S) (can_alloc : ℕ → Bool) where
  -- The loop, with the size of the buffer and what has been written.
  unfoldable pub gunzip_loop : ℕ → S → ℕ → Bytes → Gunzip
  gunzip_loop zero s size out = out_of_fuel
  gunzip_loop (suc fuel) s size out =
      let r = inflate s (size - length out) in
      let total = out ++ Inflated.written r in
      let again = gunzip_loop fuel (Inflated.stream r) size total in
      let grown = gunzip_loop fuel (Inflated.stream r) (new_size size) total in
      if ltb max_decompressed_size (length out)
      then failed
      else after_inflate can_alloc (Inflated.code r) size (size - length total) total again grown

  -- `init` is what `inflateInit2` gives for the input.
  unfoldable pub compress_gunzip : ℕ → Option S → ℕ → Gunzip
  compress_gunzip fuel none input_len = failed
  compress_gunzip fuel (some s) input_len =
      if ltb (max_decompressed_size / initial_factor) input_len
      then failed
      else if can_alloc (initial_size input_len)
      then gunzip_loop fuel s (initial_size input_len) []
      else failed
