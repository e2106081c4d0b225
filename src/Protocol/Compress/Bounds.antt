-- ===== src/Protocol/Compress/Bounds.antt =====
-- The size of the output of `compress_gunzip`, and the turns of its loop.
use luci_app_komari_agent_c.Prelude.{
  ℕ, zero, suc, ◌+◌, ◌-◌, ◌/◌, ◌<◌, ◌≤◌, ◌≡◌, ◌≢◌, refl, [], ◌++◌, Bool, true, false, some, length,
  leb, ltb, ◌==◌, if◌then◌else◌, arith, length-append, Bool-cases, inl, inr,
}
use luci_app_komari_agent_c.Prelude.Chars.{Bytes}
use luci_app_komari_agent_c.Protocol.Compress.{
  initial_factor, max_decompressed_size, Code, ok, stream_end, buf_error, fatal, Inflated,
  IsInflate, Gunzip, failed, done, out_of_fuel, new_size, expand, after_inflate, gunzip_loop,
  initial_size, compress_gunzip,
}

-- An output within the limit, if there is one.
abbrev pub Small : Gunzip → Type 0
Small failed = Unit
Small (done out) = length out ≤ max_decompressed_size
Small out_of_fuel = Unit

choose : (P : Gunzip → Type 0) (b : Bool) (x y : Gunzip) → P x → P y → P (if b then x else y)
choose P true x y p q = p
choose P false x y p q = q

expand-Small :
    (can_alloc : ℕ → Bool) (size : ℕ) (g : Gunzip) → Small g → Small (expand can_alloc size g)
expand-Small can_alloc size g h =
    choose Small (leb max_decompressed_size size) failed
      (if can_alloc (new_size size) then g else failed) tt
      (choose Small (can_alloc (new_size size)) g failed h tt)

after_inflate-Small :
    (can_alloc : ℕ → Bool) (code : Code) (size avail : ℕ) (total : Bytes) (again grown : Gunzip)
    → length total ≤ max_decompressed_size
    → Small again
    → Small grown
    → Small (after_inflate can_alloc code size avail total again grown)
after_inflate-Small can_alloc ok size avail total again grown t a g =
    choose Small (avail == 0) (expand can_alloc size grown) again
      (expand-Small can_alloc size grown g) a
after_inflate-Small can_alloc stream_end size avail total again grown t a g = t
after_inflate-Small can_alloc fatal size avail total again grown t a g = tt
after_inflate-Small can_alloc buf_error size avail total again grown t a g =
    choose Small (ltb 0 avail) failed (expand can_alloc size grown) tt
      (expand-Small can_alloc size grown g)

new_size_max : (size : ℕ) → size ≤ max_decompressed_size → new_size size ≤ max_decompressed_size
new_size_max size h = ground arith

new_size_grows : (size : ℕ) → 0 < size → size < max_decompressed_size → size < new_size size
new_size_grows size h k = ground arith

new_size_kept : (size : ℕ) → size ≤ max_decompressed_size → size ≤ new_size size
new_size_kept size h = ground arith

-- The loop has not run out of fuel.
abbrev pub Ends : Gunzip → Type 0
Ends g = g ≢ out_of_fuel

failed-Ends : Ends failed
failed-Ends e = ground arith

done-Ends : (out : Bytes) → Ends (done out)
done-Ends out e = ground arith

expand-Ends :
    (can_alloc : ℕ → Bool) (size : ℕ) (g : Gunzip)
    → (size < max_decompressed_size → Ends g)
    → Ends (expand can_alloc size g)
expand-Ends can_alloc size g h = elim (Bool-cases (leb max_decompressed_size size)) [
  | inl e ↦ rw (e) failed-Ends
  | inr e ↦ rw (e) (choose Ends (can_alloc (new_size size)) g failed (h (ground arith)) failed-Ends)
]

after_inflate-Ends :
    (can_alloc : ℕ → Bool) (code : Code) (size avail : ℕ) (total : Bytes) (again grown : Gunzip)
    → (code ≡ ok → Ends again)
    → (size < max_decompressed_size → Ends grown)
    → Ends (after_inflate can_alloc code size avail total again grown)
after_inflate-Ends can_alloc ok size avail total again grown a g =
    choose Ends (avail == 0) (expand can_alloc size grown) again
      (expand-Ends can_alloc size grown g) (a refl)
after_inflate-Ends can_alloc stream_end size avail total again grown a g = done-Ends total
after_inflate-Ends can_alloc fatal size avail total again grown a g = failed-Ends
after_inflate-Ends can_alloc buf_error size avail total again grown a g =
    choose Ends (ltb 0 avail) failed (expand can_alloc size grown) failed-Ends
      (expand-Ends can_alloc size grown g)

module _ {S : Type 0} (inflate : S → ℕ → Inflated S) (can_alloc : ℕ → Bool)
    (z : IsInflate inflate) where
  total_fits :
      (s : S) (size : ℕ) (out : Bytes)
      → length out ≤ size
      → length (out ++ Inflated.written (inflate s (size - length out))) ≤ size
  total_fits s size out h = omega (
    arith,
    length-append out (Inflated.written (inflate s (size - length out))),
    z.room s (size - length out),
  )

  gunzip_loop-Small :
      (fuel : ℕ) (s : S) (size : ℕ) (out : Bytes)
      → 0 < size
      → size ≤ max_decompressed_size
      → length out ≤ size
      → Small (gunzip_loop inflate can_alloc fuel s size out)
  unfolding gunzip_loop
  gunzip_loop-Small zero s size out p m h = tt
  gunzip_loop-Small (suc fuel) s size out p m h =
      let r = inflate s (size - length out) in
      let total = out ++ Inflated.written r in
      let fits = total_fits s size out h in
      let again = gunzip_loop inflate can_alloc fuel (Inflated.stream r) size total in
      let grown = gunzip_loop inflate can_alloc fuel (Inflated.stream r) (new_size size) total in
      choose Small (ltb max_decompressed_size (length out)) failed
        (after_inflate can_alloc (Inflated.code r) size (size - length total) total again grown) tt
        (after_inflate-Small can_alloc (Inflated.code r) size (size - length total) total again
          grown (omega arith) (gunzip_loop-Small fuel (Inflated.stream r) size total p m fits)
          (gunzip_loop-Small fuel (Inflated.stream r) (new_size size) total
            (omega (arith, new_size_kept size m)) (new_size_max size m)
            (omega (arith, new_size_kept size m))))

  -- Each turn either ends the loop, or makes progress in the stream, or grows the buffer.
  gunzip_loop-Ends :
      (fuel : ℕ) (s : S) (size : ℕ) (out : Bytes)
      → 0 < size
      → size ≤ max_decompressed_size
      → z.rank s + (max_decompressed_size - size) < fuel
      → Ends (gunzip_loop inflate can_alloc fuel s size out)
  unfolding gunzip_loop
  gunzip_loop-Ends zero s size out p m h = absurd (omega arith)
  gunzip_loop-Ends (suc fuel) s size out p m h =
      let n = size - length out in
      let r = inflate s n in
      let total = out ++ Inflated.written r in
      let again = gunzip_loop inflate can_alloc fuel (Inflated.stream r) size total in
      let grown = gunzip_loop inflate can_alloc fuel (Inflated.stream r) (new_size size) total in
      choose Ends (ltb max_decompressed_size (length out)) failed
        (after_inflate can_alloc (Inflated.code r) size (size - length total) total again grown)
        failed-Ends
        (after_inflate-Ends can_alloc (Inflated.code r) size (size - length total) total again grown
          (λ e.
            gunzip_loop-Ends fuel (Inflated.stream r) size total p m
              (omega (arith, z.progress s n e)))
          (λ e.
            gunzip_loop-Ends fuel (Inflated.stream r) (new_size size) total
              (omega (arith, new_size_kept size m)) (new_size_max size m)
              (omega (arith, z.stalled s n, new_size_grows size p e, new_size_max size m))))

  initial_fits :
      (input_len : ℕ)
      → ltb (max_decompressed_size / initial_factor) input_len ≡ false
      → (0 < initial_size input_len) × (initial_size input_len ≤ max_decompressed_size)
  initial_fits input_len h = ground arith

  -- With a zlib as documented and fuel above the stream's rank and the limit, `compress_gunzip` comes
  -- to an end, and what it returns, if it does not fail, has at most 16 MiB, whatever the input and the
  -- allocator.
  pub compress_gunzip_bounded :
      (fuel : ℕ) (s : S) (input_len : ℕ)
      → z.rank s + max_decompressed_size < fuel
      → Ends (compress_gunzip inflate can_alloc fuel (some s) input_len)
        × Small (compress_gunzip inflate can_alloc fuel (some s) input_len)
  unfolding compress_gunzip
  compress_gunzip_bounded fuel s input_len h =
      elim (Bool-cases (ltb (max_decompressed_size / initial_factor) input_len)) [
        | inl e ↦ rw (compress_gunzip, e) (failed-Ends, tt)
        | inr e ↦
            let (p, m) = initial_fits input_len e in
            let size = initial_size input_len in
            let loop = gunzip_loop inflate can_alloc fuel s size [] in
            rw (compress_gunzip, e)
              (
                choose Ends (can_alloc size) loop failed
                    (gunzip_loop-Ends fuel s size [] p m (omega arith)) failed-Ends,
                choose Small (can_alloc size) loop failed
                    (gunzip_loop-Small fuel s size [] p m (omega arith)) tt,
              )
      ]
