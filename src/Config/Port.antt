-- ===== src/Config/Port.antt =====
-- `parse_endpoint_port` of src/config/config.c against the parts of a URL.
use luci_app_komari_agent_c.Prelude.{
  ℕ, ◌+◌, ◌-◌, ◌*◌, ◌≤◌, ◌≡◌, refl, sym, ap, ◌∙◌, [], ◌∷◌, Bool, true, false, ◌&&◌, ◌||◌, Option,
  none, some, length, drop, ltb, ◌==◌, if◌then◌else◌, arith, Bool-cases, inl, inr,
}
use luci_app_komari_agent_c.Prelude.Chars.{Bytes, bytes, starts_with}
use luci_app_komari_agent_c.Prelude.Strtol.{all_digits, decimal_from, is_digit}
use luci_app_komari_agent_c.Config.{
  ends_host, is_http, find_port, read_port, port_at, parse_endpoint_port, bad_port,
}

-- The bytes in front of the first slash or question mark.
abbrev pub authority : Bytes → Bytes
authority [] = []
authority (c ∷ s) = let rest = authority s in if c == b'/' || c == b'?' then [] else c ∷ rest

abbrev pub later_or : Option Bytes → Bool → Bytes → Option Bytes
later_or (some t) here s = some t
later_or none here s = if here then some s else none

-- What stands behind the last `m`.
abbrev pub behind_last : ℕ → Bytes → Option Bytes
behind_last m [] = none
behind_last m (c ∷ s) = later_or (behind_last m s) (c == m) s

abbrev or_all : Option Bytes → Bytes → Bytes
or_all none s = s
or_all (some t) s = t

-- The port of an authority: behind the last colon that follows the last `@`.
abbrev pub port_text : Bytes → Option Bytes
port_text s = behind_last b':' (or_all (behind_last b'@' s) s)

abbrev is_zero_text : Option Bytes → Bool
is_zero_text none = false
is_zero_text (some t) = ltb 0 (length t) && (all_digits t && (decimal_from 0 t == 0))

-- The authority has a port of digits that is zero.
abbrev pub has_port_zero : Bytes → Bool
has_port_zero s = is_zero_text (port_text (authority s))

decimal_grows : (acc : ℕ) (ds : Bytes) → acc ≤ decimal_from acc ds
decimal_grows acc [] = omega arith
decimal_grows acc (d ∷ ds) = omega (arith, decimal_grows (acc * 10 + (d - b'0')) ds)

read_port-zero :
    (acc digits : ℕ) (s : Bytes)
    → acc ≤ 65535
    → bad_port (read_port acc digits s)
      ≡ ltb 0 (digits + length (authority s))
        && (all_digits (authority s) && (decimal_from acc (authority s) == 0))
unfolding read_port
read_port-zero acc digits [] h = ground arith
read_port-zero acc digits (c ∷ s) h = elim (Bool-cases (c == b'/' || c == b'?')) [
  | inl e ↦ rw (e) (ground arith)
  | inr e ↦ rw (e) (elim (Bool-cases (is_digit c)) [
    | inl d ↦ elim (Bool-cases (ltb 65535 (acc * 10 + (c - b'0')))) [
      | inl big ↦ rw (d, big) (ground (arith, decimal_grows (acc * 10 + (c - b'0')) (authority s)))
      | inr small ↦
          rw (d, small) (ground (arith, read_port-zero (acc * 10 + (c - b'0')) (digits + 1) s))
    ]
    | inr d ↦ rw d (ground arith)
  ])
]

abbrev map_authority : Option Bytes → Option Bytes
map_authority none = none
map_authority (some t) = some (authority t)

-- The port of an authority, by what stands behind its last `@` and behind its last colon, if what is
-- in front of it has given `start`.
abbrev choose : Option Bytes → Option Bytes → Option Bytes → Option Bytes
choose (some r) t start = behind_last b':' r
choose none (some t) start = some t
choose none none start = start

abbrev port_from : Option Bytes → Bytes → Option Bytes
port_from start a = choose (behind_last b'@' a) (behind_last b':' a) start

choose-none :
    (u t : Option Bytes) (a : Bytes)
    → behind_last b':' a ≡ t
    → choose u t none ≡ behind_last b':' (or_all u a)
choose-none (some r) t a e = refl
choose-none none (some t) a e = sym e
choose-none none none a e = sym e

choose-next :
    (u t : Option Bytes) (at colon : Bool) (a : Bytes) (start : Option Bytes)
    → behind_last b':' a ≡ t
    → choose u t (if at then none else if colon then some a else start)
      ≡ choose (later_or u at a) (later_or t colon a) start
choose-next (some r) t at colon a start e = refl
choose-next none (some t) true colon a start e = sym e
choose-next none none true colon a start e = sym e
choose-next none (some t) false colon a start e = refl
choose-next none none false true a start e = refl
choose-next none none false false a start e = refl

-- A byte of the authority moves the start.
find_next :
    (start : Option Bytes) (c : ℕ) (s : Bytes)
    → map_authority (if c == b'@' then none else if c == b':' then some s else start)
      ≡ (if c == b'@' then none else if c == b':' then some (authority s) else map_authority start)
find_next start c s = elim (Bool-cases (c == b'@')) [
  | inl e ↦ rw e refl
  | inr e ↦ elim (Bool-cases (c == b':')) [ inl f ↦ rw (e, f) refl | inr f ↦ rw (e, f) refl ]
]

find_port_step :
    (start : Option Bytes) (c : ℕ) (s : Bytes) (ends : Bool) (o : Option Bytes)
    → (ends ≡ false → map_authority o ≡ port_from (map_authority start) (c ∷ authority s))
    → map_authority (if ends then start else o)
      ≡ port_from (map_authority start) (if ends then [] else c ∷ authority s)
find_port_step start c s true o h = refl
find_port_step start c s false o h = h refl

find_port-authority :
    (start : Option Bytes) (s : Bytes)
    → map_authority (find_port start s) ≡ port_from (map_authority start) (authority s)
unfolding find_port
find_port-authority start [] = refl
find_port-authority start (c ∷ s) =
    let next = if c == b'@' then none else if c == b':' then some s else start in
    find_port_step start c s (ends_host c) (find_port next s) (λ e.
      find_port-authority next s
      ∙ ap (λ (o : Option Bytes). port_from o (authority s)) (find_next start c s)
      ∙ choose-next (behind_last b'@' (authority s)) (behind_last b':' (authority s)) (c == b'@')
          (c == b':') (authority s) (map_authority start) refl)

bad_port-is_zero_text : (o : Option Bytes) → bad_port (port_at o) ≡ is_zero_text (map_authority o)
bad_port-is_zero_text none = refl
bad_port-is_zero_text (some t) =
    let a = authority t in
    let count : 0 + length a ≡ length a = omega arith in
    read_port-zero 0 0 t (omega arith)
    ∙ ap (λ (n : ℕ). ltb 0 n && (all_digits a && (decimal_from 0 a == 0))) count

-- What the check of the port refuses behind the scheme.
pub bad_port-has_port_zero : (s : Bytes) → bad_port (port_at (find_port none s)) ≡ has_port_zero s
bad_port-has_port_zero s =
    bad_port-is_zero_text (find_port none s)
    ∙ ap is_zero_text (
        find_port-authority none s
        ∙ choose-none (behind_last b'@' (authority s)) (behind_last b':' (authority s))
            (authority s) refl)

-- What stands behind the scheme.
abbrev pub behind_scheme : Bytes → Bytes
behind_scheme e = if starts_with e (bytes "http://") then drop 7 e else drop 8 e

pub bad_port-behind_scheme :
    (e : Bytes)
    → is_http e ≡ true
    → bad_port (parse_endpoint_port e) ≡ has_port_zero (behind_scheme e)
unfolding parse_endpoint_port is_http
bad_port-behind_scheme e h = elim (Bool-cases (starts_with e (bytes "http://"))) [
  | inl k ↦ rw k (bad_port-has_port_zero (drop 7 e))
  | inr k ↦
      let secure : starts_with e (bytes "https://") ≡ true = ground arith in
      rw (k, secure) (bad_port-has_port_zero (drop 8 e))
]
