-- ===== src/Config/Endpoint.antt =====
-- The port of an endpoint.
use luci_app_komari_agent_c.Prelude.{
  ℕ, ◌+◌, ◌-◌, ◌*◌, ◌<◌, ◌≤◌, ◌≡◌, refl, ◌∙◌, [], ◌∷◌, ◌++◌, Bool, true, false, not, ◌&&◌, ◌||◌,
  Option, none, some, length, ltb, ◌==◌, if◌then◌else◌, arith, Bool-cases, inl, inr,
}
use luci_app_komari_agent_c.Prelude.Chars.{Bytes, bytes}
use luci_app_komari_agent_c.Prelude.Strtol.{all_digits, decimal, decimal_from}
use luci_app_komari_agent_c.Config.{
  contains_crlf, is_http, ends_host, find_port, read_port, strip_scheme, parse_endpoint_port,
  bad_port, check_endpoint,
}

-- A host: nothing that the scan takes notice of.
abbrev pub is_host : Bytes → Bool
is_host [] = true
is_host (c ∷ s) = not (ends_host c || c == b'@' || c == b':') && is_host s

abbrev pub is_rest : Bytes → Bool
is_rest [] = true
is_rest (c ∷ s) = ends_host c

abbrev pub http : Bool → Bytes
http secure = if secure then bytes "https://" else bytes "http://"

abbrev pub endpoint_of : Bool → Bytes → Bytes → Bytes → Bytes
endpoint_of secure host port rest = http secure ++ (host ++ (b':' ∷ (port ++ rest)))

find_port_host :
    (start : Option Bytes) (h s : Bytes)
    → is_host h ≡ true
    → find_port start (h ++ s) ≡ find_port start s
unfolding find_port
find_port_host start [] s h = refl
find_port_host start (c ∷ h) s k = ground (arith, find_port_host start h s)

find_port_digits :
    (start : Option Bytes) (ds rest : Bytes)
    → all_digits ds ≡ true
    → is_rest rest ≡ true
    → find_port start (ds ++ rest) ≡ start
unfolding find_port
find_port_digits start [] [] h k = refl
find_port_digits start [] (c ∷ rest) h k = ground arith
find_port_digits start (d ∷ ds) rest h k = ground (arith, find_port_digits start ds rest)

find_port_colon :
    (h ds rest : Bytes)
    → is_host h ≡ true
    → all_digits ds ≡ true
    → is_rest rest ≡ true
    → find_port none (h ++ (b':' ∷ (ds ++ rest))) ≡ some (ds ++ rest)
unfolding find_port
find_port_colon h ds rest a b c =
    find_port_host none h (b':' ∷ (ds ++ rest)) a ∙ find_port_digits (some (ds ++ rest)) ds rest b c

decimal_grows : (acc : ℕ) (ds : Bytes) → acc ≤ decimal_from acc ds
decimal_grows acc [] = omega arith
decimal_grows acc (d ∷ ds) = omega (arith, decimal_grows (acc * 10 + (d - b'0')) ds)

abbrev pub in_range : ℕ → Option ℕ
in_range v = if ltb 65535 v then none else some v

read_port_digits :
    (acc digits : ℕ) (ds rest : Bytes)
    → acc ≤ 65535
    → all_digits ds ≡ true
    → is_rest rest ≡ true
    → 0 < digits + length ds
    → read_port acc digits (ds ++ rest) ≡ in_range (decimal_from acc ds)
unfolding read_port
read_port_digits acc digits [] [] b h k p = ground arith
read_port_digits acc digits [] (c ∷ rest) b h k p = ground arith
read_port_digits acc digits (d ∷ ds) rest b h k p =
    elim (Bool-cases (ltb 65535 (acc * 10 + (d - b'0')))) [
      | inl big ↦ ground (arith, decimal_grows (acc * 10 + (d - b'0')) ds)
      | inr small ↦ ground (arith, read_port_digits (acc * 10 + (d - b'0')) (digits + 1) ds rest)
    ]

strip_http : (secure : Bool) (s : Bytes) → strip_scheme (http secure ++ s) ≡ some s
strip_http true s = refl
strip_http false s = refl

-- For an endpoint `http://host:port` or `https://host:port`, alone or with a path or a query behind it,
-- where the port is a row of digits, `parse_endpoint_port` gives its value, or -1 if it is above 65535.
pub parse_endpoint_port_digits :
    (secure : Bool) (h rest : Bytes) (d : ℕ) (ds : Bytes)
    → is_host h ≡ true
    → all_digits (d ∷ ds) ≡ true
    → is_rest rest ≡ true
    → parse_endpoint_port (endpoint_of secure h (d ∷ ds) rest) ≡ in_range (decimal (d ∷ ds))
unfolding parse_endpoint_port
parse_endpoint_port_digits secure h rest d ds a b c =
    rw
      (
        parse_endpoint_port,
        strip_http secure (h ++ (b':' ∷ ((d ∷ ds) ++ rest))),
        find_port_colon h (d ∷ ds) rest a b c,
      )
      (read_port_digits 0 0 (d ∷ ds) rest (omega arith) b c (omega arith))

http_kept : (secure : Bool) (s : Bytes) → is_http (http secure ++ s) ≡ true
unfolding is_http
http_kept true s = refl
http_kept false s = refl

zero_only : (v : ℕ) → bad_port (in_range v) ≡ (v == 0)
zero_only v = ground arith

-- As the code stands, the check of the port in `config_validate` clears an endpoint of that form,
-- without CR and LF, exactly if its port is 0: a port above 65535 is let through.
pub check_endpoint_port :
    (secure : Bool) (h rest : Bytes) (d : ℕ) (ds : Bytes)
    → is_host h ≡ true
    → all_digits (d ∷ ds) ≡ true
    → is_rest rest ≡ true
    → contains_crlf (endpoint_of secure h (d ∷ ds) rest) ≡ false
    → check_endpoint (endpoint_of secure h (d ∷ ds) rest)
      ≡ (if decimal (d ∷ ds) == 0 then [] else endpoint_of secure h (d ∷ ds) rest)
unfolding check_endpoint
check_endpoint_port secure h rest d ds a b c e =
    rw
      (
        check_endpoint,
        e,
        http_kept secure (h ++ (b':' ∷ ((d ∷ ds) ++ rest))),
        parse_endpoint_port_digits secure h rest d ds a b c,
        zero_only (decimal (d ∷ ds)),
      )
      refl
