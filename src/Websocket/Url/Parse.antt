-- ===== src/Websocket/Url/Parse.antt =====
-- What `parse_url` makes of the URLs that it is meant for.
use luci_app_komari_agent_c.Prelude.{
  ℕ, ◌+◌, ◌<◌, ◌≡◌, refl, ap, sym, ◌∙◌, suc, [], ◌∷◌, ◌++◌, Bool, true, false, ◌&&◌, Option, none,
  some, length, take, drop, leb, ltb, ◌==◌, if◌then◌else◌, arith, take-append_left,
  drop-append_left, take_all, drop_all, length-append, Option-cases, inl, inr,
}
use luci_app_komari_agent_c.Prelude.Chars.{Bytes, bytes}
use luci_app_komari_agent_c.Prelude.Strtol.{
  number, find_byte, is_digit, all_digits, decimal, absent, starts_digit, strtol_digits,
  find_byte_first,
}
use luci_app_komari_agent_c.Websocket.Url.{
  host_max, path_max, printed, ends_port, port_of, parse_port, has_port, path_from, host_to,
  with_port, without_port, parse_authority, parse_url,
}

-- A host name: neither a colon nor a slash, and room for its NUL.
abbrev pub is_host : Bytes → Bool
is_host h = absent b':' h && absent b'/' h && ltb (length h) host_max

-- What follows host and port: nothing, or a slash and more.
abbrev pub is_tail : Bytes → Bool
is_tail [] = true
is_tail (c ∷ s) = (c == b'/') && ltb (length s + 1) path_max

abbrev pub tail_path : Bytes → Bytes
tail_path [] = bytes "/"
tail_path (c ∷ s) = c ∷ s

abbrev pub scheme_text : Bool → Bytes
scheme_text secure = if secure then bytes "wss" else bytes "ws"

abbrev pub default_port : Bool → ℕ
default_port secure = if secure then 443 else 80

abbrev pub print_url : Bool → Bytes → Bytes
print_url secure rest = scheme_text secure ++ bytes "://" ++ rest

parse_url-print :
    (secure : Bool) (rest : Bytes)
    → parse_url (print_url secure rest)
      ≡ parse_authority (scheme_text secure) (default_port secure) rest
unfolding parse_url
parse_url-print true rest = refl
parse_url-print false rest = refl

absent-append :
    (c : ℕ) (s t : Bytes) → absent c s ≡ true → absent c t ≡ true → absent c (s ++ t) ≡ true
absent-append c [] t h k = k
absent-append c (d ∷ s) t h k = ground (arith, absent-append c s t)

digits-absent : (c : ℕ) (s : Bytes) → is_digit c ≡ false → all_digits s ≡ true → absent c s ≡ true
digits-absent c [] h k = refl
digits-absent c (d ∷ s) h k = ground (arith, digits-absent c s)

take-length : (h s : Bytes) → take (length h) (h ++ s) ≡ h
take-length h s =
    take-append_left (length h) h s (omega arith) ∙ take_all (length h) h (omega arith)

drop-length : (h s : Bytes) → drop (length h) (h ++ s) ≡ s
drop-length h s =
    drop-append_left (length h) h s (omega arith)
    ∙ ap (λ t. t ++ s) (drop_all (length h) h (omega arith))

drop-length-suc : (h s : Bytes) (c : ℕ) → drop (suc (length h)) (h ++ (c ∷ s)) ≡ s
drop-length-suc [] s c = refl
drop-length-suc (d ∷ h) s c = drop-length-suc h s c

-- The offset of the first slash, if what stands before the tail has none.
abbrev tail_slash : ℕ → Bytes → Option ℕ
tail_slash n [] = none
tail_slash n (c ∷ s) = some n

find_slash :
    (h tail : Bytes)
    → absent b'/' h ≡ true
    → is_tail tail ≡ true
    → find_byte b'/' (h ++ tail) ≡ tail_slash (length h) tail
unfolding find_byte
find_slash [] [] a t = refl
find_slash (d ∷ h) [] a t = ground (arith, find_slash h [])
find_slash [] (c ∷ s) a t = ground arith
find_slash (d ∷ h) (c ∷ s) a t = ground (arith, find_slash h (c ∷ s))

path-tail : (h tail : Bytes) → path_from (tail_slash (length h) tail) (h ++ tail) ≡ tail_path tail
path-tail h [] = refl
path-tail h (c ∷ s) = drop-length h (c ∷ s)

append_nil : (h : Bytes) → h ++ [] ≡ h
append_nil [] = refl
append_nil (c ∷ h) = ap (λ t. c ∷ t) (append_nil h)

host-tail : (h tail : Bytes) → host_to (tail_slash (length h) tail) (h ++ tail) ≡ h
host-tail h [] = append_nil h
host-tail h (c ∷ s) = take-length h (c ∷ s)

tail_fits : (tail : Bytes) → is_tail tail ≡ true → length (tail_path tail) < path_max
tail_fits [] h = omega arith
tail_fits (c ∷ s) h = ground arith

pub printed_fits : (size : ℕ) (s : Bytes) → length s < size → printed size s ≡ some s
printed_fits size s h = ground arith

append_assoc : (a b c : Bytes) → (a ++ b) ++ c ≡ a ++ (b ++ c)
append_assoc [] b c = refl
append_assoc (x ∷ a) b c = ap (λ t. x ∷ t) (append_assoc a b c)

-- A port: digits.
abbrev pub is_port : Bytes → Bool
is_port [] = false
is_port (d ∷ ds) = all_digits (d ∷ ds) && leb 1 (decimal (d ∷ ds)) && leb (decimal (d ∷ ds)) 65535

tail_after_port :
    (tail : Bytes) → is_tail tail ≡ true → (starts_digit tail ≡ false) × (ends_port tail ≡ true)
tail_after_port [] t = (refl, refl)
tail_after_port (c ∷ s) t = ground arith

port_of_decimal :
    (v : ℕ) (tail : Bytes)
    → leb 1 v ≡ true
    → leb v 65535 ≡ true
    → ends_port tail ≡ true
    → port_of (number false v tail) ≡ some v
port_of_decimal v tail a b e = ground arith

parse_port_digits :
    (p tail : Bytes)
    → is_port p ≡ true
    → is_tail tail ≡ true
    → parse_port (p ++ tail) ≡ some (decimal p)
unfolding parse_port
parse_port_digits [] tail h t = ground arith
parse_port_digits (d ∷ ds) tail h t =
    rw (strtol_digits d ds tail (ground arith) ((tail_after_port tail t).0)) (
      port_of_decimal (decimal (d ∷ ds)) tail (ground arith) (ground arith)
        ((tail_after_port tail t).1))

with_port_parts :
    (scheme h p tail url : Bytes) (slash : Option ℕ)
    → take (length h) url ≡ h
    → drop (suc (length h)) url ≡ p ++ tail
    → path_from slash url ≡ tail_path tail
    → length h < host_max
    → is_port p ≡ true
    → is_tail tail ≡ true
    → with_port scheme slash (length h) url
      ≡ some (record { scheme = scheme; host = h; port = decimal p; path = tail_path tail })
unfolding with_port
with_port_parts scheme h p tail url slash a b c l q t =
    rw
      (
        a,
        b,
        c,
        printed_fits host_max h l,
        parse_port_digits p tail q t,
        printed_fits path_max (tail_path tail) (tail_fits tail t),
      )
      refl

port_found :
    (h p : Bytes) (tail : Bytes)
    → has_port (some (length h)) (tail_slash (length (h ++ (b':' ∷ p))) tail) ≡ some (length h)
port_found h p [] = refl
port_found h p (c ∷ s) = ground (arith, length-append h (b':' ∷ p))

port-absent : (p : Bytes) → is_port p ≡ true → absent b'/' (b':' ∷ p) ≡ true
port-absent [] q = ground arith
port-absent (d ∷ ds) q = ground (arith, digits-absent b'/' (d ∷ ds))

-- A URL `ws://host:port` or `wss://host:port`, alone or with a path, is parsed into its parts: the
-- host has at most 255 bytes, none of them a colon or a slash, the port is a row of decimal digits
-- with a value from 1 to 65535, and the path has at most 511 bytes and is "/" if it is left out.
pub parse_url_with_port :
    (secure : Bool) (h p tail : Bytes)
    → is_host h ≡ true
    → is_port p ≡ true
    → is_tail tail ≡ true
    → parse_url (print_url secure (h ++ (b':' ∷ (p ++ tail))))
      ≡ some (record {
        scheme = scheme_text secure;
        host = h;
        port = decimal p;
        path = tail_path tail;
      })
unfolding parse_authority
parse_url_with_port secure h p tail a q t =
    let front : h ++ (b':' ∷ (p ++ tail)) ≡ (h ++ (b':' ∷ p)) ++ tail =
      sym (append_assoc h (b':' ∷ p) tail) in
    let slash : find_byte b'/' (h ++ (b':' ∷ (p ++ tail)))
        ≡ tail_slash (length (h ++ (b':' ∷ p))) tail =
      ap (λ u. find_byte b'/' u) front
      ∙ find_slash (h ++ (b':' ∷ p)) tail
          (absent-append b'/' h (b':' ∷ p) (ground arith) (port-absent p q)) t in
    let path =
      ap (λ u. path_from (tail_slash (length (h ++ (b':' ∷ p))) tail) u) front
      ∙ path-tail (h ++ (b':' ∷ p)) tail in
    rw
      (
        parse_url-print secure (h ++ (b':' ∷ (p ++ tail))),
        slash,
        find_byte_first b':' h (p ++ tail) (ground arith),
        port_found h p tail,
      )
      (with_port_parts (scheme_text secure) h p tail (h ++ (b':' ∷ (p ++ tail)))
        (tail_slash (length (h ++ (b':' ∷ p))) tail) (take-length h (b':' ∷ (p ++ tail)))
        (drop-length-suc h (p ++ tail) b':') path (ground arith) q t)

no_port :
    (h tail : Bytes)
    → absent b':' h ≡ true
    → is_tail tail ≡ true
    → has_port (find_byte b':' (h ++ tail)) (tail_slash (length h) tail) ≡ none
unfolding find_byte
no_port [] [] a t = refl
no_port [] (c ∷ s) a t = elim (Option-cases (find_byte b':' s)) [
  | inl e ↦ ground arith
  | inr (k, e) ↦ ground arith
]
no_port (d ∷ h) [] a t = ground (arith, no_port h [])
no_port (d ∷ h) (c ∷ s) a t = elim (Option-cases (find_byte b':' (h ++ (c ∷ s)))) [
  | inl e ↦ ground arith
  | inr (k, e) ↦ ground (arith, no_port h (c ∷ s))
]

without_port_parts :
    (scheme h tail : Bytes) (port : ℕ)
    → length h < host_max
    → is_tail tail ≡ true
    → without_port scheme port (tail_slash (length h) tail) (h ++ tail)
      ≡ some (record { scheme = scheme; host = h; port = port; path = tail_path tail })
unfolding without_port
without_port_parts scheme h tail port l t =
    rw
      (
        host-tail h tail,
        path-tail h tail,
        printed_fits host_max h l,
        printed_fits path_max (tail_path tail) (tail_fits tail t),
      )
      refl

-- Without a port the same holds with port 80 for `ws` and 443 for `wss`.
pub parse_url_without_port :
    (secure : Bool) (h tail : Bytes)
    → is_host h ≡ true
    → is_tail tail ≡ true
    → parse_url (print_url secure (h ++ tail))
      ≡ some (record {
        scheme = scheme_text secure;
        host = h;
        port = default_port secure;
        path = tail_path tail;
      })
unfolding parse_authority
parse_url_without_port secure h tail a t =
    rw
      (
        parse_url-print secure (h ++ tail),
        parse_authority,
        find_slash h tail (ground arith) t,
        no_port h tail (ground arith) t,
      )
      (without_port_parts (scheme_text secure) h tail (default_port secure) (ground arith) t)
