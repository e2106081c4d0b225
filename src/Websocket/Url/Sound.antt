-- ===== src/Websocket/Url/Sound.antt =====
-- What every URL that `parse_url` accepts gives.
use luci_app_komari_agent_c.Prelude.{
  ℕ, suc, ◌<◌, ◌≤◌, ◌≡◌, ◌⊎◌, refl, [], ◌∷◌, true, Option, none, some, length, take, drop, arith,
  Bool-cases, Option-cases, inl, inr,
}
use luci_app_komari_agent_c.Prelude.Chain.{◌>>=◌}
use luci_app_komari_agent_c.Prelude.Chars.{Bytes, bytes, starts_with}
use luci_app_komari_agent_c.Prelude.Strtol.{Number, find_byte, strtol}
use luci_app_komari_agent_c.Websocket.Url.{
  Url, host_max, path_max, printed, port_of, parse_port, has_port, path_from, host_to, with_port,
  without_port, parse_authority, parse_url,
}

-- The parts fit the caller's buffers, the port can be one of TCP and the path begins with a slash.
pub record IsSound (u : Url) : Type 0 where
  pub host_fits : length (Url.host u) < host_max
  pub path_fits : length (Url.path u) < path_max
  pub port_low : 1 ≤ Url.port u
  pub port_high : Url.port u ≤ 65535
  pub path_slash : starts_with (Url.path u) (bytes "/") ≡ true

path_from_slash :
    (url : Bytes) → starts_with (path_from (find_byte b'/' url) url) (bytes "/") ≡ true
unfolding find_byte
path_from_slash [] = refl
path_from_slash (c ∷ url) = elim (Option-cases (find_byte b'/' url)) [
  | inl e ↦ ground (arith, path_from_slash url)
  | inr (k, e) ↦ ground (arith, path_from_slash url)
]

port_of_range : (n : Number) (p : ℕ) → port_of n ≡ some p → (1 ≤ p) × (p ≤ 65535)
port_of_range n p e = ground arith

parse_port_range : (s : Bytes) (p : ℕ) → parse_port s ≡ some p → (1 ≤ p) × (p ≤ 65535)
unfolding parse_port
parse_port_range s p e = elim (Option-cases (strtol s)) [
  | inl n ↦ ground arith
  | inr (n, k) ↦ ground (arith, port_of_range n p)
]

printed_sound : (size : ℕ) (s t : Bytes) → printed size s ≡ some t → (t ≡ s) × (length t < size)
printed_sound size s t e = ground arith

assembled :
    (scheme : Bytes) (ho : Option Bytes) (po : Option ℕ) (pa : Option Bytes) (u : Url)
    → (ho >>= λ host. po >>= λ port.
        pa >>= λ path. some (record { scheme = scheme; host = host; port = port; path = path }))
      ≡ some u
    → (ho ≡ some (Url.host u))
      × (po ≡ some (Url.port u))
      × (pa ≡ some (Url.path u))
      × (Url.scheme u ≡ scheme)
assembled scheme none po pa u e = ground arith
assembled scheme (some h) none pa u e = ground arith
assembled scheme (some h) (some p) none u e = ground arith
assembled scheme (some h) (some p) (some t) u e = grind arith

IsSound-parts :
    (u : Url) (url s : Bytes)
    → printed host_max s ≡ some (Url.host u)
    → (1 ≤ Url.port u) × (Url.port u ≤ 65535)
    → printed path_max (path_from (find_byte b'/' url) url) ≡ some (Url.path u)
    → IsSound u
IsSound-parts u url s h (low, high) p =
    let (e, fits) = printed_sound path_max (path_from (find_byte b'/' url) url) (Url.path u) p in
    record {
      host_fits = (printed_sound host_max s (Url.host u) h).1;
      path_fits = fits;
      port_low = low;
      port_high = high;
      path_slash = rw (e) (path_from_slash url);
    }

with_port-IsSound :
    (scheme url : Bytes) (colon : ℕ) (u : Url)
    → with_port scheme (find_byte b'/' url) colon url ≡ some u
    → IsSound u × (Url.scheme u ≡ scheme)
unfolding with_port
with_port-IsSound scheme url colon u e =
    let (h, p, t, s) =
      assembled scheme (printed host_max (take colon url)) (parse_port (drop (suc colon) url))
        (printed path_max (path_from (find_byte b'/' url) url)) u e in
    (
      IsSound-parts u url (take colon url) h
          (parse_port_range (drop (suc colon) url) (Url.port u) p) t,
      s,
    )

without_port-IsSound :
    (scheme url : Bytes) (port : ℕ) (u : Url)
    → (1 ≤ port) × (port ≤ 65535)
    → without_port scheme port (find_byte b'/' url) url ≡ some u
    → IsSound u × (Url.scheme u ≡ scheme)
unfolding without_port
without_port-IsSound scheme url port u r e =
    let (h, p, t, s) =
      assembled scheme (printed host_max (host_to (find_byte b'/' url) url)) (some port)
        (printed path_max (path_from (find_byte b'/' url) url)) u e in
    (IsSound-parts u url (host_to (find_byte b'/' url) url) h (ground arith) t, s)

authority-IsSound :
    (scheme url : Bytes) (port : ℕ) (u : Url)
    → (1 ≤ port) × (port ≤ 65535)
    → parse_authority scheme port url ≡ some u
    → IsSound u × (Url.scheme u ≡ scheme)
unfolding parse_authority
authority-IsSound scheme url port u r e =
    elim (Option-cases (has_port (find_byte b':' url) (find_byte b'/' url))) [
      | inl n ↦ without_port-IsSound scheme url port u r (ground arith)
      | inr (colon, n) ↦ with_port-IsSound scheme url colon u (ground arith)
    ]

-- If `parse_url` accepts a string, of whatever form, then the scheme is "ws" or "wss", the host has
-- at most 255 bytes, the path has at most 511 and begins with a slash, and the port is from 1 to
-- 65535.
pub parse_url-IsSound :
    (url : Bytes) (u : Url)
    → parse_url url ≡ some u
    → IsSound u × ((Url.scheme u ≡ bytes "ws") ⊎ (Url.scheme u ≡ bytes "wss"))
unfolding parse_url
parse_url-IsSound url u e = elim (Bool-cases (starts_with url (bytes "ws://"))) [
  | inl w ↦
      let (s, k) =
        authority-IsSound (bytes "ws") (drop 5 url) 80 u (omega arith, omega arith)
          (ground arith) in
      (s, inl k)
  | inr w ↦
      let (s, k) =
        authority-IsSound (bytes "wss") (drop 6 url) 443 u (omega arith, omega arith)
          (ground arith) in
      (s, inr k)
]
