-- ===== src/Netstatic/Interfaces.antt =====
-- Tracking an interface and giving it up.
use luci_app_komari_agent_c.Prelude.{
  ◌<◌, ◌≡◌, refl, [], ◌∷◌, ◌++◌, Bool, true, false, length, leb, if◌then◌else◌, arith, take_all,
  Bool-cases, inl, inr,
}
use luci_app_komari_agent_c.Prelude.Chars.{Bytes, str_eq}
use luci_app_komari_agent_c.Netstatic.{
  InterfaceStats, Netstatic, max_interfaces, max_name_len, new_interface, is_tracked, add_interface,
  remove_interface,
}

str_eq_refl : (s : Bytes) → str_eq s s ≡ true
str_eq_refl [] = refl
str_eq_refl (c ∷ s) = ground (arith, str_eq_refl s)

new_name :
    (name : Bytes)
    → length name < max_name_len
    → str_eq (InterfaceStats.name (new_interface name)) name ≡ true
new_name name h = rw (take_all 31 name (omega arith)) (str_eq_refl name)

append_tracked :
    (name : Bytes) (ns : Netstatic) (is : InterfaceStats)
    → str_eq (InterfaceStats.name is) name ≡ true
    → is_tracked name (ns ++ (is ∷ [])) ≡ true
append_tracked name [] is h = ground arith
append_tracked name (x ∷ ns) is h = ground (arith, append_tracked name ns is h)

remove_last :
    (name : Bytes) (ns : Netstatic) (is : InterfaceStats)
    → is_tracked name ns ≡ false
    → str_eq (InterfaceStats.name is) name ≡ true
    → remove_interface name (ns ++ (is ∷ [])) ≡ (ns, true)
unfolding remove_interface
remove_last name [] is h k = ground arith
remove_last name (x ∷ ns) is h k = ground (arith, remove_last name ns is)

-- After `netstatic_add_interface` has succeeded with a name of at most 31 bytes, the name is tracked.
-- A call that fails changes nothing.
pub add_interface_tracked :
    (memory : Bool) (name : Bytes) (ns : Netstatic)
    → length name < max_name_len
    → let (after, ok) = add_interface memory name ns in
      if ok then is_tracked name after ≡ true else after ≡ ns
unfolding add_interface
add_interface_tracked memory name ns h = elim (Bool-cases (leb max_interfaces (length ns))) [
  | inl e ↦ rw (add_interface, e) refl
  | inr e ↦ elim (Bool-cases (is_tracked name ns)) [
    | inl t ↦ rw (add_interface, e, t) t
    | inr t ↦ elim (Bool-cases memory) [
      | inl m ↦
          rw (add_interface, e, t, m)
            (append_tracked name ns (new_interface name) (new_name name h))
      | inr m ↦ rw (add_interface, e, t, m) refl
    ]
  ]
]

-- Removing an interface that has just been added restores the statistics, if there was room for it,
-- memory could be had, the name has at most 31 bytes and was not tracked.
pub remove_interface-add_interface :
    (name : Bytes) (ns : Netstatic)
    → length name < max_name_len
    → length ns < max_interfaces
    → is_tracked name ns ≡ false
    → remove_interface name ((add_interface true name ns).0) ≡ (ns, true)
unfolding add_interface
remove_interface-add_interface name ns h l t =
    let room : leb max_interfaces (length ns) ≡ false = ground arith in
    rw (add_interface, room, t) (remove_last name ns (new_interface name) t (new_name name h))
