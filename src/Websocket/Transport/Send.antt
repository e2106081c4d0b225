-- ===== src/Websocket/Transport/Send.antt =====
-- `send_full` on a socket that takes a part of the data at a time.
use luci_app_komari_agent_c.Prelude.{
  [], ◌∷◌, ◌++◌, List, ◌≡◌, refl, Bool, true, sym, ap, ◌∙◌, take, drop, take-append-drop,
}
use luci_app_komari_agent_c.Prelude.Chars.{Bytes}
use luci_app_komari_agent_c.Websocket.Transport.{Sent, accepted, again, broken, send_full}
use mathlib.Core.List.{append_assoc}

-- What went out is a prefix of the data, and all of it exactly when the call succeeds: on every
-- sequence of partial writes and interruptions no byte is lost, repeated or reordered.
abbrev pub IsSentPrefix : Bytes → Bool × Bytes → Type 0
IsSentPrefix data' r = (rest : Bytes) × (data' ≡ r.1 ++ rest) × (r.0 ≡ true → rest ≡ [])

pub send_full_prefix : (d : Bytes) (answers : List Sent) → IsSentPrefix d (send_full d answers)
unfolding send_full
send_full_prefix [] answers = ([], refl, λ _. refl)
send_full_prefix (b ∷ bs) [] = (b ∷ bs, refl, λ h. cc)
send_full_prefix (b ∷ bs) (again ∷ answers) = send_full_prefix (b ∷ bs) answers
send_full_prefix (b ∷ bs) (broken ∷ answers) = (b ∷ bs, refl, λ h. cc)
send_full_prefix (b ∷ bs) (accepted k ∷ answers) =
    let (rest, e, full) = send_full_prefix (drop k bs) answers in
    (
      rest,
      ap (λ (t : Bytes). b ∷ t)
          (sym (take-append-drop k bs)
            ∙ ap (λ (t : Bytes). take k bs ++ t) e
            ∙ sym (append_assoc (take k bs) _ rest)),
      full,
    )
