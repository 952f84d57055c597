-- ===== src/Sockets/Manager/Frames.antt =====
-- What the clients of a user read of the frames that the manager sends.
use slot_booking.Base.{
  ◌==◌, ℕ, true, String, List, [], ◌∷◌, ◌++◌, Option, none, some, ◌≡◌, refl, ap, ◌∙◌, sym, arith,
}
use mathlib.Core.List.{append-nil, append_assoc}
use slot_booking.Sockets.Messages.{Outbound, type_of, Transport, CipherLaws}
use slot_booking.Base.Dict.{lookup}
use slot_booking.Sockets.Crypto.{decrypt, decrypt-encrypt}
use slot_booking.Sockets.Manager.Presence.{send_each-connections}
use slot_booking.Sockets.Manager.{
  or_empty, Manager, Given, connections_of, send_each, send_one, make_frame, send_personal_raw,
  drop_dead, send_personal_model,
}

-- What a client with a key makes of what its socket was given.
abbrev read_given : (t : Transport) → String → Given → Option String
read_given t key (Given.framed frame) = decrypt t frame.iv frame.data_ key
read_given t key _ = none

-- Each socket was given one thing, in order, and its client reads it as the text.
abbrev pub Reads : (t : Transport) → String → List (ℕ × String) → List (ℕ × Given) → Type 0
Reads t payload [] [] = Unit
Reads t payload [] (given ∷ rest) = ⊥
Reads t payload (socket ∷ sockets) [] = ⊥
Reads t payload ((ws, key) ∷ sockets) ((to, given) ∷ rest) =
    (to ≡ ws) × (read_given t key given ≡ some payload) × Reads t payload sockets rest

module _ {t : Transport} where
  send_each-Reads :
      (laws : CipherLaws t) (kind payload : String) (sockets : List (ℕ × String)) (m : Manager t)
      → ((ws n : ℕ) → t.accepts ws n ≡ true)
      → let (m', dead) = send_each kind payload sockets m in
        (dead ≡ [])
        × ((given : List (ℕ × Given)) × (m'.outbox ≡ m.outbox ++ given)
            × Reads t payload sockets given)
  unfolding send_each send_one
  send_each-Reads laws kind payload [] m open_ = (refl, ([], sym (append-nil m.outbox), tt))
  send_each-Reads laws kind payload ((ws, key) ∷ sockets) m open_ =
      let m1 = (send_one kind payload ws key m).0 in
      let (none_dead, (given, sent, reads)) = send_each-Reads laws kind payload sockets m1 open_ in
      let frame = Given.framed (make_frame kind payload key m) in
      let took : m1.outbox ≡ m.outbox ++ (ws, frame) ∷ [] = ground (arith, open_ ws m.drawn) in
      (
        ground (arith, open_ ws m.drawn),
        (
          (ws, frame) ∷ given,
          sent ∙ ap (λ o. o ++ given) took ∙ append_assoc m.outbox ((ws, frame) ∷ []) given,
          (refl, decrypt-encrypt t laws m.drawn payload key, reads),
        ),
      )

  -- A message to a user whose sockets all take it reaches each of them once, in order: under the key
  -- that a connection was registered with, its client reads the JSON of the message. Nothing else is
  -- sent, and no connection is dropped.
  pub send_personal_model-Reads :
      (laws : CipherLaws t) (user : ℕ) (message : Outbound) (m : Manager t)
      → ((ws n : ℕ) → t.accepts ws n ≡ true)
      → let m' = send_personal_model user message m in
        (connections_of user m' ≡ connections_of user m)
        × ((given : List (ℕ × Given)) × (m'.outbox ≡ m.outbox ++ given)
            × Reads t (t.model_dump_json message) (connections_of user m) given)
  unfolding send_personal_model send_personal_raw drop_dead
  send_personal_model-Reads laws user message m open_ =
      let sockets = connections_of user m in
      let kind = type_of message in
      let payload = t.model_dump_json message in
      let (none_dead, given) = send_each-Reads laws kind payload sockets m open_ in
      let sent = send_each kind payload sockets m in
      let whole : drop_dead user sent.1 sent.0 ≡ sent.0 =
        ap (λ dead. drop_dead user dead sent.0) none_dead in
      (
        ap (connections_of user) whole
            ∙ ap (λ c. or_empty (lookup ◌==◌ user c))
                (send_each-connections kind payload sockets m),
        (given.0, ap (λ x. x.outbox) whole ∙ given.1, given.2),
      )
