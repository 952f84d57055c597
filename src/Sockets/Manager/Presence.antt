-- ===== src/Sockets/Manager/Presence.antt =====
-- What is left of a user who loses one of several connections.
use slot_booking.Base.{
  ℕ, true, false, String, List, [], ◌∷◌, Option, none, any, ◌==◌, ==_refl, ==_iff, ◌≡◌, refl, ap,
  ◌∙◌, if◌then◌else◌, inl, inr, Bool-cases, arith,
}
use slot_booking.Base.Text.{str_eq}
use slot_booking.Base.Dict.{
  lookup-discard_self, lookup, assign, discard, IsEquality, lookup-assign_self, lookup-assign_ne,
}
use slot_booking.Sockets.Messages.{Outbound, Transport}
use slot_booking.Sockets.Manager.{
  Manager, forget_socket, is_user, has, remove, is_empty, or_empty, connections_of, members_of_room,
  with_members, with_connections, send_one, send_each, drop_dead, send_personal_raw,
  send_personal_model, send_all, broadcast_room, drop_from, drop_from_each, is_online,
}
use slot_booking.Sockets.Manager.Rooms.{has-remove, text-IsEquality}

pub number-IsEquality : IsEquality ◌==◌
number-IsEquality = record { reflexive = ==_refl; equal = λ j k. (==_iff j k).0 }

any-assign :
    {A : Type 0} (u : ℕ) (sockets : A) (items : List (ℕ × A))
    → any (λ item. item.0 == u) (assign ◌==◌ u sockets items) ≡ true
any-assign u sockets [] = ground (arith, ==_refl u)
any-assign u sockets ((v, old) ∷ items) = ground (arith, any-assign u sockets items)

module _ {t : Transport} where
  pub send_each-connections :
      (kind payload : String) (sockets : List (ℕ × String)) (m : Manager t)
      → (send_each kind payload sockets m).0.user_connections ≡ m.user_connections
  unfolding send_each send_one
  send_each-connections kind payload [] m = refl
  send_each-connections kind payload ((ws, key) ∷ sockets) m =
      send_each-connections kind payload sockets (send_one kind payload ws key m).0 ∙ ground arith

  drop_dead-other :
      (v u : ℕ) (dead : List ℕ) (m : Manager t)
      → (v == u) ≡ false
      → connections_of u (drop_dead v dead m) ≡ connections_of u m
  unfolding drop_dead
  drop_dead-other v u [] m ne = refl
  drop_dead-other v u (ws ∷ dead) m ne =
      let left = discard ◌==◌ ws (connections_of v m) in
      drop_dead-other v u dead (with_connections v left m) ne
      ∙ ap or_empty (lookup-assign_ne ◌==◌ number-IsEquality u v left m.user_connections ne)

  send_other :
      (v u : ℕ) (message : Outbound) (m : Manager t)
      → (v == u) ≡ false
      → connections_of u (send_personal_model v message m) ≡ connections_of u m
  unfolding send_personal_model send_personal_raw
  send_other v u message m ne =
      let sent = send_each _ _ (connections_of v m) m in
      drop_dead-other v u sent.1 sent.0 ne
      ∙ ap (λ c. or_empty (lookup ◌==◌ u c)) (send_each-connections _ _ (connections_of v m) m)

  -- Sending to others leaves a user's connections.
  send_all-other :
      (users : List ℕ) (u : ℕ) (message : Outbound) (excluded : Option ℕ) (m : Manager t)
      → has u users ≡ false
      → connections_of u (send_all users message excluded m) ≡ connections_of u m
  unfolding send_all
  send_all-other [] u message excluded m out = refl
  send_all-other (v ∷ users) u message excluded m out =
      send_all-other users u message excluded
        (if is_user excluded v then m else send_personal_model v message m) (ground arith)
      ∙ elim (Bool-cases (is_user excluded v)) [
        | inl e ↦ ground arith
        | inr e ↦ ground (arith, send_other v u message m)
      ]

  pub members_left :
      (u : ℕ) (room : String) (m : Manager t)
      → let left = remove u (members_of_room room m) in
        has u (members_of_room room (with_members room left m)) ≡ false
  members_left u room m =
      let left = remove u (members_of_room room m) in
      ap (λ r. has u (or_empty r)) (lookup-assign_self str_eq text-IsEquality room left m.rooms)
      ∙ has-remove u u (members_of_room room m)
      ∙ ground (arith, ==_refl u)

  drop_from-connections :
      (u : ℕ) (room : String) (m : Manager t)
      → connections_of u (drop_from u room m) ≡ connections_of u m
  unfolding drop_from broadcast_room
  drop_from-connections u room m =
      let left = remove u (members_of_room room m) in
      let m' = with_members room left m in
      let there : members_of_room room m' ≡ left =
        ap or_empty (lookup-assign_self str_eq text-IsEquality room left m.rooms) in
      let out : has u left ≡ false =
        has-remove u u (members_of_room room m) ∙ ground (arith, ==_refl u) in
      elim (Bool-cases (has u (members_of_room room m))) [
        | inr outside ↦ ground arith
        | inl inside ↦ elim (Bool-cases (is_empty left)) [
          | inl alone ↦ ground arith
          | inr others ↦ ground (
            arith,
            send_all-other (members_of_room room m') u (Outbound.presence room u false) none m'
                (ap (has u) there ∙ out),
          )
        ]
      ]

  pub drop_from_each-connections :
      (u : ℕ) (names : List String) (m : Manager t)
      → connections_of u (drop_from_each u names m) ≡ connections_of u m
  unfolding drop_from_each
  drop_from_each-connections u [] m = refl
  drop_from_each-connections u (room ∷ names) m =
      drop_from_each-connections u names (drop_from u room m) ∙ drop_from-connections u room m

  pub forget_socket-connections :
      (ws u : ℕ) (m : Manager t)
      → connections_of u (forget_socket ws u m) ≡ discard ◌==◌ ws (connections_of u m)
  forget_socket-connections ws u m = after (discard ◌==◌ ws (connections_of u m)) refl
    where
      after :
          (left : List (ℕ × String))
          → discard ◌==◌ ws (connections_of u m) ≡ left
          → connections_of u (forget_socket ws u m) ≡ discard ◌==◌ ws (connections_of u m)
      after [] e = ground (arith, lookup-discard_self ◌==◌ number-IsEquality u m.user_connections)
      after (item ∷ left) e = ground (
        arith,
        lookup-assign_self ◌==◌ number-IsEquality u (discard ◌==◌ ws (connections_of u m))
            m.user_connections,
      )

  -- A user whose one socket does not take what is sent has no connection afterwards, and is still
  -- reported as online.
  pub send_personal_model_dead :
      (ws u : ℕ) (key : String) (message : Outbound) (m : Manager t)
      → connections_of u m ≡ (ws, key) ∷ []
      → t.accepts ws m.drawn ≡ false
      → let m' = send_personal_model u message m in
        (connections_of u m' ≡ []) × (is_online u m' ≡ true)
  unfolding send_personal_model send_personal_raw send_each send_one drop_dead is_online
  send_personal_model_dead ws u key message m one dead = (
    ground (arith, lookup-assign_self ◌==◌ number-IsEquality u [] m.user_connections, ==_refl ws),
    ground (arith, any-assign u [] m.user_connections, ==_refl ws),
  )
