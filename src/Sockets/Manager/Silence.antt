-- ===== src/Sockets/Manager/Silence.antt =====
-- What a socket of one user is given of what is sent to others.
use slot_booking.Base.{
  ℕ, false, String, List, [], ◌∷◌, ◌++◌, Option, none, some, map, select, ◌==◌, ==_refl, ◌≡◌, refl,
  sym, ap, ◌∙◌, if◌then◌else◌, inl, inr, Bool-cases, arith,
}
use slot_booking.Base.Dict.{
  lookup, discard, lookup-assign_self, lookup-assign_ne, lookup-discard_ne,
}
use slot_booking.Sockets.Messages.{Outbound, Transport}
use slot_booking.Sockets.Manager.{
  Manager, Given, forget_socket, is_user, has, remove, is_empty, or_empty, connections_of,
  members_of_room, with_members, with_connections, send_one, send_each, drop_dead,
  send_personal_raw, send_personal_model, send_all, broadcast_room, drop_from, drop_from_each,
  disconnect,
}
use slot_booking.Sockets.Manager.Rooms.{in_room, in_room-disconnect}
use slot_booking.Sockets.Manager.Presence.{
  number-IsEquality, send_each-connections, members_left, drop_from_each-connections,
  forget_socket-connections,
}

select-append_ne :
    (ws v : ℕ) (given : Given) (sent : List (ℕ × Given))
    → (v == ws) ≡ false
    → select (λ g. g.0 == ws) (sent ++ (v, given) ∷ []) ≡ select (λ g. g.0 == ws) sent
select-append_ne ws v given [] ne = ground arith
select-append_ne ws v given (g ∷ sent) ne = ground (arith, select-append_ne ws v given sent ne)

lookup-none-discard :
    (k j : ℕ) (items : List (ℕ × String))
    → lookup ◌==◌ k items ≡ none
    → lookup ◌==◌ k (discard ◌==◌ j items) ≡ none
lookup-none-discard k j [] e = refl
lookup-none-discard k j ((i, key) ∷ items) e = ground (arith, lookup-none-discard k j items)

module _ {t : Transport} where
  -- What a socket was given.
  abbrev pub given_to : ℕ → Manager t → List (ℕ × Given)
  given_to ws m = select (λ g. g.0 == ws) m.outbox

  -- No other user has the socket.
  abbrev pub IsOnlyOf : ℕ → ℕ → Manager t → Type 0
  IsOnlyOf ws u m = (v : ℕ) → (v == u) ≡ false → lookup ◌==◌ ws (connections_of v m) ≡ none

  abbrev pub IsSilent : ℕ → ℕ → Manager t → Manager t → Type 0
  IsSilent ws u m m' = IsOnlyOf ws u m' × (given_to ws m' ≡ given_to ws m)

  discard_one-IsOnlyOf :
      (ws u v dead : ℕ) (m : Manager t)
      → IsOnlyOf ws u m
      → IsOnlyOf ws u (with_connections v (discard ◌==◌ dead (connections_of v m)) m)
  discard_one-IsOnlyOf ws u v dead m only x ne =
      let left = discard ◌==◌ dead (connections_of v m) in
      elim (Bool-cases (v == x)) [
        | inl same ↦
            let at : x ≡ v = ground arith in
            let stored : connections_of x (with_connections v left m) ≡ left =
              ap (λ i. connections_of i (with_connections v left m)) at
              ∙ ap or_empty (lookup-assign_self ◌==◌ number-IsEquality v left m.user_connections) in
            ap (lookup ◌==◌ ws) stored
            ∙ lookup-none-discard ws dead (connections_of v m)
                (ap (λ i. lookup ◌==◌ ws (connections_of i m)) (sym at) ∙ only x ne)
        | inr differs ↦
            ap (λ c. lookup ◌==◌ ws (or_empty c))
              (lookup-assign_ne ◌==◌ number-IsEquality x v left m.user_connections differs)
            ∙ only x ne
      ]

  drop_dead-IsSilent :
      (ws u v : ℕ) (dead : List ℕ) (m : Manager t)
      → IsOnlyOf ws u m
      → IsSilent ws u m (drop_dead v dead m)
  unfolding drop_dead
  drop_dead-IsSilent ws u v [] m only = (only, refl)
  drop_dead-IsSilent ws u v (d ∷ dead) m only =
      drop_dead-IsSilent ws u v dead (with_connections v (discard ◌==◌ d (connections_of v m)) m)
        (discard_one-IsOnlyOf ws u v d m only)

  given_to-send_each :
      (ws : ℕ) (kind payload : String) (sockets : List (ℕ × String)) (m : Manager t)
      → lookup ◌==◌ ws sockets ≡ none
      → given_to ws (send_each kind payload sockets m).0 ≡ given_to ws m
  unfolding send_each send_one
  given_to-send_each ws kind payload [] m out = refl
  given_to-send_each ws kind payload ((v, key) ∷ sockets) m out =
      let ne : (v == ws) ≡ false = ground arith in
      given_to-send_each ws kind payload sockets (send_one kind payload v key m).0 (ground arith)
      ∙ elim (Bool-cases (t.accepts v m.drawn)) [
        | inl taken ↦ rw taken (select-append_ne ws v _ m.outbox ne)
        | inr dead ↦ ground arith
      ]

  send_personal_model-IsSilent :
      (ws u v : ℕ) (message : Outbound) (m : Manager t)
      → (v == u) ≡ false
      → IsOnlyOf ws u m
      → IsSilent ws u m (send_personal_model v message m)
  unfolding send_personal_model send_personal_raw
  send_personal_model-IsSilent ws u v message m ne only =
      let sent = send_each _ _ (connections_of v m) m in
      let kept = send_each-connections _ _ (connections_of v m) m in
      let dropped =
        drop_dead-IsSilent ws u v sent.1 sent.0
          (λ x out. ap (λ c. lookup ◌==◌ ws (or_empty (lookup ◌==◌ x c))) kept ∙ only x out) in
      (dropped.0, dropped.1 ∙ given_to-send_each ws _ _ (connections_of v m) m (only v ne))

  pub send_all-IsSilent :
      (ws u : ℕ) (users : List ℕ) (message : Outbound) (excluded : Option ℕ) (m : Manager t)
      → has u users ≡ false
      → IsOnlyOf ws u m
      → IsSilent ws u m (send_all users message excluded m)
  unfolding send_all
  send_all-IsSilent ws u [] message excluded m out only = (only, refl)
  send_all-IsSilent ws u (v ∷ users) message excluded m out only =
      let next = if is_user excluded v then m else send_personal_model v message m in
      let first : IsSilent ws u m next = elim (Bool-cases (is_user excluded v)) [
        | inl skipped ↦ rw skipped (only, refl)
        | inr told ↦ rw told (send_personal_model-IsSilent ws u v message m (ground arith) only)
      ] in
      let rest = send_all-IsSilent ws u users message excluded next (ground arith) first.0 in
      (rest.0, rest.1 ∙ first.1)

  drop_from-IsOnlyOf :
      (ws u : ℕ) (room : String) (m : Manager t)
      → IsOnlyOf ws u m
      → IsOnlyOf ws u (drop_from u room m)
  unfolding drop_from broadcast_room
  drop_from-IsOnlyOf ws u room m only =
      let left = remove u (members_of_room room m) in
      let m' = with_members room left m in
      elim (Bool-cases (has u (members_of_room room m))) [
        | inr outside ↦ rw outside only
        | inl inside ↦ elim (Bool-cases (is_empty left)) [
          | inl alone ↦ rw (inside, alone) only
          | inr others ↦
              rw (inside, others)
                (send_all-IsSilent ws u (members_of_room room m') (Outbound.presence room u false)
                  none m' (members_left u room m) only).0
        ]
      ]

  drop_from_each-IsOnlyOf :
      (ws u : ℕ) (names : List String) (m : Manager t)
      → IsOnlyOf ws u m
      → IsOnlyOf ws u (drop_from_each u names m)
  unfolding drop_from_each
  drop_from_each-IsOnlyOf ws u [] m only = only
  drop_from_each-IsOnlyOf ws u (room ∷ names) m only =
      drop_from_each-IsOnlyOf ws u names (drop_from u room m) (drop_from-IsOnlyOf ws u room m only)

  forget_socket-IsOnlyOf :
      (ws u lost : ℕ) (m : Manager t) → IsOnlyOf ws u m → IsOnlyOf ws u (forget_socket lost u m)
  forget_socket-IsOnlyOf ws u lost m only v ne =
      let left = discard ◌==◌ lost (connections_of u m) in
      let differs : (u == v) ≡ false = ground arith in
      elim (Bool-cases (is_empty left)) [
        | inl alone ↦ rw alone (
            ap (λ c. lookup ◌==◌ ws (or_empty c))
              (lookup-discard_ne ◌==◌ number-IsEquality v u m.user_connections differs)
            ∙ only v ne)
        | inr others ↦ rw others (
            ap (λ c. lookup ◌==◌ ws (or_empty c))
              (lookup-assign_ne ◌==◌ number-IsEquality v u left m.user_connections differs)
            ∙ only v ne)
      ]

  pub disconnect-IsOnlyOf :
      (ws u lost : ℕ) (m : Manager t) → IsOnlyOf ws u m → IsOnlyOf ws u (disconnect lost u m)
  unfolding disconnect
  disconnect-IsOnlyOf ws u lost m only =
      drop_from_each-IsOnlyOf ws u _ (forget_socket lost u m)
        (forget_socket-IsOnlyOf ws u lost m only)

  -- A user with two connections who loses one keeps the other, but is in no room any more, and the
  -- other connection is given nothing that is sent to a room; where no other user has the same
  -- socket.
  pub disconnect_leaves_rooms :
      (ws other u : ℕ) (key : String) (m : Manager t) (room : String)
      → lookup ◌==◌ other (connections_of u m) ≡ some key
      → (ws == other) ≡ false
      → IsOnlyOf other u m
      → let m' = disconnect ws u m in
        (lookup ◌==◌ other (connections_of u m') ≡ some key)
        × (in_room room u m' ≡ false)
        × ((message : Outbound) (excluded : Option ℕ)
            → given_to other (broadcast_room room message excluded m') ≡ given_to other m')
  unfolding disconnect broadcast_room
  disconnect_leaves_rooms ws other u key m room there ne only =
      let m' = disconnect ws u m in
      let out : in_room room u m' ≡ false =
        in_room-disconnect room ws u u m ∙ ground (arith, ==_refl u) in
      let kept_socket =
        drop_from_each-connections u (map (λ item. item.0) m.rooms) (forget_socket ws u m)
        ∙ forget_socket-connections ws u m in
      (
        ap (lookup ◌==◌ other) kept_socket
            ∙ lookup-discard_ne ◌==◌ number-IsEquality other ws (connections_of u m) ne
            ∙ there,
        out,
        λ message excluded.
            (send_all-IsSilent other u (members_of_room room m') message excluded m' out
              (disconnect-IsOnlyOf other u ws m only)).1,
      )
