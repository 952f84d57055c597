-- ===== src/Sockets/Manager/Rooms.antt =====
-- Who is in which room, after each call of the manager.
use slot_booking.Base.{
  any-append_one, ℕ, Bool, true, false, not, ◌&&◌, ◌||◌, String, List, [], ◌∷◌, Option, none, map,
  any, ◌==◌, ◌≡◌, refl, ap, ◌∙◌, if◌then◌else◌, inl, inr, Bool-cases, arith,
}
use text.Mathlib.TextEquality.{eq_iff}
use slot_booking.Base.Text.{str_eq, str_eq_refl}
use slot_booking.Base.Dict.{
  lookup, IsEquality, lookup-assign_self, lookup-assign_ne, lookup-discard_self, lookup-discard_ne,
}
use slot_booking.Sockets.Messages.{Outbound, Transport}
use slot_booking.Sockets.Manager.{
  Manager, forget_socket, is_user, has, add, remove, is_empty, or_empty, members_of_room,
  store_room, with_members, without_room, send_one, send_each, drop_dead, send_personal_raw,
  send_personal_model, send_all, broadcast_room, broadcast_all, join_room, leave_room, drop_from,
  drop_from_each, disconnect,
}

-- The abstract view: whether a user is in a room.
abbrev pub in_room : {t : Transport} → String → ℕ → Manager t → Bool
in_room room user m = has user (members_of_room room m)

has-add : (u v : ℕ) (users : List ℕ) → has v (add u users) ≡ has v users || (v == u)
has-add u v users = elim (Bool-cases (has u users)) [
  | inl e ↦ ground (arith, ap (λ x. has x users))
  | inr e ↦ ground (arith, any-append_one (λ x. x == v) users u)
]

pub has-remove : (u v : ℕ) (users : List ℕ) → has v (remove u users) ≡ has v users && not (v == u)
has-remove u v [] = refl
has-remove u v (x ∷ users) = ground (arith, has-remove u v users)

pub text-IsEquality : IsEquality str_eq
text-IsEquality = record { reflexive = str_eq_refl; equal = λ s u. (eq_iff s u).0 }

-- A room that a user is in is one of the dictionary's.
has_room :
    (q : String) (v : ℕ) (rooms : List (String × List ℕ))
    → has v (or_empty (lookup str_eq q rooms)) ≡ true
    → any (λ r. str_eq r q) (map (λ item. item.0) rooms) ≡ true
has_room q v [] e = absurd (ground arith)
has_room q v ((r, users) ∷ rooms) e = ground (arith, has_room q v rooms)

module _ {t : Transport} where
  send_each-rooms :
      (kind payload : String) (sockets : List (ℕ × String)) (m : Manager t)
      → (send_each kind payload sockets m).0.rooms ≡ m.rooms
  unfolding send_each send_one
  send_each-rooms kind payload [] m = refl
  send_each-rooms kind payload ((ws, key) ∷ sockets) m =
      send_each-rooms kind payload sockets (send_one kind payload ws key m).0 ∙ ground arith

  drop_dead-rooms :
      (user : ℕ) (dead : List ℕ) (m : Manager t) → (drop_dead user dead m).rooms ≡ m.rooms
  unfolding drop_dead
  drop_dead-rooms user [] m = refl
  drop_dead-rooms user (ws ∷ dead) m = drop_dead-rooms user dead _

  send_personal_raw-rooms :
      (user : ℕ) (kind payload : String) (m : Manager t)
      → (send_personal_raw user kind payload m).rooms ≡ m.rooms
  unfolding send_personal_raw
  send_personal_raw-rooms user kind payload m =
      drop_dead-rooms user _ _ ∙ send_each-rooms kind payload _ m

  pub send_personal_model-rooms :
      (user : ℕ) (message : Outbound) (m : Manager t)
      → (send_personal_model user message m).rooms ≡ m.rooms
  unfolding send_personal_model
  send_personal_model-rooms user message m = send_personal_raw-rooms user _ _ m

  send_all-rooms :
      (users : List ℕ) (message : Outbound) (excluded : Option ℕ) (m : Manager t)
      → (send_all users message excluded m).rooms ≡ m.rooms
  unfolding send_all
  send_all-rooms [] message excluded m = refl
  send_all-rooms (user ∷ users) message excluded m =
      send_all-rooms users message excluded _ ∙ elim (Bool-cases (is_user excluded user)) [
        | inl e ↦ ground arith
        | inr e ↦ ground (arith, send_personal_model-rooms user message m)
      ]

  -- Sending to a room changes no room.
  pub broadcast_room-rooms :
      (room : String) (message : Outbound) (excluded : Option ℕ) (m : Manager t)
      → (broadcast_room room message excluded m).rooms ≡ m.rooms
  unfolding broadcast_room
  broadcast_room-rooms room message excluded m = send_all-rooms _ message excluded m

  -- A room's members after they were stored.
  in_room-with :
      (q r : String) (v : ℕ) (left : List ℕ) (m : Manager t)
      → in_room q v (with_members r left m) ≡ (if str_eq r q then has v left else in_room q v m)
  in_room-with q r v left m = elim (Bool-cases (str_eq r q)) [
    | inl e ↦ ground (
      arith,
      text-IsEquality.equal r q e,
      lookup-assign_self str_eq text-IsEquality r left m.rooms,
    )
    | inr e ↦ ground (arith, lookup-assign_ne str_eq text-IsEquality q r left m.rooms e)
  ]

  in_room-without :
      (q r : String) (v : ℕ) (m : Manager t)
      → in_room q v (without_room r m) ≡ (if str_eq r q then false else in_room q v m)
  in_room-without q r v m = elim (Bool-cases (str_eq r q)) [
    | inl e ↦
        ground
          (arith, text-IsEquality.equal r q e, lookup-discard_self str_eq text-IsEquality r m.rooms)
    | inr e ↦ ground (arith, lookup-discard_ne str_eq text-IsEquality q r m.rooms e)
  ]

  in_room-store :
      (q r : String) (v : ℕ) (left : List ℕ) (m : Manager t)
      → in_room q v (store_room r left m) ≡ (if str_eq r q then has v left else in_room q v m)
  in_room-store q r v [] m = in_room-without q r v m
  in_room-store q r v (x ∷ left) m = in_room-with q r v (x ∷ left) m

  pub broadcast_all-rooms :
      (message : Outbound) (m : Manager t) → (broadcast_all message m).rooms ≡ m.rooms
  unfolding broadcast_all
  broadcast_all-rooms message m =
      send_all-rooms (map (λ item. item.0) m.user_connections) message none m

  pub in_room-≡ :
      (q : String) (v : ℕ) (m m' : Manager t) → m'.rooms ≡ m.rooms → in_room q v m' ≡ in_room q v m
  in_room-≡ q v m m' e = ap (λ rooms. has v (or_empty (lookup str_eq q rooms))) e

  pub in_room-broadcast_room :
      (q r : String) (v : ℕ) (message : Outbound) (excluded : Option ℕ) (m : Manager t)
      → in_room q v (broadcast_room r message excluded m) ≡ in_room q v m
  in_room-broadcast_room q r v message excluded m =
      ap (λ rooms. has v (or_empty (lookup str_eq q rooms)))
        (broadcast_room-rooms r message excluded m)

  pub in_room-join_room :
      (q r : String) (u v : ℕ) (m : Manager t)
      → in_room q v (join_room u r m) ≡ in_room q v m || (str_eq r q && v == u)
  unfolding join_room
  in_room-join_room q r u v m =
      let m' = with_members r (add u (members_of_room r m)) m in
      in_room-broadcast_room q r v _ none m'
      ∙ in_room-with q r v (add u (members_of_room r m)) m
      ∙ elim (Bool-cases (str_eq r q)) [
        | inl e ↦ ground (arith, text-IsEquality.equal r q e, has-add u v (members_of_room r m))
        | inr e ↦ ground arith
      ]

  in_room-removed :
      (q r : String) (u v : ℕ) (m : Manager t)
      → (if str_eq r q then has v (remove u (members_of_room r m)) else in_room q v m)
        ≡ in_room q v m && not (str_eq r q && v == u)
  in_room-removed q r u v m = elim (Bool-cases (str_eq r q)) [
    | inl e ↦ ground (arith, text-IsEquality.equal r q e, has-remove u v (members_of_room r m))
    | inr e ↦ ground arith
  ]

  pub in_room-leave_room :
      (q r : String) (u v : ℕ) (m : Manager t)
      → in_room q v (leave_room u r m) ≡ in_room q v m && not (str_eq r q && v == u)
  unfolding leave_room
  in_room-leave_room q r u v m =
      let left = remove u (members_of_room r m) in
      in_room-broadcast_room q r v _ none (store_room r left m)
      ∙ in_room-store q r v left m
      ∙ in_room-removed q r u v m

  in_room-drop_from :
      (q r : String) (u v : ℕ) (m : Manager t)
      → in_room q v (drop_from u r m) ≡ in_room q v m && not (str_eq r q && v == u)
  unfolding drop_from
  in_room-drop_from q r u v m =
      let left = remove u (members_of_room r m) in
      let m' = with_members r left m in
      let sent = in_room-broadcast_room q r v (Outbound.presence r u false) none m' in
      elim (Bool-cases (has u (members_of_room r m))) [
        | inl inside ↦ elim (Bool-cases (is_empty left)) [
          | inl alone ↦ ground (arith, in_room-store q r v left m, in_room-removed q r u v m)
          | inr others ↦ ground (arith, sent, in_room-store q r v left m, in_room-removed q r u v m)
        ]
        | inr outside ↦ elim (Bool-cases (str_eq r q && v == u)) [
          | inl e ↦ ground (arith, text-IsEquality.equal r q, in_room-removed q r u v m)
          | inr e ↦ ground arith
        ]
      ]

  in_room-drop_from_each :
      (q : String) (u v : ℕ) (names : List String) (m : Manager t)
      → in_room q v (drop_from_each u names m)
        ≡ in_room q v m && not (any (λ r. str_eq r q) names && v == u)
  unfolding drop_from_each
  in_room-drop_from_each q u v [] m = ground arith
  in_room-drop_from_each q u v (r ∷ names) m =
      in_room-drop_from_each q u v names (drop_from u r m) ∙ elim (Bool-cases (in_room q v m)) [
        | inl e ↦ ground (arith, in_room-drop_from q r u v m)
        | inr e ↦ ground (arith, in_room-drop_from q r u v m)
      ]

  pub in_room-disconnect :
      (q : String) (ws u v : ℕ) (m : Manager t)
      → in_room q v (disconnect ws u m) ≡ in_room q v m && not (v == u)
  unfolding disconnect
  in_room-disconnect q ws u v m =
      in_room-drop_from_each q u v (map (λ item. item.0) m.rooms) (forget_socket ws u m)
      ∙ elim (Bool-cases (in_room q v m)) [
        | inl e ↦ ground (arith, has_room q v m.rooms e)
        | inr e ↦ ground arith
      ]
