-- ===== src/Sockets/Manager.antt =====
-- backend/src/apps/websocket/manager.py: `ConnectionManager`. A set of user ids is the list of them, in
-- some order; a call runs to its end before the next one.
pub mod Rooms
pub mod Histories
pub mod Presence
pub mod Silence
pub mod Frames
use slot_booking.Base.{
  ℕ, suc, ◌+◌, Bool, true, false, not, ◌&&◌, ◌||◌, String, List, [], ◌∷◌, ◌++◌, Option, none, some,
  map, any, select, length, ◌==◌, if◌then◌else◌,
}
use slot_booking.Base.Text.{str_eq}
use slot_booking.Base.Dict.{lookup, assign, discard}
use slot_booking.Sockets.Crypto.{encrypt, decrypt}
use slot_booking.Sockets.Messages.{Outbound, Inbound, Transport, WsEncryptedFrame, type_of}

-- What a socket was given: its key in base64, a frame, a plain text, or the code with which it was
-- closed.
pub data Given : Type 0 where
  handshake : String → Given
  framed : WsEncryptedFrame → Given
  plain : Outbound → Given
  closed : ℕ → Given

-- `drawn` counts the frames that were made, `outbox` what sockets were given.
pub record Manager (t : Transport) : Type 0 where
  pub user_connections : List (ℕ × List (ℕ × String))
  pub rooms : List (String × List ℕ)
  pub drawn : ℕ
  pub outbox : List (ℕ × Given)

abbrev pub or_empty : {A : Type 0} → Option (List A) → List A
or_empty none = []
or_empty (some xs) = xs

abbrev pub has : ℕ → List ℕ → Bool
has u users = any (λ v. v == u) users

-- `users.add(u)` and `users.discard(u)`
abbrev pub add : ℕ → List ℕ → List ℕ
add u users = if has u users then users else users ++ u ∷ []

abbrev pub remove : ℕ → List ℕ → List ℕ
remove u users = select (λ v. not (v == u)) users

abbrev pub is_empty : {A : Type 0} → List A → Bool
is_empty [] = true
is_empty (x ∷ xs) = false

abbrev pub is_user : Option ℕ → ℕ → Bool
is_user none user = false
is_user (some excluded) user = user == excluded

abbrev count_sockets : {A : Type 0} → List (ℕ × List A) → ℕ
count_sockets [] = 0
count_sockets ((user, sockets) ∷ items) = length sockets + count_sockets items

-- The plaintext of a raw text, and the message in it, where neither step raises.
abbrev open_frame : Transport → String → String → Option (Inbound × Option String)
open_frame t key raw = elim (t.parse_frame raw) [
  | none ↦ none
  | some frame ↦ elim (decrypt t frame.iv frame.data_ key) [
    | none ↦ none
    | some plaintext ↦ t.loads plaintext
  ]
]

module _ {t : Transport} where
  -- `self._user_connections.get(user_id, {})`
  abbrev pub connections_of : ℕ → Manager t → List (ℕ × String)
  connections_of user m = or_empty (lookup ◌==◌ user m.user_connections)

  abbrev pub members_of_room : String → Manager t → List ℕ
  members_of_room room m = or_empty (lookup str_eq room m.rooms)

  abbrev pub with_connections : ℕ → List (ℕ × String) → Manager t → Manager t
  with_connections user sockets m = record m {
    user_connections = assign ◌==◌ user sockets m.user_connections;
  }

  abbrev pub with_members : String → List ℕ → Manager t → Manager t
  with_members room users m = record m { rooms = assign str_eq room users m.rooms }

  abbrev pub without_room : String → Manager t → Manager t
  without_room room m = record m { rooms = discard str_eq room m.rooms }

  abbrev pub give : ℕ → Given → Manager t → Manager t
  give ws given m = record m { outbox = m.outbox ++ (ws, given) ∷ [] }

  unfoldable pub connect : ℕ → ℕ → String → Manager t → Manager t
  connect ws user key m = with_connections user (assign ◌==◌ ws key (connections_of user m)) m

  abbrev pub make_frame : String → String → String → Manager t → WsEncryptedFrame
  make_frame kind payload key m = record {
    type = kind;
    iv = (encrypt t m.drawn payload key).0;
    data_ = (encrypt t m.drawn payload key).1;
  }

  -- One round of the loop over a user's sockets: the frame, and whether the socket took it.
  unfoldable pub send_one : String → String → ℕ → String → Manager t → Manager t × Bool
  send_one kind payload ws key m =
      let drawn = record m { drawn = suc m.drawn } in
      if t.accepts ws m.drawn
      then (give ws (Given.framed (make_frame kind payload key m)) drawn, true)
      else (drawn, false)

  -- The loop, with the sockets that did not take it.
  unfoldable pub send_each : String → String → List (ℕ × String) → Manager t → Manager t × List ℕ
  send_each kind payload [] m = (m, [])
  send_each kind payload ((ws, key) ∷ sockets) m =
      let (m1, sent) = send_one kind payload ws key m in
      let (m2, dead) = send_each kind payload sockets m1 in (m2, if sent then dead else ws ∷ dead)

  unfoldable pub drop_dead : ℕ → List ℕ → Manager t → Manager t
  drop_dead user [] m = m
  drop_dead user (ws ∷ dead) m =
      drop_dead user dead (with_connections user (discard ◌==◌ ws (connections_of user m)) m)

  unfoldable pub send_personal_raw : ℕ → String → String → Manager t → Manager t
  send_personal_raw user kind payload m =
      let (m1, dead) = send_each kind payload (connections_of user m) m in drop_dead user dead m1

  unfoldable pub send_personal_model : ℕ → Outbound → Manager t → Manager t
  send_personal_model user message =
      send_personal_raw user (type_of message) (t.model_dump_json message)

  unfoldable pub send_all : List ℕ → Outbound → Option ℕ → Manager t → Manager t
  send_all [] message excluded m = m
  send_all (user ∷ users) message excluded m =
      send_all users message excluded
        (if is_user excluded user then m else send_personal_model user message m)

  unfoldable pub broadcast_room : String → Outbound → Option ℕ → Manager t → Manager t
  broadcast_room room message excluded m = send_all (members_of_room room m) message excluded m

  unfoldable pub broadcast_all : Outbound → Manager t → Manager t
  broadcast_all message m = send_all (map (λ item. item.0) m.user_connections) message none m

  unfoldable pub join_room : ℕ → String → Manager t → Manager t
  join_room user room m =
      broadcast_room room (Outbound.presence room user true) none
        (with_members room (add user (members_of_room room m)) m)

  -- `self._rooms[room]` without the user, or no room where nobody is left.
  abbrev pub store_room : String → List ℕ → Manager t → Manager t
  store_room room left m = if is_empty left then without_room room m else with_members room left m

  unfoldable pub leave_room : ℕ → String → Manager t → Manager t
  leave_room user room m =
      broadcast_room room (Outbound.presence room user false) none
        (store_room room (remove user (members_of_room room m)) m)

  -- One room of the loop in `disconnect`; its set is the one that the dictionary holds.
  unfoldable pub drop_from : ℕ → String → Manager t → Manager t
  drop_from user room m =
      let left = remove user (members_of_room room m) in
      if has user (members_of_room room m)
      then (if is_empty left
          then without_room room m
          else broadcast_room room (Outbound.presence room user false) none
              (with_members room left m))
      else m

  unfoldable pub drop_from_each : ℕ → List String → Manager t → Manager t
  drop_from_each user [] m = m
  drop_from_each user (room ∷ names) m = drop_from_each user names (drop_from user room m)

  -- `self._user_connections[user_id].pop(websocket, None)`, and no entry where none is left.
  abbrev pub forget_socket : ℕ → ℕ → Manager t → Manager t
  forget_socket ws user m =
      let left = discard ◌==◌ ws (connections_of user m) in
      if is_empty left
      then record m { user_connections = discard ◌==◌ user m.user_connections }
      else with_connections user left m

  unfoldable pub disconnect : ℕ → ℕ → Manager t → Manager t
  disconnect ws user m =
      drop_from_each user (map (λ item. item.0) m.rooms) (forget_socket ws user m)

  -- `push_event`, `push_event_to_room` and `push_system`
  unfoldable pub push_event : ℕ → String → String → Manager t → Manager t
  push_event user name text = send_personal_model user (Outbound.event name text none none)

  unfoldable pub push_event_to_room :
      String → String → String → Option ℕ → Option ℕ → Manager t → Manager t
  push_event_to_room room name text sender excluded =
      broadcast_room room (Outbound.event name text (some room) sender) excluded

  unfoldable pub push_system : ℕ → String → Manager t → Manager t
  push_system user text = send_personal_model user (Outbound.system text)

  unfoldable pub total_connections : Manager t → ℕ
  total_connections m = count_sockets m.user_connections

  unfoldable pub rooms_stats : Manager t → List (String × ℕ)
  rooms_stats m = map (λ item. (item.0, length item.1)) m.rooms

  unfoldable pub users_online : Manager t → List ℕ
  users_online m = map (λ item. item.0) m.user_connections

  unfoldable pub is_online : ℕ → Manager t → Bool
  is_online user m = any (λ item. item.0 == user) m.user_connections

  -- `receive_and_decrypt` of the text that arrived: the message, or `none` where it raises, with the
  -- socket closed.
  unfoldable pub receive_and_decrypt :
      ℕ → ℕ → String → Manager t → Option (Inbound × Option String) × Manager t
  receive_and_decrypt ws user raw m = elim (lookup ◌==◌ ws (connections_of user m)) [
    | none ↦ (none, give ws (Given.closed 4001) m)
    | some key ↦ elim (open_frame t key raw) [
      | some received ↦ (some received, m)
      | none ↦ (
        none,
        give ws (Given.closed 4003)
            (give ws (Given.plain (Outbound.error 4003 "Message decryption failed")) m),
      )
    ]
  ]
