-- ===== src/Sockets/Handler.antt =====
-- backend/src/apps/websocket/api/v1/ws.py: a connection from its start to its end, message by message.
use slot_booking.Base.{
  ℕ, Bool, true, false, String, List, [], ◌∷◌, Option, none, some, if◌then◌else◌,
}
use slot_booking.Base.Text.{◌+++◌}
use slot_booking.Sockets.Messages.{Outbound, Inbound, Transport}
use slot_booking.Sockets.Crypto.{derive_session_key, session_key_b64}
use slot_booking.Sockets.Manager.{
  Given, give, Manager, connect, disconnect, join_room, leave_room, broadcast_room, broadcast_all,
  send_personal_model, receive_and_decrypt, total_connections, rooms_stats, users_online, is_online,
}

pub record SocketUser : Type 0 where
  pub id : ℕ
  pub is_superuser : Bool

pub record WsStatsResponse : Type 0 where
  pub total_connections : ℕ
  pub rooms : List (String × ℕ)
  pub users_online : List ℕ

-- What the loop waits for: the next text, or the end of the idle time.
pub data Arrival : Type 0 where
  arrived : String → Arrival
  went_idle : Arrival

abbrev is_malformed : Inbound → Bool
is_malformed Inbound.malformed = true
is_malformed _ = false

module _ {t : Transport} where
  abbrev ack_to : SocketUser → Option String → Manager t → Manager t
  ack_to user ref = send_personal_model user.id (Outbound.ack ref)

  -- The dispatch of one decrypted message.
  unfoldable pub dispatch_message : SocketUser → Inbound → Option String → Manager t → Manager t
  dispatch_message user Inbound.ping ref m = send_personal_model user.id Outbound.pong m
  dispatch_message user (Inbound.join_room room) ref m = ack_to user ref (join_room user.id room m)
  dispatch_message user (Inbound.leave_room room) ref m =
      ack_to user ref (leave_room user.id room m)
  dispatch_message user (Inbound.message room text) ref m =
      ack_to user ref
        (broadcast_room room (Outbound.room_message room user.id text) (some user.id) m)
  dispatch_message user (Inbound.broadcast text) ref m =
      if user.is_superuser
      then ack_to user ref (broadcast_all (Outbound.event "broadcast" text none none) m)
      else send_personal_model user.id (Outbound.error 4030 "Superuser required for broadcast") m
  dispatch_message user (Inbound.typing room is_typing) ref m =
      broadcast_room room
        (Outbound.event "typing" (t.typing_data (t.encode_id user.id) is_typing) (some room)
          (some user.id))
        (some user.id) m
  dispatch_message user (Inbound.unhandled kind) ref m =
      send_personal_model user.id (Outbound.error 4005 ("Unhandled message type: " +++ kind)) m
  dispatch_message user (Inbound.unknown kind) ref m =
      send_personal_model user.id (Outbound.error 4004 ("Unknown message type: " +++ kind)) m
  dispatch_message user Inbound.malformed ref m = m

  -- A connection's texts, one by one, and its idle times. The loop ends at a text that cannot be
  -- read, at a message that lacks a field, or when the connection was idle for too long.
  unfoldable pub serve : ℕ → SocketUser → List Arrival → Manager t → Manager t
  serve ws user [] m = m
  serve ws user (Arrival.went_idle ∷ arrivals) m =
      give ws (Given.closed 4008)
        (send_personal_model user.id (Outbound.error 4008 "WebSocket idle timeout") m)
  serve ws user (Arrival.arrived raw ∷ arrivals) m =
      let (received, m1) = receive_and_decrypt ws user.id raw m in
      elim received [
        | none ↦ m1
        | some (inbound, ref) ↦
            if is_malformed inbound
            then m1
            else serve ws user arrivals (dispatch_message user inbound ref m1)
      ]

  -- A connection from its registration, by the `jti` of its token, to its end.
  unfoldable pub handle_connection :
      ℕ → SocketUser → String → Option String → List Arrival → Manager t → Manager t
  handle_connection ws user jti initial_room arrivals m =
      let m1 = connect ws user.id (derive_session_key t jti) m in
      let m2 = give ws (Given.handshake (session_key_b64 t jti)) m1 in
      let m3 : Manager t = elim initial_room [
        | none ↦ m2
        | some room ↦ join_room user.id room m2
      ] in
      disconnect ws user.id (serve ws user arrivals m3)

  unfoldable pub ws_stats : Manager t → WsStatsResponse
  ws_stats m = record {
    total_connections = total_connections m;
    rooms = rooms_stats m;
    users_online = users_online m;
  }

  unfoldable pub ws_is_online : ℕ → Manager t → ℕ × Bool
  ws_is_online user m = (user, is_online user m)
