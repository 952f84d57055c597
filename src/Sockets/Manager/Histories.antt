-- ===== src/Sockets/Manager/Histories.antt =====
-- Every history of calls of the manager: who is in which room is what the joins, the departures and
-- the disconnections say.
use slot_booking.Base.{
  ℕ, Bool, not, ◌&&◌, ◌||◌, String, List, [], ◌∷◌, Option, ◌==◌, ◌≡◌, refl, ap, ◌∙◌,
}
use slot_booking.Base.Text.{str_eq}
use slot_booking.Sockets.Messages.{Outbound, Transport}
use slot_booking.Sockets.Manager.{
  Manager, connect, disconnect, join_room, leave_room, broadcast_room, broadcast_all,
  send_personal_model,
}
use slot_booking.Sockets.Manager.Rooms.{
  in_room, in_room-≡, broadcast_room-rooms, send_personal_model-rooms, broadcast_all-rooms,
  in_room-join_room, in_room-leave_room, in_room-disconnect,
}

-- What the rest of the program asks of the manager.
pub data Call (t : Transport) : Type 0 where
  connects : ℕ → ℕ → String → Call t
  disconnects : ℕ → ℕ → Call t
  joins leaves : ℕ → String → Call t
  tells : ℕ → Outbound → Call t
  tells_room : String → Outbound → Option ℕ → Call t
  tells_all : Outbound → Call t

unfoldable pub run_call : {t : Transport} → Call t → Manager t → Manager t
run_call (Call.connects ws user key) m = connect ws user key m
run_call (Call.disconnects ws user) m = disconnect ws user m
run_call (Call.joins user room) m = join_room user room m
run_call (Call.leaves user room) m = leave_room user room m
run_call (Call.tells user message) m = send_personal_model user message m
run_call (Call.tells_room room message excluded) m = broadcast_room room message excluded m
run_call (Call.tells_all message) m = broadcast_all message m

unfoldable pub run_calls : {t : Transport} → List (Call t) → Manager t → Manager t
run_calls [] m = m
run_calls (call ∷ calls) m = run_calls calls (run_call call m)

-- The abstract rooms: who is in which.
abbrev pub Membership : Type 0
Membership = String → ℕ → Bool

unfoldable pub abstract_call : {t : Transport} → Call t → Membership → Membership
abstract_call (Call.disconnects ws user) rooms q v = rooms q v && not (v == user)
abstract_call (Call.joins user room) rooms q v = rooms q v || (str_eq room q && v == user)
abstract_call (Call.leaves user room) rooms q v = rooms q v && not (str_eq room q && v == user)
abstract_call _ rooms q v = rooms q v

unfoldable pub abstract_calls : {t : Transport} → List (Call t) → Membership → Membership
abstract_calls [] rooms = rooms
abstract_calls (call ∷ calls) rooms = abstract_calls calls (abstract_call call rooms)

abstract_call-≡ :
    {t : Transport} (call : Call t) (a b : Membership)
    → ((q : String) (v : ℕ) → a q v ≡ b q v)
    → (q : String) (v : ℕ) → abstract_call call a q v ≡ abstract_call call b q v
unfolding abstract_call
abstract_call-≡ (Call.connects ws user key) a b same q v = same q v
abstract_call-≡ (Call.disconnects ws user) a b same q v = ap (λ x. x && not (v == user)) (same q v)
abstract_call-≡ (Call.joins user room) a b same q v =
    ap (λ x. x || (str_eq room q && v == user)) (same q v)
abstract_call-≡ (Call.leaves user room) a b same q v =
    ap (λ x. x && not (str_eq room q && v == user)) (same q v)
abstract_call-≡ (Call.tells user message) a b same q v = same q v
abstract_call-≡ (Call.tells_room room message excluded) a b same q v = same q v
abstract_call-≡ (Call.tells_all message) a b same q v = same q v

abstract_calls-≡ :
    {t : Transport} (calls : List (Call t)) (a b : Membership)
    → ((q : String) (v : ℕ) → a q v ≡ b q v)
    → (q : String) (v : ℕ) → abstract_calls calls a q v ≡ abstract_calls calls b q v
unfolding abstract_calls
abstract_calls-≡ [] a b same = same
abstract_calls-≡ (call ∷ calls) a b same =
    abstract_calls-≡ calls (abstract_call call a) (abstract_call call b)
      (abstract_call-≡ call a b same)

run_call_lem :
    {t : Transport} (call : Call t) (m : Manager t) (q : String) (v : ℕ)
    → in_room q v (run_call call m) ≡ abstract_call call (λ r u. in_room r u m) q v
unfolding run_call abstract_call connect
run_call_lem (Call.connects ws user key) m q v = refl
run_call_lem (Call.disconnects ws user) m q v = in_room-disconnect q ws user v m
run_call_lem (Call.joins user room) m q v = in_room-join_room q room user v m
run_call_lem (Call.leaves user room) m q v = in_room-leave_room q room user v m
run_call_lem (Call.tells user message) m q v =
    in_room-≡ q v m (send_personal_model user message m) (send_personal_model-rooms user message m)
run_call_lem (Call.tells_room room message excluded) m q v =
    in_room-≡ q v m (broadcast_room room message excluded m)
      (broadcast_room-rooms room message excluded m)
run_call_lem (Call.tells_all message) m q v =
    in_room-≡ q v m (broadcast_all message m) (broadcast_all-rooms message m)

-- After any history of calls, whatever sockets do not take what they are sent, a user is in a room
-- exactly where the abstract rooms have the user: who joined and has not left since, nor lost a
-- connection.
pub run_calls_refines :
    {t : Transport} (calls : List (Call t)) (m : Manager t) (q : String) (v : ℕ)
    → in_room q v (run_calls calls m) ≡ abstract_calls calls (λ r u. in_room r u m) q v
unfolding run_calls abstract_calls
run_calls_refines [] m q v = refl
run_calls_refines (call ∷ calls) m q v =
    run_calls_refines calls (run_call call m) q v
    ∙ abstract_calls-≡ calls (λ r u. in_room r u (run_call call m))
        (abstract_call call (λ r u. in_room r u m)) (run_call_lem call m) q v
