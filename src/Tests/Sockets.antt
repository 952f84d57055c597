-- ===== src/Tests/Sockets.antt =====
-- The connection manager at concrete inputs: user 10 on two devices and user 11 on one, in a room.
use slot_booking.Base.{
  arith, ℕ, ◌≡◌, refl, String, Bool, true, false, not, List, [], ◌∷◌, ◌++◌, Option, none, some,
  ◌==◌,
}
use slot_booking.Base.Text.{str, ◌+++◌}
use text.Mathlib.TextLemmas.{nil-append, cons-append}
use slot_booking.Base.Dict.{lookup}
use slot_booking.Sockets.{Transport, CipherLaws, Outbound}
use slot_booking.Sockets.Manager.{
  Manager, Given, connections_of, disconnect, broadcast_room, send_personal_model, is_online,
}
use slot_booking.Sockets.Manager.Rooms.{in_room}
use slot_booking.Sockets.Manager.Histories.{Call, run_calls, abstract_calls, run_calls_refines}
use slot_booking.Sockets.Manager.Presence.{send_personal_model_dead}
use slot_booking.Sockets.Manager.Silence.{IsOnlyOf, given_to, disconnect_leaves_rooms}
use slot_booking.Sockets.Manager.Frames.{Reads, send_personal_model-Reads}

-- A text without a prefix that it has.
without_prefix : String → String → Option String
without_prefix String.[] text = some text
without_prefix (String.◌∷◌ c key) String.[] = none
without_prefix (String.◌∷◌ c key) (String.◌∷◌ d text) = without_prefix key text

without_prefix_own : (key text : String) → without_prefix key (key +++ text) ≡ some text
unfolding without_prefix
without_prefix_own String.[] text = rw nil-append refl
without_prefix_own (String.◌∷◌ c key) text =
    rw (cons-append c key text) (without_prefix_own key text)

-- A cipher that puts the key before the text, and sockets that take what they are sent by a test.
abbrev transport : (ℕ → Bool) → Transport
transport takes = record {
  hkdf_sha256 = λ info input. input;
  aes_gcm_encrypt = λ key iv plaintext. key +++ plaintext;
  aes_gcm_decrypt = λ key iv ciphertext. without_prefix key ciphertext;
  urandom = str;
  b64encode = λ bytes. bytes;
  b64decode = some;
  parse_frame = λ raw. none;
  model_dump_json = λ message. "{}";
  encode_id = str;
  loads = λ text. none;
  typing_data = λ user is_typing. user;
  accepts = λ ws n. takes ws;
}

abbrev all : ℕ → Bool
all ws = true

abbrev but_third : ℕ → Bool
but_third ws = not (ws == 3)

cipher_laws : (takes : ℕ → Bool) → CipherLaws (transport takes)
cipher_laws takes = record {
  aes_gcm_decrypt-encrypt = λ key iv plaintext. without_prefix_own key plaintext;
  b64decode-b64encode = λ bytes. refl;
}

abbrev empty_manager : (takes : ℕ → Bool) → Manager (transport takes)
empty_manager takes = record { user_connections = []; rooms = []; drawn = 0; outbox = [] }

abbrev two_devices : (takes : ℕ → Bool) → Manager (transport takes)
two_devices takes = record {
  user_connections = (10, (1, "k71") ∷ (2, "k72") ∷ []) ∷ (11, (3, "k73") ∷ []) ∷ [];
  rooms = ("orders", 10 ∷ 11 ∷ []) ∷ [];
  drawn = 0;
  outbox = [];
}

abbrev history : List (Call (transport all))
history =
    Call.connects 1 10 "k71"
    ∷ Call.joins 10 "orders"
    ∷ Call.tells_room "orders" Outbound.pong none
    ∷ Call.connects 2 10 "k72"
    ∷ Call.disconnects 1 10
    ∷ []

history_example :
    in_room "orders" 10 (run_calls history (empty_manager all))
    ≡ abstract_calls history (λ r u. in_room r u (empty_manager all)) "orders" 10
history_example = run_calls_refines history (empty_manager all) "orders" 10

IsOnlyOf-ten : IsOnlyOf 2 10 (two_devices all)
IsOnlyOf-ten v ne = ground arith

one_left_example :
    let m' = disconnect 1 10 (two_devices all) in
    (lookup ◌==◌ 2 (connections_of 10 m') ≡ some "k72")
    × (in_room "orders" 10 m' ≡ false)
    × ((message : Outbound) (excluded : Option ℕ)
        → given_to 2 (broadcast_room "orders" message excluded m') ≡ given_to 2 m')
one_left_example =
    disconnect_leaves_rooms 1 2 10 "k72" (two_devices all) "orders" refl refl IsOnlyOf-ten

dead_example :
    (connections_of 11 (send_personal_model 11 Outbound.pong (two_devices but_third)) ≡ [])
    × (is_online 11 (send_personal_model 11 Outbound.pong (two_devices but_third)) ≡ true)
dead_example = send_personal_model_dead 3 11 "k73" Outbound.pong (two_devices but_third) refl refl

abbrev told : Manager (transport all)
told = send_personal_model 10 Outbound.pong (two_devices all)

told_example :
    (connections_of 10 told ≡ connections_of 10 (two_devices all))
    × ((given : List (ℕ × Given)) × (told.outbox ≡ [] ++ given)
        × Reads (transport all) "{}" ((1, "k71") ∷ (2, "k72") ∷ []) given)
told_example =
    send_personal_model-Reads (cipher_laws all) 10 Outbound.pong (two_devices all) (λ ws n. refl)
