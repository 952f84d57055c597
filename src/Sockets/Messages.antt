-- ===== src/Sockets/Messages.antt =====
-- backend/src/apps/websocket/schemas/messages.py and crypto.py: the messages, and what stands outside
-- the repository.
use slot_booking.Base.{ℕ, Bool, String, Option, some, ◌≡◌}

-- `WSMessageType` of what the server sends.
pub data Outbound : Type 0 where
  pong : Outbound
  ack : Option String → Outbound
  error : ℕ → String → Outbound
  presence : String → ℕ → Bool → Outbound
  room_message : String → ℕ → String → Outbound
  event : String → String → Option String → Option ℕ → Outbound
  system : String → Outbound

-- What a client sends, by its `type`: the six types that are handled, the types of the server, texts
-- that are no type, and messages that lack a field of their type.
pub data Inbound : Type 0 where
  ping : Inbound
  join_room leave_room : String → Inbound
  message : String → String → Inbound
  broadcast : String → Inbound
  typing : String → Bool → Inbound
  unhandled : String → Inbound
  unknown : String → Inbound
  malformed : Inbound

-- `msg_type` of a message, as the frame shows it
abbrev pub type_of : Outbound → String
type_of Outbound.pong = "pong"
type_of (Outbound.ack ref) = "ack"
type_of (Outbound.error code detail) = "error"
type_of (Outbound.presence room user online) = "presence"
type_of (Outbound.room_message room sender text) = "message"
type_of (Outbound.event name text room sender) = "event"
type_of (Outbound.system text) = "system"

-- `WSEncryptedFrame`
pub record WsEncryptedFrame : Type 0 where
  pub type : String
  pub iv : String
  pub data_ : String

-- The functions of the `cryptography` library and of `base64`, with bytes as texts: HKDF by its info
-- and input, AES-GCM by key, nonce and text, the nonces of `os.urandom`; the JSON of messages and
-- frames; the text of an id; and whether a socket takes what is sent to it, by how many frames were made before.
pub record Transport : Type 1 where
  pub hkdf_sha256 : String → String → String
  pub aes_gcm_encrypt : String → String → String → String
  pub aes_gcm_decrypt : String → String → String → Option String
  pub urandom : ℕ → String
  pub b64encode : String → String
  pub b64decode : String → Option String
  pub model_dump_json : Outbound → String
  pub encode_id : ℕ → String
  pub parse_frame : String → Option WsEncryptedFrame
  pub loads : String → Option (Inbound × Option String)
  pub typing_data : String → Bool → String
  pub accepts : ℕ → ℕ → Bool

-- What the library promises: who has key and nonce reads what was encrypted, and base64 is undone.
pub record CipherLaws (t : Transport) : Type 0 where
  pub aes_gcm_decrypt-encrypt :
      (key iv plaintext : String)
      → t.aes_gcm_decrypt key iv (t.aes_gcm_encrypt key iv plaintext) ≡ some plaintext
  pub b64decode-b64encode : (bytes : String) → t.b64decode (t.b64encode bytes) ≡ some bytes
