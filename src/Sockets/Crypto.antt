-- ===== src/Sockets/Crypto.antt =====
-- backend/src/apps/websocket/crypto.py, over the library's AES-GCM, HKDF and base64.
use slot_booking.Base.{ℕ, String, Option, none, some, ◌≡◌, arith}
use slot_booking.Base.Text.{◌+++◌}
use slot_booking.Sockets.Messages.{Transport, CipherLaws}

module _ (t : Transport) where
  unfoldable pub derive_session_key : String → String
  derive_session_key jti = t.hkdf_sha256 ("ws-session-key:" +++ jti) jti

  unfoldable pub session_key_b64 : String → String
  session_key_b64 jti = t.b64encode (derive_session_key jti)

  -- `encrypt(plaintext, key)`, with the nonce that is drawn as the `n`th
  unfoldable pub encrypt : ℕ → String → String → String × String
  encrypt n plaintext key =
      let iv = t.urandom n in (t.b64encode iv, t.b64encode (t.aes_gcm_encrypt key iv plaintext))

  -- `decrypt`, with `none` where it raises
  unfoldable pub decrypt : String → String → String → Option String
  decrypt iv_b64 ciphertext_b64 key = elim (t.b64decode iv_b64) [
    | none ↦ none
    | some iv ↦ elim (t.b64decode ciphertext_b64) [
      | none ↦ none
      | some ciphertext ↦ t.aes_gcm_decrypt key iv ciphertext
    ]
  ]

  pub decrypt-encrypt :
      (laws : CipherLaws t) (n : ℕ) (plaintext key : String)
      → decrypt (encrypt n plaintext key).0 (encrypt n plaintext key).1 key ≡ some plaintext
  unfolding decrypt encrypt
  decrypt-encrypt laws n plaintext key = ground (
    arith,
    laws.b64decode-b64encode (t.urandom n),
    laws.b64decode-b64encode (t.aes_gcm_encrypt key (t.urandom n) plaintext),
    laws.aes_gcm_decrypt-encrypt key (t.urandom n) plaintext,
  )
