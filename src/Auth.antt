-- ===== src/Auth.antt =====
-- auth/signatures.py and auth/handshake.py. Each side of the handshake is the sequence of its four
-- stages. The random bytes of RSA padding are drawn like those of `os.urandom`.
mod Parts
pub mod Messages
pub mod Transcript
pub mod Client
pub mod Server
pub mod Agreement
pub mod Authentic
pub mod Freshness
mod Tests
pub use Parts.{
  max_timestamp_drift, challenge_hmac_key, null_sid, drifts, is_type, ignore_errors, reject_if,
  encode_hs, or_bad_json, client_hello_json, server_hello_json, client_response_json,
  server_done_json, or_decryption_failed,
}
unfoldable pub use Parts.{
  float_limit, is_stale, sign_data, verify_signature, send_error, decode_hs, hex_field,
}
use custom_vpn_implementatio.Common.{ℕ, ◌+◌, not, none, some, ◌++◌, Bytes, codes}
use custom_vpn_implementatio.Common.Exec.{
  ◌>>=◌, ◌>>◌, pure, raise_if, lift, value_error, unexpected_message, stale_timestamp,
  bad_signature, bad_challenge, rejected,
}
use custom_vpn_implementatio.World.{Action, urandom, time}
use custom_vpn_implementatio.Crypto.{Primitives}
use custom_vpn_implementatio.Crypto.Utils.{
  generate_session_key, compute_hmac, verify_hmac, derive_keys, default_info,
}
use custom_vpn_implementatio.Protocol.{
  MessageType, handshake_client_hello, handshake_server_hello, handshake_client_response,
  handshake_server_done, error, session_id_size, send_frame, recv_frame,
}
use custom_vpn_implementatio.Json.{Json, Codec, subscript}

module _ (p : Primitives) (c : Codec) where
  -- `recv_frame` of one message of the handshake, of the expected type.
  unfoldable pub receive : MessageType → Action Json
  receive expected = do
    (msg_type, sid, payload) ← recv_frame p none none
    raise_if (not (is_type msg_type expected)) (value_error unexpected_message)
    lift (decode_hs c payload)

module _ (second : ℕ) (p : Primitives) (c : Codec) where
  -- client_handshake, 1: ClientHello
  unfoldable pub client_hello : Action Bytes
  client_hello = do
    nonce_c ← urandom 16
    ts ← time
    send_frame p handshake_client_hello null_sid (encode_hs c (client_hello_json nonce_c ts)) none
        none
    pure nonce_c

  -- client_handshake, 2: ServerHello and its checks
  unfoldable pub client_check : (server_public_key nonce_c : Bytes) → Action Bytes
  client_check server_public_key nonce_c = do
    sh ← receive p c handshake_server_hello
    nonce_s ← hex_field sh (codes "nonce_s")
    ts ← lift (subscript sh (codes "timestamp"))
    challenge ← hex_field sh (codes "challenge")
    signature ← hex_field sh (codes "signature")
    now ← time
    stale ← lift (is_stale second now ts)
    raise_if stale (value_error stale_timestamp)
    raise_if (not (verify_signature p (nonce_c ++ nonce_s) signature server_public_key))
        (value_error bad_signature)
    raise_if (not (verify_hmac p (nonce_c ++ nonce_s) challenge challenge_hmac_key))
        (value_error bad_challenge)
    pure nonce_s

  -- client_handshake, 3: ClientResponse
  unfoldable pub client_respond : (client_private_key nonce_c nonce_s : Bytes) → Action (Unit {0})
  client_respond client_private_key nonce_c nonce_s = do
    let challenge_response = compute_hmac p (nonce_s ++ nonce_c) challenge_hmac_key
    signature ← sign_data p (nonce_s ++ nonce_c) client_private_key
    send_frame p handshake_client_response null_sid
        (encode_hs c (client_response_json challenge_response signature)) none none

  -- client_handshake, 4: ServerDone
  unfoldable pub client_finish : Bytes → Action (Bytes × Bytes × Bytes)
  client_finish client_private_key = do
    (msg_type, sid, payload) ← recv_frame p none none
    raise_if (is_type msg_type error) (value_error rejected)
    raise_if (not (is_type msg_type handshake_server_done)) (value_error unexpected_message)
    sd ← lift (decode_hs c payload)
    session_id ← hex_field sd (codes "session_id")
    encrypted_session_key ← hex_field sd (codes "encrypted_session_key")
    session_key ← or_decryption_failed (p.rsa_decrypt client_private_key encrypted_session_key)
    let (enc_key, mac_key) = derive_keys p session_key (some session_id) default_info
    pure (session_id, enc_key, mac_key)

  unfoldable pub client_handshake :
      (client_private_key server_public_key : Bytes) → Action (Bytes × Bytes × Bytes)
  client_handshake client_private_key server_public_key = do
    nonce_c ← client_hello
    nonce_s ← client_check server_public_key nonce_c
    client_respond client_private_key nonce_c nonce_s
    client_finish client_private_key

  -- server_handshake, 1: ClientHello
  unfoldable pub server_accept : Action Bytes
  server_accept = do
    ch ← receive p c handshake_client_hello
    nonce_c ← hex_field ch (codes "nonce_c")
    ts ← lift (subscript ch (codes "timestamp"))
    now ← time
    stale ← lift (is_stale second now ts)
    reject_if p stale (codes "ClientHello timestamp outside acceptable window")
        (value_error stale_timestamp)
    pure nonce_c

  -- server_handshake, 2: ServerHello
  unfoldable pub server_hello : (server_private_key nonce_c : Bytes) → Action Bytes
  server_hello server_private_key nonce_c = do
    nonce_s ← urandom 16
    ts ← time
    let challenge = compute_hmac p (nonce_c ++ nonce_s) challenge_hmac_key
    signature ← sign_data p (nonce_c ++ nonce_s) server_private_key
    send_frame p handshake_server_hello null_sid
        (encode_hs c (server_hello_json nonce_s ts challenge signature)) none none
    pure nonce_s

  -- server_handshake, 3: ClientResponse and its checks
  unfoldable pub server_check : (client_public_key nonce_c nonce_s : Bytes) → Action (Unit {0})
  server_check client_public_key nonce_c nonce_s = do
    cr ← receive p c handshake_client_response
    challenge_response ← hex_field cr (codes "challenge_response")
    signature ← hex_field cr (codes "signature")
    reject_if p (not (verify_hmac p (nonce_s ++ nonce_c) challenge_response challenge_hmac_key))
        (codes "Challenge response HMAC mismatch") (value_error bad_challenge)
    reject_if p (not (verify_signature p (nonce_s ++ nonce_c) signature client_public_key))
        (codes "Client signature verification failed") (value_error bad_signature)

  -- server_handshake, 4: ServerDone
  unfoldable pub server_finish : Bytes → Action (Bytes × Bytes × Bytes)
  server_finish client_public_key = do
    session_id ← urandom session_id_size
    session_key ← generate_session_key
    seed ← urandom 32
    let encrypted_session_key = p.rsa_encrypt client_public_key seed session_key
    send_frame p handshake_server_done null_sid
        (encode_hs c (server_done_json session_id encrypted_session_key)) none none
    let (enc_key, mac_key) = derive_keys p session_key (some session_id) default_info
    pure (session_id, enc_key, mac_key)

  unfoldable pub server_handshake :
      (server_private_key client_public_key : Bytes) → Action (Bytes × Bytes × Bytes)
  server_handshake server_private_key client_public_key = do
    nonce_c ← server_accept
    nonce_s ← server_hello server_private_key nonce_c
    server_check client_public_key nonce_c nonce_s
    server_finish client_public_key
