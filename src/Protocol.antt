-- ===== src/Protocol.antt =====
-- crypto/protocol.py: message types, and frames on the wire.
mod Receive
pub use Receive.{recv_exact_lem, recv_exact_short, recv_exact_enough}
unfoldable pub use Receive.{recv_loop, recv_exact}
pub mod Wire
pub mod Accept
pub mod Sound
pub mod RoundTrip
pub mod Delivery
pub mod Progress
mod Tests
use custom_vpn_implementatio.Common.{
  ℕ, ◌+◌, ◌-◌, ◌*◌, ◌/◌, ◌%◌, Bool, not, Option, none, some, List, [], ◌∷◌, ◌++◌, Bytes, length,
  take, drop, replicate, ltb, ◌==◌, if◌then◌else◌,
}
use custom_vpn_implementatio.Common.Exec.{
  ◌>>=◌, ◌>>◌, pure, raise, raise_if, value_error, bad_session_id, frame_too_large, frame_too_small,
  hmac_failed, bad_msg_type, other,
}
use custom_vpn_implementatio.World.{Action, sendall}
use custom_vpn_implementatio.Crypto.{Primitives}
use custom_vpn_implementatio.Crypto.Utils.{
  gcm_nonce_size, hmac_digest_size, encrypt_payload, decrypt_payload, compute_hmac, verify_hmac,
}

abbrev pub header_size : ℕ
header_size = 4

abbrev pub session_id_size : ℕ
session_id_size = 16

abbrev pub max_frame_size : ℕ
max_frame_size = 16777216

abbrev pub handshake_hmac_key : Bytes
handshake_hmac_key = replicate 32 0

pub data MessageType : Type 0 where
  handshake_client_hello handshake_server_hello : MessageType
  handshake_client_response handshake_server_done : MessageType
  data_request data_response error : MessageType

-- `int(msg_type)`
unfoldable pub value : MessageType → ℕ
value handshake_client_hello = 0x01
value handshake_server_hello = 0x02
value handshake_client_response = 0x03
value handshake_server_done = 0x04
value data_request = 0x10
value data_response = 0x11
value error = 0xFF

-- `MessageType(b)`
unfoldable pub of_value : ℕ → Option MessageType
of_value b =
    if b == 0x01
    then some handshake_client_hello
    else if b == 0x02
    then some handshake_server_hello
    else if b == 0x03
    then some handshake_client_response
    else if b == 0x04
    then some handshake_server_done
    else if b == 0x10
    then some data_request
    else if b == 0x11
    then some data_response
    else if b == 0xFF
    then some error
    else none

-- `struct.pack("!I", n)`, for n below 2 ^ 32, and `struct.unpack`.
unfoldable pub pack : ℕ → Bytes
pack n = n / 16777216 % 256 ∷ n / 65536 % 256 ∷ n / 256 % 256 ∷ n % 256 ∷ []

unfoldable pub unpack : Bytes → ℕ
unpack (a ∷ b ∷ c ∷ d ∷ []) = a * 16777216 + b * 65536 + c * 256 + d
unpack _ = 0

-- `mac_key or HANDSHAKE_HMAC_KEY`: an empty key is replaced too.
unfoldable pub or_handshake_key : Option Bytes → Bytes
or_handshake_key none = handshake_hmac_key
or_handshake_key (some []) = handshake_hmac_key
or_handshake_key (some (b ∷ bs)) = b ∷ bs

-- Everything between total_len and the HMAC.
abbrev pub body_of : MessageType → Bytes → Bytes → Bytes → Bytes
body_of msg_type session_id nonce enc_payload =
    value msg_type ∷ (session_id ++ (nonce ++ enc_payload))

abbrev pub or_bad_type : Option MessageType → Action MessageType
or_bad_type none = raise (value_error bad_msg_type)
or_bad_type (some t) = pure t

-- `MessageType(body[0])`
abbrev pub first_type : Bytes → Action MessageType
first_type [] = raise other
first_type (b ∷ bs) = or_bad_type (of_value b)

-- The least total_len: an empty payload.
abbrev pub min_body : ℕ
min_body = 1 + session_id_size + gcm_nonce_size + hmac_digest_size

module _ (p : Primitives) where
  unfoldable pub protect : Bytes → Option Bytes → Action (Bytes × Bytes)
  protect payload none = pure (payload, replicate gcm_nonce_size 0)
  protect payload (some key) = encrypt_payload p payload key

  unfoldable pub send_frame :
      MessageType → Bytes → Bytes → Option Bytes → Option Bytes → Action (Unit {0})
  send_frame msg_type session_id payload enc_key mac_key = do
    raise_if (not (length session_id == session_id_size)) (value_error bad_session_id)
    (enc_payload, nonce) ← protect payload enc_key
    let body = body_of msg_type session_id nonce enc_payload
    let mac = compute_hmac p body (or_handshake_key mac_key)
    let total_len = length body + hmac_digest_size
    raise_if (ltb max_frame_size total_len) (value_error frame_too_large)
    sendall (pack total_len ++ (body ++ mac))

  unfoldable pub unprotect : Bytes → Bytes → Option Bytes → Action Bytes
  unprotect enc_payload nonce none = pure enc_payload
  unprotect enc_payload nonce (some key) = decrypt_payload p enc_payload nonce key

  -- `recv_frame` from the type byte on.
  unfoldable pub parse_body : Bytes → Option Bytes → Action (MessageType × Bytes × Bytes)
  parse_body body enc_key = do
    msg_type ← first_type body
    let session_id = take session_id_size (drop 1 body)
    let nonce = take gcm_nonce_size (drop (1 + session_id_size) body)
    let enc_payload = drop (1 + session_id_size + gcm_nonce_size) body
    payload ← unprotect enc_payload nonce enc_key
    pure (msg_type, session_id, payload)

  -- `recv_frame` from the last read on.
  unfoldable pub open_frame :
      Bytes → Option Bytes → Option Bytes → Action (MessageType × Bytes × Bytes)
  open_frame raw enc_key mac_key = do
    let cut = length raw - hmac_digest_size
    let body = take cut raw
    let received_mac = drop cut raw
    raise_if (not (verify_hmac p body received_mac (or_handshake_key mac_key)))
        (value_error hmac_failed)
    parse_body body enc_key

  unfoldable pub recv_frame : Option Bytes → Option Bytes → Action (MessageType × Bytes × Bytes)
  recv_frame enc_key mac_key = do
    header ← recv_exact header_size
    let total_len = unpack header
    raise_if (ltb max_frame_size total_len) (value_error frame_too_large)
    raise_if (ltb total_len min_body) (value_error frame_too_small)
    raw ← recv_exact total_len
    open_frame raw enc_key mac_key
