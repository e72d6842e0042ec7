-- ===== src/Auth/Parts.antt =====
-- auth/signatures.py, and the constants, messages and small functions of auth/handshake.py.
use custom_vpn_implementatio.Common.{
  ℕ, ◌+◌, ◌-◌, ◌*◌, ◌^◌, Bool, true, false, Option, none, some, Bytes, Text, codes, replicate, ltb,
  ◌==◌, if◌then◌else◌,
}
use custom_vpn_implementatio.Common.Exec.{
  ◌>>=◌, ◌>>◌, pure, raise, lift, Result, ok, err, Exn, value_error, bad_json, type_error,
  overflow_error, decryption_failed,
}
use custom_vpn_implementatio.World.{Action, urandom}
use custom_vpn_implementatio.Crypto.{Primitives}
use custom_vpn_implementatio.Protocol.{MessageType, error, value, session_id_size, send_frame}
use custom_vpn_implementatio.Json.{
  Json, bool, num, str, obj, end, member, Number, int, minus_int, float, minus_float, nan, infinity,
  minus_infinity, Codec, subscript, bytes_fromhex,
}
use custom_vpn_implementatio.Json.Hex.{hex}

abbrev pub max_timestamp_drift : ℕ
max_timestamp_drift = 300

-- `b"challenge"`
abbrev pub challenge_hmac_key : Bytes
challenge_hmac_key = codes "challenge"

abbrev pub null_sid : Bytes
null_sid = replicate session_id_size 0

abbrev distance : ℕ → ℕ → ℕ
distance a b = if ltb a b then b - a else a - b

-- The least integer that is rounded to no float: `float - int` raises `OverflowError` from there on.
unfoldable pub float_limit : ℕ
float_limit = 2 ^ 1024 - 2 ^ 970

abbrev as_float : ℕ → Bool → Result Bool
as_float n b = if ltb n float_limit then ok b else err overflow_error

-- The drift test, `abs(time.time() - ts) > MAX_TIMESTAMP_DRIFT`, for the time `now` in ticks and
-- `second` ticks to a second. A comparison with NaN is false; a bool is an int.
abbrev pub drifts : (second now : ℕ) → Number → Result Bool
drifts second now (int n) =
    as_float n (ltb (max_timestamp_drift * second) (distance now (n * second)))
drifts second now (minus_int n) = as_float n (ltb (max_timestamp_drift * second) (now + n * second))
drifts second now (float t) = ok (ltb (max_timestamp_drift * second) (distance now t))
drifts second now (minus_float t) = ok (ltb (max_timestamp_drift * second) (now + t))
drifts second now nan = ok false
drifts second now infinity = ok true
drifts second now minus_infinity = ok true

unfoldable pub is_stale : (second now : ℕ) → Json → Result Bool
is_stale second now (num n) = drifts second now n
is_stale second now (bool b) = drifts second now (int (if b then 1 else 0))
is_stale second now _ = err type_error

abbrev pub is_type : MessageType → MessageType → Bool
is_type t u = value t == value u

-- `_send_error`: whatever goes wrong in it is ignored.
abbrev pub ignore_errors : Action (Unit {0}) → Action (Unit {0})
ignore_errors m w = (ok tt, (m w).1)

module _ (p : Primitives) where
  unfoldable pub sign_data : Bytes → Bytes → Action Bytes
  sign_data message private_key = do seed ← urandom 32; pure (p.rsa_sign private_key seed message)

  unfoldable pub verify_signature : Bytes → Bytes → Bytes → Bool
  verify_signature message signature public_key = p.rsa_verify public_key signature message

  unfoldable pub send_error : Text → Action (Unit {0})
  send_error message = ignore_errors (send_frame p error null_sid message none none)

  -- Send an ERROR frame and raise, if the test says so.
  abbrev pub reject_if : Bool → Text → Exn → Action (Unit {0})
  reject_if true message e = send_error message >> raise e
  reject_if false message e = pure tt

module _ (c : Codec) where
  abbrev pub or_bad_json : Option Json → Result Json
  or_bad_json none = err (value_error bad_json)
  or_bad_json (some j) = ok j

  -- `_encode_hs` and `_decode_hs`
  abbrev pub encode_hs : Json → Bytes
  encode_hs j = c.dumps j

  unfoldable pub decode_hs : Bytes → Result Json
  decode_hs bytes = or_bad_json (c.loads bytes)

-- `bytes.fromhex(j[k])`
unfoldable pub hex_field : Json → Text → Action Bytes
hex_field j k = do v ← lift (subscript j k); lift (bytes_fromhex v)

-- The four messages.
abbrev pub client_hello_json : Bytes → ℕ → Json
client_hello_json nonce_c ts =
    obj (
      member (codes "nonce_c") (str (hex nonce_c))
        (member (codes "timestamp") (num (float ts)) end))

abbrev pub server_hello_json : Bytes → ℕ → Bytes → Bytes → Json
server_hello_json nonce_s ts challenge signature = obj (
    member (codes "nonce_s") (str (hex nonce_s)) (
      member (codes "timestamp") (num (float ts)) (
        member (codes "challenge") (str (hex challenge))
          (member (codes "signature") (str (hex signature)) end))))

abbrev pub client_response_json : Bytes → Bytes → Json
client_response_json challenge_response signature = obj (
    member (codes "challenge_response") (str (hex challenge_response))
      (member (codes "signature") (str (hex signature)) end))

abbrev pub server_done_json : Bytes → Bytes → Json
server_done_json session_id encrypted_session_key = obj (
    member (codes "session_id") (str (hex session_id))
      (member (codes "encrypted_session_key") (str (hex encrypted_session_key)) end))

abbrev pub or_decryption_failed : Option Bytes → Action Bytes
or_decryption_failed none = raise (value_error decryption_failed)
or_decryption_failed (some key) = pure key
