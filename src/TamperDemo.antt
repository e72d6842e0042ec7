-- ===== src/TamperDemo.antt =====
-- scripts/tamper_demo.py: a frame whose bytes are changed on the way, and what the demo makes of the
-- server's reaction.
pub mod Rejected
mod Tests
use Prim.Native.Nat.{bit_xor}
use custom_vpn_implementatio.Common.{
  ℕ, zero, suc, ◌+◌, Bool, true, false, Option, none, some, List, [], ◌∷◌, ◌++◌, Bytes, codes,
  length,
}
use custom_vpn_implementatio.Common.Exec.{
  ◌>>=◌, ◌>>◌, pure, raise, lift, caught, Exn, Result, ok, err, connection_error, timeout, os_error,
  would_block, value_error, bad_json, key_error, type_error,
}
use custom_vpn_implementatio.World.{World, Action, recv, sendall}
use custom_vpn_implementatio.Crypto.{Primitives}
use custom_vpn_implementatio.Crypto.Utils.{
  gcm_nonce_size, hmac_digest_size, encrypt_payload, compute_hmac,
}
use custom_vpn_implementatio.Protocol.{
  MessageType, data_request, data_response, header_size, session_id_size, pack, body_of, send_frame,
  recv_frame,
}
use custom_vpn_implementatio.Json.{Json, str, obj, Members, end, member, Codec, find}
use custom_vpn_implementatio.Auth.{is_type, client_handshake}

-- `frame[i] ^= mask`. A frame that is too short raises in the source, and none of the demo's is.
unfoldable pub xor_at : (i mask : ℕ) → Bytes → Bytes
xor_at i mask [] = []
xor_at zero mask (b ∷ bs) = bit_xor b mask ∷ bs
xor_at (suc i) mask (b ∷ bs) = b ∷ xor_at i mask bs

abbrev pub tamper_pos : ℕ
tamper_pos = header_size + 1 + session_id_size + gcm_nonce_size + 5

-- The three changes.
unfoldable pub tampered : Bytes → Bytes
tampered frame =
    xor_at (tamper_pos + 2) 0x55 (xor_at (tamper_pos + 1) 0xAA (xor_at tamper_pos 0xFF frame))

-- The payload of the frame that is changed.
abbrev pub demo_payload : Bytes
demo_payload =
    codes "{\"method\":\"GET\",\"url\":\"http://example.com\",\"headers\":{},\"body\":\"\"}"

-- What the demo says at its end: it received so many bytes, the server closed the connection or
-- reset it, or the sending failed.
pub data Verdict : Type 0 where
  received : ℕ → Verdict
  closed_by_server reset_by_server broken_connection : Verdict

-- `except (…, socket.error)`: OSError with its subclasses, a timeout among them.
abbrev pub if_os_error : Exn → Verdict → Action Verdict
if_os_error connection_error v = pure v
if_os_error timeout v = pure v
if_os_error would_block v = pure v
if_os_error os_error v = pure v
if_os_error e v = raise e

abbrev pub after_recv : Result Bytes → Action Verdict
after_recv (ok []) = pure closed_by_server
after_recv (ok (b ∷ bs)) = pure (received (length (b ∷ bs)))
after_recv (err e) = if_os_error e reset_by_server

abbrev pub after_sendall : Result (Unit {0}) → Action Verdict
after_sendall (ok u) = do r ← caught (recv 4096); after_recv r
after_sendall (err e) = if_os_error e broken_connection

abbrev pub status_code : Option Json → Result Json
status_code none = err (value_error bad_json)
status_code (some (obj m)) = elim (find (codes "status_code") m) [
  | none ↦ err key_error
  | some v ↦ ok v
]
status_code (some j) = err type_error

module _ (p : Primitives) where
  -- The frame is put together by hand, changed, and sent.
  unfoldable pub send_tampered : (session_id enc_key mac_key : Bytes) → Action (Unit {0})
  send_tampered session_id enc_key mac_key = do
    (enc_payload, nonce) ← encrypt_payload p demo_payload enc_key
    let body = body_of data_request session_id nonce enc_payload
    let mac = compute_hmac p body mac_key
    let total_len = length body + hmac_digest_size
    sendall (tampered (pack total_len ++ (body ++ mac)))

module _ (second : ℕ) (p : Primitives) (c : Codec) where
  abbrev pub demo_request : Bytes
  demo_request = c.dumps (
      obj (
        member (codes "method") (str (codes "GET")) (
          member (codes "url") (str (codes "http://httpbin.org/ip"))
            (member (codes "headers") (obj end) (member (codes "body") (str []) end)))))

  abbrev pub show_response : MessageType → Bytes → Action (Unit {0})
  show_response msg_type response = elim (is_type msg_type data_response) [
    | true ↦ lift (status_code (c.loads response)) >> pure tt
    | false ↦ pure tt
  ]

  -- `main`, on a connected socket.
  unfoldable pub demo : (client_priv server_pub : Bytes) → Action Verdict
  demo client_priv server_pub = do
    (session_id, enc_key, mac_key) ← client_handshake second p c client_priv server_pub
    send_frame p data_request session_id demo_request (some enc_key) (some mac_key)
    (msg_type, sid, response) ← recv_frame p (some enc_key) (some mac_key)
    show_response msg_type response
    r ← caught (send_tampered p session_id enc_key mac_key)
    after_sendall r
