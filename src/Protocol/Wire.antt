-- ===== src/Protocol/Wire.antt =====
-- The wire format by itself: the length field, the type byte, and the layout of a frame.
use custom_vpn_implementatio.Common.{
  ℕ, suc, ◌+◌, ◌<◌, ◌≡◌, refl, some, [], ◌∷◌, ◌++◌, Bytes, length, arith, IsBytes, length-append,
}
use custom_vpn_implementatio.Crypto.{Primitives}
use custom_vpn_implementatio.Protocol.{
  MessageType, handshake_client_hello, handshake_server_hello, handshake_client_response,
  handshake_server_done, data_request, data_response, error, value, of_value, pack, unpack, body_of,
}

pub of_value-value : (t : MessageType) → of_value (value t) ≡ some t
unfolding of_value value
of_value-value handshake_client_hello = refl
of_value-value handshake_server_hello = refl
of_value-value handshake_client_response = refl
of_value-value handshake_server_done = refl
of_value-value data_request = refl
of_value-value data_response = refl
of_value-value error = refl

-- A byte that is accepted is the code of the type that it gives.
pub value-of_value : (b : ℕ) (t : MessageType) → of_value b ≡ some t → value t ≡ b
unfolding of_value value
value-of_value b handshake_client_hello h = ground arith
value-of_value b _ h = ground arith

pub value-lt : (t : MessageType) → value t < 256
unfolding value
value-lt handshake_client_hello = omega arith
value-lt _ = omega arith

pub unpack-pack : (n : ℕ) → n < 4294967296 → unpack (pack n) ≡ n
unfolding pack unpack
unpack-pack n h = omega arith

pub length-pack : (n : ℕ) → length (pack n) ≡ 4
unfolding pack
length-pack n = refl

pub pack-unpack : (bs : Bytes) → length bs ≡ 4 → IsBytes bs → pack (unpack bs) ≡ bs
unfolding pack unpack
pack-unpack [] e h = absurd (omega arith)
pack-unpack (a ∷ []) e h = absurd (omega arith)
pack-unpack (a ∷ b ∷ []) e h = absurd (omega arith)
pack-unpack (a ∷ b ∷ c ∷ []) e h = absurd (omega arith)
pack-unpack (a ∷ b ∷ c ∷ d ∷ []) e h = ground arith
pack-unpack (a ∷ b ∷ c ∷ d ∷ x ∷ xs) e h = absurd (omega arith)

-- What a sender puts on the wire for a body: the length, the body and its HMAC.
unfoldable pub framed : Primitives → Bytes → Bytes → Bytes
framed p key body = pack (length body + 32) ++ (body ++ p.hmac_sha256 key body)

pub length-body_of :
    (t : MessageType) (session_id nonce payload : Bytes)
    → length (body_of t session_id nonce payload)
      ≡ suc (length session_id + (length nonce + length payload))
length-body_of t session_id nonce payload =
    omega (arith, length-append session_id (nonce ++ payload), length-append nonce payload)
