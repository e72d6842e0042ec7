-- ===== src/Auth/Transcript.antt =====
-- The four messages that two given worlds exchange, and the worlds between the stages.
use custom_vpn_implementatio.Common.{ℕ, suc, ◌+◌, ◌++◌, Bytes}
use custom_vpn_implementatio.World.{World, random_bytes}
use custom_vpn_implementatio.Crypto.{Primitives}
use custom_vpn_implementatio.Crypto.Utils.{compute_hmac}
use custom_vpn_implementatio.Protocol.{
  handshake_client_hello, handshake_server_hello, handshake_client_response, handshake_server_done,
}
use custom_vpn_implementatio.Json.{Json, Codec}
use custom_vpn_implementatio.Auth.{
  challenge_hmac_key, client_hello_json, server_hello_json, client_response_json, server_done_json,
}
use custom_vpn_implementatio.Auth.Messages.{sent, got}

-- What the client draws and says first.
abbrev pub client_nonce : World → Bytes
client_nonce w = random_bytes 16 w.random w.drawn

abbrev pub first_message : World → Json
first_message w = client_hello_json (client_nonce w) (w.clock w.readings)

abbrev pub server_nonce : World → Bytes
server_nonce w = random_bytes 16 w.random w.drawn

-- The session that the server makes up.
abbrev pub session_id : World → Bytes
session_id w = random_bytes 16 w.random w.drawn

abbrev pub session_key : World → Bytes
session_key w = random_bytes 32 w.random (w.drawn + 16)

abbrev pub oaep_seed : World → Bytes
oaep_seed w = random_bytes 32 w.random (w.drawn + 16 + 32)

module _ (p : Primitives) where
  abbrev pub hello_back : (nc ns : Bytes) (ts : ℕ) (sig : Bytes) → Json
  hello_back nc ns ts sig =
      server_hello_json ns ts (compute_hmac p (nc ++ ns) challenge_hmac_key) sig

  abbrev pub answer : (nc ns sig : Bytes) → Json
  answer nc ns sig = client_response_json (compute_hmac p (ns ++ nc) challenge_hmac_key) sig

  abbrev pub server_signature : (priv_s nc : Bytes) → World → Bytes
  server_signature priv_s nc w =
      p.rsa_sign priv_s (random_bytes 32 w.random (w.drawn + 16)) (nc ++ server_nonce w)

  abbrev pub second_message : (priv_s nc : Bytes) → World → Json
  second_message priv_s nc w =
      hello_back nc (server_nonce w) (w.clock w.readings) (server_signature priv_s nc w)

  abbrev pub client_signature : (priv_c nc ns : Bytes) → World → Bytes
  client_signature priv_c nc ns w = p.rsa_sign priv_c (random_bytes 32 w.random w.drawn) (ns ++ nc)

  abbrev pub third_message : (priv_c nc ns : Bytes) → World → Json
  third_message priv_c nc ns w = answer nc ns (client_signature priv_c nc ns w)

  abbrev pub done : (pub_c sid key seed : Bytes) → Json
  done pub_c sid key seed = server_done_json sid (p.rsa_encrypt pub_c seed key)

  abbrev pub last_message : (pub_c : Bytes) → World → Json
  last_message pub_c w = done pub_c (session_id w) (session_key w) (oaep_seed w)

module _ (p : Primitives) (c : Codec) where
  abbrev pub after_hello : World → World
  after_hello w =
      sent p c handshake_client_hello (first_message w)
        (record w { drawn = w.drawn + 16; readings = suc w.readings })

  abbrev pub after_check : Json → World → World
  after_check j w = record (got p c handshake_server_hello j w) { readings = suc w.readings }

  abbrev pub after_respond : (priv_c nc ns : Bytes) → World → World
  after_respond priv_c nc ns w =
      sent p c handshake_client_response (third_message p priv_c nc ns w)
        (record w { drawn = w.drawn + 32 })

  abbrev pub after_accept : Json → World → World
  after_accept j w = record (got p c handshake_client_hello j w) { readings = suc w.readings }

  abbrev pub after_server_hello : (priv_s nc : Bytes) → World → World
  after_server_hello priv_s nc w =
      sent p c handshake_server_hello (second_message p priv_s nc w)
        (record w { drawn = w.drawn + 16 + 32; readings = suc w.readings })

  abbrev pub after_finish : (pub_c : Bytes) → World → World
  after_finish pub_c w =
      sent p c handshake_server_done (last_message p pub_c w)
        (record w { drawn = w.drawn + 16 + 32 + 32 })
