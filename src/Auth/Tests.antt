-- ===== src/Auth/Tests.antt =====
-- Handshakes with a concrete cipher suite and codec.
use custom_vpn_implementatio.Common.{
  ◌≡◌, refl, ◌∙◌, true, [], ◌∷◌, ◌++◌, Bytes, codes, arith, append-nil,
}
use custom_vpn_implementatio.Common.Exec.{ok}
use custom_vpn_implementatio.World.{World, requeue}
use custom_vpn_implementatio.World.Sample.{calm}
use custom_vpn_implementatio.World.Stream.{stream-requeue}
use custom_vpn_implementatio.Crypto.Toy.{toy, toy-Laws}
use custom_vpn_implementatio.Crypto.Utils.{compute_hmac}
use custom_vpn_implementatio.Json.Toy
use custom_vpn_implementatio.Json.{Json, int, nan}
use custom_vpn_implementatio.Json.Hex.{hex}
use custom_vpn_implementatio.Protocol.{
  handshake_client_hello, handshake_server_hello, handshake_client_response, handshake_server_done,
}
use custom_vpn_implementatio.Auth.{
  server_accept, server_hello, client_hello, client_handshake, server_handshake,
}
use custom_vpn_implementatio.Auth.Messages.{message, got}
use custom_vpn_implementatio.Auth.Transcript.{first_message, client_nonce, server_nonce}
use custom_vpn_implementatio.Auth.Agreement.{reply, proof, session, agreed, handshake_agreement}
use custom_vpn_implementatio.Auth.Authentic.{
  Received, Field, server_handshake-IsAuthentic, client_handshake-IsAuthentic,
}
use custom_vpn_implementatio.Auth.Freshness.{hello_at, server_accept-nan}

abbrev late : World
late = calm (requeue (message toy Toy.toy handshake_client_hello (hello_at [] (int 1))) [])

abbrev odd : World
odd = calm (requeue (message toy Toy.toy handshake_client_hello (hello_at [] nan)) [])

server_accept-nan_example : server_accept 1 toy Toy.toy odd ≡ (
  ok [],
  record (got toy Toy.toy handshake_client_hello (hello_at [] nan) odd) { readings = 1 },
)
unfolding Toy.toy Toy.text_code Toy.number_code hex
server_accept-nan_example =
    server_accept-nan 1 toy toy-Laws Toy.toy [] [] odd (omega arith) tt (stream-requeue _ [])

abbrev priv_c : Bytes
priv_c = 5 ∷ []

abbrev priv_s : Bytes
priv_s = 6 ∷ []

-- What each side writes, in worlds in which nothing arrives.
abbrev to_server : Bytes
to_server =
    message toy Toy.toy handshake_client_hello (first_message (calm []))
    ++ (message toy Toy.toy handshake_client_response
          (proof toy Toy.toy priv_c priv_s (calm []) (calm []))
        ++ [])

abbrev to_client : Bytes
to_client =
    message toy Toy.toy handshake_server_hello (reply toy Toy.toy priv_c priv_s (calm []) (calm []))
    ++ (message toy Toy.toy handshake_server_done
          (session toy Toy.toy priv_c priv_s (calm []) (calm []))
        ++ [])

abbrev client : World
client = calm (requeue to_client [])

abbrev server : World
server = calm (requeue to_server [])

abbrev keys : Bytes × Bytes × Bytes
keys = agreed toy Toy.toy priv_c priv_s client server

handshake_agreement_example :
    (cv : World) × (sv : World) × (client_handshake 1 toy Toy.toy priv_c priv_s client
      ≡ (ok keys, cv))
    × (server_handshake 1 toy Toy.toy priv_s priv_c server ≡ (ok keys, sv))
    × (cv.outgoing
        ≡ []
          ++ message toy Toy.toy handshake_client_hello (first_message client)
          ++ message toy Toy.toy handshake_client_response
              (proof toy Toy.toy priv_c priv_s client server))
    × (sv.outgoing
        ≡ []
          ++ message toy Toy.toy handshake_server_hello
              (reply toy Toy.toy priv_c priv_s client server)
          ++ message toy Toy.toy handshake_server_done
              (session toy Toy.toy priv_c priv_s client server))
unfolding Toy.toy Toy.text_code Toy.number_code hex compute_hmac got
handshake_agreement_example =
    handshake_agreement 1 toy toy-Laws Toy.toy priv_c priv_s client server [] [] (λ i. refl)
      (λ i. refl) refl refl (omega arith) (omega arith) (omega arith) (omega arith)
      (stream-requeue _ [] ∙ append-nil _) (stream-requeue _ [] ∙ append-nil _)

both_returned :
    (cv : World) × (sv : World) × (client_handshake 1 toy Toy.toy priv_c priv_s client
      ≡ (ok keys, cv))
    × (server_handshake 1 toy Toy.toy priv_s priv_c server ≡ (ok keys, sv))
unfolding Toy.toy Toy.text_code Toy.number_code hex compute_hmac got
both_returned =
    let (cv, sv, client_done, server_done, wrote_c, wrote_s) =
      handshake_agreement 1 toy toy-Laws Toy.toy priv_c priv_s client server [] [] (λ i. refl)
        (λ i. refl) refl refl (omega arith) (omega arith) (omega arith) (omega arith)
        (stream-requeue _ [] ∙ append-nil _) (stream-requeue _ [] ∙ append-nil _) in
    (cv, sv, client_done, server_done)

server_handshake-IsAuthentic_example :
    let (r, w1) = server_accept 1 toy Toy.toy server in
    (nc : Bytes) × (cr : Json) × (sig : Bytes) × (r ≡ ok nc)
    × Received toy Toy.toy handshake_client_response (server_hello 1 toy Toy.toy priv_s nc w1).1 cr
    × Field cr (codes "signature") sig
    × (toy.rsa_verify priv_c sig (server_nonce w1 ++ nc) ≡ true)
server_handshake-IsAuthentic_example =
    server_handshake-IsAuthentic 1 toy Toy.toy priv_s priv_c server both_returned.1 keys
      both_returned.3

client_handshake-IsAuthentic_example :
    (sh : Json) × (ns : Bytes) × (sig : Bytes) × Received toy Toy.toy handshake_server_hello
      (client_hello 1 toy Toy.toy client).1
      sh
    × Field sh (codes "nonce_s") ns
    × Field sh (codes "signature") sig
    × (toy.rsa_verify priv_s sig (client_nonce client ++ ns) ≡ true)
client_handshake-IsAuthentic_example =
    client_handshake-IsAuthentic 1 toy Toy.toy priv_c priv_s client both_returned.0 keys
      both_returned.2
