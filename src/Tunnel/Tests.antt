-- ===== src/Tunnel/Tests.antt =====
-- Runs of the tunnel client.
use custom_vpn_implementatio.Common.{
  ℕ, ◌+◌, ◌*◌, ◌≤◌, ◌≡◌, ◌⊎◌, true, ◌∷◌, some, [], Bytes, codes, replicate, ◌++◌,
}
use custom_vpn_implementatio.Common.Exec.{Exn, Result, ok, err, connection_error, Keeps}
use custom_vpn_implementatio.World.{World, requeue}
use custom_vpn_implementatio.World.Sample.{calm}
use custom_vpn_implementatio.Crypto.Toy.{toy, toy-Laws}
use custom_vpn_implementatio.Json.Toy
use custom_vpn_implementatio.Auth.Messages.{message}
use custom_vpn_implementatio.Auth.Agreement.{reply, session}
use custom_vpn_implementatio.Protocol.{
  handshake_server_hello, handshake_server_done, data_response, or_handshake_key,
}
use custom_vpn_implementatio.Protocol.Wire.{framed}
use custom_vpn_implementatio.Protocol.RoundTrip.{sent_body}
use custom_vpn_implementatio.Tunnel.{
  TunnelClient, Connection, new_client, on_sock, close_socket, exchange, do_connect,
  ensure_connected, do_request, send_request,
}
use custom_vpn_implementatio.Tunnel.Invariant.{
  WellFormed, Holds, FromHandshake, tunnel-WellFormed, do_request-protects,
}
use custom_vpn_implementatio.Tunnel.Writes.{request_frame, KeySizes}
use custom_vpn_implementatio.Tunnel.Retries.{send_request-Settled}

-- No connection comes about.
abbrev offline : ℕ → Result Connection
offline i = err connection_error

abbrev tunnel : TunnelClient
tunnel = new_client 3 2 (calm []) offline

abbrev Formed : TunnelClient → Type 0
Formed = WellFormed 1 toy Toy.toy [] []

tunnel-WellFormed_example :
    ((max_retries backoff : ℕ) (w : World) (network : ℕ → Result Connection)
      → Formed (new_client max_retries backoff w network))
    × Keeps Formed (do_connect 1 toy Toy.toy [] [])
    × Keeps Formed close_socket
    × ((request : Bytes) → Keeps Formed (send_request 1 toy Toy.toy [] [] request))
tunnel-WellFormed_example = tunnel-WellFormed 1 toy Toy.toy [] []

-- A server answers the handshake of the first call, whose keys are these.
abbrev answers : Bytes
answers =
    message toy Toy.toy handshake_server_hello
      (reply toy Toy.toy (5 ∷ []) (6 ∷ []) (calm []) (calm []))
    ++ message toy Toy.toy handshake_server_done
        (session toy Toy.toy (5 ∷ []) (6 ∷ []) (calm []) (calm []))

abbrev answering : ℕ → Result Connection
answering i = ok (requeue answers [], λ j. true)

abbrev reachable : TunnelClient
reachable = new_client 3 2 (calm []) answering

do_request-protects_example :
    let (r, t) = ensure_connected 1 toy Toy.toy (5 ∷ []) (6 ∷ []) reachable in
    let t' = (do_request 1 toy Toy.toy (5 ∷ []) (6 ∷ []) (codes "hi") reachable).1 in
    ((e : Exn) × (r ≡ err e)
      × (do_request 1 toy Toy.toy (5 ∷ []) (6 ∷ []) (codes "hi") reachable ≡ (err e, t)))
    ⊎ ((keys : Bytes × Bytes × Bytes) × (r ≡ ok tt)
        × Holds keys t
        × FromHandshake 1 toy Toy.toy (5 ∷ []) (6 ∷ []) keys
        × KeySizes keys
        × (do_request 1 toy Toy.toy (5 ∷ []) (6 ∷ []) (codes "hi") reachable
            ≡ on_sock (exchange toy keys.0 (some keys.1) (some keys.2) (codes "hi")) t)
        × ((t'.world.outgoing ≡ t.world.outgoing)
            ⊎ (t'.world.outgoing
                ≡ t.world.outgoing ++ request_frame toy keys (codes "hi") t.world)))
do_request-protects_example =
    do_request-protects 1 toy Toy.toy (5 ∷ []) (6 ∷ []) toy-Laws (codes "hi") reachable
      ((tunnel-WellFormed 1 toy Toy.toy (5 ∷ []) (6 ∷ [])).0 3 2 (calm []) answering)

send_request-Settled_example :
    let (r, t) = send_request 1 toy Toy.toy [] [] (codes "hi") tunnel in
    (((response : Bytes) × (r ≡ ok response)) ⊎ (r ≡ err connection_error))
    × (t.dialled ≤ 2 * 3 + 0)
send_request-Settled_example = send_request-Settled 1 toy Toy.toy [] [] (codes "hi") tunnel

abbrev sid : Bytes
sid = replicate 16 7

abbrev key : Bytes
key = replicate 32 9

abbrev server_frame : Bytes
server_frame =
    framed toy (or_handshake_key (some key))
      (sent_body toy data_response sid (codes "ok") (some key) (calm []))

abbrev answered : World
answered = calm (requeue server_frame [])
