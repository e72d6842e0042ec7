-- ===== src/Server/Tests.antt =====
-- Clients of the server.
use custom_vpn_implementatio.Common.{
  List, bytes_eq, drop, ◌++◌, ℕ, suc, ◌≡◌, ◌≢◌, ◌⊎◌, refl, true, none, some, [], ◌∷◌, Bytes, Text,
  codes, replicate, arith,
}
use custom_vpn_implementatio.Common.Exec.{◌>>=◌, Exec, ok, err, out_of_fuel, connection_error}
use custom_vpn_implementatio.World.{World, chunk, requeue, urandom, sendall, recv}
use custom_vpn_implementatio.World.Sample.{calm}
use custom_vpn_implementatio.Crypto.Utils.{
  encrypt_payload, compute_hmac, decrypt_payload, verify_hmac,
}
use custom_vpn_implementatio.Crypto.Toy.{toy, toy-Laws}
use custom_vpn_implementatio.Json.Toy
use custom_vpn_implementatio.Protocol.{
  data_request, data_response, send_frame, value, pack, protect, recv_frame, recv_exact, recv_loop,
  of_value, open_frame, parse_body, unpack, unprotect, or_handshake_key,
}
use custom_vpn_implementatio.Common.Dict
use custom_vpn_implementatio.Rate.{
  is_idle, bucket_for, consume, new_limiter, try_add_connection, check_rate, touch, run,
}
use custom_vpn_implementatio.Rate.Caps.{Represents}
use custom_vpn_implementatio.Rate.Runs.{run-new_limiter, live_run}
use custom_vpn_implementatio.Access.{V6, AccessController, net4, is_allowed}
use custom_vpn_implementatio.Server.{
  Server, or_forward_error, serve_request, serve, serve_round, idle, dispatch, forwarded, rate_ok,
  touched, handle_client,
}
use custom_vpn_implementatio.Server.Balance.{handle_client-Represents}
use custom_vpn_implementatio.Server.Admission.{HasSigned, handle_client-admission}
use custom_vpn_implementatio.Server.Threads.{arrived, serving, ended, Thread, Steps}
use custom_vpn_implementatio.Server.Threads.Runs.{among, handle_client-Steps}
use custom_vpn_implementatio.Server.Rounds.{serve-Ends}
use custom_vpn_implementatio.Server.Answering.{IsServed, send_request-serve_round}
use custom_vpn_implementatio.Tunnel.{TunnelClient, new_client, send_request}
use custom_vpn_implementatio.Tunnel.Established.{IsEstablished}
use custom_vpn_implementatio.World.Stream.{stream}
use custom_vpn_implementatio.Protocol.Wire.{framed}
use custom_vpn_implementatio.Protocol.RoundTrip.{sent_body}

abbrev no_v6 : V6
no_v6 = record { address = λ t. none; network = λ t. none }

abbrev everyone : AccessController
everyone = record { networks = []; path = none }

abbrev nobody : AccessController
nobody = record { networks = net4 0 32 ∷ []; path = none }

-- A forwarder that counts its calls and echoes.
abbrev echo : Bytes → Exec ℕ Bytes
echo request n = (ok request, suc n)

abbrev start : Server ℕ
start = record {
  world = calm (chunk 0 (1 ∷ 2 ∷ []) ∷ []);
  limiter = new_limiter 10 20 5 50 300;
  ticks = λ i. 0;
  ticked = 0;
  forwarder = 0;
}

abbrev home : Text
home = codes "10.0.0.1"

handle_client-Represents_example :
    let (o, s') = handle_client 1 toy Toy.toy (λ e. []) echo 9 [] [] home no_v6 everyone start in
    (s'.world.closed ≡ true) × Represents s'.limiter []
unfolding run live_run
handle_client-Represents_example =
    handle_client-Represents 1 toy Toy.toy (λ e. []) echo 9 [] [] home no_v6 everyone [] start
      (run-new_limiter 1 10 20 5 50 300 []).0

handle_client-admission_example :
    let (o, s') = handle_client 1 toy Toy.toy (λ e. []) echo 9 [] [] home no_v6 everyone start in
    (s'.forwarder ≡ 0)
    ⊎ ((is_allowed no_v6 home everyone ≡ true)
        × (((try_add_connection 0 home start.limiter).0 ≡ true)
            × HasSigned 1 toy Toy.toy (λ e. []) echo 9 [] [] home start.world))
handle_client-admission_example =
    handle_client-admission 1 toy Toy.toy (λ e. []) echo 9 [] [] home no_v6 everyone start

abbrev sid : Bytes
sid = replicate 16 7

abbrev key : Bytes
key = replicate 32 9

serve-Ends_example :
    (serve 1 toy Toy.toy (λ e. []) echo home sid key key 4 start).0 ≢ err out_of_fuel
serve-Ends_example = serve-Ends 1 toy Toy.toy (λ e. []) echo home sid key key 4 start (omega arith)

abbrev session : Bytes
session = replicate 16 7

abbrev asking : World
asking = calm (
    requeue
      (framed toy (or_handshake_key (some key))
        (sent_body toy data_response session (codes "hi") (some key) (calm [])))
      [])

-- The client was just active.
abbrev waiting : Server ℕ
waiting = record {
  world = calm (
      requeue
        (framed toy (or_handshake_key (some key))
          (sent_body toy data_request session (codes "hi") (some key) asking))
        []);
  limiter = touch 0 home (new_limiter 10 20 5 50 300);
  ticks = λ i. 0;
  ticked = 0;
  forwarder = 0;
}

waiting-IsServed : IsServed 1 home waiting
unfolding is_idle touch check_rate Dict.get Dict.put bytes_eq
waiting-IsServed = record { active = refl; has_token = refl }

asked :
    stream waiting.world.incoming
    ≡ drop 0
        (send_frame toy data_request session (codes "hi") (some key) (some key) asking).1.outgoing
      ++ []
unfolding framed pack value send_frame ◌>>=◌ protect encrypt_payload urandom sendall compute_hmac
asked = refl

replied :
    stream asking.incoming
    ≡ drop 0
        (serve_round 1 toy Toy.toy (λ e. []) echo home session key key waiting).1.world.outgoing
      ++ []
unfolding framed pack value send_frame ◌>>=◌ protect encrypt_payload urandom sendall compute_hmac
    serve_round idle is_idle Dict.get touch Dict.put bytes_eq dispatch recv_frame recv_exact
    decrypt_payload verify_hmac recv_loop of_value open_frame parse_body unpack unprotect bucket_for
    check_rate consume forwarded rate_ok serve_request touched recv or_handshake_key
replied = refl

-- A client that holds the session.
abbrev established : TunnelClient
established = record (new_client 3 2 asking (λ i. err connection_error)) {
  has_sock = true;
  session_id = some session;
  enc_key = some key;
  mac_key = some key;
  connected = true;
}

established-IsEstablished : IsEstablished session key key established
established-IsEstablished = record {
  connected = refl;
  has_sock = refl;
  session_id = refl;
  enc_key = refl;
  mac_key = refl;
  attempts = (2, refl);
}

send_request-serve_round_example :
    let (r, s') = serve_round 1 toy Toy.toy (λ e. []) echo home session key key waiting in
    let (answered, t') = send_request 1 toy Toy.toy [] [] (codes "hi") established in
    let (given, f) = echo (codes "hi") 0 in
    (answered ≡ ok (or_forward_error 1 toy Toy.toy (λ e. []) echo given))
    × (t' ≡ record established { world = t'.world })
    × (r ≡ ok true)
    × (s'.forwarder ≡ f)
    × (stream t'.world.incoming ≡ [])
    × (stream s'.world.incoming ≡ [])
send_request-serve_round_example =
    send_request-serve_round 1 toy toy-Laws Toy.toy (λ e. []) echo home session key key [] []
      (codes "hi") [] [] established waiting established-IsEstablished refl refl (omega arith)
      (omega arith) refl refl waiting-IsServed asked replied

-- Another client is being served.
abbrev others : List Thread
others = (codes "10.0.0.2", serving) ∷ []

handle_client-Steps_example : Steps 1 (among others home arrived [] start.limiter) (
    among others home ended []
      (handle_client 1 toy Toy.toy (λ e. []) echo 9 [] [] home no_v6 everyone start).1.limiter)
handle_client-Steps_example =
    handle_client-Steps 1 toy Toy.toy (λ e. []) echo 9 [] [] home others [] no_v6 everyone start
