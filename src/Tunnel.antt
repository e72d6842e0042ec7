-- ===== src/Tunnel.antt =====
-- client/tunnel_client.py: the tunnel and its reconnection. Each method holds the lock while it
-- uses the socket, so one thread's calls are modelled.
pub mod Writes
pub mod Invariant
pub mod Retries
pub mod Exchange
pub mod Established
mod Tests
use custom_vpn_implementatio.Common.{
  ℕ, zero, suc, ◌+◌, ◌-◌, ◌*◌, Bool, true, false, not, Option, none, some, List, [], Bytes, ltb,
  ◌||◌, ◌&&◌, if◌then◌else◌,
}
use custom_vpn_implementatio.Common.Exec.{
  ◌>>=◌, ◌>>◌, pure, raise, raise_if, caught, Exec, value_error, connection_error, type_error,
  runtime_error, unexpected_message, Result, ok, err,
}
use custom_vpn_implementatio.World.{World, Action, Event, close}
use custom_vpn_implementatio.Crypto.{Primitives}
use custom_vpn_implementatio.Protocol.{data_request, data_response, error, send_frame, recv_frame}
use custom_vpn_implementatio.Json.{Codec}
use custom_vpn_implementatio.Auth.{is_type, client_handshake}

-- What a new TCP connection brings: what arrives on it, and which of its writes go through.
abbrev pub Connection : Type 0
Connection = List Event × (ℕ → Bool)

-- `world` holds the socket that was opened last, beside the process's randomness and clock, and
-- `has_sock` says whether `_sock` is that socket or `None`. `network i` is what the i-th call of
-- `sock.connect` gives, `dialled` counts these calls, and `slept` sums the calls of `time.sleep`.
pub record TunnelClient : Type 0 where
  pub max_retries : ℕ
  pub retry_backoff : ℕ
  pub world : World
  pub has_sock : Bool
  pub session_id : Option Bytes
  pub enc_key : Option Bytes
  pub mac_key : Option Bytes
  pub connected : Bool
  pub network : ℕ → Result Connection
  pub dialled : ℕ
  pub slept : ℕ

-- `TunnelClient(…)`
abbrev pub new_client :
    (max_retries retry_backoff : ℕ) → World → (ℕ → Result Connection) → TunnelClient
new_client max_retries retry_backoff world network = record {
  max_retries = max_retries;
  retry_backoff = retry_backoff;
  world = world;
  has_sock = false;
  session_id = none;
  enc_key = none;
  mac_key = none;
  connected = false;
  network = network;
  dialled = 0;
  slept = 0;
}

abbrev pub on_sock : {A : Type 0} → Action A → Exec TunnelClient A
on_sock m s = let (r, w) = m s.world in (r, record s { world = w })

abbrev close_if : Bool → World → World
close_if true w = close w
close_if false w = w

unfoldable pub close_socket : Exec TunnelClient (Unit {0})
close_socket s =
    (ok tt, record s { world = close_if s.has_sock s.world; has_sock = false; connected = false })

abbrev connection : Result Connection → World → Result (Unit {0}) × World
connection (ok (incoming, writable)) w = (
  ok tt,
  record w { incoming = incoming; outgoing = []; writable = writable; sends = 0; closed = false },
)
connection (err e) w = (err e, w)

-- `socket.socket(…)` and `sock.connect(…)`
unfoldable pub dial : Exec TunnelClient (Unit {0})
dial s =
    let (r, w) = connection (s.network s.dialled) s.world in
    (r, record s { world = w; dialled = suc s.dialled })

abbrev pub establish : Bytes × Bytes × Bytes → Exec TunnelClient (Unit {0})
establish (sid, enc, mac) s = (
  ok tt,
  record s {
    has_sock = true;
    session_id = some sid;
    enc_key = some enc;
    mac_key = some mac;
    connected = true;
  },
)

-- `len(None)` raises in `send_frame`.
abbrev pub or_type_error : Option Bytes → Exec TunnelClient Bytes
or_type_error none = raise type_error
or_type_error (some sid) = pure sid

-- A field of the object.
abbrev pub this : {A : Type 0} → (TunnelClient → A) → Exec TunnelClient A
this field s = (ok (field s), s)

abbrev pub sleep : ℕ → Exec TunnelClient (Unit {0})
sleep time s = (ok tt, record s { slept = s.slept + time })

module _ (p : Primitives) where
  -- `_do_request` from `send_frame` on, with the socket and the fields that it reads.
  unfoldable pub exchange :
      (session_id : Bytes) (enc_key mac_key : Option Bytes) → Bytes → Action Bytes
  exchange session_id enc_key mac_key request_data = do
    send_frame p data_request session_id request_data enc_key mac_key
    (msg_type, rx_sid, response) ← recv_frame p enc_key mac_key
    raise_if (is_type msg_type error) runtime_error
    raise_if (not (is_type msg_type data_response)) (value_error unexpected_message)
    pure response

module _ (second : ℕ) (p : Primitives) (c : Codec)
    (client_private_key server_public_key : Bytes) where
  -- `_do_connect`, and `connect`, which takes the lock
  unfoldable pub do_connect : Exec TunnelClient (Unit {0})
  do_connect = do
    close_socket
    dial
    keys ← on_sock (client_handshake second p c client_private_key server_public_key)
    establish keys

  unfoldable pub ensure_connected : Exec TunnelClient (Unit {0})
  ensure_connected s =
      elim (not s.connected || not s.has_sock) as (λ _. Exec TunnelClient (Unit {0})) [
        | true ↦ do_connect
        | false ↦ pure tt
      ]
        s

  -- `_do_request`
  unfoldable pub do_request : Bytes → Exec TunnelClient Bytes
  do_request request_data = do
    ensure_connected
    enc_key ← this (λ s. s.enc_key)
    mac_key ← this (λ s. s.mac_key)
    sid ← this (λ s. s.session_id)
    sid ← or_type_error sid
    on_sock (exchange p sid enc_key mac_key request_data)

  -- The `for` loop of `send_request`, with the number of attempts left.
  unfoldable pub send_attempts : ℕ → Bytes → Exec TunnelClient Bytes
  send_attempts zero request_data = raise connection_error
  send_attempts (suc left) request_data = do
    result ← caught (do_request request_data)
    elim result [
      | ok response ↦ pure response
      | err e ↦ do
        reconnected ← caught do_connect
        max_retries ← this (λ s. s.max_retries)
        backoff ← this (λ s. s.retry_backoff)
        sleep (if ltb (max_retries - left) max_retries then backoff * (max_retries - left) else 0)
        send_attempts left request_data
    ]

  unfoldable pub send_request : Bytes → Exec TunnelClient Bytes
  send_request request_data s = send_attempts s.max_retries request_data s
