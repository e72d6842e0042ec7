-- ===== src/Server.antt =====
-- server/server_main.py, `handle_client`: the thread of one client. It reads and writes the
-- client's socket, the rate limiter that the threads share, and what `forward_request` keeps.
-- The calls that other threads make on the limiter in between are those of Rate/Runs and
-- Server/Threads.
pub mod Serving
pub mod Uses
pub mod Balance
pub mod Admission
pub mod Rounds
pub mod Answering
pub mod Threads
pub mod Config
mod Tests
use custom_vpn_implementatio.Common.{
  ℕ, zero, suc, Bool, true, false, not, some, List, [], ◌∷◌, ◌++◌, Bytes, Text, codes,
}
use custom_vpn_implementatio.Common.Exec.{
  ◌>>=◌, ◌>>◌, pure, raise, caught, Exec, Exn, value_error, connection_error, timeout, out_of_fuel,
  Result, ok, err,
}
use custom_vpn_implementatio.World.{World, Action, close}
use custom_vpn_implementatio.Crypto.{Primitives}
use custom_vpn_implementatio.Protocol.{
  MessageType, data_request, data_response, error, send_frame, recv_frame,
}
use custom_vpn_implementatio.Json.{Codec, Json, num, str, obj, end, member, int}
use custom_vpn_implementatio.Json.Hex.{hex}
use custom_vpn_implementatio.Auth.{is_type, server_handshake}
use custom_vpn_implementatio.Rate.{
  RateLimiter, try_add_connection, remove_connection, touch, is_idle, check_rate,
}
use custom_vpn_implementatio.Access.{AccessController, V6, is_allowed}

-- `ticks i` is the i-th reading of `time.monotonic()` in this thread.
pub record Server (F : Type 0) : Type 0 where
  pub world : World
  pub limiter : RateLimiter
  pub ticks : ℕ → ℕ
  pub ticked : ℕ
  pub forwarder : F

-- What `handle_client` logs last.
pub data Outcome : Type 0 where
  denied_by_whitelist denied_by_cap client_closed : Outcome
  handshake_failed client_error : Exn → Outcome

-- "Rate limit exceeded — try again later"
abbrev pub rate_limited_text : Bytes
rate_limited_text = codes "Rate limit exceeded " ++ (226 ∷ 128 ∷ 148 ∷ codes " try again later")

module _ {F : Type 0} where
  abbrev pub on_world : {A : Type 0} → Action A → Exec (Server F) A
  on_world m s = let (r, w) = m s.world in (r, record s { world = w })

  -- An operation of the limiter that reads the clock once.
  abbrev pub on_limiter : {A : Type 0} → (ℕ → RateLimiter → A × RateLimiter) → Exec (Server F) A
  on_limiter f s =
      let (a, l) = f (s.ticks s.ticked) s.limiter in
      (ok a, record s { limiter = l; ticked = suc s.ticked })

  unfoldable pub idle : Text → Exec (Server F) Bool
  idle ip = on_limiter (λ now l. (is_idle now ip l, l))

  unfoldable pub touched : Text → Exec (Server F) (Unit {0})
  touched ip = on_limiter (λ now l. (tt, touch now ip l))

  unfoldable pub add_connection : Text → Exec (Server F) Bool
  add_connection ip = on_limiter (λ now l. try_add_connection now ip l)

  -- The first reading is used only if a bucket is made.
  unfoldable pub rate_ok : (second : ℕ) → Text → Exec (Server F) Bool
  rate_ok second ip s =
      let (allowed, l) =
        check_rate second (s.ticks s.ticked) (s.ticks (suc s.ticked)) ip s.limiter in
      (ok allowed, record s { limiter = l; ticked = suc (suc s.ticked) })

-- `second` and the texts of exceptions are the platform's; `forward` is `forward_request`.
module _ (second : ℕ) (p : Primitives) (c : Codec) (describe : Exn → Bytes) {F : Type 0}
    (forward : Bytes → Exec F Bytes) where
  abbrev pub forward_error : Exn → Bytes
  forward_error e = c.dumps (
      obj (
        member (codes "status_code") (num (int 500)) (
          member (codes "headers") (obj end)
            (member (codes "body") (str (hex (codes "Forward error: " ++ describe e))) end))))

  abbrev pub or_forward_error : Result Bytes → Bytes
  or_forward_error (ok response) = response
  or_forward_error (err e) = forward_error e

  unfoldable pub forwarded : Bytes → Exec (Server F) Bytes
  forwarded request s =
      let (r, f) = forward request s.forwarder in
      (ok (or_forward_error r), record s { forwarder = f })

  module _ (ip : Text) (session_id enc_key mac_key : Bytes) where
    abbrev send : MessageType → Bytes → Exec (Server F) (Unit {0})
    send t payload = on_world (send_frame p t session_id payload (some enc_key) (some mac_key))

    -- A DATA_REQUEST, from `rate_limiter.touch` on.
    unfoldable pub serve_request : Bytes → Exec (Server F) (Unit {0})
    serve_request request = do
      touched ip
      allowed ← rate_ok second ip
      elim allowed [
        | true ↦ do response ← forwarded request; send data_response response
        | false ↦ send error rate_limited_text
      ]

    -- What a round does with what `recv_frame` gave: whether the loop goes on.
    unfoldable pub dispatch : Result (MessageType × Bytes × Bytes) → Exec (Server F) Bool
    dispatch (err timeout) = pure false
    dispatch (err connection_error) = pure false
    dispatch (err (value_error r)) = pure false
    dispatch (err e) = raise e
    dispatch (ok (msg_type, sid, request)) = elim (is_type msg_type data_request) [
      | true ↦ serve_request request >> pure true
      | false ↦ pure true
    ]

    unfoldable pub serve_round : Exec (Server F) Bool
    serve_round = do
      too_idle ← idle ip
      elim too_idle [
        | true ↦ pure false
        | false ↦ do r ← caught (on_world (recv_frame p (some enc_key) (some mac_key))); dispatch r
      ]

    -- The `while True` loop.
    unfoldable pub serve : ℕ → Exec (Server F) (Unit {0})
    serve zero = raise out_of_fuel
    serve (suc rounds) = do
      again ← serve_round
      elim again [ true ↦ serve rounds | false ↦ pure tt ]

  module _ (rounds : ℕ) (server_private_key client_public_key : Bytes) (ip : Text) where
    -- The part under `finally: rate_limiter.remove_connection(ip)`.
    unfoldable pub after_handshake : Result (Bytes × Bytes × Bytes) → Exec (Server F) Outcome
    after_handshake (ok (session_id, enc_key, mac_key)) =
        serve ip session_id enc_key mac_key rounds >> pure client_closed
    after_handshake (err e) = pure (handshake_failed e)

    unfoldable pub admitted : Exec (Server F) Outcome
    admitted = do
      r ← caught (on_world (server_handshake second p c server_private_key client_public_key))
      after_handshake r

    abbrev pub finally_remove : Exec (Server F) Outcome → Exec (Server F) Outcome
    finally_remove m s =
        let (r, s') = m s in (r, record s' { limiter = remove_connection ip s'.limiter })

    unfoldable pub guarded : (v6 : V6) → AccessController → Exec (Server F) Outcome
    guarded v6 access_ctl = elim (is_allowed v6 ip access_ctl) [
      | true ↦ do
        free ← add_connection ip
        elim free [ true ↦ finally_remove admitted | false ↦ pure denied_by_cap ]
      | false ↦ pure denied_by_whitelist
    ]

    abbrev pub or_client_error : Result Outcome → Outcome
    or_client_error (ok o) = o
    or_client_error (err e) = client_error e

    -- Every way out closes the socket.
    unfoldable pub handle_client : (v6 : V6) → AccessController → Server F → Outcome × Server F
    handle_client v6 access_ctl s =
        let (r, s') = guarded v6 access_ctl s in
        (or_client_error r, record s' { world = close s'.world })
