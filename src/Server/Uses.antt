-- ===== src/Server/Uses.antt =====
-- What a client's thread does to the limiter between its admission and its removal: any predicate
-- that `touch` and `check_rate` keep is kept.
use custom_vpn_implementatio.Common.{ℕ, zero, suc, Bytes, Text}
use custom_vpn_implementatio.Common.Exec.{
  Exec, Exn, Result, ok, err, value_error, Keeps, Keeps-bind, Keeps-if,
}
use custom_vpn_implementatio.Crypto.{Primitives}
use custom_vpn_implementatio.Protocol.{MessageType, data_request}
use custom_vpn_implementatio.Json.{Codec}
use custom_vpn_implementatio.Auth.{is_type}
use custom_vpn_implementatio.Rate.{RateLimiter, check_rate, touch}
use custom_vpn_implementatio.Server.{
  Server, idle, touched, rate_ok, forwarded, serve_request, dispatch, serve_round, serve,
  after_handshake, admitted,
}

module _ (second : ℕ) (p : Primitives) (c : Codec) (describe : Exn → Bytes) {F : Type 0}
    (forward : Bytes → Exec F Bytes) (ip : Text) (I : RateLimiter → Type 0)
    (touch-I : (now : ℕ) (l : RateLimiter) → I l → I (touch now ip l))
    (check_rate-I : (created now : ℕ) (l : RateLimiter)
      → I l
      → I (check_rate second created now ip l).1) where
  abbrev Kept : Server F → Type 0
  Kept s = I s.limiter

  touched-Kept : Keeps Kept (touched ip)
  unfolding touched
  touched-Kept s i = touch-I (s.ticks s.ticked) s.limiter i

  rate_ok-Kept : Keeps Kept (rate_ok second ip)
  unfolding rate_ok
  rate_ok-Kept s i = check_rate-I (s.ticks s.ticked) (s.ticks (suc s.ticked)) s.limiter i

  module _ (sid ek mk : Bytes) where
    serve_request-Kept :
        (request : Bytes)
        → Keeps Kept (serve_request second p c describe forward ip sid ek mk request)
    unfolding serve_request forwarded
    serve_request-Kept request = Keeps-bind Kept _ _ touched-Kept (λ u.
        Keeps-bind Kept _ _ rate_ok-Kept
          (Keeps-if Kept _ _ (Keeps-bind Kept _ _ (λ s i. i) (λ response s i. i)) (λ s i. i)))

    dispatch-Kept :
        (r : Result (MessageType × Bytes × Bytes))
        → Keeps Kept (dispatch second p c describe forward ip sid ek mk r)
    unfolding dispatch
    dispatch-Kept (err (value_error x)) = λ s i. i
    dispatch-Kept (err _) = λ s i. i
    dispatch-Kept (ok (t, sid2, request)) =
        Keeps-if Kept _ _ (Keeps-bind Kept _ _ (serve_request-Kept request) (λ u s i. i)) (λ s i. i)
          (is_type t data_request)

    serve_round-Kept : Keeps Kept (serve_round second p c describe forward ip sid ek mk)
    unfolding serve_round idle
    serve_round-Kept =
        Keeps-bind Kept _ _ (λ s i. i)
          (Keeps-if Kept _ _ (λ s i. i) (Keeps-bind Kept _ _ (λ s i. i) dispatch-Kept))

    serve-Kept : (rounds : ℕ) → Keeps Kept (serve second p c describe forward ip sid ek mk rounds)
    unfolding serve
    serve-Kept zero = λ s i. i
    serve-Kept (suc rounds) =
        Keeps-bind Kept _ _ serve_round-Kept (Keeps-if Kept _ _ (serve-Kept rounds) (λ s i. i))

  module _ (rounds : ℕ) (priv_s pub_c : Bytes) where
    after_handshake-Kept :
        (r : Result (Bytes × Bytes × Bytes))
        → Keeps Kept (after_handshake second p c describe forward rounds priv_s pub_c ip r)
    unfolding after_handshake
    after_handshake-Kept (ok keys) =
        Keeps-bind Kept _ _ (serve-Kept keys.0 keys.1 keys.2 rounds) (λ u s i. i)
    after_handshake-Kept (err e) = λ s i. i

    pub admitted-Kept : Keeps Kept (admitted second p c describe forward rounds priv_s pub_c ip)
    unfolding admitted
    admitted-Kept = Keeps-bind Kept _ _ (λ s i. i) after_handshake-Kept
