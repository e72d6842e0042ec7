-- ===== src/Server/Serving.antt =====
-- One request of the serving loop: what the client is sent, and when `forward_request` is called.
use custom_vpn_implementatio.Common.{
  ℕ, suc, ◌≡◌, some, Bytes, Text, if◌then◌else◌, Bool-cases, inl, inr,
}
use custom_vpn_implementatio.Common.Exec.{◌>>=◌, Exec, Exn}
use custom_vpn_implementatio.Crypto.{Primitives}
use custom_vpn_implementatio.Protocol.{MessageType, data_response, error, send_frame}
use custom_vpn_implementatio.Json.{Codec}
use custom_vpn_implementatio.Rate.{touch, check_rate}
use custom_vpn_implementatio.Server.{
  Server, rate_limited_text, touched, rate_ok, forwarded, or_forward_error, serve_request,
}

module _ (second : ℕ) (p : Primitives) (c : Codec) (describe : Exn → Bytes) {F : Type 0}
    (forward : Bytes → Exec F Bytes) (ip : Text) (sid ek mk : Bytes) where
  -- The client is marked as active and pays for the request in its bucket. If the bucket has a
  -- token, the request is forwarded and the response, or the 500 page of a failure, is sent under
  -- the session's keys; if not, `forward_request` is not called and an ERROR frame is sent.
  pub serve_request_lem :
      (request : Bytes) (s : Server F)
      → let (allowed, l) =
          check_rate second
            (s.ticks (suc s.ticked))
            (s.ticks (suc (suc s.ticked)))
            ip
            (touch (s.ticks s.ticked) ip s.limiter) in
        let (r, f) = forward request s.forwarder in
        let send = λ (t : MessageType) (payload : Bytes).
          send_frame p t sid payload (some ek) (some mk) s.world in
        let (result, w) =
          if allowed
          then send data_response (or_forward_error second p c describe forward r)
          else send error rate_limited_text in
        serve_request second p c describe forward ip sid ek mk request s ≡ (
          result,
          record s {
            world = w;
            limiter = l;
            ticked = suc (suc (suc s.ticked));
            forwarder = if allowed then f else s.forwarder;
          },
        )
  unfolding serve_request forwarded touched rate_ok ◌>>=◌
  serve_request_lem request s =
      let l = touch (s.ticks s.ticked) ip s.limiter in
      let (allowed, l2) =
        check_rate second (s.ticks (suc s.ticked)) (s.ticks (suc (suc s.ticked))) ip l in
      elim (Bool-cases allowed) [
        | inl yes_ ↦ rw (yes_, serve_request)
        | inr no_ ↦ rw (no_, serve_request)
      ]
