-- ===== src/Server/Answering.antt =====
-- A request of client/tunnel_client.py over an established session, and the round of the serving
-- loop that answers it.
use custom_vpn_implementatio.Common.{
  ℕ, suc, ◌+◌, ◌≤◌, ◌≡◌, refl, ap, sym, ◌∙◌, true, false, Bool, some, ◌++◌, Bytes, Text, length,
  drop, arith, drop-append,
}
use custom_vpn_implementatio.Common.Exec.{◌>>=◌, ◌>>◌, pure, Exec, Exn, ok, bind_ok}
use custom_vpn_implementatio.World.{World}
use custom_vpn_implementatio.World.Stream.{stream}
use custom_vpn_implementatio.Crypto.{Primitives, Laws}
use custom_vpn_implementatio.Protocol.{
  data_request, data_response, max_frame_size, send_frame, recv_frame, or_handshake_key, value,
}
use custom_vpn_implementatio.Protocol.Accept.{after_frame}
use custom_vpn_implementatio.Protocol.Wire.{framed}
use custom_vpn_implementatio.Protocol.RoundTrip.{
  nonce_field, payload_field, length-nonce_field, length-payload_field, unprotect_lem,
  send_frame_lem, recv_frame-framed, sent_body,
}
use custom_vpn_implementatio.Json.{Codec}
use custom_vpn_implementatio.Rate.{touch, check_rate, is_idle}
use custom_vpn_implementatio.Tunnel.{TunnelClient, exchange, send_request}
use custom_vpn_implementatio.Tunnel.Established.{IsEstablished, send_request-exchange}
use custom_vpn_implementatio.Tunnel.Exchange.{exchange_lem}
use custom_vpn_implementatio.Server.{
  Server, idle, dispatch, or_forward_error, serve_request, serve_round,
}
use custom_vpn_implementatio.Server.Serving.{serve_request_lem}

-- Not yet idle, and with a token for the request, after the readings of a round.
pub record IsServed {F : Type 0} (second : ℕ) (ip : Text) (s : Server F) : Type 0 where
  pub active : is_idle (s.ticks s.ticked) ip s.limiter ≡ false
  pub has_token :
      (check_rate second
        (s.ticks (suc (suc s.ticked)))
        (s.ticks (suc (suc (suc s.ticked))))
        ip
        (touch (s.ticks (suc s.ticked)) ip s.limiter)).0
      ≡ true

module _ (second : ℕ) (p : Primitives) (laws : Laws p) (c : Codec) (describe : Exn → Bytes)
    {F : Type 0} (forward : Bytes → Exec F Bytes) (ip : Text) (sid ek mk : Bytes) where
  round : Exec (Server F) Bool
  round = serve_round second p c describe forward ip sid ek mk

  response : Bytes → F → Bytes
  response request f = or_forward_error second p c describe forward (forward request f).0

  -- A round with a request, up to what is sent.
  round-request :
      (request : Bytes) (s : Server F) (v : World)
      → IsServed second ip s
      → recv_frame p (some ek) (some mk) s.world ≡ (ok (data_request, sid, request), v)
      → round s ≡ (
          (serve_request second p c describe forward ip sid ek mk request >> pure true)
            (record s { world = v; ticked = suc s.ticked }))
  unfolding round serve_round idle ◌>>=◌ dispatch serve_request value
  round-request request s v h e = rw (h.active, e) refl

  -- What the server writes for a request that it serves.
  round_answer :
      (request : Bytes) (s : Server F) (v : World)
      → length sid ≡ 16
      → length ek ≡ 32
      → 77 + length (response request s.forwarder) ≤ max_frame_size
      → v.writable v.sends ≡ true
      → IsServed second ip s
      → recv_frame p (some ek) (some mk) s.world ≡ (ok (data_request, sid, request), v)
      → let s' = (round s).1 in
        ((round s).0 ≡ ok true)
        × (s'.forwarder ≡ (forward request s.forwarder).1)
        × (s'.world.incoming ≡ v.incoming)
        × (s'.world.outgoing
            ≡ v.outgoing
              ++ framed p
                  (or_handshake_key (some mk))
                  (sent_body p data_response sid (response request s.forwarder) (some ek) v))
  unfolding response
  round_answer request s v hs he small writes h e =
      let s1 = record s { world = v; ticked = suc s.ticked } in
      let sent =
        send_frame_lem p laws data_response sid (response request s.forwarder) (some ek) (some mk) v
          hs he (omega arith) writes in
      let served =
        rw (h.has_token, sent) at
          (serve_request_lem second p c describe forward ip sid ek mk request s1) in
      let whole = round-request request s v h e ∙ bind_ok _ (λ u. pure true) served in
      (
        ap (λ r. r.0) whole,
        ap (λ r. r.1.forwarder) whole,
        ap (λ r. r.1.world.incoming) whole,
        ap (λ r. r.1.world.outgoing) whole,
      )

  -- The client's exchange and the server's round, each reading what the other one writes.
  exchange-serve_round :
      (request later more : Bytes) (w : World) (s : Server F)
      → length sid ≡ 16
      → length ek ≡ 32
      → 77 + length request ≤ max_frame_size
      → 77 + length (or_forward_error second p c describe forward (forward request s.forwarder).0)
        ≤ max_frame_size
      → w.writable w.sends ≡ true
      → s.world.writable s.world.sends ≡ true
      → IsServed second ip s
      → stream s.world.incoming
        ≡ drop
            (length w.outgoing)
            (send_frame p data_request sid request (some ek) (some mk) w).1.outgoing
          ++ later
      → let (r, s') = serve_round second p c describe forward ip sid ek mk s in
        stream w.incoming ≡ drop (length s.world.outgoing) s'.world.outgoing ++ more
        → let (answered, w') = exchange p sid (some ek) (some mk) request w in
          let (given, f) = forward request s.forwarder in
          (answered ≡ ok (or_forward_error second p c describe forward given))
          × (r ≡ ok true)
          × (s'.forwarder ≡ f)
          × (stream w'.incoming ≡ more)
          × (stream s'.world.incoming ≡ later)
  unfolding round response value
  exchange-serve_round request later more w s hs he small small' writes writes' h asked replied =
      let sent =
        send_frame_lem p laws data_request sid request (some ek) (some mk) w hs he (omega arith)
          writes in
      let fresh = rw (sent, drop-append (length w.outgoing) w.outgoing _ refl) at asked in
      let (received, rest) =
        recv_frame-framed p laws data_request sid (nonce_field p (some ek) w)
          (payload_field p request (some ek) w) request later (some ek) (some mk) s.world hs
          (length-nonce_field p (some ek) w)
          (omega (arith, length-payload_field p laws request (some ek) w))
          (λ u. unprotect_lem p laws request (some ek) w u he) fresh in
      let v =
        after_frame (length (sent_body p data_request sid request (some ek) w) + 32) s.world in
      let (goes_on, forwarder, incoming, outgoing) =
        round_answer request s v hs he small' writes' h received in
      let back =
        rw (outgoing, drop-append (length s.world.outgoing) s.world.outgoing _ refl) at replied in
      let (w', answered, written, unread) =
        exchange_lem p laws sid sid ek mk request (response request s.forwarder) more data_response
          w v hs hs he small small' writes back in
      (
        ap (λ r. r.0) answered,
        goes_on,
        forwarder,
        ap (λ r. stream r.1.incoming) answered ∙ unread,
        ap stream incoming ∙ rest,
      )

  -- Over an established session, on sockets that take every write: if the server reads what the
  -- client writes for a request, in any chunks, the client is not idle and has a token, and the
  -- client reads what the server's round writes, then the round serves the request and goes on, and
  -- `send_request` returns what `forward_request` gave, or the 500 page of its exception, at the
  -- first attempt and without a new connection; what is behind stays unread on both sides.
  pub send_request-serve_round :
      (client_key server_key request later more : Bytes) (t : TunnelClient) (s : Server F)
      → IsEstablished sid ek mk t
      → length sid ≡ 16
      → length ek ≡ 32
      → 77 + length request ≤ max_frame_size
      → 77 + length (or_forward_error second p c describe forward (forward request s.forwarder).0)
        ≤ max_frame_size
      → t.world.writable t.world.sends ≡ true
      → s.world.writable s.world.sends ≡ true
      → IsServed second ip s
      → stream s.world.incoming
        ≡ drop
            (length t.world.outgoing)
            (send_frame p data_request sid request (some ek) (some mk) t.world).1.outgoing
          ++ later
      → let (r, s') = serve_round second p c describe forward ip sid ek mk s in
        stream t.world.incoming ≡ drop (length s.world.outgoing) s'.world.outgoing ++ more
        → let (answered, t') = send_request second p c client_key server_key request t in
          let (given, f) = forward request s.forwarder in
          (answered ≡ ok (or_forward_error second p c describe forward given))
          × (t' ≡ record t { world = t'.world })
          × (r ≡ ok true)
          × (s'.forwarder ≡ f)
          × (stream t'.world.incoming ≡ more)
          × (stream s'.world.incoming ≡ later)
  send_request-serve_round client_key server_key request later more t s e hs he h1 h2 w1 w2 served
        asked replied =
      let (answered, goes_on, forwarder, unread, rest) =
        exchange-serve_round request later more t.world s hs he h1 h2 w1 w2 served asked replied in
      let w' = (exchange p sid (some ek) (some mk) request t.world).1 in
      let sent =
        send_request-exchange second p c client_key server_key sid ek mk request _ t w' e
          (ap (λ r. (r, w')) answered) in
      (
        ap (λ r. r.0) sent,
        ap (λ r. r.1) sent ∙ sym (ap (λ r. record t { world = r.1.world }) sent),
        goes_on,
        forwarder,
        ap (λ r. stream r.1.world.incoming) sent ∙ unread,
        rest,
      )
