-- ===== src/Server/Rounds.antt =====
-- The rounds of the serving loop of `handle_client`.
use custom_vpn_implementatio.Common.{
  ℕ, zero, suc, ◌<◌, ◌≡◌, ◌≢◌, refl, ap, ◌∙◌, Bool, true, false, List, some, Bytes, Text, length,
  arith,
}
use custom_vpn_implementatio.Common.Exec.{
  ◌>>=◌, Exec, Exn, Result, caught, ok, err, value_error, out_of_fuel, pure, Keeps, Keeps-bind,
  Keeps-if, Ends, ends_bind, ends_if,
}
use custom_vpn_implementatio.World.{Event}
use custom_vpn_implementatio.World.Stream.{stream}
use custom_vpn_implementatio.Crypto.{Primitives}
use custom_vpn_implementatio.Protocol.{MessageType, data_request, data_response, error, recv_frame}
use custom_vpn_implementatio.Protocol.Progress.{
  Unread, send_frame-Unread, recv_frame-reads, send_frame-Ends, recv_frame-Ends,
}
use custom_vpn_implementatio.Json.{Codec}
use custom_vpn_implementatio.Auth.{is_type}
use custom_vpn_implementatio.Rate.{is_idle}
use custom_vpn_implementatio.Server.{
  Server, on_world, idle, touched, rate_ok, forwarded, serve_request, dispatch, serve_round, serve,
}

module _ (second : ℕ) (p : Primitives) (c : Codec) (describe : Exn → Bytes) {F : Type 0}
    (forward : Bytes → Exec F Bytes) (ip : Text) (sid ek mk : Bytes) where
  abbrev Waiting : List Event → Server F → Type 0
  Waiting es s = Unread es s.world

  serve_request-Waiting :
      (es : List Event) (request : Bytes)
      → Keeps (Waiting es) (serve_request second p c describe forward ip sid ek mk request)
  unfolding serve_request forwarded touched rate_ok
  serve_request-Waiting es request =
      Keeps-bind (Waiting es) _ _ (λ s u. u)
        (λ a.
          Keeps-bind (Waiting es) _ _ (λ s u. u)
            (Keeps-if (Waiting es) _ _
              (Keeps-bind (Waiting es) _ _ (λ s u. u)
                (λ response s u.
                  send_frame-Unread p es data_response sid response (some ek) (some mk) s.world u))
              (λ s u. send_frame-Unread p es error sid _ (some ek) (some mk) s.world u)))

  dispatch-Waiting :
      (es : List Event) (r : Result (MessageType × Bytes × Bytes))
      → Keeps (Waiting es) (dispatch second p c describe forward ip sid ek mk r)
  unfolding dispatch
  dispatch-Waiting es (err (value_error x)) = λ s u. u
  dispatch-Waiting es (err _) = λ s u. u
  dispatch-Waiting es (ok (t, rx_sid, request)) =
      Keeps-if (Waiting es) _ _
        (Keeps-bind (Waiting es) _ _ (serve_request-Waiting es request) (λ u s i. i)) (λ s u. u)
        (is_type t data_request)

  serve_request-Ends :
      (request : Bytes) → Ends (serve_request second p c describe forward ip sid ek mk request)
  unfolding serve_request forwarded touched rate_ok
  serve_request-Ends request s =
      ends_bind _ _ s (λ h. cc h)
        (λ a e.
          ends_bind _ _ _ (λ h. cc h)
            (λ allowed e1.
              ends_if _ _ _ allowed
                (λ h.
                  ends_bind _ _ _ (λ h. cc h)
                    (λ response e2.
                      send_frame-Ends p data_response sid response (some ek) (some mk) _))
                (λ h. send_frame-Ends p error sid _ (some ek) (some mk) _)))

  dispatch-Ends :
      (r : Result (MessageType × Bytes × Bytes)) (s : Server F)
      → r ≢ err out_of_fuel
      → (dispatch second p c describe forward ip sid ek mk r s).0 ≢ err out_of_fuel
  unfolding dispatch
  dispatch-Ends (err (value_error x)) s n = λ h. cc h
  dispatch-Ends (err out_of_fuel) s n = λ h. n refl
  dispatch-Ends (err _) s n = λ h. cc h
  dispatch-Ends (ok (t, rx_sid, request)) s n =
      ends_if _ _ s (is_type t data_request)
        (λ h. ends_bind _ _ s (serve_request-Ends request s) (λ u e h. cc h)) (λ h k. cc k)

  -- An exception ends the loop, so a round that goes on has read a frame.
  dispatch-again :
      (r : Result (MessageType × Bytes × Bytes)) (s : Server F)
      → (dispatch second p c describe forward ip sid ek mk r s).0 ≡ ok true
      → (f : MessageType × Bytes × Bytes) × (r ≡ ok f)
  unfolding dispatch
  dispatch-again (err (value_error x)) s h = absurd (cc h)
  dispatch-again (err _) s h = absurd (cc h)
  dispatch-again (ok f) s h = (f, refl)

  abbrev unread : Server F → ℕ
  unread s = length (stream s.world.incoming)

  abbrev listen : Bool → Exec (Server F) Bool
  listen too_idle = elim too_idle [
    | true ↦ pure false
    | false ↦ do
      r ← caught (on_world (recv_frame p (some ek) (some mk)))
      dispatch second p c describe forward ip sid ek mk r
  ]

  listen-reads :
      (too_idle : Bool) (s : Server F)
      → (listen too_idle s).0 ≡ ok true
      → unread (listen too_idle s).1 < unread s
  unfolding ◌>>=◌
  listen-reads true s h = absurd (cc h)
  listen-reads false s h =
      let (r, w) = recv_frame p (some ek) (some mk) s.world in
      let s1 = record s { world = w } in
      let (f, e) = dispatch-again r s1 h in
      let reads = recv_frame-reads p (some ek) (some mk) s.world w f (ap (λ x. (x, w)) e) in
      let kept = dispatch-Waiting w.incoming r s1 refl in
      omega (arith, reads, ap length (ap stream kept))

  serve_round-reads :
      (s : Server F)
      → (serve_round second p c describe forward ip sid ek mk s).0 ≡ ok true
      → unread (serve_round second p c describe forward ip sid ek mk s).1 < unread s
  unfolding serve_round idle ◌>>=◌
  serve_round-reads s h =
      listen-reads (is_idle (s.ticks s.ticked) ip s.limiter) (record s { ticked = suc s.ticked }) h

  serve_round-Ends : Ends (serve_round second p c describe forward ip sid ek mk)
  unfolding serve_round idle
  serve_round-Ends s =
      ends_bind _ _ s (λ h. cc h)
        (λ too_idle e.
          ends_if _ _ _ too_idle (λ h k. cc k)
            (λ h.
              ends_bind _ _ _ (λ k. cc k)
                (λ r e1.
                  dispatch-Ends r _
                    (λ k. recv_frame-Ends p (some ek) (some mk) s.world (cc (e1, k))))))

  -- With more rounds than there are bytes to come, the serving loop ends by itself: at a timeout,
  -- a close, an idle client or an exception, whatever the client sends.
  pub serve-Ends :
      (rounds : ℕ) (s : Server F)
      → length (stream s.world.incoming) < rounds
      → (serve second p c describe forward ip sid ek mk rounds s).0 ≢ err out_of_fuel
  unfolding serve
  serve-Ends zero s l = absurd (omega arith)
  serve-Ends (suc rounds) s l = ends_bind _ _ s (serve_round-Ends s) (λ again e.
      ends_if _ _ _ again
        (λ h. serve-Ends rounds _ (omega (arith, serve_round-reads s (e ∙ ap ok h)))) (λ h k. cc k))
