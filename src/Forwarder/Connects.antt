-- ===== src/Forwarder/Connects.antt =====
-- `_connect_sessions`: two CONNECTs to the same target.
use custom_vpn_implementatio.Common.{
  suc, ◌≡◌, ap, ◌∙◌, Option, some, [], Bytes, Text, bytes_eq, bytes_eq_refl, arith, if◌then◌else◌,
}
use custom_vpn_implementatio.Common.Exec.{◌>>◌, ok, bind_ok}
use custom_vpn_implementatio.Common.Strings.{rsplit_colon}
use custom_vpn_implementatio.Common.Dict
use custom_vpn_implementatio.Common.Dict.{get-put}
use custom_vpn_implementatio.World.{World}
use custom_vpn_implementatio.Json.{Codec, end}
use custom_vpn_implementatio.Forwarder.{
  Platform, Forwarder, build_response, port_of, opened, handle_connect, relay_to, handle_relay,
}

module _ (c : Codec) (os : Platform) (target : Text) where
  -- A CONNECT whose connection comes about.
  pub handle_connect-opened :
      (f : Forwarder) (w : World)
      → let (host, port) = port_of c os target (rsplit_colon target) in
        os.connect f.dialled host port ≡ ok w
        → handle_connect c os target f ≡ (
          ok (build_response c os 200 end []),
          record f { sessions = Dict.put f.sessions target w; dialled = suc f.dialled },
        )
  unfolding handle_connect
  handle_connect-opened f w e =
      ap
        (λ r.
          let (answer, f') = opened c os target r (record f { dialled = suc f.dialled }) in
          (ok answer, f'))
        e

  -- If two CONNECTs to one target both get a connection, both are answered with 200, but the session
  -- of the target is the second connection alone: a RELAY of either browser goes to it, the
  -- first one is in no session, and no session of another target has changed.
  pub handle_connect-twice :
      (f : Forwarder) (w v : World) (data_out : Bytes)
      → let (host, port) = port_of c os target (rsplit_colon target) in
        os.connect f.dialled host port ≡ ok w
        → os.connect (suc f.dialled) host port ≡ ok v
        → let (answer, f') = (handle_connect c os target >> handle_connect c os target) f in
          ((handle_connect c os target f).0 ≡ ok (build_response c os 200 end []))
          × (answer ≡ ok (build_response c os 200 end []))
          × ((j : Text)
              → Dict.get f'.sessions j
                ≡ (if bytes_eq target j then some v else Dict.get f.sessions j))
          × (handle_relay c os target data_out f' ≡ relay_to c os (some v) target data_out f')
  unfolding handle_relay
  handle_connect-twice f w v data_out e1 e2 =
      let first = handle_connect-opened f w e1 in
      let f1 = record f { sessions = Dict.put f.sessions target w; dialled = suc f.dialled } in
      let second = handle_connect-opened f1 v e2 in
      let both =
        bind_ok (handle_connect c os target) (λ u. handle_connect c os target) first ∙ second in
      let found = λ (j : Text).
        ap (λ r. Dict.get r.1.sessions j) both
        ∙ get-put f1.sessions target j v
        ∙ ground (arith, get-put f.sessions target j w) in
      (
        ap (λ r. r.0) first,
        ap (λ r. r.0) both,
        found,
        ap
            (λ o.
              relay_to c os o target data_out
                ((handle_connect c os target >> handle_connect c os target) f).1)
            (found target
              ∙ ap (λ b. if◌then◌else◌ {A = Option World} b (some v) (Dict.get f.sessions target))
                  (bytes_eq_refl target)),
      )
