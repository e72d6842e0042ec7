-- ===== src/Tunnel/Exchange.antt =====
-- One request over an established tunnel, when the server's frame arrives.
use custom_vpn_implementatio.Common.{
  suc, ◌+◌, ◌≤◌, ◌≡◌, refl, ◌∙◌, true, false, not, Bool, some, ◌++◌, Bytes, length, arith,
  if◌then◌else◌,
}
use custom_vpn_implementatio.Common.Exec.{
  ◌>>=◌, ◌>>◌, pure, raise_if, Result, ok, err, bind_ok, value_error, runtime_error,
  unexpected_message,
}
use custom_vpn_implementatio.World.{World}
use custom_vpn_implementatio.World.Stream.{stream}
use custom_vpn_implementatio.Crypto.{Primitives, Laws}
use custom_vpn_implementatio.Protocol.{
  MessageType, data_request, data_response, error, or_handshake_key, max_frame_size,
}
use custom_vpn_implementatio.Protocol.Wire.{framed}
use custom_vpn_implementatio.Protocol.RoundTrip.{
  sent_body, nonce_field, payload_field, after_protect, unprotect_lem, length-payload_field,
  length-nonce_field, send_frame_lem, recv_frame-framed,
}
use custom_vpn_implementatio.Auth.{is_type}
use custom_vpn_implementatio.Tunnel.{exchange}

-- What the client makes of a frame of a type.
abbrev pub verdict : MessageType → Bytes → Result Bytes
verdict t response =
    if is_type t error
    then err runtime_error
    else if is_type t data_response
    then ok response
    else err (value_error unexpected_message)

judged :
    (failed answered : Bool) (response : Bytes) (v : World)
    → (do
      raise_if failed runtime_error
      raise_if (not answered) (value_error unexpected_message)
      pure response)
        v
      ≡ (
        if failed
            then err runtime_error
            else if answered
            then ok response
            else err (value_error unexpected_message),
        v,
      )
unfolding ◌>>=◌
judged true answered response v = refl
judged false true response v = refl
judged false false response v = refl

-- Over a socket that takes the request, with keys of 32 bytes, a request that fits in a frame is
-- written as one DATA_REQUEST frame of the session; then, if the next frame to arrive is one that a
-- server made of `response` with the same keys in its own world `sv`, a DATA_RESPONSE gives its
-- payload, an ERROR `RuntimeError` and any other type `ValueError`, and what follows stays unread.
pub exchange_lem :
    (p : Primitives) (laws : Laws p) (sid rx_sid enc mac request response later : Bytes)
    (t : MessageType) (w sv : World)
    → length sid ≡ 16
    → length rx_sid ≡ 16
    → length enc ≡ 32
    → 77 + length request ≤ max_frame_size
    → 77 + length response ≤ max_frame_size
    → w.writable w.sends ≡ true
    → stream w.incoming
      ≡ framed p (or_handshake_key (some mac)) (sent_body p t rx_sid response (some enc) sv)
        ++ later
    → (v : World) × (exchange p sid (some enc) (some mac) request w ≡ (verdict t response, v))
      × (v.outgoing
          ≡ w.outgoing
            ++ framed p
                (or_handshake_key (some mac))
                (sent_body p data_request sid request (some enc) w))
      × (stream v.incoming ≡ later)
unfolding exchange
exchange_lem p laws sid rx_sid enc mac request response later t w sv hs hr he h1 h2 writes arrives =
    let w1 = record (after_protect p (some enc) w) {
      outgoing =
          w.outgoing
          ++ framed p (or_handshake_key (some mac))
              (sent_body p data_request sid request (some enc) w);
      sends = suc w.sends;
    } in
    let (received, rest) =
      recv_frame-framed p laws t rx_sid (nonce_field p (some enc) sv)
        (payload_field p response (some enc) sv) response later (some enc) (some mac) w1 hr
        (length-nonce_field p (some enc) sv)
        (omega (arith, length-payload_field p laws response (some enc) sv))
        (λ u. unprotect_lem p laws response (some enc) sv u he) arrives in
    (
      _,
      bind_ok _ _ (
            send_frame_lem p laws data_request sid request (some enc) (some mac) w hs he
              (omega arith) writes)
          ∙ bind_ok _ _ received
          ∙ judged (is_type t error) (is_type t data_response) response _,
      refl,
      rest,
    )
