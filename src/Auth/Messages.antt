-- ===== src/Auth/Messages.antt =====
-- One message of the handshake on the wire: how it is sent, how it is received, and its fields.
use custom_vpn_implementatio.Common.{
  suc, ◌+◌, ◌≤◌, ◌≡◌, refl, ap, ◌∙◌, true, false, not, none, ◌++◌, Bytes, Text, length, replicate,
  arith, IsBytes,
}
use custom_vpn_implementatio.Common.Exec.{ok, bind_ok, bind_pass}
use custom_vpn_implementatio.World.{World}
use custom_vpn_implementatio.World.Stream.{stream}
use custom_vpn_implementatio.Crypto.{Primitives, Laws}
use custom_vpn_implementatio.Protocol.{
  MessageType, body_of, or_handshake_key, unprotect, send_frame, recv_frame, max_frame_size,
}
use custom_vpn_implementatio.Protocol.Wire.{framed}
use custom_vpn_implementatio.Protocol.Accept.{after_frame}
use custom_vpn_implementatio.Protocol.RoundTrip.{send_frame_lem, recv_frame-framed}
use custom_vpn_implementatio.Json.{Json, str, Codec, Distinct, subscript, bytes_fromhex}
use custom_vpn_implementatio.Json.Hex.{hex, fromhex-hex}
use custom_vpn_implementatio.Auth.{null_sid, is_type, decode_hs, receive, hex_field}

module _ (p : Primitives) (c : Codec) where
  -- A message as the sender puts it on the wire.
  pub message : MessageType → Json → Bytes
  message t j = framed p (or_handshake_key none) (body_of t null_sid (replicate 12 0) (c.dumps j))

  abbrev pub Fits : Json → Type 0
  Fits j = 61 + length (c.dumps j) ≤ max_frame_size

  -- The worlds after a message was sent, and after one was received.
  abbrev pub sent : MessageType → Json → World → World
  sent t j w = record w { outgoing = w.outgoing ++ message t j; sends = suc w.sends }

  unfoldable pub got : MessageType → Json → World → World
  got t j w = after_frame (length (body_of t null_sid (replicate 12 0) (c.dumps j)) + 32) w

module _ (p : Primitives) (laws : Laws p) (c : Codec) where
  pub send_message :
      (t : MessageType) (j : Json) (w : World)
      → Fits p c j
      → w.writable w.sends ≡ true
      → send_frame p t null_sid (c.dumps j) none none w ≡ (ok tt, sent p c t j w)
  unfolding message
  send_message t j w fits writes =
      send_frame_lem p laws t null_sid (c.dumps j) none none w refl tt (omega arith) writes

  is_type_refl : (t : MessageType) → not (is_type t t) ≡ false
  is_type_refl t = ground arith

  pub recv_message :
      (t : MessageType) (j : Json) (later : Bytes) (w : World)
      → Fits p c j
      → stream w.incoming ≡ message p c t j ++ later
      → (recv_frame p none none w ≡ (ok (t, null_sid, c.dumps j), got p c t j w))
        × (stream (got p c t j w).incoming ≡ later)
  unfolding message got unprotect
  recv_message t j later w fits arrives =
      recv_frame-framed p laws t null_sid (replicate 12 0) (c.dumps j) (c.dumps j) later none none w
        refl refl fits (λ u. refl) arrives

  pub stream-got :
      (t : MessageType) (j : Json) (later : Bytes) (w : World)
      → Fits p c j
      → stream w.incoming ≡ message p c t j ++ later
      → stream (got p c t j w).incoming ≡ later
  stream-got t j later w fits arrives = (recv_message t j later w fits arrives).1

  pub decode-encode : (j : Json) → Distinct j → decode_hs c (c.dumps j) ≡ ok j
  unfolding decode_hs
  decode-encode j distinct = rw (c.loads-dumps j distinct)

  pub receive_lem :
      (t : MessageType) (j : Json) (later : Bytes) (w : World)
      → Distinct j
      → Fits p c j
      → stream w.incoming ≡ message p c t j ++ later
      → receive p c t w ≡ (ok j, got p c t j w)
  unfolding receive
  receive_lem t j later w distinct fits arrives =
      bind_ok _ _ (recv_message t j later w fits arrives).0
      ∙ bind_pass _ _ _ (is_type_refl t)
      ∙ ap (λ r. (r, got p c t j w)) (decode-encode j distinct)

-- A field that holds hexadecimal text gives its bytes.
pub hex_field_lem :
    (j : Json) (k : Text) (bs : Bytes) (w : World)
    → subscript j k ≡ ok (str (hex bs))
    → IsBytes bs
    → hex_field j k w ≡ (ok bs, w)
unfolding hex_field bytes_fromhex
hex_field_lem j k bs w e h =
    bind_ok _ _ (ap (λ r. (r, w)) e) ∙ ap (λ r. (r, w)) (rw (fromhex-hex bs h))
