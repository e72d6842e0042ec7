-- ===== src/Protocol/Delivery.antt =====
-- Frames between two ends, unchanged and changed on the way.
use custom_vpn_implementatio.Common.{
  ◌+◌, ◌≤◌, ◌≡◌, ◌≢◌, refl, ◌∙◌, true, Option, ◌++◌, Bytes, length, drop, arith, drop-append,
  bytes_eq, bytes_eq_iff, Bool-cases, inl, inr,
}
use custom_vpn_implementatio.Common.Exec.{ok, err, value_error, hmac_failed}
use custom_vpn_implementatio.World.{World}
use custom_vpn_implementatio.World.Stream.{stream}
use custom_vpn_implementatio.Crypto.{Primitives, Laws}
use custom_vpn_implementatio.Protocol.{
  MessageType, or_handshake_key, unpack, send_frame, recv_frame, max_frame_size,
}
use custom_vpn_implementatio.Protocol.Accept.{after_frame, recv_frame_lem}
use custom_vpn_implementatio.Protocol.RoundTrip.{
  KeyFits, overhead, nonce_field, payload_field, length-nonce_field, length-payload_field,
  unprotect_lem, send_frame_lem, recv_frame-framed,
}

-- If the payload fits in a frame and the socket takes it, `send_frame` returns, and a receiver
-- with the same keys, before whom the written bytes arrive in any chunks and with anything behind
-- them, gets the type, the session id and the payload; what is behind stays unread.
pub recv_frame-send_frame :
    (p : Primitives) (laws : Laws p) (t : MessageType) (sid payload later : Bytes)
    (ek mk : Option Bytes) (w v : World)
    → length sid ≡ 16
    → KeyFits ek
    → 61 + (length payload + overhead ek) ≤ max_frame_size
    → w.writable w.sends ≡ true
    → stream v.incoming
      ≡ drop (length w.outgoing) (send_frame p t sid payload ek mk w).1.outgoing ++ later
    → (v' : World) × ((send_frame p t sid payload ek mk w).0 ≡ ok tt)
      × (recv_frame p ek mk v ≡ (ok (t, sid, payload), v'))
      × (stream v'.incoming ≡ later)
recv_frame-send_frame p laws t sid payload later ek mk w v hs fits small writes arrives =
    let sent = send_frame_lem p laws t sid payload ek mk w hs fits small writes in
    let fresh = rw (sent, drop-append (length w.outgoing) w.outgoing _ refl) at arrives in
    let (received, rest) =
      recv_frame-framed p laws t sid (nonce_field p ek w) (payload_field p payload ek w) payload
        later ek mk v hs (length-nonce_field p ek w)
        (omega (arith, length-payload_field p laws payload ek w))
        (λ u. unprotect_lem p laws payload ek w u fits) fresh in
    (_, rw sent, received, rest)

-- A frame whose last 32 bytes are not the HMAC of the body under the receiver's key is refused
-- with the HMAC error, whatever the body is; it is consumed, and no field of it is looked at.
pub recv_frame-tampered :
    (p : Primitives) (header body mac later : Bytes) (ek mk : Option Bytes) (w : World)
    → stream w.incoming ≡ header ++ ((body ++ mac) ++ later)
    → length header ≡ 4
    → length mac ≡ 32
    → unpack header ≡ length body + 32
    → 29 ≤ length body
    → length body + 32 ≤ max_frame_size
    → p.hmac_sha256 (or_handshake_key mk) body ≢ mac
    → recv_frame p ek mk w ≡ (err (value_error hmac_failed), after_frame (length body + 32) w)
recv_frame-tampered p header body mac later ek mk w arrives hh hm hl h1 h2 differs =
    recv_frame_lem p header body mac later ek mk w arrives hh hm hl h1 h2
    ∙ elim (Bool-cases (bytes_eq (p.hmac_sha256 (or_handshake_key mk) body) mac)) [
      | inl e ↦ absurd (differs ((bytes_eq_iff _ _).0 e))
      | inr e ↦ rw e
    ]
