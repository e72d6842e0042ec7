-- ===== src/Protocol/Tests.antt =====
-- Frames of a concrete cipher suite.
use custom_vpn_implementatio.Common.{
  ◌+◌, ◌≡◌, refl, Option, some, [], ◌∷◌, ◌++◌, Bytes, codes, length, replicate, arith,
}
use custom_vpn_implementatio.Common.Exec.{ok, err, value_error, hmac_failed}
use custom_vpn_implementatio.World.{World, requeue}
use custom_vpn_implementatio.World.Sample.{calm}
use custom_vpn_implementatio.World.Stream.{stream, stream-requeue}
use custom_vpn_implementatio.Crypto.Toy.{toy, toy-Laws}
use custom_vpn_implementatio.Protocol.{
  data_request, or_handshake_key, unpack, send_frame, recv_frame, parse_body,
}
use custom_vpn_implementatio.Protocol.Accept.{after_frame}
use custom_vpn_implementatio.Protocol.Sound.{Authentic, recv_frame_sound}
use custom_vpn_implementatio.Protocol.Delivery.{recv_frame-send_frame, recv_frame-tampered}

abbrev sid : Bytes
sid = replicate 16 7

abbrev key : Option Bytes
key = some (replicate 32 9)

abbrev sender : World
sender = calm []

abbrev receiver : World
receiver =
    calm (requeue (send_frame toy data_request sid (codes "hi") key key sender).1.outgoing [])

recv_frame-send_frame_example :
    (v' : World) × ((send_frame toy data_request sid (codes "hi") key key sender).0 ≡ ok tt)
    × (recv_frame toy key key receiver ≡ (ok (data_request, sid, codes "hi"), v'))
    × (stream v'.incoming ≡ [])
recv_frame-send_frame_example =
    recv_frame-send_frame toy toy-Laws data_request sid (codes "hi") [] key key sender receiver refl
      refl (omega arith) refl (stream-requeue _ [])

returned :
    (v' : World) × (recv_frame toy key key receiver ≡ (ok (data_request, sid, codes "hi"), v'))
returned =
    let (v', sent, received, rest) =
      recv_frame-send_frame toy toy-Laws data_request sid (codes "hi") [] key key sender receiver
        refl refl (omega arith) refl (stream-requeue _ []) in
    (v', received)

recv_frame_sound_example :
    (a : Authentic toy (or_handshake_key key) (stream receiver.incoming)) × (parse_body toy a.body
        key
        (after_frame (length a.body + 32) receiver)
      ≡ (ok (data_request, sid, codes "hi"), returned.0))
recv_frame_sound_example = recv_frame_sound toy key key receiver returned.0 returned.1

abbrev header : Bytes
header = 0 ∷ 0 ∷ 0 ∷ 61 ∷ []

abbrev body : Bytes
body = replicate 29 1

abbrev forged : World
forged = calm (requeue (header ++ ((body ++ replicate 32 255) ++ [])) [])

recv_frame-tampered_example :
    recv_frame toy key key forged ≡ (err (value_error hmac_failed), after_frame 61 forged)
unfolding unpack
recv_frame-tampered_example =
    recv_frame-tampered toy header body (replicate 32 255) [] key key forged refl refl refl refl
      (omega arith) (omega arith) (λ h. cc h)
