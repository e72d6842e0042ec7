-- ===== src/TamperDemo/Tests.antt =====
-- The demo's frame at a server with the same keys.
use custom_vpn_implementatio.Common.{
  ℕ, suc, ◌≡◌, ◌≢◌, refl, [], ◌∷◌, Bytes, codes, replicate, arith, ap, some, bytes_eq,
}
use custom_vpn_implementatio.Common.Exec.{◌>>=◌, Exec, ok}
use custom_vpn_implementatio.World.{World, requeue, urandom, sendall}
use custom_vpn_implementatio.World.Sample.{calm}
use custom_vpn_implementatio.Crypto.Utils.{encrypt_payload, compute_hmac}
use custom_vpn_implementatio.Crypto.Toy.{toy, toy-Laws}
use custom_vpn_implementatio.Json.Toy
use custom_vpn_implementatio.Protocol.{or_handshake_key, pack, value}
use custom_vpn_implementatio.Rate.{new_limiter, is_idle, touch}
use custom_vpn_implementatio.Common.Dict
use custom_vpn_implementatio.Server.{Server, serve}
use custom_vpn_implementatio.TamperDemo.{xor_at, tampered, send_tampered}
use custom_vpn_implementatio.TamperDemo.Rejected.{tampered_body, valid_body, serve-send_tampered}

abbrev sid : Bytes
sid = replicate 16 7

abbrev ek : Bytes
ek = replicate 32 0

abbrev mk : Bytes
mk = replicate 32 1

abbrev demo_world : World
demo_world = calm []

abbrev echo : Bytes → Exec ℕ Bytes
echo request n = (ok request, suc n)

abbrev server : Server ℕ
server = record {
  world = calm (requeue (send_tampered toy sid ek mk demo_world).1.outgoing []);
  limiter = touch 0 (codes "10.0.0.1") (new_limiter 10 20 5 50 300);
  ticks = λ i. 0;
  ticked = 0;
  forwarder = 0;
}

abbrev first : Bytes → ℕ
first [] = 0
first (b ∷ bs) = b

changes :
    toy.hmac_sha256
      (or_handshake_key (some mk))
      (tampered_body (valid_body toy toy-Laws sid ek mk demo_world refl refl))
    ≢ toy.hmac_sha256 mk (valid_body toy toy-Laws sid ek mk demo_world refl refl)
unfolding or_handshake_key xor_at value
changes e = absurd (omega (arith, ap first e))

serve-send_tampered_example :
    let (r, s') = serve 1 toy Toy.toy (λ e. []) echo (codes "10.0.0.1") sid ek mk 3 server in
    ((send_tampered toy sid ek mk demo_world).0 ≡ ok tt)
    × (r ≡ ok tt)
    × (s'.forwarder ≡ 0)
    × (s'.limiter ≡ server.limiter)
    × (s'.world.outgoing ≡ [])
unfolding send_tampered encrypt_payload compute_hmac urandom sendall ◌>>=◌ tampered xor_at pack
    value or_handshake_key is_idle touch Dict.get Dict.put bytes_eq
serve-send_tampered_example =
    serve-send_tampered toy toy-Laws sid ek mk demo_world refl refl 1 Toy.toy (λ e. []) echo
      (codes "10.0.0.1") 2 [] server refl changes refl refl
