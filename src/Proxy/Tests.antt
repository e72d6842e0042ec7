-- ===== src/Proxy/Tests.antt =====
-- A request and a response.
use custom_vpn_implementatio.Common.{◌≡◌, refl, [], ◌∷◌, codes, arith, map, ◌%◌}
use custom_vpn_implementatio.Common.Exec.{ok, err, other}
use custom_vpn_implementatio.Json.{str, obj, num, int, member, end, Members, find}
use custom_vpn_implementatio.Json.Toy
use custom_vpn_implementatio.Forwarder.{
  Platform, Forwarder, unexpected, dispatch, forward_request, build_response,
}
use custom_vpn_implementatio.Common.Dict
use custom_vpn_implementatio.Crypto.Toy.{toy, map-mod-IsBytes}
use custom_vpn_implementatio.Server.{or_forward_error}
use custom_vpn_implementatio.Forwarder.SocketBytes.{HasBytes}
use custom_vpn_implementatio.Proxy.Decodes.{PlatformLaws, Decodes, forward_request-Decodes}
use custom_vpn_implementatio.Proxy.{encode_request, decode_response}
use custom_vpn_implementatio.Proxy.Format.{
  forward_request-encode_request, decode_response-build_response,
}

abbrev bare : Platform
bare = record {
  request = λ method url headers body. unexpected [];
  connect = λ i host port. err other;
  describe = λ e. [];
  text_of = λ j. [];
  upper = λ t. t;
  utf8 = λ t. t;
}

abbrev headers : Members
headers = member (codes "A") (str (codes "b")) end

abbrev no_sessions : Forwarder
no_sessions = record { sessions = []; dialled = 0 }

forward_request-encode_request_example :
    forward_request Toy.toy bare
      (encode_request Toy.toy (codes "GET") (codes "a.b") headers (7 ∷ []))
      no_sessions
    ≡ dispatch Toy.toy bare (codes "GET") (str (codes "a.b")) (obj headers) (7 ∷ []) no_sessions
unfolding find
forward_request-encode_request_example =
    forward_request-encode_request Toy.toy bare (codes "GET") (codes "a.b") headers (7 ∷ [])
      no_sessions (refl, tt, tt) (omega arith, tt)

decode_response-build_response_example :
    decode_response Toy.toy (build_response Toy.toy bare 200 headers (7 ∷ []))
    ≡ ok (num (int 200), obj headers, 7 ∷ [])
unfolding find
decode_response-build_response_example =
    decode_response-build_response Toy.toy bare 200 headers (7 ∷ []) (refl, tt, tt)
      (omega arith, tt)

-- What it calls bytes are bytes.
abbrev byte_sized : Platform
byte_sized = record bare { utf8 = λ t. map (λ b. b % 256) t }

byte_sized-PlatformLaws : PlatformLaws byte_sized
byte_sized-PlatformLaws = record {
  request-Distinct = λ method url headers body status out chunks e. absurd (cc e);
  connect-IsBytes = λ i host port w e. absurd (cc e);
  utf8-IsBytes = map-mod-IsBytes;
}

forward_request-Decodes_example :
    let (r, f') = forward_request Toy.toy byte_sized (codes "no JSON") no_sessions in
    Decodes Toy.toy
      (or_forward_error 1 toy Toy.toy (λ e. []) (forward_request Toy.toy byte_sized) r)
    × HasBytes f'
unfolding Dict.get
forward_request-Decodes_example =
    forward_request-Decodes 1 toy Toy.toy byte_sized byte_sized-PlatformLaws (λ e. []) (λ e. tt)
      (forward_request Toy.toy byte_sized) (codes "no JSON") no_sessions (λ t w e. absurd (cc e))
