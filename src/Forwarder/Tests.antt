-- ===== src/Forwarder/Tests.antt =====
-- A relayed request.
use custom_vpn_implementatio.Common.{
  ◌≡◌, refl, Bool, none, some, [], ◌∷◌, ◌++◌, Bytes, Text, codes, bytes_eq, ◌||◌, if◌then◌else◌,
}
use custom_vpn_implementatio.Common.Exec.{◌>>◌, ok, err, other}
use custom_vpn_implementatio.Common.Dict
use custom_vpn_implementatio.World.{World, chunk}
use custom_vpn_implementatio.World.Sample.{calm}
use custom_vpn_implementatio.Json.Toy
use custom_vpn_implementatio.Forwarder.{
  Platform, Forwarder, unexpected, to_come, relay_response, handle_relay, handle_connect, relay_to,
  build_response, outgoing_headers,
}
use custom_vpn_implementatio.Json.{obj, str, member, end, Members, find}
use custom_vpn_implementatio.Forwarder.Headers.{agent_or_default, outgoing_headers_lem}
use custom_vpn_implementatio.Forwarder.Connects.{handle_connect-twice}
use custom_vpn_implementatio.Forwarder.Relay.{handle_relay_lem}
use custom_vpn_implementatio.Forwarder.RelayLoop.{EndsAs}

abbrev bare : Platform
bare = record {
  request = λ method url headers body. unexpected [];
  connect = λ i host port. err other;
  describe = λ e. [];
  text_of = λ j. [];
  upper = λ t. t;
  utf8 = λ t. t;
}

abbrev target : Text
target = codes "a:1"

abbrev peer : World
peer = calm (chunk 72 (73 ∷ []) ∷ [])

abbrev one_session : Forwarder
one_session = record { sessions = (target, peer) ∷ []; dialled = 1 }

handle_relay_lem_example :
    let (r, f') = handle_relay Toy.toy bare target (codes "x") one_session in
    (data_in : Bytes) × (closed : Bool) × (later : World) × (r
      ≡ ok (relay_response Toy.toy bare data_in closed))
    × (later.outgoing ≡ [] ++ codes "x")
    × (data_in ++ to_come later.incoming ≡ to_come peer.incoming)
    × EndsAs closed peer.incoming later.incoming
    × ((j : Text)
        → Dict.get f'.sessions j ≡ (
            if bytes_eq target j
            then (if closed then none else some later)
            else Dict.get one_session.sessions j))
unfolding Dict.get bytes_eq
handle_relay_lem_example =
    handle_relay_lem Toy.toy bare target (codes "x") one_session peer refl refl

outgoing_headers_lem_example :
    let m = member (codes "Proxy-Connection") (str []) (member (codes "A") (str []) end) in
    (out : Members) × (outgoing_headers (obj m) ≡ ok out)
    × ((k : Text)
        → find k out ≡ (
            if bytes_eq (codes "Proxy-Authorization") k || bytes_eq (codes "Proxy-Connection") k
            then none
            else if bytes_eq (codes "User-Agent") k
            then agent_or_default (find (codes "User-Agent") m)
            else find k m))
unfolding find bytes_eq
outgoing_headers_lem_example =
    outgoing_headers_lem
      (member (codes "Proxy-Connection") (str []) (member (codes "A") (str []) end))
      (refl, tt, (refl, tt, tt))

-- Every connection comes about; its number is what arrives first on it.
abbrev reachable : Platform
reachable = record {
  request = λ method url headers body. unexpected [];
  connect = λ i host port. ok (calm (chunk i [] ∷ []));
  describe = λ e. [];
  text_of = λ j. [];
  upper = λ t. t;
  utf8 = λ t. t;
}

abbrev unused : Forwarder
unused = record { sessions = []; dialled = 0 }

handle_connect-twice_example :
    let (answer, f') =
      (handle_connect Toy.toy reachable target >> handle_connect Toy.toy reachable target) unused in
    let second = calm (chunk 1 [] ∷ []) in
    ((handle_connect Toy.toy reachable target unused).0
      ≡ ok (build_response Toy.toy reachable 200 end []))
    × (answer ≡ ok (build_response Toy.toy reachable 200 end []))
    × ((j : Text)
        → Dict.get f'.sessions j
          ≡ (if bytes_eq target j then some second else Dict.get {V = World} [] j))
    × (handle_relay Toy.toy reachable target [] f'
        ≡ relay_to Toy.toy reachable (some second) target [] f')
handle_connect-twice_example =
    handle_connect-twice Toy.toy reachable target unused (calm (chunk 0 [] ∷ []))
      (calm (chunk 1 [] ∷ [])) [] refl refl
