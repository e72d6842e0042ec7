-- ===== src/Proxy/Decodes.antt =====
-- Whatever a request of the tunnel holds and however its forwarding ends, the proxy can take the
-- answer apart.
use custom_vpn_implementatio.Common.{
  ℕ, suc, ◌≡◌, refl, ap, ◌∙◌, Bool, true, false, Option, none, some, [], ◌++◌, Bytes, Text, codes,
  IsBytes, IsBytes-append, bytes_eq, arith,
}
use custom_vpn_implementatio.Common.Exec.{◌>>=◌, lift, Exec, Exn, Result, ok, err, type_error}
use custom_vpn_implementatio.Common.Dict
use custom_vpn_implementatio.Common.Dict.{get-put, get-pop}
use custom_vpn_implementatio.Common.Strings.{rsplit_colon}
use custom_vpn_implementatio.World.{World}
use custom_vpn_implementatio.Crypto.{Primitives}
use custom_vpn_implementatio.Json.{
  Json, null, bool, num, str, arr, obj, int, Members, member, end, Codec, Distinct, find, subscript,
  get_or,
}
use custom_vpn_implementatio.Json.Hex.{hex}
use custom_vpn_implementatio.Forwarder.{
  Platform, Forwarder, Reply, replied, timeout_error, connection_failed, request_failed, unexpected,
  join_chunks, build_response, error_response, respond, handle_http, as_text, outgoing_headers,
  with_scheme, body_or_none, opened, port_of, handle_connect, connect_json, to_come, relay_on,
  relay_response, relayed, relay_to, handle_relay, relay_json, by_method, hex_body, or_bad_request,
  forward_request,
}
use custom_vpn_implementatio.Forwarder.SocketBytes.{
  HasBytes, ReadsBytes, put-HasBytes, pop-HasBytes, relays_on,
}
use custom_vpn_implementatio.Server.{or_forward_error}
use custom_vpn_implementatio.Proxy.{decode_response, response_of, or_bad_json, then_result}
use custom_vpn_implementatio.Proxy.Format.{decode_response-build_response, body_field-hex}

-- What the platform is relied on for: the names of a response's headers are distinct, and what it calls bytes are bytes.
pub record PlatformLaws (os : Platform) : Type 0 where
  pub request-Distinct :
      (method url : Text) (headers : Members) (body : Option Bytes) (status : ℕ) (out : Members)
      (chunks : _)
      → os.request method url headers body ≡ replied status out chunks
      → Distinct (obj out) × IsBytes (join_chunks chunks)
  pub connect-IsBytes :
      (i : ℕ) (host : Text) (port : Option Text) (w : World)
      → os.connect i host port ≡ ok w
      → IsBytes (to_come w.incoming)
  pub utf8-IsBytes : (t : Text) → IsBytes (os.utf8 t)

module _ (c : Codec) where
  -- The proxy gets a status code, headers and a body.
  abbrev pub Decodes : Bytes → Type 0
  Decodes response =
      (status : ℕ) × (headers : Members) × (body : Bytes) × (decode_response c response
        ≡ ok (num (int status), obj headers, body))

module _ (second : ℕ) (p : Primitives) (c : Codec) (os : Platform) (laws : PlatformLaws os)
    (describe : Exn → Bytes) (texts : (e : Exn) → IsBytes (describe e))
    (forward : Bytes → Exec Forwarder Bytes) where
  builds :
      (status : ℕ) (headers : Members) (body : Bytes)
      → Distinct (obj headers)
      → IsBytes body
      → Decodes c (build_response c os status headers body)
  builds status headers body d h =
      (status, headers, body, decode_response-build_response c os status headers body d h)

  builds_error :
      (status : ℕ) (digits message : Text) → Decodes c (error_response c os status digits message)
  unfolding error_response find
  builds_error status digits message = builds status _ _ (refl, tt, tt) (laws.utf8-IsBytes _)

  relay_response-Decodes :
      (body : Bytes) (closed : Bool) → IsBytes body → Decodes c (relay_response c os body closed)
  unfolding decode_response find bytes_eq get_or subscript
  relay_response-Decodes body closed h =
      let j = obj (
        member (codes "status_code") (num (int 200)) (
          member (codes "headers") (obj end) (
            member (codes "body") (str (hex body)) (member (codes "closed") (bool closed) end)))) in
      (
        200,
        end,
        body,
        ap (λ o. then_result (or_bad_json o) (response_of c))
              (c.loads-dumps j (refl, tt, (refl, tt, (refl, tt, (refl, tt, tt)))))
            ∙ ap (λ r. then_result r (λ bs. ok (num (int 200), obj end, bs)))
                (body_field-hex c j body refl h),
      )

  abbrev answer_of : Result Bytes → Bytes
  answer_of r = or_forward_error second p c describe forward r

  -- The answer decodes, and the sockets' bytes are bytes still.
  abbrev Fine : Result Bytes × Forwarder → Type 0
  Fine x = Decodes c (answer_of x.0) × HasBytes x.1

  fails : (e : Exn) → Decodes c (answer_of (err e))
  unfolding build_response
  fails e =
      builds 500 end (codes "Forward error: " ++ describe e) tt
        (IsBytes-append (codes "Forward error: ") (describe e) (omega arith) (texts e))

  Fine-lift :
      {A : Type 0} (r : Result A) (k : A → Exec Forwarder Bytes) (f : Forwarder)
      → HasBytes f
      → ((a : A) → Fine (k a f))
      → Fine ((lift r >>= k) f)
  unfolding ◌>>=◌
  Fine-lift (ok a) k f h rest = rest a
  Fine-lift (err e) k f h rest = (fails e, h)

  responds :
      (url : Text) (r : Reply)
      → ((status : ℕ) (out : Members) (chunks : _)
          → r ≡ replied status out chunks
          → Distinct (obj out) × IsBytes (join_chunks chunks))
      → Decodes c (respond c os url r)
  responds url (replied status headers chunks) h =
      let (d, b) = h status headers chunks refl in builds status headers (join_chunks chunks) d b
  responds url (timeout_error e) h = builds_error 504 _ _
  responds url (connection_failed e) h = builds_error 502 _ _
  responds url (request_failed e) h = builds_error 502 _ _
  responds url (unexpected e) h = builds_error 500 _ _

  http :
      (method : Text) (url headers : Json) (body : Bytes) (f : Forwarder)
      → HasBytes f
      → Fine (handle_http c os method url headers body f)
  unfolding handle_http
  http method url headers body f h = Fine-lift (as_text url) _ f h λ u.
      Fine-lift (outgoing_headers headers) _ f h λ m. (
        responds (with_scheme u) (os.request method (with_scheme u) m (body_or_none body))
            (laws.request-Distinct method (with_scheme u) m (body_or_none body)),
        h,
      )

  opens :
      (target : Text) (r : Result World) (f : Forwarder)
      → HasBytes f
      → ((w : World) → r ≡ ok w → IsBytes (to_come w.incoming))
      → Fine (let (a, f') = opened c os target r f in (ok a, f'))
  opens target (ok w) f h b = (builds 200 end [] tt tt, put-HasBytes f target w h (b w refl))
  opens target (err e) f h b = (builds_error 502 _ _, h)

  connects : (url : Json) (f : Forwarder) → HasBytes f → Fine (connect_json c os url f)
  unfolding handle_connect
  connects (str target) f h =
      let (host, port) = port_of c os target (rsplit_colon target) in
      opens target (os.connect f.dialled host port) (record f { dialled = suc f.dialled }) h
        (laws.connect-IsBytes f.dialled host port)
  connects null f h = (builds_error 502 _ _, h)
  connects (bool b) f h = (builds_error 502 _ _, h)
  connects (num n) f h = (builds_error 502 _ _, h)
  connects (arr xs) f h = (builds_error 502 _ _, h)
  connects (obj m) f h = (builds_error 502 _ _, h)

  relayed-Fine :
      (target : Text) (r : Result (Bytes × Bool)) (w : World) (f : Forwarder)
      → HasBytes f
      → ReadsBytes (r, w)
      → Fine (let (a, f') = relayed c os target r w f in (ok a, f'))
  relayed-Fine target (ok (d, true)) w f h (b, left) =
      (relay_response-Decodes d true (b d true refl), pop-HasBytes f target h)
  relayed-Fine target (ok (d, false)) w f h (b, left) =
      (relay_response-Decodes d false (b d false refl), put-HasBytes f target w h left)
  relayed-Fine target (err e) w f h b = (builds_error 502 _ _, pop-HasBytes f target h)

  relays_to :
      (target : Text) (data_out : Bytes) (f : Forwarder) (o : Option World)
      → Dict.get f.sessions target ≡ o
      → HasBytes f
      → Fine (relay_to c os o target data_out f)
  relays_to target data_out f none e h = (builds_error 502 _ _, h)
  relays_to target data_out f (some w) e h =
      let (r, w') = relay_on data_out w in
      relayed-Fine target r w' f h (relays_on data_out w (h target w e))

  relays :
      (url : Json) (body : Bytes) (f : Forwarder) → HasBytes f → Fine (relay_json c os url body f)
  unfolding handle_relay
  relays (str target) body f h = relays_to target body f (Dict.get f.sessions target) refl h
  relays null body f h = (builds_error 502 _ _, h)
  relays (bool b) body f h = (builds_error 502 _ _, h)
  relays (num n) body f h = (builds_error 502 _ _, h)
  relays (arr xs) body f h = (fails type_error, h)
  relays (obj m) body f h = (fails type_error, h)

  dispatches :
      (is_connect is_relay : Bool) (method : Text) (url headers : Json) (body : Bytes)
      (f : Forwarder)
      → HasBytes f
      → Fine (by_method c os is_connect is_relay method url headers body f)
  dispatches true is_relay method url headers body f h = connects url f h
  dispatches false true method url headers body f h = relays url body f h
  dispatches false false method url headers body f h = http method url headers body f h

  parses : (o : Option Json) (f : Forwarder) → HasBytes f → Fine (or_bad_request c os o f)
  parses none f h = (builds_error 400 _ _, h)
  parses (some req) f h = Fine-lift (get_or req (codes "method") (str (codes "GET"))) _ f h λ m.
      Fine-lift (as_text m) _ f h λ method.
        Fine-lift (get_or req (codes "url") (str [])) _ f h λ url.
          Fine-lift (get_or req (codes "headers") (obj end)) _ f h λ headers.
            Fine-lift (get_or req (codes "body") (str [])) _ f h λ body_hex.
              Fine-lift (hex_body c os body_hex) _ f h λ body.
                dispatches (bytes_eq (os.upper method) (codes "CONNECT"))
                  (bytes_eq (os.upper method) (codes "RELAY")) (os.upper method) url headers body f
                  h

  -- For every payload of a DATA_REQUEST, JSON or not, and whatever the web server, the target of a CONNECT or the
  -- forwarding itself does: the answer that the server sends back, the page for an exception of
  -- `forward_request` among them, is taken apart by the proxy into a status code, headers and a
  -- body, and never raises there. What is to come on the sessions' sockets stays bytes.
  pub forward_request-Decodes :
      (request : Bytes) (f : Forwarder)
      → HasBytes f
      → let (r, f') = forward_request c os request f in
        Decodes c (or_forward_error second p c describe forward r) × HasBytes f'
  unfolding forward_request
  forward_request-Decodes request f h = parses (c.loads request) f h
