-- ===== src/Proxy/Format.antt =====
-- The client's and the server's side of the request and response format together.
use custom_vpn_implementatio.Common.{
  ◌≡◌, refl, ap, ◌∙◌, [], ◌∷◌, Bytes, Text, codes, IsBytes, bytes_eq,
}
use custom_vpn_implementatio.Common.{ℕ}
use custom_vpn_implementatio.Common.Exec.{ok, bind_ok}
use custom_vpn_implementatio.Json.{
  Json, Members, str, obj, num, int, member, end, Codec, Distinct, find, subscript, get_or, truthy,
  bytes_fromhex,
}
use custom_vpn_implementatio.Json.Hex.{hex, fromhex-hex}
use custom_vpn_implementatio.Forwarder.{
  Platform, Forwarder, dispatch, hex_body, or_bad_request, forward_request, build_response,
}
use custom_vpn_implementatio.Proxy.{
  request_json, encode_request, decode_response, hex_or_empty, body_field, or_bad_json, response_of,
  then_result,
}

bytes_fromhex-hex : (body : Bytes) → IsBytes body → bytes_fromhex (str (hex body)) ≡ ok body
unfolding bytes_fromhex
bytes_fromhex-hex body h = rw (fromhex-hex body h)

hex_body-hex_or_empty :
    (c : Codec) (os : Platform) (body : Bytes)
    → IsBytes body
    → hex_body c os (str (hex_or_empty body)) ≡ ok body
unfolding truthy hex
hex_body-hex_or_empty c os [] h = refl
hex_body-hex_or_empty c os (b ∷ bs) h = bytes_fromhex-hex (b ∷ bs) h

pub body_field-hex :
    (c : Codec) (j : Json) (body : Bytes)
    → subscript j (codes "body") ≡ ok (str (hex body))
    → IsBytes body
    → body_field c j (str (hex body)) ≡ ok body
unfolding truthy hex
body_field-hex c j [] e h = refl
body_field-hex c j (b ∷ bs) e h =
    ap (λ r. then_result r bytes_fromhex) e ∙ bytes_fromhex-hex (b ∷ bs) h

module _ (c : Codec) (os : Platform) where
  -- What the proxy encodes, for headers without a repeated name and a body of bytes, the server's
  -- `forward_request` takes apart into the same method (in upper case), URL, headers and body.
  pub forward_request-encode_request :
      (method url : Text) (headers : Members) (body : Bytes) (f : Forwarder)
      → Distinct (obj headers)
      → IsBytes body
      → forward_request c os (encode_request c method url headers body) f
        ≡ dispatch c os (os.upper method) (str url) (obj headers) body f
  unfolding forward_request encode_request find bytes_eq get_or
  forward_request-encode_request method url headers body f distinct h =
      ap (λ o. or_bad_request c os o f)
        (c.loads-dumps (request_json c method url headers body)
          (refl, tt, (refl, tt, (refl, distinct, (refl, tt, tt)))))
      ∙ bind_ok _ _ refl
      ∙ bind_ok _ _ refl
      ∙ bind_ok _ _ refl
      ∙ bind_ok _ _ refl
      ∙ bind_ok _ _ refl
      ∙ bind_ok _ _ (ap (λ r. (r, f)) (hex_body-hex_or_empty c os body h))

  -- The response that the server builds, for headers without a repeated name and a body of bytes,
  -- the proxy decodes to the same status code, headers and body.
  pub decode_response-build_response :
      (status_code : ℕ) (headers : Members) (body : Bytes)
      → Distinct (obj headers)
      → IsBytes body
      → decode_response c (build_response c os status_code headers body)
        ≡ ok (num (int status_code), obj headers, body)
  unfolding decode_response build_response find bytes_eq get_or subscript
  decode_response-build_response status_code headers body distinct h =
      let j = obj (
        member (codes "status_code") (num (int status_code))
          (member (codes "headers") (obj headers) (member (codes "body") (str (hex body)) end))) in
      ap (λ o. then_result (or_bad_json o) (response_of c))
        (c.loads-dumps j (refl, tt, (refl, distinct, (refl, tt, tt))))
      ∙ ap (λ r. then_result r (λ bs. ok (num (int status_code), obj headers, bs)))
          (body_field-hex c j body refl h)
