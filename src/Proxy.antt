-- ===== src/Proxy.antt =====
-- client/client_proxy.py, `_encode_request` and `_decode_response`: the requests and responses that
-- travel in the frames of the tunnel. server/forwarder.py has their other ends.
pub mod Format
pub mod Decodes
mod Tests
use custom_vpn_implementatio.Common.{[], ◌∷◌, true, false, Bytes, Text, codes}
use custom_vpn_implementatio.Common.Exec.{Result, ok, err, value_error, bad_json, Exn}
use custom_vpn_implementatio.Common.{Option, none, some}
use custom_vpn_implementatio.Json.{
  Json, null, str, obj, Members, end, member, Codec, subscript, get_or, truthy, bytes_fromhex,
}
use custom_vpn_implementatio.Json.Hex.{hex}

-- `body.hex() if body else ""`
abbrev pub hex_or_empty : Bytes → Text
hex_or_empty [] = []
hex_or_empty (b ∷ bs) = hex (b ∷ bs)

abbrev pub then_result {ℓ κ} : {A : Type ℓ} {B : Type κ} → Result A → (A → Result B) → Result B
then_result (ok a) f = f a
then_result (err e) f = err e

abbrev pub or_bad_json : Option Json → Result Json
or_bad_json none = err (value_error bad_json)
or_bad_json (some j) = ok j

module _ (c : Codec) where
  abbrev pub request_json : (method url : Text) → Members → Bytes → Json
  request_json method url headers body = obj (
      member (codes "method") (str method) (
        member (codes "url") (str url) (
          member (codes "headers") (obj headers)
            (member (codes "body") (str (hex_or_empty body)) end))))

  unfoldable pub encode_request : (method url : Text) → Members → Bytes → Bytes
  encode_request method url headers body = c.dumps (request_json method url headers body)

  -- `obj.get("body")` decides whether `obj["body"]` is decoded.
  abbrev pub body_field : Json → Json → Result Bytes
  body_field j v = elim (truthy v) [
    | true ↦ then_result (subscript j (codes "body")) bytes_fromhex
    | false ↦ ok []
  ]

  -- The status code, the headers and the body.
  abbrev pub response_of : Json → Result (Json × Json × Bytes)
  response_of j = then_result (subscript j (codes "status_code")) (λ status_code.
      then_result (get_or j (codes "headers") (obj end)) (λ headers.
        then_result (get_or j (codes "body") null)
          (λ v. then_result (body_field j v) (λ body. ok (status_code, headers, body)))))

  unfoldable pub decode_response : Bytes → Result (Json × Json × Bytes)
  decode_response data_in = then_result (or_bad_json (c.loads data_in)) response_of
