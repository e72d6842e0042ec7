-- ===== src/Browser/Pages.antt =====
-- client/client_proxy.py: the texts that go to the browser and the requests of `_handle_connect`.
use custom_vpn_implementatio.Browser.Parts.{crlf}
use custom_vpn_implementatio.Common.{
  ℕ, ◌*◌, Bool, false, Option, none, some, [], ◌∷◌, ◌++◌, Bytes, Text, codes, length, ◌==◌, ◌||◌,
  bytes_eq, if◌then◌else◌,
}
use custom_vpn_implementatio.Common.Exec.{
  Exn, value_error, bad_number, not_encodable, attribute_error, Result, ok, err,
}
use custom_vpn_implementatio.Json.{Json, num, str, obj, Members, end, member, int, float, Codec}
use custom_vpn_implementatio.Json.Hex.{hex}
use custom_vpn_implementatio.Proxy.{request_json}

-- What Unicode's tables and codecs give: `decode("utf-8", errors="replace")`; `encode("utf-8")` of
-- any text, which may hold a lone surrogate, and of what `decode` gave or an exception says, which
-- does not; `upper()` and `lower()`; also `str(int(text))`, and the texts of JSON values and of exceptions.
pub record Texts : Type 0 where
  pub decode : Bytes → Text
  pub encode : Text → Option Bytes
  pub utf8 : Text → Bytes
  pub upper : Text → Text
  pub lower : Text → Text
  pub int_text : Text → Option Text
  pub text_of : Json → Text
  pub describe : Exn → Text

-- The encoded head of a page and its body. A lone surrogate raises `UnicodeEncodeError`.
abbrev pub with_body : Option Bytes → Bytes → Result Bytes
with_body none body = err (value_error not_encodable)
with_body (some head) body = ok (head ++ body)

module _ (x : Texts) where
  unfoldable pub is_hop_by_hop : Text → Bool
  is_hop_by_hop k =
      let name = x.lower k in
      bytes_eq name (codes "transfer-encoding")
      || bytes_eq name (codes "connection")
      || bytes_eq name (codes "keep-alive")

  unfoldable pub header_lines : Members → Text
  header_lines end = []
  header_lines (member k v m) =
      if is_hop_by_hop k
      then header_lines m
      else k ++ (codes ": " ++ (x.text_of v ++ (crlf ++ header_lines m)))

  abbrev pub raw_response : Json → Members → Bytes → Result Bytes
  raw_response status_code resp_headers resp_body =
      with_body
        (x.encode (
          codes "HTTP/1.1 "
          ++ (x.text_of status_code
              ++ (codes " OK"
                  ++ (crlf
                      ++ (header_lines resp_headers
                          ++ (codes "Content-Length: "
                              ++ (x.text_of (num (int (length resp_body)))
                                  ++ (crlf ++ (codes "Connection: close" ++ (crlf ++ crlf)))))))))))
        resp_body

  unfoldable pub error_page : Exn → Bytes
  error_page e =
      codes "HTTP/1.1 502 Bad Gateway"
      ++ (crlf
          ++ (codes "Content-Type: text/html"
              ++ (crlf
                  ++ (crlf
                      ++ (codes "<html><body><h1>502 Bad Gateway</h1><p>VPN tunnel error: "
                          ++ (x.utf8 (x.describe e) ++ codes "</p></body></html>"))))))

abbrev pub with_port : Text → Option Text → Result Text
with_port host none = err (value_error bad_number)
with_port host (some port) = ok (host ++ 58 ∷ port)

-- `f"{target_host}:{target_port}"`, where no port is written 443.
abbrev pub connect_target : Texts → Text → Option (Text × Text) → Result Text
connect_target x target none = ok (target ++ codes ":443")
connect_target x target (some (host, port_str)) = with_port host (x.int_text port_str)

-- `resp_headers.items()` is a call on a dict.
abbrev pub as_members : Json → Result Members
as_members (obj m) = ok m
as_members _ = err attribute_error

module _ (second : ℕ) where
  -- `!= 200`: an int, or a float of the same value.
  abbrev pub is_200 : Json → Bool
  is_200 (num (int n)) = n == 200
  is_200 (num (float t)) = t == 200 * second
  is_200 _ = false

module _ (c : Codec) where
  abbrev pub connect_request : Text → Bytes
  connect_request target = c.dumps (request_json c (codes "CONNECT") target end [])

  abbrev pub relay_request : Text → Bytes → Bytes
  relay_request target data_in = c.dumps (
      obj (
        member (codes "method") (str (codes "RELAY")) (
          member (codes "url") (str target)
            (member (codes "headers") (obj end) (member (codes "body") (str (hex data_in)) end)))))
