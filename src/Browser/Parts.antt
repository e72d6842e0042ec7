-- ===== src/Browser/Parts.antt =====
-- client/client_proxy.py: what `handle_browser` and `_handle_http_request` take from the text of a
-- request.
use custom_vpn_implementatio.Common.{Option, none, some, List, [], ◌∷◌, ◌++◌, Text}
use custom_vpn_implementatio.Common.Strings.{strip, split, split_crlf, join_crlf, cut}
use custom_vpn_implementatio.Json.{str, Members, end, assign}

abbrev pub crlf : Text
crlf = 13 ∷ 10 ∷ []

-- The header lines of a request.
abbrev pub split_colon : Text → Option (Text × Text)
split_colon line = cut (58 ∷ []) line

abbrev pub add_header : Option (Text × Text) → Members → Members
add_header none headers = headers
add_header (some (k, v)) headers = assign (strip k) (str (strip v)) headers

unfoldable pub add_headers : List Text → Members → Members
add_headers [] headers = headers
add_headers (line ∷ lines) headers = add_headers lines (add_header (split_colon line) headers)

unfoldable pub parse_headers : Text → Members
parse_headers headers_str = add_headers (split_crlf headers_str) end

-- What `handle_browser` takes from the text of a request: the method, the target, and for another
-- method than CONNECT the header lines and the body.
abbrev pub first_line : List Text → Text
first_line [] = []
first_line (l ∷ ls) = l

abbrev pub but_first : List Text → List Text
but_first [] = []
but_first (l ∷ ls) = ls

abbrev pub method_target : List Text → Option (Text × Text)
method_target (method ∷ target ∷ version ∷ more) = some (method, target)
method_target _ = none

unfoldable pub request_line : Text → Option (Text × Text)
request_line request_text = method_target (split 32 (first_line (split_crlf request_text)))

abbrev pub head_and_body : Text → Option (Text × Text) → Text × Text
head_and_body request_text none = (request_text, [])
head_and_body request_text (some (head, body)) = (head, body)

unfoldable pub header_body : Text → Text × Text
header_body request_text =
    let (head, body) = head_and_body request_text (cut (crlf ++ crlf) request_text) in
    (join_crlf (but_first (split_crlf head)), body)
