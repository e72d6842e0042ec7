-- ===== src/Browser/PageHead.antt =====
-- client/client_proxy.py, `_handle_http_request`: the head of the page that goes to the browser, line
-- by line.
use custom_vpn_implementatio.Common.{
  ◌≡◌, refl, sym, ap, ◌∙◌, Bool, true, false, some, List, [], ◌∷◌, ◌++◌, Bytes, Text, codes, length,
  append_assoc, bytes_eq, ◌||◌, if◌then◌else◌, arith,
}
use custom_vpn_implementatio.Common.Exec.{ok}
use custom_vpn_implementatio.Json.{Json, num, int, Members, end, member}
use custom_vpn_implementatio.Browser.{
  Texts, crlf, with_body, is_hop_by_hop, header_lines, raw_response,
}

abbrev pub is_one_of : Text → List Text → Bool
is_one_of name [] = false
is_one_of name (t ∷ ts) = bytes_eq name t || is_one_of name ts

abbrev pub hop_by_hop : List Text
hop_by_hop = codes "transfer-encoding" ∷ codes "connection" ∷ codes "keep-alive" ∷ []

-- Each line is ended by CR and LF.
abbrev pub as_lines : List Text → Text
as_lines [] = []
as_lines (l ∷ ls) = l ++ (13 ∷ 10 ∷ as_lines ls)

module _ (x : Texts) where
  -- The headers of a response, less those of one hop.
  abbrev pub sent_fields : Members → List Text
  sent_fields end = []
  sent_fields (member k v m) =
      if is_one_of (x.lower k) hop_by_hop
      then sent_fields m
      else (k ++ (codes ": " ++ x.text_of v)) ∷ sent_fields m

  abbrev pub page_head : Json → Members → Bytes → Text
  page_head status headers body = as_lines (
      (codes "HTTP/1.1 " ++ (x.text_of status ++ codes " OK"))
      ∷ (sent_fields headers
          ++ ((codes "Content-Length: " ++ x.text_of (num (int (length body))))
              ∷ codes "Connection: close"
              ∷ []
              ∷ [])))

  hop-same : (k : Text) → is_hop_by_hop x k ≡ is_one_of (x.lower k) hop_by_hop
  unfolding is_hop_by_hop
  hop-same k = ground arith

  header_lines-sent_fields :
      (m : Members) (ls : List Text)
      → header_lines x m ++ as_lines ls ≡ as_lines (sent_fields m ++ ls)
  unfolding header_lines
  header_lines-sent_fields end ls = refl
  header_lines-sent_fields (member k v m) ls =
      field (header_lines-sent_fields m ls) (is_one_of (x.lower k) hop_by_hop) (hop-same k)
    where
      field :
          header_lines x m ++ as_lines ls ≡ as_lines (sent_fields m ++ ls)
          → (b : Bool) → is_hop_by_hop x k ≡ b
          → header_lines x (member k v m) ++ as_lines ls
            ≡ as_lines (
                (if b then sent_fields m else (k ++ (codes ": " ++ x.text_of v)) ∷ sent_fields m)
                ++ ls)
      field rest true e = rw e rest
      field rest false e = rw e (
          append_assoc k (codes ": " ++ (x.text_of v ++ (crlf ++ header_lines x m))) (as_lines ls)
          ∙ ap (λ u. k ++ (codes ": " ++ u))
              (append_assoc (x.text_of v) (crlf ++ header_lines x m) (as_lines ls)
                ∙ ap (λ u. x.text_of v ++ 13 ∷ 10 ∷ u) rest)
          ∙ sym (
              append_assoc k (codes ": " ++ x.text_of v)
                (13 ∷ 10 ∷ as_lines (sent_fields m ++ ls))))

  -- The page of the code, line by line.
  pub raw_response-page_head :
      (status : Json) (headers : Members) (body head : Bytes)
      → x.encode (page_head status headers body) ≡ some head
      → raw_response x status headers body ≡ ok (head ++ body)
  unfolding header_lines
  raw_response-page_head status headers body head e =
      let last =
        (codes "Content-Length: " ++ x.text_of (num (int (length body))))
        ∷ codes "Connection: close"
        ∷ []
        ∷ [] in
      let text =
        ap (λ u. codes "HTTP/1.1 " ++ (x.text_of status ++ (codes " OK" ++ (crlf ++ u))))
          (header_lines-sent_fields headers last)
        ∙ ap (λ u. codes "HTTP/1.1 " ++ u)
            (sym (
              append_assoc (x.text_of status) (codes " OK")
                (crlf ++ as_lines (sent_fields headers ++ last)))) in
      ap (λ t. with_body (x.encode t) body) text ∙ ap (λ o. with_body o body) e
