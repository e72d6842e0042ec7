-- ===== src/Browser/Handler.antt =====
-- A connection of the browser, from its first bytes to its end.
use custom_vpn_implementatio.Common.{
  ℕ, ◌≤◌, ◌≡◌, refl, ap, ◌∙◌, true, false, some, List, ◌∷◌, ◌++◌, Bytes, Text, codes, length,
  take_all, drop_all, map, bytes_eq,
}
use custom_vpn_implementatio.Common.Exec.{Exec, ok, bind_ok}
use custom_vpn_implementatio.Common.Strings.{join_crlf}
use custom_vpn_implementatio.World.{World, Event, chunk, recv}
use custom_vpn_implementatio.Json.{end, Codec}
use custom_vpn_implementatio.Proxy.{encode_request}
use custom_vpn_implementatio.Browser.{
  Texts, Proxy, buffer_size, swallowed, handle_browser, close_browser, handle_text, by_line,
  by_method, handle_http_request, header_body, serve_browser, handle_raw, request_line,
}
use custom_vpn_implementatio.Browser.Request.{
  IsRequest, header_line, as_dict, request_text, request_line-request_text,
  header_body-request_text, parse_headers-join_crlf,
}
use custom_vpn_implementatio.Browser.Response.{reply, then_decoded, handle_http_request_lem}

-- One read takes a whole chunk that is not longer than its bound.
pub recv-chunk :
    (n b : ℕ) (bs : Bytes) (es : List Event) (w : World)
    → length (b ∷ bs) ≤ n
    → w.incoming ≡ chunk b bs ∷ es
    → recv n w ≡ (ok (b ∷ bs), record w { incoming = es })
unfolding recv
recv-chunk n b bs es w h e = rw (e, take_all n (b ∷ bs) h, drop_all n (b ∷ bs) h) refl

-- The browser has been sent a page, in some number of writes, and its socket is closed; what it
-- sent later stays unread.
abbrev pub visited : {T : Type 0} → Proxy T → List Event → ℕ → Bytes → T → Proxy T
visited s es n page t = record s {
  browser = record s.browser {
    incoming = es;
    outgoing = s.browser.outgoing ++ page;
    sends = n;
    closed = true;
  };
  tunnel = t;
}

module _ (second : ℕ) (c : Codec) (x : Texts) {T : Type 0} (send_request : Bytes → Exec T Bytes)
    (rounds : ℕ) where
  handle_text-http :
      (text method target headers_str body : Text) (s : Proxy T)
      → request_line text ≡ some (method, target)
      → header_body text ≡ (headers_str, body)
      → bytes_eq (x.upper method) (codes "CONNECT") ≡ false
      → handle_text second c x send_request rounds text s
        ≡ handle_http_request second c x send_request
            (x.upper method)
            target
            headers_str
            (x.utf8 body)
            s
  unfolding handle_text
  handle_text-http text method target headers_str body s line parts other =
      ap (λ o. by_line second c x send_request rounds text o s) line
      ∙ ap
          (λ is_connect.
            by_method second c x send_request rounds (x.upper method) target text is_connect s)
          other
      ∙ ap
          (λ p.
            handle_http_request second c x send_request (x.upper method) target p.0 (x.utf8 p.1) s)
          parts

  -- The first bytes decide what the thread does.
  serve_browser-chunk :
      (b : ℕ) (bs : Bytes) (es : List Event) (s : Proxy T)
      → length (b ∷ bs) ≤ buffer_size
      → s.browser.incoming ≡ chunk b bs ∷ es
      → serve_browser second c x send_request rounds s
        ≡ handle_text second c x send_request rounds
            (x.decode (b ∷ bs))
            (record s { browser = record s.browser { incoming = es } })
  unfolding serve_browser handle_raw
  serve_browser-chunk b bs es s h e =
      bind_ok _ _
        (ap (λ r. (r.0, record s { browser = r.1 })) (recv-chunk buffer_size b bs es s.browser h e))

  -- If the first bytes of a browser are a request of another method than CONNECT, with headers that
  -- have no surrounding space, the tunnel is used once, for the request with the method in upper
  -- case, the target, the headers and the body; the browser is sent the response, or the 502 page
  -- if there is none, nothing more of it is read, and its socket is closed.
  pub handle_browser-http :
      (method target body : Text) (headers : List (Text × Text)) (b : ℕ) (bs : Bytes)
      (es : List Event) (s : Proxy T)
      → IsRequest method target headers
      → x.decode (b ∷ bs) ≡ request_text method target headers body
      → length (b ∷ bs) ≤ buffer_size
      → bytes_eq (x.upper method) (codes "CONNECT") ≡ false
      → s.browser.incoming ≡ chunk b bs ∷ es
      → s.browser.writable s.browser.sends ≡ true
      → let (r, t) =
          send_request
            (encode_request c (x.upper method) target (as_dict headers end) (x.utf8 body))
            s.tunnel in
        let (done, s') = handle_browser second c x send_request rounds s in
        let page = reply x (then_decoded c r) in
        (done ≡ ok tt) × ((n : ℕ) × (s' ≡ visited s es n page t))
  unfolding handle_browser
  handle_browser-http method target body headers b bs es s h decoded small other arrives writes =
      let s1 = record s { browser = record s.browser { incoming = es } } in
      let served =
        serve_browser-chunk b bs es s small arrives
        ∙ ap (λ text. handle_text second c x send_request rounds text s1) decoded
        ∙ handle_text-http (request_text method target headers body) method target
            (join_crlf (map header_line headers)) body s1
            (request_line-request_text method target body headers h)
            (header_body-request_text method target body headers h) other in
      let headers_str = join_crlf (map header_line headers) in
      let (done, (n, sent)) = rw (parse_headers-join_crlf headers h.are_headers) at (
        handle_http_request_lem second c x send_request (x.upper method) target headers_str
          (x.utf8 body) s1 writes) in
      (
        ap (λ r. swallowed r.0) served ∙ done,
        (n, ap (λ r. close_browser r.1) served ∙ ap close_browser sent),
      )
