-- ===== src/Browser/EndToEnd.antt =====
-- A browser's request through the local proxy, the tunnel and the server's forwarder.
use custom_vpn_implementatio.Common.{
  ℕ, ◌≤◌, ◌≡◌, refl, ap, ap₂, ◌∙◌, true, false, some, ◌++◌, List, [], ◌∷◌, Bytes, Text, codes,
  length, arith, bytes_eq, bytes_eq_iff, IsBytes, Bool-cases, inl, inr,
}
use custom_vpn_implementatio.Common.Exec.{◌>>=◌, Exec, Exn, Result, ok, err}
use custom_vpn_implementatio.World.{Event, chunk}
use custom_vpn_implementatio.Crypto.{Primitives}
use custom_vpn_implementatio.Json.{
  Json, num, str, obj, int, Members, member, end, Codec, Distinct, DistinctMembers, find, assign,
  find-assign,
}
use custom_vpn_implementatio.Proxy.{encode_request}
use custom_vpn_implementatio.Proxy.Format.{
  forward_request-encode_request, decode_response-build_response,
}
use custom_vpn_implementatio.Forwarder.{
  Platform, Forwarder, replied, with_scheme, outgoing_headers, body_or_none, join_chunks, respond,
  dispatch, by_method, forward_request, handle_http, build_response,
}
use custom_vpn_implementatio.Server.{or_forward_error}
use custom_vpn_implementatio.Browser.{Texts, Proxy, buffer_size, handle_browser}
use custom_vpn_implementatio.Browser.Request.{IsRequest, as_dict, request_text}
use custom_vpn_implementatio.Browser.Response.{reply, then_decoded, or_nothing}
use custom_vpn_implementatio.Browser.PageHead.{page_head, raw_response-page_head}
use custom_vpn_implementatio.Browser.Handler.{visited, handle_browser-http}

-- Python dicts have every key once.
Distinct-assign :
    (k : Text) (v : Json) (m : Members)
    → Distinct v
    → DistinctMembers m
    → DistinctMembers (assign k v m)
unfolding assign find
Distinct-assign k v end hv hm = (refl, hv, tt)
Distinct-assign k v (member j u m) hv (fresh, hu, hm) = elim (Bool-cases (bytes_eq j k)) [
  | inl same ↦ rw same (fresh, hv, hm)
  | inr other ↦ rw other (
    (ground (arith, find-assign j k v m, bytes_eq_iff j k, bytes_eq_iff k j)),
    hu,
    Distinct-assign k v m hv hm,
  )
]

Distinct-as_dict :
    (hs : List (Text × Text)) (m : Members) → DistinctMembers m → DistinctMembers (as_dict hs m)
Distinct-as_dict [] m h = h
Distinct-as_dict ((k, v) ∷ hs) m h =
    Distinct-as_dict hs (assign k (str v) m) (Distinct-assign k (str v) m tt h)

module _ (second : ℕ) (p : Primitives) (c : Codec) (os : Platform) (describe : Exn → Bytes) where
  -- What the tunnel gives for a request, when the server serves it.
  abbrev pub through : Bytes → Exec Forwarder Bytes
  through request f =
      let (r, f') = forward_request c os request f in
      (ok (or_forward_error second p c describe (forward_request c os) r), f')

  -- The headers of the request that leaves the server.
  abbrev pub or_end : Result Members → Members
  or_end (ok m) = m
  or_end (err e) = end

  dispatch-http :
      (method url : Text) (m : Members) (body : Bytes) (f : Forwarder)
      → bytes_eq method (codes "CONNECT") ≡ false
      → bytes_eq method (codes "RELAY") ≡ false
      → dispatch c os method (str url) (obj m) body f ≡ (
        ok (
            respond c os (with_scheme url) (
              os.request method
                (with_scheme url)
                (or_end (outgoing_headers (obj m)))
                (body_or_none body))),
        f,
      )
  unfolding handle_http outgoing_headers ◌>>=◌
  dispatch-http method url m body f h k =
      ap₂ (λ a b. by_method c os a b method (str url) (obj m) body f) h k

  -- What the tunnel gives for an encoded request to which the upstream server replies.
  through-replied :
      (method url : Text) (headers resp_headers : Members) (body : Bytes) (status : ℕ)
      (chunks : List Bytes) (f : Forwarder)
      → Distinct (obj headers)
      → IsBytes body
      → bytes_eq (os.upper method) (codes "CONNECT") ≡ false
      → bytes_eq (os.upper method) (codes "RELAY") ≡ false
      → os.request
          (os.upper method)
          (with_scheme url)
          (or_end (outgoing_headers (obj headers)))
          (body_or_none body)
        ≡ replied status resp_headers chunks
      → through (encode_request c method url headers body) f
        ≡ (ok (build_response c os status resp_headers (join_chunks chunks)), f)
  through-replied method url headers resp_headers body status chunks f distinct small h k upstream =
      ap (λ r. (ok (or_forward_error second p c describe (forward_request c os) r.0), r.1))
        (forward_request-encode_request c os method url headers body f distinct small
          ∙ dispatch-http (os.upper method) url headers body f h k
          ∙ ap (λ r. (ok (respond c os (with_scheme url) r), f)) upstream)

  -- A browser's request of another method than CONNECT and RELAY, if the server serves it and the
  -- upstream server replies to what the forwarder makes of it (the method in upper case, the
  -- URL with a scheme, the headers as they go out, and the body), and if the lines of the page's head
  -- can be encoded: the browser is sent these lines, which are the status, the reply's headers in
  -- their order, less transfer-encoding, connection and keep-alive, the length of the body,
  -- Connection: close and an empty line, and then the whole body, byte for byte; its socket is
  -- closed, and the server's sessions stay as they were.
  pub handle_browser-through :
      (rounds : ℕ) (x : Texts) (method target body : Text) (headers : List (Text × Text)) (b : ℕ)
      (bs : Bytes) (es : List Event) (s : Proxy Forwarder) (status : ℕ) (resp_headers : Members)
      (chunks : List Bytes) (head : Bytes)
      → IsRequest method target headers
      → x.decode (b ∷ bs) ≡ request_text method target headers body
      → length (b ∷ bs) ≤ buffer_size
      → bytes_eq (x.upper method) (codes "CONNECT") ≡ false
      → s.browser.incoming ≡ chunk b bs ∷ es
      → s.browser.writable s.browser.sends ≡ true
      → bytes_eq (os.upper (x.upper method)) (codes "CONNECT") ≡ false
      → bytes_eq (os.upper (x.upper method)) (codes "RELAY") ≡ false
      → IsBytes (x.utf8 body)
      → os.request
          (os.upper (x.upper method))
          (with_scheme target)
          (or_end (outgoing_headers (obj (as_dict headers end))))
          (body_or_none (x.utf8 body))
        ≡ replied status resp_headers chunks
      → Distinct (obj resp_headers)
      → IsBytes (join_chunks chunks)
      → x.encode (page_head x (num (int status)) resp_headers (join_chunks chunks)) ≡ some head
      → let (done, s') = handle_browser second c x through rounds s in
        (done ≡ ok tt) × ((n : ℕ) × (s' ≡ visited s es n (head ++ join_chunks chunks) s.tunnel))
  handle_browser-through rounds x method target body headers b bs es s status resp_headers chunks
        head h decoded small other arrives writes not_connect not_relay sent upstream distinct
        received encoded =
      let served =
        through-replied (x.upper method) target (as_dict headers end) resp_headers (x.utf8 body)
          status chunks s.tunnel (Distinct-as_dict headers end tt) sent not_connect not_relay
          upstream in
      let decoded_back =
        decode_response-build_response c os status resp_headers (join_chunks chunks) distinct
          received in
      let (done, (n, e)) =
        handle_browser-http second c x through rounds method target body headers b bs es s h decoded
          small other arrives writes in
      (
        done,
        (
          n,
          e
              ∙ ap (λ q. visited s es n (reply x (then_decoded c q.0)) q.1) served
              ∙ ap (λ r. visited s es n (reply x r) s.tunnel) decoded_back
              ∙ ap (λ r. visited s es n (or_nothing r) s.tunnel)
                  (raw_response-page_head x (num (int status)) resp_headers (join_chunks chunks)
                    head encoded),
        ),
      )
