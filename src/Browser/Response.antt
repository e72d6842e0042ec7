-- ===== src/Browser/Response.antt =====
-- What the browser is sent for what the tunnel gave.
use custom_vpn_implementatio.Common.{
  ℕ, suc, ◌≡◌, refl, ap, sym, true, Option, none, some, [], ◌++◌, Bytes, Text, append-nil, inl, inr,
}
use custom_vpn_implementatio.Common.Exec.{◌>>=◌, lift, caught, Exec, Result, ok, err, Result-cases}
use custom_vpn_implementatio.World.{World, sendall}
use custom_vpn_implementatio.Json.{Json, obj, Codec}
use custom_vpn_implementatio.Proxy.{encode_request, decode_response}
use custom_vpn_implementatio.Browser.{
  Texts, Proxy, swallowed, raw_response, error_page, with_body, on_browser, unless_os_error, fetch,
  answer, handle_http_request, parse_headers,
}

abbrev pub or_nothing : Result Bytes → Bytes
or_nothing (ok bytes) = bytes
or_nothing (err e) = []

-- The bytes for the outcome of a request. Headers that are no object, or that UTF-8 cannot encode,
-- make the thread raise before it writes.
abbrev pub reply : Texts → Result (Json × Json × Bytes) → Bytes
reply x (err e) = error_page x e
reply x (ok (status_code, obj m, body)) = or_nothing (raw_response x status_code m body)
reply x (ok (status_code, _, body)) = []

abbrev pub then_decoded : Codec → Result Bytes → Result (Json × Json × Bytes)
then_decoded c (ok bytes) = decode_response c bytes
then_decoded c (err e) = err e

-- The browser has been sent these bytes, in some number of writes.
abbrev pub Sent : {T : Type 0} → Proxy T → Bytes → Proxy T → Type 0
Sent s bytes s' =
    (n : ℕ) × (s' ≡ record s {
      browser = record s.browser { outgoing = s.browser.outgoing ++ bytes; sends = n };
    })

unsent : {T : Type 0} (s : Proxy T) → Sent s [] s
unsent s = (
  s.browser.sends,
  ap (λ out. record s { browser = record s.browser { outgoing = out } })
      (sym (append-nil s.browser.outgoing)),
)

pub sendall_all :
    (bytes : Bytes) (w : World)
    → w.writable w.sends ≡ true
    → sendall bytes w ≡ (ok tt, record w { outgoing = w.outgoing ++ bytes; sends = suc w.sends })
unfolding sendall
sendall_all bytes w h = rw h refl

abbrev write_page : {T : Type 0} → Result Bytes → Exec (Proxy T) (Unit {0})
write_page page = do
  raw_bytes ← lift page
  sent ← caught (on_browser (sendall raw_bytes))
  lift (unless_os_error sent)

module _ (second : ℕ) (c : Codec) (x : Texts) {T : Type 0}
    (send_request : Bytes → Exec T Bytes) where
  fetch_lem :
      (request : Bytes) (s : Proxy T)
      → let (r, t) = send_request request s.tunnel in
        fetch second c x send_request request s ≡ (then_decoded c r, record s { tunnel = t })
  unfolding fetch ◌>>=◌
  fetch_lem request s = elim (Result-cases (send_request request s.tunnel).0) [
    | inl (bytes, e) ↦ rw e
    | inr (e, h) ↦ rw h
  ]

  answer-reply :
      (r : Result (Json × Json × Bytes)) (s : Proxy T)
      → s.browser.writable s.browser.sends ≡ true
      → (swallowed (answer second c x send_request r s).0 ≡ ok tt)
        × Sent s (reply x r) (answer second c x send_request r s).1
  unfolding answer ◌>>=◌
  answer-reply (err e) s h = rw (sendall_all (error_page x e) s.browser h) (refl, (_, refl))
  answer-reply (ok (st, obj m, body)) s h = page_sent (x.encode _)
    where
      page_sent :
          (o : Option Bytes)
          → (swallowed (write_page (with_body o body) s).0 ≡ ok tt)
            × Sent s (or_nothing (with_body o body)) (write_page (with_body o body) s).1
      page_sent none = (refl, unsent s)
      page_sent (some head) = rw (sendall_all (head ++ body) s.browser h) (refl, (_, refl))
  answer-reply (ok (st, j, body)) s h = (refl, unsent s)

  -- A request of the browser goes through the tunnel once, and its outcome to the browser.
  pub handle_http_request_lem :
      (method url headers_str : Text) (body : Bytes) (s : Proxy T)
      → s.browser.writable s.browser.sends ≡ true
      → let (r, t) =
          send_request (encode_request c method url (parse_headers headers_str) body) s.tunnel in
        let (done, s') =
          handle_http_request second c x send_request method url headers_str body s in
        (swallowed done ≡ ok tt) × Sent (record s { tunnel = t }) (reply x (then_decoded c r)) s'
  unfolding handle_http_request ◌>>=◌
  handle_http_request_lem method url headers_str body s h =
      let request = encode_request c method url (parse_headers headers_str) body in
      let (r, t) = send_request request s.tunnel in
      rw (fetch_lem request s) (answer-reply (then_decoded c r) (record s { tunnel = t }) h)
