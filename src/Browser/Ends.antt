-- ===== src/Browser/Ends.antt =====
-- Every connection of a browser comes to its end.
use custom_vpn_implementatio.Common.{
  ℕ, zero, suc, ◌<◌, ◌≡◌, ◌≢◌, refl, ap, sym, ◌∙◌, subst, Bool, true, false, Option, none, some,
  List, [], ◌∷◌, ◌++◌, Bytes, Text, codes, take, inl, inr, arith, Bool-cases,
}
use custom_vpn_implementatio.Common.Exec.{
  ◌>>=◌, Exec, Result, ok, err, timeout, connection_error, would_block, os_error, raise,
  out_of_fuel, Keeps, Keeps-bind, Ends, ends_bind, ends_if,
}
use custom_vpn_implementatio.World.{World, Event, sendall}
use custom_vpn_implementatio.Json.{Json, obj, Codec, get_or, truthy}
use custom_vpn_implementatio.Proxy.{or_bad_json}
use custom_vpn_implementatio.Browser.{
  Texts, Proxy, buffer_size, swallowed, on_browser, recv_now, sendall_if, sendall_now, send_body,
  relay_answer, relay_chunk, relay_try, goes_on, relay_rounds, relay_if, is_200, with_body,
  connect_try, handle_connect, connect_target, answer, handle_http_request, by_method, by_line,
  handle_text, handle_raw, serve_browser, handle_browser, unless_os_error, as_members,
  connect_request, with_port, crlf,
}
use custom_vpn_implementatio.Browser.Reads.{weight, Read, at_end, some_bytes, failed, read}

sendall-Ends : (bytes : Bytes) → Ends (sendall bytes)
unfolding sendall
sendall-Ends bytes w = elim (Bool-cases (w.writable w.sends)) [
  | inl e ↦ rw e (λ h. cc h)
  | inr e ↦ rw e (λ h. cc h)
]

sendall-incoming : (bytes : Bytes) (w : World) → (sendall bytes w).1.incoming ≡ w.incoming
unfolding sendall
sendall-incoming bytes w = elim (Bool-cases (w.writable w.sends)) [
  | inl e ↦ rw e refl
  | inr e ↦ rw e refl
]

swallowed-Ends : (r : Result (Unit {0})) → r ≢ err out_of_fuel → swallowed r ≢ err out_of_fuel
swallowed-Ends (err out_of_fuel) h = h
swallowed-Ends (ok u) h = λ k. cc k
swallowed-Ends (err e) h = λ k. cc k

swallowed_ok : (r : Result (Unit {0})) → r ≢ err out_of_fuel → swallowed r ≡ ok tt
swallowed_ok (err out_of_fuel) h = absurd (h refl)
swallowed_ok (ok u) h = refl
swallowed_ok (err e) h = refl

with_body-Ends : (o : Option Bytes) (body : Bytes) → with_body o body ≢ err out_of_fuel
with_body-Ends none body = λ h. cc h
with_body-Ends (some head) body = λ h. cc h

unless_os_error-Ends :
    (r : Result (Unit {0})) → r ≢ err out_of_fuel → unless_os_error r ≢ err out_of_fuel
unless_os_error-Ends (err connection_error) h = λ k. cc k
unless_os_error-Ends (err timeout) h = λ k. cc k
unless_os_error-Ends (err would_block) h = λ k. cc k
unless_os_error-Ends (err os_error) h = λ k. cc k
unless_os_error-Ends r h = h

or_bad_json-Ends : (o : Option Json) → or_bad_json o ≢ err out_of_fuel
or_bad_json-Ends none = λ k. cc k
or_bad_json-Ends (some j) = λ k. cc k

get_or-Ends : (j : Json) (k : Text) (d : Json) → get_or j k d ≢ err out_of_fuel
unfolding get_or
get_or-Ends (obj m) k d = λ h. cc h
get_or-Ends j k d = λ h. cc h

with_port-Ends : (host : Text) (o : Option Text) → with_port host o ≢ err out_of_fuel
with_port-Ends host none = λ h. cc h
with_port-Ends host (some port) = λ h. cc h

connect_target-Ends :
    (x : Texts) (target : Text) (o : Option (Text × Text))
    → connect_target x target o ≢ err out_of_fuel
connect_target-Ends x target none = λ h. cc h
connect_target-Ends x target (some (host, port)) = with_port-Ends host (x.int_text port)

as_members-Ends : (j : Json) → as_members j ≢ err out_of_fuel
as_members-Ends (obj m) = λ h. cc h
as_members-Ends j = λ h. cc h

module _ {T : Type 0} where
  -- What is to come from the browser.
  abbrev Awaits : List Event → Proxy T → Type 0
  Awaits es s = s.browser.incoming ≡ es

  on_browser-Awaits :
      (es : List Event) (bytes : Bytes) → Keeps (Awaits es) (on_browser (sendall bytes))
  on_browser-Awaits es bytes s h = sendall-incoming bytes s.browser ∙ h

  sendall_if-Awaits :
      (es : List Event) (fits : Bool) (bytes : Bytes) → Keeps (Awaits es) (sendall_if fits bytes)
  unfolding ◌>>=◌
  sendall_if-Awaits es true bytes s h = on_browser-Awaits es bytes s h
  sendall_if-Awaits es false bytes s h =
      Keeps-bind (Awaits es) (on_browser (sendall (take (s.room s.browser.sends) bytes)))
        (λ u. raise would_block) (on_browser-Awaits es (take (s.room s.browser.sends) bytes))
        (λ u t k. k) s h

  send_body-Awaits :
      (es : List Event) (body : Json) (full : Bool) → Keeps (Awaits es) (send_body body full)
  unfolding sendall_now
  send_body-Awaits es body false = λ s h. h
  send_body-Awaits es body true =
      Keeps-bind (Awaits es) _ _ (λ s h. h) (λ bytes s h. sendall_if-Awaits es _ bytes s h)

  relay_answer-Awaits : (es : List Event) (rr : Json) → Keeps (Awaits es) (relay_answer rr)
  unfolding relay_answer
  relay_answer-Awaits es rr =
      Keeps-bind (Awaits es) _ _ (λ s h. h)
        (λ body.
          Keeps-bind (Awaits es) _ _ (send_body-Awaits es body (truthy body))
            (λ u. Keeps-bind (Awaits es) _ _ (λ s h. h) (λ closed s h. h)))

module _ (second : ℕ) (c : Codec) (x : Texts) {T : Type 0}
    (send_request : Bytes → Exec T Bytes) where
  relay_chunk-Awaits :
      (es : List Event) (target : Text) (chunk : Bytes)
      → Keeps (Awaits es) (relay_chunk second c x send_request target chunk)
  unfolding relay_chunk
  relay_chunk-Awaits es target [] = λ s h. h
  relay_chunk-Awaits es target (b ∷ bs) =
      Keeps-bind (Awaits es) _ _ (λ s h. h)
        (λ resp. Keeps-bind (Awaits es) _ _ (λ s h. h) (λ rr. relay_answer-Awaits es rr))

  -- A round that goes on has read something.
  relay_try-reads :
      (target : Text) (s : Proxy T)
      → Read buffer_size s.browser
      → let (r, s') = relay_try second c x send_request target s in
        goes_on r ≡ true → weight s'.browser.incoming < weight s.browser.incoming
  unfolding relay_try recv_now relay_chunk ◌>>=◌
  relay_try-reads target s (at_end e) = rw e (λ h. absurd (cc h))
  relay_try-reads target s (some_bytes b bs es e kept fewer small) = rw e (λ h.
      subst (λ l. weight l < weight s.browser.incoming)
        (sym (
          relay_chunk-Awaits es target (b ∷ bs)
            (record s { browser = record s.browser { incoming = es } }) refl))
        fewer)
  relay_try-reads target s (failed e es p (inl class) kept fewer) = rw (p, class) (λ h. fewer)
  relay_try-reads target s (failed e es p (inr class) kept fewer) = rw (p, class) (λ h. fewer)

  relay_rounds-Ends :
      (rounds : ℕ) (target : Text) (s : Proxy T)
      → weight s.browser.incoming < rounds
      → (relay_rounds second c x send_request rounds target s).0 ≢ err out_of_fuel
  unfolding relay_rounds
  relay_rounds-Ends zero target s less = absurd (omega arith)
  relay_rounds-Ends (suc rounds) target s less =
      ends_bind _ _ s (λ h. cc h)
        (λ r e.
          ends_if _ _ _ (goes_on r)
            (λ again.
              let tried : (relay_try second c x send_request target s).0 ≡ r = cc e in
              let fewer =
                relay_try-reads target s (read 65535 s.browser) (ap goes_on tried ∙ again) in
              relay_rounds-Ends rounds target _ (omega arith))
            (λ again h. cc h))

  relay_if-Ends :
      (rounds : ℕ) (target : Text) (accepted : Bool) (s : Proxy T)
      → weight s.browser.incoming < rounds
      → (relay_if second c x send_request rounds target accepted s).0 ≢ err out_of_fuel
  relay_if-Ends rounds target true s less = relay_rounds-Ends rounds target s less
  relay_if-Ends rounds target false s less = λ h. cc h

  module _ (send_request-Ends : (request : Bytes) → Ends (send_request request)) where
    connect_try-Ends :
        (rounds : ℕ) (target : Text) (s : Proxy T)
        → weight s.browser.incoming < rounds
        → (connect_try second c x send_request rounds target s).0 ≢ err out_of_fuel
    unfolding connect_try
    connect_try-Ends rounds target s less =
        ends_bind _ _ s (send_request-Ends (connect_request c target) s.tunnel) (λ resp e.
          ends_bind _ _ _ (or_bad_json-Ends (c.loads resp)) (λ j e1.
            ends_bind _ _ _ (get_or-Ends j _ _)
              (λ status e2. relay_if-Ends rounds target (is_200 second status) _ less)))

    handle_connect-Ends :
        (rounds : ℕ) (target : Text) (s : Proxy T)
        → weight s.browser.incoming < rounds
        → (handle_connect second c x send_request rounds target s).0 ≢ err out_of_fuel
    unfolding handle_connect
    handle_connect-Ends rounds target s less =
        let greeting = codes "HTTP/1.1 200 Connection Established" ++ (crlf ++ crlf) in
        ends_bind _ _ s (sendall-Ends greeting s.browser) (λ u e. swallowed-Ends _ (
          connect_try-Ends rounds target _
            (subst (λ l. weight l < rounds) (sym (sendall-incoming greeting s.browser)) less)))

    answer-Ends : (r : Result (Json × Json × Bytes)) → Ends (answer second c x send_request r)
    unfolding answer
    answer-Ends (err e) s = swallowed-Ends _ (sendall-Ends _ s.browser)
    answer-Ends (ok (status_code, headers, body)) s =
        ends_bind _ _ s (as_members-Ends headers) (λ m e.
          ends_bind _ _ s (with_body-Ends (x.encode _) body) (λ raw_bytes e0.
            ends_bind _ _ s (λ h. cc h)
              (λ sent e1.
                unless_os_error-Ends sent (λ h. sendall-Ends raw_bytes s.browser (cc (e1, h))))))

    by_method-Ends :
        (rounds : ℕ) (method target request_text : Text) (is_connect : Bool) (s : Proxy T)
        → weight s.browser.incoming < rounds
        → (by_method second c x send_request rounds method target request_text is_connect s).0
          ≢ err out_of_fuel
    unfolding handle_http_request
    by_method-Ends rounds method target request_text true s less =
        ends_bind _ _ s (connect_target-Ends x target _)
          (λ address e. handle_connect-Ends rounds address s less)
    by_method-Ends rounds method target request_text false s less =
        ends_bind _ _ s (λ h. cc h) (λ r e. answer-Ends r _)

    by_line-Ends :
        (rounds : ℕ) (request_text : Text) (o : Option (Text × Text)) (s : Proxy T)
        → weight s.browser.incoming < rounds
        → (by_line second c x send_request rounds request_text o s).0 ≢ err out_of_fuel
    by_line-Ends rounds request_text none s less = λ h. cc h
    by_line-Ends rounds request_text (some (method, target)) s less =
        by_method-Ends rounds (x.upper method) target request_text _ s less

    serve_browser-Ends :
        (rounds : ℕ) (s : Proxy T)
        → weight s.browser.incoming < rounds
        → Read buffer_size s.browser
        → (serve_browser second c x send_request rounds s).0 ≢ err out_of_fuel
    unfolding serve_browser handle_raw handle_text ◌>>=◌
    serve_browser-Ends rounds s less (at_end e) = rw e (λ h. cc h)
    serve_browser-Ends rounds s less (some_bytes b bs es e kept fewer small) = rw e (
        by_line-Ends rounds (x.decode (b ∷ bs)) _
          (record s { browser = record s.browser { incoming = es } }) (omega arith))
    serve_browser-Ends rounds s less (failed e es p (inl class) kept fewer) =
        rw (p, class) (λ h. cc h)
    serve_browser-Ends rounds s less (failed e es p (inr class) kept fewer) =
        rw (p, class) (λ h. cc h)

    -- Whatever the browser, the tunnel and the server do, with more rounds than there are bytes and
    -- pauses to come from the browser, if the calls of the tunnel end: the connection's thread
    -- returns, and the browser's socket is closed.
    pub handle_browser-Ends :
        (rounds : ℕ) (s : Proxy T)
        → weight s.browser.incoming < rounds
        → let (r, s') = handle_browser second c x send_request rounds s in
          (r ≡ ok tt) × (s'.browser.closed ≡ true)
    unfolding handle_browser
    handle_browser-Ends rounds s less =
        (swallowed_ok _ (serve_browser-Ends rounds s less (read 65535 s.browser)), refl)
