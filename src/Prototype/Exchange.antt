-- ===== src/Prototype/Exchange.antt =====
-- A browser's request through the prototype's client and server.
use custom_vpn_implementatio.Common.{
  ℕ, suc, ◌+◌, ◌<◌, ◌≤◌, ◌≡◌, refl, ap, ◌∙◌, subst, true, Option, some, List, [], ◌∷◌, ◌++◌, Bytes,
  Text, length, drop, arith, drop-append,
}
use custom_vpn_implementatio.Common.Exec.{◌>>=◌, ok, bind_ok}
use custom_vpn_implementatio.World.{World, Event, chunk, close, urandom, time, random_bytes}
use custom_vpn_implementatio.Browser.{swallowed}
use custom_vpn_implementatio.Browser.Reads.{weight}
use custom_vpn_implementatio.Browser.Response.{sendall_all}
use custom_vpn_implementatio.Browser.Handler.{recv-chunk}
use custom_vpn_implementatio.Prototype.{Packages, PackageLaws, encrypted}
use custom_vpn_implementatio.Prototype.Client.{
  Visit, client_buffer_size, or_no_response, ask_server, forward_over, forward_to_server,
  send_browser, page_of, page_of_decrypted, request_target, ask_for, answer_browser, read_browser,
  handle_browser_request,
}
use custom_vpn_implementatio.Prototype.Server.{
  server_buffer_size, response_content, decoded, respond_to, handle_round,
}
use custom_vpn_implementatio.Prototype.Receive.{arrives, receive_response_lem}

-- The token for a plaintext, with the randomness and the clock of a world, and the world after.
abbrev pub token : Packages → Bytes → World → Bytes
token x plaintext w = x.encrypt (random_bytes 16 w.random w.drawn) (w.clock w.readings) plaintext

abbrev drew : World → World
drew w = record w { drawn = w.drawn + 16; readings = suc w.readings }

encrypted_lem :
    (x : Packages) (plaintext : Bytes) (w : World)
    → encrypted x plaintext w ≡ (ok (token x plaintext w), drew w)
unfolding encrypted urandom time ◌>>=◌
encrypted_lem x plaintext w = refl

-- What is left of a world after a write.
abbrev wrote : Bytes → World → World
wrote bytes w = record w { outgoing = w.outgoing ++ bytes; sends = suc w.sends }

module _ (x : Packages) (laws : PackageLaws x) where
  respond_lem :
      (target : Text) (sv : World)
      → sv.writable sv.sends ≡ true
      → respond_to x (some target) sv
        ≡ (ok true, wrote (token x (response_content x (x.get target)) sv) (drew sv))
  unfolding ◌>>=◌
  respond_lem target sv h =
      let page = response_content x (x.get target) in
      rw (encrypted_lem x page sv, sendall_all (token x page sv) (drew sv) h) refl

  -- A round of the server with a client's token.
  handle_round_lem :
      (target : Text) (t : ℕ) (ts : Bytes) (es : List Event) (sv : World)
      → x.decrypt (t ∷ ts) ≡ some (x.utf8 target)
      → sv.incoming ≡ chunk t ts ∷ es
      → length (t ∷ ts) ≤ server_buffer_size
      → sv.writable sv.sends ≡ true
      → let s1 = record sv { incoming = es } in
        handle_round x sv
        ≡ (ok true, wrote (token x (response_content x (x.get target)) s1) (drew s1))
  unfolding handle_round
  handle_round_lem target t ts es sv opens arrived small h =
      bind_ok _ _ (recv-chunk server_buffer_size t ts es sv small arrived)
      ∙ ap (λ o. respond_to x o (record sv { incoming = es }))
          (ap (decoded x) opens ∙ laws.decode-utf8 target)
      ∙ respond_lem target (record sv { incoming = es }) h

  ask_server_lem :
      (rounds : ℕ) (request : Bytes) (w : World)
      → w.writable w.sends ≡ true
      → weight w.incoming < rounds
      → (later : List Event) × (ask_server x rounds request w ≡ (
        ok (arrives w.incoming),
        record (wrote (token x request w) (drew w)) { incoming = later },
      ))
  unfolding ask_server
  ask_server_lem rounds request w h less =
      let (later, e) = receive_response_lem 8191 rounds (wrote (token x request w) (drew w)) less in
      (
        later,
        bind_ok _ _ (encrypted_lem x request w)
            ∙ bind_ok _ _ (sendall_all (token x request w) (drew w) h)
            ∙ e,
      )

  -- What the client makes of a token, which is never empty.
  token-page :
      (given : Bytes) (page : Bytes)
      → x.decrypt given ≡ some page
      → 0 < length given
      → (response : Option Bytes) × (or_no_response (ok (some given)) ≡ ok response)
        × (page_of x response ≡ page)
  token-page [] page e h = absurd (omega arith)
  token-page (b ∷ bs) page e h = (some (b ∷ bs), refl, ap page_of_decrypted e)

  forward_to_server_lem :
      (rounds : ℕ) (request page given : Bytes) (v : Visit) (w : World)
      → v.connection ≡ ok w
      → w.writable w.sends ≡ true
      → weight w.incoming < rounds
      → arrives w.incoming ≡ some given
      → x.decrypt given ≡ some page
      → 0 < length given
      → (response : Option Bytes) × (w' : World) × (forward_to_server x rounds request v
          ≡ (ok response, record v { server = some (close w') }))
        × (page_of x response ≡ page)
        × (w'.outgoing ≡ w.outgoing ++ token x request w)
  unfolding forward_to_server
  forward_to_server_lem rounds request page given v w connected h less all opens filled =
      let (later, asked) = ask_server_lem rounds request w h less in
      let (response, e, shown) = token-page given page opens filled in
      let w' = record (wrote (token x request w) (drew w)) { incoming = later } in
      (
        response,
        w',
        ap (λ c. forward_over x rounds c request v) connected
            ∙ ap (λ r. (or_no_response r.0, record v { server = some (close r.1) })) asked
            ∙ ap (λ o. (or_no_response (ok o), record v { server = some (close w') })) all
            ∙ ap (λ r. (r, record v { server = some (close w') })) e,
        shown,
        refl,
      )

  -- The browser's request names a target; the connection to the server comes about, and both
  -- sockets take their writes. If the server reads the client's token in one piece, and what it writes
  -- in its round arrives at the client, in any chunks and before a pause or the end, then the round goes
  -- on, the browser is sent the content of the page, or the text of the failure to get it, and
  -- both of the client's sockets are closed.
  pub handle_browser_request-handle_round :
      (rounds b t : ℕ) (bs ts : Bytes) (es les : List Event) (target : Text) (v : Visit)
      (w sv : World)
      → v.browser.incoming ≡ chunk b bs ∷ es
      → length (b ∷ bs) ≤ client_buffer_size
      → request_target x (b ∷ bs) ≡ some target
      → v.browser.writable v.browser.sends ≡ true
      → v.connection ≡ ok w
      → w.writable w.sends ≡ true
      → weight w.incoming < rounds
      → token x (x.utf8 target) w ≡ t ∷ ts
      → sv.incoming ≡ chunk t ts ∷ les
      → length (t ∷ ts) ≤ server_buffer_size
      → sv.writable sv.sends ≡ true
      → let (goes_on, sv') = handle_round x sv in
        arrives w.incoming ≡ some (drop (length sv.outgoing) sv'.outgoing)
        → let (done, v') = handle_browser_request x rounds v in
          (goes_on ≡ ok true)
          × (done ≡ ok tt)
          × (v'.browser.outgoing ≡ v.browser.outgoing ++ response_content x (x.get target))
          × (v'.browser.closed ≡ true)
          × ((w' : World) × (v'.server ≡ some (close w')) × (w'.outgoing ≡ w.outgoing ++ t ∷ ts))
  unfolding handle_browser_request
  handle_browser_request-handle_round rounds b t bs ts es les target v w sv asked small named writes
        connected writes1 less asked1 arrived small1 writes2 all =
      let s1 = record sv { incoming = les } in
      let page = response_content x (x.get target) in
      let v1 = record v { browser = record v.browser { incoming = es } } in
      let opens : x.decrypt (t ∷ ts) ≡ some (x.utf8 target) =
        subst (λ l. x.decrypt l ≡ some (x.utf8 target)) asked1
          (laws.decrypt-encrypt _ _ (x.utf8 target)) in
      let round = handle_round_lem target t ts les sv opens arrived small1 writes2 in
      let given = token x page s1 in
      let here : arrives w.incoming ≡ some given =
        all
        ∙ ap (λ r. some (drop (length sv.outgoing) r.1.outgoing)) round
        ∙ ap some (drop-append (length sv.outgoing) sv.outgoing given refl) in
      let (response, w', forwarded, shown, sent) =
        forward_to_server_lem rounds (x.utf8 target) page given v1 w connected writes1 less here
          (laws.decrypt-encrypt _ _ page) (laws.encrypt_filled _ _ page) in
      let v2 = record v1 { server = some (close w') } in
      let read =
        ap (λ r. (r.0, record v { browser = r.1 }))
          (recv-chunk client_buffer_size b bs es v.browser small asked) in
      let whole =
        bind_ok read_browser (answer_browser x rounds) read
        ∙ ap (λ o. ask_for x rounds o v1) named
        ∙ bind_ok _ _ forwarded
        ∙ ap (λ bytes. send_browser bytes v2) shown
        ∙ ap (λ r. (swallowed r.0, record v2 { browser = r.1 }))
            (sendall_all page v2.browser writes) in
      (
        ap (λ r. r.0) round,
        ap (λ r. swallowed r.0) whole,
        ap (λ r. r.1.browser.outgoing) whole,
        refl,
        (w', ap (λ r. r.1.server) whole, sent ∙ ap (λ l. w.outgoing ++ l) asked1),
      )
