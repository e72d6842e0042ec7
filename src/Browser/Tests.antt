-- ===== src/Browser/Tests.antt =====
-- Connections of a browser.
use custom_vpn_implementatio.Common.{
  ℕ, suc, ◌≡◌, refl, List, All, some, true, [], ◌∷◌, ◌++◌, Bytes, Text, codes, arith, bytes_eq,
}
use custom_vpn_implementatio.Common.Exec.{Exec, ok, err, connection_error}
use custom_vpn_implementatio.Common.Strings.{join_crlf, strip, lstrip, is_space}
use custom_vpn_implementatio.World.{Event, chunk, timed_out}
use custom_vpn_implementatio.World.Sample.{calm}
use custom_vpn_implementatio.Json.{end, str, obj, member, Members, find}
use custom_vpn_implementatio.Json.Toy
use custom_vpn_implementatio.Forwarder.{Platform, Forwarder, replied, to_come}
use custom_vpn_implementatio.Crypto.Toy.{toy}
use custom_vpn_implementatio.Browser.EndToEnd.{through, handle_browser-through}
use custom_vpn_implementatio.Browser.Connect.Loop.{
  concat, IsChunk, with_events, chunks_relayed, relay_rounds_lem,
}
use custom_vpn_implementatio.Browser.Ends.{handle_browser-Ends}
use custom_vpn_implementatio.Browser.{Texts, Proxy, relay_rounds, handle_browser}
use custom_vpn_implementatio.Browser.Request.{IsHeader, IsRequest}
use custom_vpn_implementatio.Browser.PageHead.{as_lines}
use custom_vpn_implementatio.Browser.Handler.{visited}

abbrev ascii : Texts
ascii = record {
  decode = λ bytes. bytes;
  encode = λ text. some text;
  utf8 = λ text. text;
  upper = λ text. text;
  lower = λ text. text;
  int_text = λ text. some text;
  text_of = λ j. [];
  describe = λ e. [];
}

-- A tunnel that counts its requests and gives no response.
abbrev no_tunnel : Bytes → Exec ℕ Bytes
no_tunnel request n = (err connection_error, 1)

abbrev head : Text
head = codes "ET a/ HTTP/1.1" ++ 13 ∷ 10 ∷ (codes "A: b" ++ 13 ∷ 10 ∷ 13 ∷ 10 ∷ [])

abbrev visit : Proxy ℕ
visit = record { browser = calm (chunk 71 head ∷ []); room = λ i. 10; tunnel = 0 }

a_b : IsHeader (codes "A") (codes "b")
unfolding strip lstrip is_space
a_b = record {
  no_colon = (refl, tt);
  name_in_line = (refl, tt);
  value_in_line = (refl, tt);
  name_stripped = refl;
  value_stripped = refl;
}

get_a : IsRequest (codes "GET") (codes "a/") ((codes "A", codes "b") ∷ [])
get_a = record {
  method_in_line = (refl, (refl, (refl, tt)));
  method_word = (refl, (refl, (refl, tt)));
  target_in_line = (refl, (refl, tt));
  target_word = (refl, (refl, tt));
  are_headers = (a_b, tt);
}

abbrev reply_headers : Members
reply_headers = member (codes "connection") (str []) (member (codes "B") (str []) end)

-- The texts of values are empty here.
abbrev page_200 : Bytes
page_200 = as_lines (
    codes "HTTP/1.1  OK"
    ∷ codes "B: "
    ∷ codes "Content-Length: "
    ∷ codes "Connection: close"
    ∷ []
    ∷ [])

-- An upstream server that replies to everything.
abbrev upstream : Platform
upstream = record {
  request = λ method url headers body. replied 200 reply_headers ((7 ∷ []) ∷ []);
  connect = λ i host port. err connection_error;
  describe = λ e. [];
  text_of = λ j. [];
  upper = λ t. t;
  utf8 = λ t. t;
}

abbrev no_sessions : Forwarder
no_sessions = record { sessions = []; dialled = 0 }

abbrev served_visit : Proxy Forwarder
served_visit = record { browser = visit.browser; room = λ i. 10; tunnel = no_sessions }

handle_browser-through_example :
    let (done, s') =
      handle_browser 1 Toy.toy ascii (through 1 toy Toy.toy upstream (λ e. [])) 5 served_visit in
    (done ≡ ok tt) × ((n : ℕ) × (s' ≡ visited served_visit [] n (page_200 ++ 7 ∷ []) no_sessions))
unfolding join_crlf bytes_eq find
handle_browser-through_example =
    handle_browser-through 1 toy Toy.toy upstream (λ e. []) 5 ascii (codes "GET") (codes "a/") []
      ((codes "A", codes "b") ∷ []) 71 head [] served_visit 200 reply_headers ((7 ∷ []) ∷ [])
      page_200 get_a refl (omega arith) refl refl refl refl refl tt refl (refl, tt, (refl, tt, tt))
      (omega arith, tt) refl

-- A tunnel whose answers carry two bytes.
abbrev two_bytes : Bytes → Exec ℕ Bytes
two_bytes request n =
    (ok (Toy.toy.dumps (obj (member (codes "body") (str (codes "4142")) end))), suc n)

abbrev talking : Proxy ℕ
talking = record { browser = calm (timed_out ∷ chunk 1 (2 ∷ []) ∷ []); room = λ i. 1; tunnel = 0 }

relay_rounds_lem_example :
    let (r, s') = relay_rounds 1 Toy.toy ascii two_bytes 9 (codes "a:1") talking in
    (chunks : List Bytes) × (later : List Event) × (r ≡ ok tt)
    × All IsChunk chunks
    × (concat chunks ++ to_come later ≡ 1 ∷ 2 ∷ [])
    × (s'
        ≡ with_events later (chunks_relayed 1 Toy.toy ascii two_bytes (codes "a:1") chunks talking))
unfolding to_come
relay_rounds_lem_example =
    relay_rounds_lem 1 Toy.toy ascii two_bytes (codes "a:1") 9 talking (omega arith) (λ i. refl)

handle_browser-Ends_example :
    let (r, s') = handle_browser 1 Toy.toy ascii two_bytes 9 talking in
    (r ≡ ok tt) × (s'.browser.closed ≡ true)
handle_browser-Ends_example =
    handle_browser-Ends 1 Toy.toy ascii two_bytes (λ request n h. cc h) 9 talking (omega arith)
