-- ===== src/Prototype/Tests.antt =====
-- A page through the prototype.
use custom_vpn_implementatio.Common.{
  ◌≡◌, refl, none, some, Option, [], ◌∷◌, ◌++◌, Bytes, codes, arith, true,
}
use custom_vpn_implementatio.Common.Exec.{◌>>=◌, ok}
use custom_vpn_implementatio.Common.Strings.{split, split_crlf}
use custom_vpn_implementatio.World.{World, chunk, close, recv, urandom, time, sendall}
use custom_vpn_implementatio.World.Sample.{calm}
use custom_vpn_implementatio.Prototype.{Packages, PackageLaws, content, encrypted}
use custom_vpn_implementatio.Prototype.Client.{Visit, request_target, handle_browser_request}
use custom_vpn_implementatio.Prototype.Server.{response_content, handle_round}
use custom_vpn_implementatio.Prototype.Exchange.{handle_browser_request-handle_round}

abbrev untagged : Bytes → Option Bytes
untagged [] = none
untagged (b ∷ bs) = some bs

-- A token is a tag and the plaintext, and every page is one byte.
abbrev simple : Packages
simple = record {
  encrypt = λ iv now plaintext. 0 ∷ plaintext;
  decrypt = untagged;
  get = λ url. content ((7 ∷ []) ∷ []);
  decode_ignoring = λ bytes. bytes;
  decode = λ bytes. some bytes;
  utf8 = λ text. text;
}

simple-PackageLaws : PackageLaws simple
simple-PackageLaws = record {
  decrypt-encrypt = λ iv now plaintext. refl;
  encrypt_filled = λ iv now plaintext. omega arith;
  decode-utf8 = λ text. refl;
}

abbrev to_server : World
to_server = calm (chunk 0 (7 ∷ []) ∷ [])

-- "G t"
abbrev visit : Visit
visit = record {
  browser = calm (chunk 71 (32 ∷ 116 ∷ []) ∷ []);
  connection = ok to_server;
  server = none;
}

abbrev from_client : World
from_client = calm (chunk 0 (116 ∷ []) ∷ [])

handle_browser_request-handle_round_example :
    let (goes_on, sv') = handle_round simple from_client in
    let (done, v') = handle_browser_request simple 5 visit in
    (goes_on ≡ ok true)
    × (done ≡ ok tt)
    × (v'.browser.outgoing ≡ [] ++ response_content simple (simple.get (codes "t")))
    × (v'.browser.closed ≡ true)
    × ((w' : World) × (v'.server ≡ some (close w')) × (w'.outgoing ≡ [] ++ 0 ∷ 116 ∷ []))
unfolding request_target split split_crlf handle_round recv encrypted urandom time sendall ◌>>=◌
handle_browser_request-handle_round_example =
    handle_browser_request-handle_round simple simple-PackageLaws 5 71 0 (32 ∷ 116 ∷ []) (116 ∷ [])
      [] [] (codes "t") visit to_server from_client refl (omega arith) refl refl refl refl
      (omega arith) refl refl (omega arith) refl refl
