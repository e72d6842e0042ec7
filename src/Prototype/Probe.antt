-- ===== src/Prototype/Probe.antt =====
-- client/testing_connection.py: one message over a new connection, and what it makes of the answer.
use custom_vpn_implementatio.Common.{
  ℕ, suc, List, ◌≡◌, refl, ap, ◌∙◌, Option, none, some, [], ◌∷◌, ◌++◌, Bytes, Text, codes, true,
  false,
}
use custom_vpn_implementatio.Common.Exec.{
  ◌>>=◌, ◌>>◌, pure, raise, Exn, connection_error, timeout, would_block, os_error, other, Result,
  ok, err, bind_ok,
}
use custom_vpn_implementatio.World.{World, Action, Event, recv, sendall, close}
use custom_vpn_implementatio.Prototype.{Packages}
use custom_vpn_implementatio.Prototype.Server.{
  handle_round, handle_rounds, handle_prototype_client, decoded, respond_to,
}
use custom_vpn_implementatio.Browser.{swallowed}

abbrev pub message_to_send : Text
message_to_send = codes "Hello ngrok tunnel!"

-- What the script prints last.
pub data ProbeResult : Type 0 where
  received_response : Text → ProbeResult
  no_response timed_out : ProbeResult
  socket_error unexpected_error : Exn → ProbeResult

-- A text that is no UTF-8 raises.
abbrev pub or_undecodable : Option Text → Action (Option Text)
or_undecodable none = raise other
or_undecodable (some t) = pure (some t)

abbrev pub decode_data : Packages → Bytes → Action (Option Text)
decode_data x [] = pure none
decode_data x (b ∷ bs) = or_undecodable (x.decode (b ∷ bs))

unfoldable pub probe_over : Packages → Action (Option Text)
probe_over x = do sendall (x.utf8 message_to_send); data_in ← recv 1024; decode_data x data_in

-- The `except` clauses, in their order.
abbrev pub settle : Result (Option Text) → ProbeResult
settle (ok none) = no_response
settle (ok (some t)) = received_response t
settle (err timeout) = timed_out
settle (err connection_error) = socket_error connection_error
settle (err would_block) = socket_error would_block
settle (err os_error) = socket_error os_error
settle (err e) = unexpected_error e

-- The whole script, for what the attempt to connect gives. The socket is closed at the end.
unfoldable pub probe : Packages → Result World → ProbeResult × Option World
probe x (err e) = (settle (err e), none)
probe x (ok w) = let (r, w') = probe_over x w in (settle r, some (close w'))

recv-closed : (n : ℕ) (w : World) → w.incoming ≡ [] → recv n w ≡ (ok [], record w { incoming = [] })
unfolding recv
recv-closed n w e = rw e refl

sends :
    (bytes : Bytes) (w : World)
    → w.writable w.sends ≡ true
    → sendall bytes w ≡ (ok tt, record w { outgoing = w.outgoing ++ bytes; sends = suc w.sends })
unfolding sendall
sends bytes w h = rw h refl

-- If the message is no token that the server's key decrypts: the server, when it reads the
-- message, ends the connection and writes nothing; and the script, when the connection is closed
-- without an answer, says that there was none.
pub probe-handle_client :
    (x : Packages) (b rounds : ℕ) (bs : Bytes) (es : List Event) (w sw : World)
    → x.utf8 message_to_send ≡ b ∷ bs
    → x.decrypt (b ∷ bs) ≡ none
    → w.writable w.sends ≡ true
    → w.incoming ≡ []
    → recv 4096 sw ≡ (ok (b ∷ bs), record sw { incoming = es })
    → let (r, sw') = handle_prototype_client x (suc rounds) sw in
      (r ≡ ok tt)
      × (sw'.outgoing ≡ sw.outgoing)
      × (sw'.closed ≡ true)
      × ((probe x (ok w)).0 ≡ no_response)
unfolding handle_prototype_client handle_rounds handle_round probe probe_over
probe-handle_client x b rounds bs es w sw message bad writes ended reads =
    let round =
      bind_ok _ _ reads ∙ ap (λ o. respond_to x (decoded x o) (record sw { incoming = es })) bad in
    let serves =
      bind_ok _
        (λ again. elim again as (λ _. Action (Unit {0})) [
          | true ↦ handle_rounds x rounds
          | false ↦ pure tt
        ])
        round in
    let asks =
      bind_ok _ _ (sends (x.utf8 message_to_send) w writes)
      ∙ bind_ok _ _ (recv-closed 1024 _ ended) in
    (ap (λ r. swallowed r.0) serves, ap (λ r. r.1.outgoing) serves, refl, ap (λ r. settle r.0) asks)
