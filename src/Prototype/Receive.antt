-- ===== src/Prototype/Receive.antt =====
-- The receiving loop of client/client.py against what the server's socket delivers.
use custom_vpn_implementatio.Common.{
  ℕ, zero, suc, ◌<◌, ◌≡◌, refl, ap, sym, ◌∙◌, Option, none, some, List, [], ◌∷◌, ◌++◌, Bytes, take,
  drop, arith, append_assoc, append-nil, take-append-drop, length-drop,
}
use custom_vpn_implementatio.Common.Exec.{◌>>=◌, Result, ok}
use custom_vpn_implementatio.World.{World, Event, chunk, timed_out, reset, requeue, recv}
use custom_vpn_implementatio.Browser.Reads.{weight, weight-requeue}
use custom_vpn_implementatio.Prototype.Client.{receive_response}

abbrev pub onto : Bytes → Option Bytes → Option Bytes
onto bs none = none
onto bs (some more) = some (bs ++ more)

-- All bytes up to the first pause or the end, if the connection is not reset before.
abbrev pub arrives : List Event → Option Bytes
arrives [] = some []
arrives (chunk b bs ∷ es) = onto (b ∷ bs) (arrives es)
arrives (timed_out ∷ es) = some []
arrives (reset ∷ es) = none

onto_append : (xs ys : Bytes) (o : Option Bytes) → onto (xs ++ ys) o ≡ onto xs (onto ys o)
onto_append xs ys none = refl
onto_append xs ys (some more) = ap some (append_assoc xs ys more)

onto-nil : (o : Option Bytes) → onto [] o ≡ o
onto-nil none = refl
onto-nil (some more) = refl

arrives-requeue : (bs : Bytes) (es : List Event) → arrives (requeue bs es) ≡ onto bs (arrives es)
arrives-requeue [] es = sym (onto-nil (arrives es))
arrives-requeue (b ∷ bs) es = refl

-- What a run gives: the bytes, nothing else than the unread events changed.
abbrev pub Received : Option Bytes → World → Result (Option Bytes) × World → Type 0
Received given w out = (later : List Event) × (out ≡ (ok given, record w { incoming = later }))

-- The loop gives the bytes so far with all that arrives.
receive_from :
    (k rounds : ℕ) (chunks : Bytes) (es : List Event) (w : World)
    → weight es < rounds
    → Received
        (onto chunks (arrives es))
        w
        (receive_response (suc k) rounds chunks (record w { incoming = es }))
unfolding receive_response recv ◌>>=◌
receive_from k zero chunks es w less = absurd (omega arith)
receive_from k (suc rounds) chunks [] w less =
    ([], ap (λ bs. (ok (some bs), record w { incoming = [] })) (sym (append-nil chunks)))
receive_from k (suc rounds) chunks (timed_out ∷ es) w less =
    (es, ap (λ bs. (ok (some bs), record w { incoming = es })) (sym (append-nil chunks)))
receive_from k (suc rounds) chunks (reset ∷ es) w less = (es, refl)
receive_from k (suc rounds) chunks (chunk b bs ∷ es) w less =
    let later = requeue (drop k bs) es in
    let read = b ∷ take k bs in
    let (last, e) =
      receive_from k rounds (chunks ++ read) later w
        (omega (arith, weight-requeue (drop k bs) es, length-drop k bs)) in
    let whole : onto (chunks ++ read) (arrives later) ≡ onto chunks (onto (b ∷ bs) (arrives es)) =
      onto_append chunks read (arrives later)
      ∙ ap (onto chunks) (
          ap (onto read) (arrives-requeue (drop k bs) es)
          ∙ sym (onto_append read (drop k bs) (arrives es))
          ∙ ap (λ l. onto (b ∷ l) (arrives es)) (take-append-drop k bs)) in
    (last, e ∙ ap (λ o. (ok o, record w { incoming = last })) whole)

pub receive_response_lem :
    (k rounds : ℕ) (w : World)
    → weight w.incoming < rounds
    → Received (arrives w.incoming) w (receive_response (suc k) rounds [] w)
receive_response_lem k rounds w less =
    let (later, e) = receive_from k rounds [] w.incoming w less in
    (later, e ∙ ap (λ o. (ok o, record w { incoming = later })) (onto-nil (arrives w.incoming)))
