-- ===== src/Browser/Connect/Loop.antt =====
-- The relay loop of `_handle_connect`.
use custom_vpn_implementatio.Common.{
  ℕ, zero, suc, ◌≤◌, ◌<◌, ◌≡◌, refl, ap, sym, ◌∙◌, Bool, true, false, Option, none, some, List, [],
  ◌∷◌, ◌++◌, Bytes, Text, length, ◌⊎◌, subst, inl, inr, arith, append_assoc, All,
}
use custom_vpn_implementatio.Common.Exec.{
  ◌>>=◌, pure, Exec, Exn, Result, ok, err, timeout, connection_error, bind_ok,
}
use custom_vpn_implementatio.World.{Event, recv}
use custom_vpn_implementatio.Json.{Codec}
use custom_vpn_implementatio.Forwarder.{to_come}
use custom_vpn_implementatio.Browser.{
  Texts, Proxy, buffer_size, recv_now, relay_chunk, relay_try, goes_on, relay_rounds,
  as_would_block,
}
use custom_vpn_implementatio.Browser.Reads.{weight, Read, at_end, some_bytes, failed, read}
use custom_vpn_implementatio.Browser.Connect.{deliver, chunk_relayed, relay_chunk_lem}

abbrev pub concat : List Bytes → Bytes
concat [] = []
concat (c ∷ cs) = c ++ concat cs

-- A chunk that one read gives.
abbrev pub IsChunk : Bytes → Type 0
IsChunk chunk = (1 ≤ length chunk) × (length chunk ≤ buffer_size)

module _ {T : Type 0} where
  abbrev pub with_events : List Event → Proxy T → Proxy T
  with_events es s = record s { browser = record s.browser { incoming = es } }

  deliver-with_events :
      (o : Option Bytes) (es : List Event) (s : Proxy T)
      → deliver o (with_events es s) ≡ with_events es (deliver o s)
  deliver-with_events none es s = refl
  deliver-with_events (some bytes) es s = refl

  deliver-writable :
      (o : Option Bytes) (s : Proxy T) → (deliver o s).browser.writable ≡ s.browser.writable
  deliver-writable none s = refl
  deliver-writable (some bytes) s = refl

  deliver-incoming :
      (o : Option Bytes) (s : Proxy T) → (deliver o s).browser.incoming ≡ s.browser.incoming
  deliver-incoming none s = refl
  deliver-incoming (some bytes) s = refl

  module _ (second : ℕ) (c : Codec) (x : Texts) (send_request : Bytes → Exec T Bytes)
      (target : Text) where
    -- The chunks, one after the other.
    abbrev pub chunks_relayed : List Bytes → Proxy T → Proxy T
    chunks_relayed [] s = s
    chunks_relayed (chunk ∷ chunks) s =
        chunks_relayed chunks (chunk_relayed second c x send_request target chunk s)

    chunk_relayed-with_events :
        (chunk : Bytes) (es : List Event) (s : Proxy T)
        → chunk_relayed second c x send_request target chunk (with_events es s)
          ≡ with_events es (chunk_relayed second c x send_request target chunk s)
    chunk_relayed-with_events chunk es s = deliver-with_events _ es _

    chunk_relayed-incoming :
        (chunk : Bytes) (s : Proxy T)
        → (chunk_relayed second c x send_request target chunk s).browser.incoming
          ≡ s.browser.incoming
    chunk_relayed-incoming chunk s = deliver-incoming _ _

    chunk_relayed-writable :
        (chunk : Bytes) (s : Proxy T)
        → (chunk_relayed second c x send_request target chunk s).browser.writable
          ≡ s.browser.writable
    chunk_relayed-writable chunk s = deliver-writable _ _

    chunks_relayed-with_events :
        (chunks : List Bytes) (es : List Event) (s : Proxy T)
        → chunks_relayed chunks (with_events es s) ≡ with_events es (chunks_relayed chunks s)
    chunks_relayed-with_events [] es s = refl
    chunks_relayed-with_events (chunk ∷ chunks) es s =
        ap (chunks_relayed chunks) (chunk_relayed-with_events chunk es s)
        ∙ chunks_relayed-with_events chunks es
            (chunk_relayed second c x send_request target chunk s)

    -- What a run has read, sent on and written.
    abbrev pub Relays : Proxy T → Result (Unit {0}) × Proxy T → Type 0
    Relays s (r, s') =
        (chunks : List Bytes) × (later : List Event) × (r ≡ ok tt)
        × All IsChunk chunks
        × (concat chunks ++ to_come later ≡ to_come s.browser.incoming)
        × (s' ≡ with_events later (chunks_relayed chunks s))

    -- The rest of a round.
    again_if : ℕ → Bool → Exec (Proxy T) (Unit {0})
    again_if rounds true = relay_rounds second c x send_request rounds target
    again_if rounds false = pure tt

    round : ℕ → Result Bool × Proxy T → Result (Unit {0}) × Proxy T
    round rounds (r, s) = again_if rounds (goes_on r) s

    relay_rounds-round :
        (rounds : ℕ) (s : Proxy T)
        → relay_rounds second c x send_request (suc rounds) target s
          ≡ round rounds (relay_try second c x send_request target s)
    unfolding relay_rounds round again_if ◌>>=◌
    relay_rounds-round rounds s = refl

    -- A round's read.
    try-at_end :
        (s : Proxy T)
        → recv buffer_size s.browser ≡ (ok [], s.browser)
        → relay_try second c x send_request target s ≡ (ok false, s)
    unfolding relay_try recv_now relay_chunk
    try-at_end s e = bind_ok _ _ (ap (λ r. (as_would_block r.0, record s { browser = r.1 })) e)

    try-some_bytes :
        (b : ℕ) (bs : Bytes) (es : List Event) (s : Proxy T)
        → recv buffer_size s.browser ≡ (ok (b ∷ bs), record s.browser { incoming = es })
        → relay_try second c x send_request target s
          ≡ relay_chunk second c x send_request target (b ∷ bs) (with_events es s)
    unfolding relay_try recv_now
    try-some_bytes b bs es s e =
        bind_ok _ _ (ap (λ r. (as_would_block r.0, record s { browser = r.1 })) e)

    try-failed :
        (e : Exn) (es : List Event) (s : Proxy T)
        → recv buffer_size s.browser ≡ (err e, record s.browser { incoming = es })
        → (e ≡ timeout) ⊎ (e ≡ connection_error)
        → (relay_try second c x send_request target s).1 ≡ with_events es s
    unfolding relay_try recv_now ◌>>=◌
    try-failed e es s p (inl t) = rw (p, t, ◌>>=◌) refl
    try-failed e es s p (inr t) = rw (p, t, ◌>>=◌) refl

    -- The next round, or none, from the state that a round leaves.
    Next : ℕ → Type 0
    Next rounds =
        (s : Proxy T)
        → weight s.browser.incoming < rounds
        → ((i : ℕ) → s.browser.writable i ≡ true)
        → Relays s (relay_rounds second c x send_request rounds target s)

    after_round :
        (rounds : ℕ) (again : Bool) (s : Proxy T)
        → Next rounds
        → weight s.browser.incoming < rounds
        → ((i : ℕ) → s.browser.writable i ≡ true)
        → Relays s (again_if rounds again s)
    unfolding again_if Next
    after_round rounds true s next less writes = next s less writes
    after_round rounds false s next less writes = ([], s.browser.incoming, refl, tt, refl, refl)

    -- A chunk before what later rounds read, and a read without a chunk.
    prepend :
        (chunk : Bytes) (es : List Event) (s : Proxy T) (out : Result (Unit {0}) × Proxy T)
        → IsChunk chunk
        → chunk ++ to_come es ≡ to_come s.browser.incoming
        → Relays (chunk_relayed second c x send_request target chunk (with_events es s)) out
        → Relays s out
    prepend chunk es s out sized kept (chunks, later, done, all, rest, e) = (
      chunk ∷ chunks,
      later,
      done,
      (sized, all),
      append_assoc chunk (concat chunks) (to_come later)
          ∙ ap (λ l. chunk ++ l)
              (rest ∙ ap to_come (chunk_relayed-incoming chunk (with_events es s)))
          ∙ kept,
      e
          ∙ ap (λ t. with_events later (chunks_relayed chunks t))
              (chunk_relayed-with_events chunk es s)
          ∙ ap (with_events later) (
              chunks_relayed-with_events chunks es
                (chunk_relayed second c x send_request target chunk s)),
    )

    skip :
        (es : List Event) (s : Proxy T) (out : Result (Unit {0}) × Proxy T)
        → to_come es ≡ to_come s.browser.incoming
        → Relays (with_events es s) out
        → Relays s out
    skip es s out kept (chunks, later, done, all, rest, e) = (
      chunks,
      later,
      done,
      all,
      rest ∙ kept,
      e ∙ ap (with_events later) (chunks_relayed-with_events chunks es s),
    )

    one_round :
        (rounds : ℕ) (s : Proxy T)
        → Next rounds
        → Read buffer_size s.browser
        → weight s.browser.incoming < suc rounds
        → ((i : ℕ) → s.browser.writable i ≡ true)
        → Relays s (round rounds (relay_try second c x send_request target s))
    unfolding round again_if
    one_round rounds s next (at_end e) less writes =
        subst (λ out. Relays s (round rounds out)) (sym (try-at_end s e))
          ([], s.browser.incoming, refl, tt, refl, refl)
    one_round rounds s next (some_bytes b bs es e kept fewer small) less writes =
        let s1 = with_events es s in
        let s2 = chunk_relayed second c x send_request target (b ∷ bs) s1 in
        let tried = try-some_bytes b bs es s e in
        let again = goes_on (relay_try second c x send_request target s).0 in
        let state : (relay_try second c x send_request target s).1 ≡ s2 =
          ap (λ out. out.1) tried
          ∙ relay_chunk_lem second c x send_request target b bs s1 (writes s1.browser.sends) in
        let smaller : weight es < rounds = omega arith in
        let less' : weight s2.browser.incoming < rounds =
          subst (λ l. weight l < rounds) (sym (chunk_relayed-incoming (b ∷ bs) s1)) smaller in
        let writes' : (i : ℕ) → s2.browser.writable i ≡ true =
          λ i. ap (λ f. f i) (chunk_relayed-writable (b ∷ bs) s1) ∙ writes i in
        prepend (b ∷ bs) es s _ (omega arith, small) kept
          (subst (λ t. Relays s2 (again_if rounds again t)) (sym state)
            (after_round rounds again s2 next less' writes'))
    one_round rounds s next (failed e es p class kept fewer) less writes =
        let s1 = with_events es s in
        let again = goes_on (relay_try second c x send_request target s).0 in
        skip es s _ kept (
          subst (λ t. Relays s1 (again_if rounds again t)) (sym (try-failed e es s p class))
            (after_round rounds again s1 next (omega arith) writes))

    -- With more rounds than there are bytes and pauses to come, the relay loop ends by itself. What
    -- it read of the browser's bytes went out in order, none twice and none left out, a RELAY for each
    -- chunk of up to 64 KiB, and the bytes of each answer were written to the browser before the
    -- next chunk was read: of an answer that the socket cannot take at once, only the part that it
    -- takes, and the rest never.
    pub relay_rounds_lem :
        (rounds : ℕ) (s : Proxy T)
        → weight s.browser.incoming < rounds
        → ((i : ℕ) → s.browser.writable i ≡ true)
        → (chunks : List Bytes) × (later : List Event) × ((relay_rounds second c x send_request
              rounds target s).0
            ≡ ok tt)
          × All IsChunk chunks
          × (concat chunks ++ to_come later ≡ to_come s.browser.incoming)
          × ((relay_rounds second c x send_request rounds target s).1
              ≡ with_events later (chunks_relayed chunks s))
    unfolding Next
    relay_rounds_lem zero s less writes = absurd (omega arith)
    relay_rounds_lem (suc rounds) s less writes =
        subst (Relays s) (sym (relay_rounds-round rounds s))
          (one_round rounds s (relay_rounds_lem rounds) (read 65535 s.browser) less writes)
