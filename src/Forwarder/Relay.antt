-- ===== src/Forwarder/Relay.antt =====
-- `_handle_relay`: what it reads and writes, and what becomes of the session.
use custom_vpn_implementatio.Common.{
  ℕ, suc, ◌≡◌, refl, ap, sym, subst, ◌∙◌, Bool, true, false, none, some, List, [], ◌∷◌, ◌++◌, Bytes,
  Text, length, arith, append-nil, bytes_eq, if◌then◌else◌,
}
use custom_vpn_implementatio.Common.Exec.{Exec, Result, ok, bind_ok}
use custom_vpn_implementatio.Common.Dict
use custom_vpn_implementatio.Common.Dict.{Dict, get-put, get-pop}
use custom_vpn_implementatio.World.{World, Event, sendall}
use custom_vpn_implementatio.Json.{Codec}
use custom_vpn_implementatio.Forwarder.RelayLoop.{
  HasClosed, EndsAs, relay_loop_lem, relay_loop-closed, relay_loop-end,
}
use custom_vpn_implementatio.Forwarder.{
  Platform, Forwarder, relay_loop, to_come, relay_on, send_some, relay_to, relayed, relay_response,
  handle_relay,
}

send_some_lem :
    (data_out : Bytes) (w : World)
    → w.writable w.sends ≡ true
    → (sends : ℕ) × (send_some data_out w
        ≡ (ok tt, record w { outgoing = w.outgoing ++ data_out; sends = sends }))
unfolding sendall
send_some_lem [] w h = (w.sends, rw append-nil)
send_some_lem (b ∷ bs) w h = (suc w.sends, rw h)

EndsAs-both :
    (closed : Bool) (es later : List Event)
    → (closed ≡ true → HasClosed es later)
    → (es ≡ [] → closed ≡ true)
    → EndsAs closed es later
EndsAs-both true es later h k = h refl
EndsAs-both false es later h k = λ e. absurd (cc (k e))

says_closed :
    {data_in more : Bytes} {closed : Bool}
    → ◌≡◌ {A = Result (Bytes × Bool)} (ok (data_in, closed)) (ok (more, true))
    → closed ≡ true
says_closed e = cc e

relay_on_lem :
    (data_out : Bytes) (w : World)
    → w.writable w.sends ≡ true
    → (data_in : Bytes) × (closed : Bool) × (later : World) × (relay_on data_out w
        ≡ (ok (data_in, closed), later))
      × (later.outgoing ≡ w.outgoing ++ data_out)
      × (data_in ++ to_come later.incoming ≡ to_come w.incoming)
      × EndsAs closed w.incoming later.incoming
unfolding relay_on
relay_on_lem data_out w writes =
    let (sends, sent) = send_some_lem data_out w writes in
    let w1 = record w { outgoing = w.outgoing ++ data_out; sends = sends } in
    let (data_in, closed, last, e, kept) =
      relay_loop_lem 65535 (suc (length (to_come w.incoming))) [] w.incoming w1 (omega arith) in
    let rounds = suc (length (to_come w.incoming)) in
    let read : (relay_loop 65536 rounds [] w1).0 ≡ ok (data_in, closed) =
      ap (λ (x : Result (Bytes × Bool) × World). x.0) e in
    (
      data_in,
      closed,
      record w1 { incoming = last },
      bind_ok _ _ sent ∙ e,
      refl,
      kept,
      EndsAs-both closed _ _
          (λ is_closed.
            subst (λ (v : World). HasClosed w.incoming v.incoming)
              (ap (λ (x : Result (Bytes × Bool) × World). x.1) e)
              (relay_loop-closed 65535 rounds [] w.incoming w1 data_in
                (read ∙ ap (λ b. ok (data_in, b)) is_closed)))
          (λ nothing. says_closed (
            sym read
            ∙ ap (λ es. (relay_loop 65536 rounds [] (record w1 { incoming = es })).0) nothing
            ∙ ap (λ (x : Result (Bytes × Bool) × World). x.0)
                (relay_loop-end 65535 (length (to_come w.incoming)) [] w1))),
    )

module _ (c : Codec) (os : Platform) where
  abbrev after_relay : Bytes → Bool → World → Text → Exec Forwarder Bytes
  after_relay data_in closed later target f =
      let (a, f') = relayed c os target (ok (data_in, closed)) later f in (ok a, f')

  answered :
      (data_in : Bytes) (closed : Bool) (later : World) (target : Text) (f : Forwarder)
      → (after_relay data_in closed later target f).0 ≡ ok (relay_response c os data_in closed)
  answered data_in true later target f = refl
  answered data_in false later target f = refl

  kept_session :
      (data_in : Bytes) (closed : Bool) (later : World) (target other : Text) (f : Forwarder)
      → Dict.get (after_relay data_in closed later target f).1.sessions other ≡ (
          if bytes_eq target other
          then (if closed then none else some later)
          else Dict.get f.sessions other)
  kept_session data_in true later target other f = ground (arith, get-pop f.sessions target other)
  kept_session data_in false later target other f =
      ground (arith, get-put f.sessions target other later)

  -- On a session whose socket takes the request's bytes, a RELAY writes exactly these, and answers
  -- with a part of what the target sends: together with what stays to come on the socket it is
  -- what was to come before, so no byte is lost or given twice, and the reading always ends. The
  -- session is dropped only if the target has closed: no read failed or was late, and nothing is
  -- left to come; it is dropped if the target had closed before. Otherwise it stays, with the socket
  -- as it is after the call; and other sessions are as before.
  pub handle_relay_lem :
      (target : Text) (data_out : Bytes) (f : Forwarder) (w : World)
      → Dict.get f.sessions target ≡ some w
      → w.writable w.sends ≡ true
      → let (r, f') = handle_relay c os target data_out f in
        (data_in : Bytes) × (closed : Bool) × (later : World) × (r
          ≡ ok (relay_response c os data_in closed))
        × (later.outgoing ≡ w.outgoing ++ data_out)
        × (data_in ++ to_come later.incoming ≡ to_come w.incoming)
        × EndsAs closed w.incoming later.incoming
        × ((other : Text)
            → Dict.get f'.sessions other ≡ (
                if bytes_eq target other
                then (if closed then none else some later)
                else Dict.get f.sessions other))
  unfolding handle_relay relay_on
  handle_relay_lem target data_out f w open_ writes =
      let (data_in, closed, later, e, written, kept, ends) = relay_on_lem data_out w writes in
      let whole : handle_relay c os target data_out f ≡ after_relay data_in closed later target f =
        ap (λ o. relay_to c os o target data_out f) open_
        ∙ ap
            (λ (x : Result (Bytes × Bool) × World).
              let (a, f') = relayed c os target x.0 x.1 f in (ok a, f'))
            e in
      (
        data_in,
        closed,
        later,
        ap (λ (x : Result Bytes × Forwarder). x.0) whole ∙ answered data_in closed later target f,
        written,
        kept,
        ends,
        λ other.
            ap (λ (x : Result Bytes × Forwarder). Dict.get x.1.sessions other) whole
            ∙ kept_session data_in closed later target other f,
      )
