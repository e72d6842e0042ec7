-- ===== src/Forwarder/Threads/Alone.antt =====
-- A thread that no other one interrupts does what the calls of Forwarder.antt do.
use custom_vpn_implementatio.Common.{
  ℕ, suc, ◌≡◌, refl, sym, ap, ◌∙◌, subst, Bool, true, false, Option, none, some, [], Bytes, Text,
  arith, length, inl, inr,
}
use custom_vpn_implementatio.Common.Exec.{◌>>=◌, Result, ok, err, Result-cases}
use custom_vpn_implementatio.Common.Dict
use custom_vpn_implementatio.World.{World, Action}
use custom_vpn_implementatio.Json.{Codec}
use custom_vpn_implementatio.Forwarder.{
  Platform, Forwarder, relay_loop, relay_on, send_some, relay_response, handle_relay, to_come,
  relay_to, relayed,
}
use custom_vpn_implementatio.Forwarder.RelayLoop.{relay_loop_lem}
use custom_vpn_implementatio.Forwarder.Threads.{
  Shared, Task, looking, sending, reading, closing, failing, discarding, answered, put_world,
  shut_socket, lookup_task, send_task, go,
}
use custom_vpn_implementatio.Forwarder.Threads.Reading.{
  Goes, done, first, ending, after, follows, send_on-live,
}
use custom_vpn_implementatio.Forwarder.Threads.Represents.{
  Represents, change-change, Represents-put, Represents-pop, world_of,
}

module _ (c : Codec) (os : Platform) where
  -- The thread answers what the call answers, and leaves what the call leaves.
  abbrev pub Answers : Task → Shared → Result Bytes × Forwarder → Type 0
  Answers t s x =
      (a : Bytes) × (s' : Shared) × Goes c os t s (answered a, s')
      × (x.0 ≡ ok a)
      × Represents x.1 s'

  pub Answers-first :
      (t t' : Task) (s s' : Shared) (x : Result Bytes × Forwarder)
      → go c os t s ≡ (t', s')
      → Answers t' s' x
      → Answers t s x
  Answers-first t t' s s' x e (a, s2, goes, same, rep) =
      (a, s2, first c os t t' s s' (answered a, s2) e goes, same, rep)

  module _ (f : Forwarder) (s : Shared) (target : Text) (h : Represents f s) where
    abbrev ended : Result (Bytes × Bool) × World → Result Bytes × Forwarder
    ended y = let (a, f') = relayed c os target y.0 y.1 f in (ok a, f')

    module _ (i : ℕ) (here : Dict.get s.sessions target ≡ some i) where
      ends_well :
          (response_data : Bytes) (closed : Bool) (w : World)
          → Answers
              (ending c os target i (response_data, closed))
              (put_world w i s)
              (ended (ok (response_data, closed), w))
      unfolding go
      ends_well response_data false w = (
        relay_response c os response_data false,
        put_world w i s,
        done c os _ _,
        refl,
        Represents-put f s target i h here w,
      )
      ends_well response_data true w = (
        relay_response c os response_data true,
        record (put_world w i s) { sessions = Dict.pop s.sessions target },
        first c os (closing target i response_data) _ (put_world w i s) _ _ refl (done c os _ _),
        refl,
        Represents-pop f s target i h here (λ k. record k { world = w }),
      )

      -- The reading, if the sending went well.
      abbrev read_if : Result (Unit {0}) → Action (Bytes × Bool)
      read_if (ok u) = λ w. relay_loop 65536 (suc (length (to_come w.incoming))) [] w
      read_if (err e) = λ w. (err e, w)

      after_send :
          (r : Result (Unit {0})) (w : World)
          → Answers (send_task c os target i r) (put_world w i s) (ended (read_if r w))
      unfolding go
      after_send (ok u) w =
          let rounds = suc (length (to_come w.incoming)) in
          let (data_in, closed, rest, e, kept) =
            relay_loop_lem 65535 rounds [] w.incoming w (omega arith) in
          let w' = record w { incoming = rest } in
          let (n, goes) =
            follows c os s target i (h.live target i here).1 rounds [] w (data_in, closed)
              (ap (λ x. x.0) e) in
          let (a, s', more, same, rep) = ends_well data_in closed w' in
          subst (λ y. Answers (reading target i []) (put_world w i s) (ended y)) (sym e)
            (
              a,
              s',
              after c os n (reading target i []) _ (put_world w i s) (put_world w' i s) _
                  (goes ∙ ap (λ x. (ending c os target i (data_in, closed), put_world x.1 i s)) e)
                  more,
              same,
              rep,
            )
      after_send (err e) w =
          let s1 = record (put_world w i s) { sessions = Dict.pop s.sessions target } in
          (
            _,
            shut_socket i s1,
            first c os (failing target i e) _ (put_world w i s) _ _ refl
                (first c os (discarding target i e) _ s1 _ _ refl (done c os _ _)),
            refl,
            subst
                (λ z.
                  Represents (record f { sessions = Dict.pop f.sessions target })
                    (record z { sessions = Dict.pop s.sessions target }))
                (sym
                  (change-change (λ k. record k { shut = true }) (λ k. record k { world = w }) i s))
                (Represents-pop f s target i h here (λ k. record k { world = w; shut = true })),
          )

      relay_on-read_if :
          (data_out : Bytes) (w : World)
          → relay_on data_out w ≡ read_if (send_some data_out w).0 (send_some data_out w).1
      unfolding relay_on ◌>>=◌
      relay_on-read_if data_out w = elim (Result-cases (send_some data_out w).0) [
        | inl (u, e) ↦ rw e refl
        | inr (x, e) ↦ rw e refl
      ]

      sends :
          (data_out : Bytes)
          → Answers (sending target i data_out) s (ended (relay_on data_out (s.sockets i).world))
      unfolding go
      sends data_out =
          let w = (s.sockets i).world in
          let x = send_some data_out w in
          Answers-first (sending target i data_out) (send_task c os target i x.0) s
            (put_world x.1 i s) _
            (ap
              (λ (y : Result (Unit {0}) × World). (send_task c os target i y.0, put_world y.1 i s))
              (send_on-live c os s target i (h.live target i here).1 data_out w))
            (subst (λ y. Answers (send_task c os target i x.0) (put_world x.1 i s) (ended y))
              (sym (relay_on-read_if data_out w)) (after_send x.0 x.1))

    looks :
        (data_out : Bytes) (o : Option ℕ)
        → Dict.get s.sessions target ≡ o
        → Answers
            (lookup_task c os target data_out o)
            s
            (relay_to c os (world_of s.sockets o) target data_out f)
    looks data_out none e = (_, s, done c os _ _, refl, h)
    looks data_out (some i) e = sends i e data_out

    pub relays :
        (data_out : Bytes)
        → Answers (looking target data_out) s (handle_relay c os target data_out f)
    unfolding go handle_relay
    relays data_out =
        Answers-first (looking target data_out)
          (lookup_task c os target data_out (Dict.get s.sessions target)) s s _ refl
          (subst
            (λ o.
              Answers (lookup_task c os target data_out (Dict.get s.sessions target)) s
                (relay_to c os o target data_out f))
            (sym (h.worlds target)) (looks data_out (Dict.get s.sessions target) refl))
