-- ===== src/Tunnel/Invariant.antt =====
-- The socket and the keys of a tunnel between calls.
use custom_vpn_implementatio.Common.{
  ℕ, zero, suc, ◌≡◌, ◌⊎◌, inl, inr, refl, sym, ap, ◌∙◌, Bool, true, false, not, Option, none, some,
  Bytes, ◌||◌, ◌++◌, subst, arith,
}
use custom_vpn_implementatio.Common.Exec.{
  ◌>>=◌, Exec, Exn, Result, Result-cases, Leads-match, ok, err, pure, lift, raise_if, Keeps,
  Keeps-bind, Keeps-if, bind_inv, bind_ok, bind_err,
}
use custom_vpn_implementatio.World.{World, Action}
use custom_vpn_implementatio.Crypto.{Primitives, Laws}
use custom_vpn_implementatio.Json.{Codec}
use custom_vpn_implementatio.Auth.{client_handshake}
use custom_vpn_implementatio.Tunnel.{
  TunnelClient, Connection, exchange, or_type_error, new_client, on_sock, establish, close_socket,
  dial, this, do_connect, ensure_connected, do_request, send_attempts, send_request,
}
use custom_vpn_implementatio.Tunnel.Writes.{
  request_frame, exchange-Sends, KeySizes, client_handshake-KeySizes,
}

-- The keys of a session: its id, the encryption key and the MAC key.
abbrev pub Holds : Bytes × Bytes × Bytes → TunnelClient → Type 0
Holds (sid, enc, mac) s =
    (s.session_id ≡ some sid) × (s.enc_key ≡ some enc) × (s.mac_key ≡ some mac)

module _ (second : ℕ) (p : Primitives) (c : Codec) (priv_c pub_s : Bytes) where
  -- A handshake with the holder of the server's key has returned these keys.
  abbrev pub FromHandshake : Bytes × Bytes × Bytes → Type 0
  FromHandshake keys =
      (w : World) × (v : World) × (client_handshake second p c priv_c pub_s w ≡ (ok keys, v))

  -- A connected tunnel has its socket and the keys of a handshake.
  pub record WellFormed (s : TunnelClient) : Type 0 where
    pub together : s.connected ≡ s.has_sock
    pub keyed :
        s.connected ≡ true → (keys : Bytes × Bytes × Bytes) × Holds keys s × FromHandshake keys

module _ (second : ℕ) (p : Primitives) (c : Codec) (priv_c pub_s : Bytes) where
  abbrev Formed : TunnelClient → Type 0
  Formed = WellFormed second p c priv_c pub_s

  new_client-WellFormed :
      (max_retries backoff : ℕ) (w : World) (network : ℕ → Result _)
      → Formed (new_client max_retries backoff w network)
  new_client-WellFormed max_retries backoff w network = record {
    together = refl;
    keyed = λ h. absurd (cc h);
  }

  on_sock-WellFormed : {A : Type 0} (m : Action A) → Keeps Formed (on_sock m)
  on_sock-WellFormed m s i = record { together = i.together; keyed = i.keyed }

  guard-WellFormed : (b : Bool) (e : _) → Keeps Formed (raise_if b e)
  guard-WellFormed true e = λ s i. i
  guard-WellFormed false e = λ s i. i

  close_socket-WellFormed : Keeps Formed close_socket
  unfolding close_socket
  close_socket-WellFormed s i = record { together = refl; keyed = λ h. absurd (cc h) }

  or_type_error-WellFormed : (o : Option Bytes) → Keeps Formed (or_type_error o)
  or_type_error-WellFormed none = λ s i. i
  or_type_error-WellFormed (some sid) = λ s i. i

  dial-WellFormed : Keeps Formed dial
  unfolding dial
  dial-WellFormed s i = record { together = i.together; keyed = i.keyed }

  -- What the handshake returns is held afterwards.
  establish-WellFormed :
      Unit {0} → Keeps Formed (on_sock (client_handshake second p c priv_c pub_s) >>= establish)
  unfolding ◌>>=◌
  establish-WellFormed a s i = established (client_handshake second p c priv_c pub_s s.world) refl
    where
      established :
          (x : Result (Bytes × Bytes × Bytes) × World)
          → client_handshake second p c priv_c pub_s s.world ≡ x
          → Formed ((lift x.0 >>= establish) (record s { world = x.1 })).1
      established (ok keys, v) e = record {
        together = refl;
        keyed = λ h. (keys, (refl, refl, refl), (s.world, v, e));
      }
      established (err x, v) e = record { together = i.together; keyed = i.keyed }

  do_connect-WellFormed : Keeps Formed (do_connect second p c priv_c pub_s)
  unfolding do_connect
  do_connect-WellFormed =
      Keeps-bind Formed _ _ close_socket-WellFormed
        (λ a. Keeps-bind Formed _ _ dial-WellFormed establish-WellFormed)

  ensure_connected-WellFormed : Keeps Formed (ensure_connected second p c priv_c pub_s)
  unfolding ensure_connected
  ensure_connected-WellFormed s i =
      Keeps-if Formed _ _ do_connect-WellFormed (λ s i. i) (not s.connected || not s.has_sock) s i

  -- `establish` ends a connection that succeeds, so the tunnel is connected then.
  do_connect-connects :
      (s : TunnelClient)
      → (do_connect second p c priv_c pub_s s).0 ≡ ok tt
      → (do_connect second p c priv_c pub_s s).1.connected ≡ true
  unfolding do_connect
  do_connect-connects s h =
      let all = ap (λ r. (r, (do_connect second p c priv_c pub_s s).1)) h in
      let (a, e1, h1) = bind_inv _ _ all in
      let (b, e2, h2) = bind_inv _ _ h1 in
      let (keys, e3, h3) = bind_inv _ _ h2 in
      sym (ap (λ (x : Result (Unit {0}) × TunnelClient). x.1.connected) h3)

  ensure_connected-connects :
      (s : TunnelClient)
      → (ensure_connected second p c priv_c pub_s s).0 ≡ ok tt
      → (ensure_connected second p c priv_c pub_s s).1.connected ≡ true
  unfolding ensure_connected
  ensure_connected-connects s h = ensure_if (not s.connected || not s.has_sock) refl h
    where
      ensure_if :
          (b : Bool)
          → (not s.connected || not s.has_sock) ≡ b
          → ((elim b as (λ _. Exec TunnelClient (Unit {0})) [
            | true ↦ do_connect second p c priv_c pub_s
            | false ↦ pure tt
          ])
              s).0
            ≡ ok tt
          → ((elim b as (λ _. Exec TunnelClient (Unit {0})) [
            | true ↦ do_connect second p c priv_c pub_s
            | false ↦ pure tt
          ])
              s).1.connected
            ≡ true
      ensure_if true e h = do_connect-connects s h
      ensure_if false e h = ground (arith, e)

  exchanged :
      (request : Bytes) (keys : Bytes × Bytes × Bytes) (s : TunnelClient)
      → Holds keys s
      → (do
        enc_key ← this (λ s. s.enc_key)
        mac_key ← this (λ s. s.mac_key)
        sid ← this (λ s. s.session_id)
        sid ← or_type_error sid
        on_sock (exchange p sid enc_key mac_key request))
          s
        ≡ on_sock (exchange p keys.0 (some keys.1) (some keys.2) request) s
  exchanged request keys s (h1, h2, h3) =
      bind_ok _ _ (ap (λ k. (ok k, s)) h2)
      ∙ bind_ok _ _ (ap (λ k. (ok k, s)) h3)
      ∙ bind_ok _ _ (ap (λ k. (ok k, s)) h1)
      ∙ bind_ok _ _ refl

  -- A request on a well-formed tunnel fails before anything of it is written, because no
  -- connection came about; or the tunnel holds the keys of a handshake that returned, both of 32
  -- bytes, the request is exchanged under them, and all that is written to the socket is one frame, if
  -- any: the request encrypted under the encryption key, with the HMAC under the MAC key.
  pub do_request-protects :
      (laws : Laws p) (request : Bytes) (s : TunnelClient)
      → Formed s
      → let (r, t) = ensure_connected second p c priv_c pub_s s in
        let t' = (do_request second p c priv_c pub_s request s).1 in
        ((e : Exn) × (r ≡ err e) × (do_request second p c priv_c pub_s request s ≡ (err e, t)))
        ⊎ ((keys : Bytes × Bytes × Bytes) × (r ≡ ok tt)
            × Holds keys t
            × FromHandshake second p c priv_c pub_s keys
            × KeySizes keys
            × (do_request second p c priv_c pub_s request s
                ≡ on_sock (exchange p keys.0 (some keys.1) (some keys.2) request) t)
            × ((t'.world.outgoing ≡ t.world.outgoing)
                ⊎ (t'.world.outgoing ≡ t.world.outgoing ++ request_frame p keys request t.world)))
  unfolding do_request
  do_request-protects laws request s i =
      let t = (ensure_connected second p c priv_c pub_s s).1 in
      elim (Result-cases (ensure_connected second p c priv_c pub_s s).0) [
        | inl (u, done) ↦
            let (keys, held, from) =
              (ensure_connected-WellFormed s i).keyed (ensure_connected-connects s done) in
            let sizes =
              client_handshake-KeySizes second p laws c priv_c pub_s keys from.0 from.1 from.2 in
            let whole = bind_ok _ _ (ap (λ r. (r, t)) done) ∙ exchanged request keys t held in
            inr (
              keys,
              done,
              held,
              from,
              sizes,
              whole,
              subst
                  (λ (out : Bytes).
                    (out ≡ t.world.outgoing)
                    ⊎ (out ≡ t.world.outgoing ++ request_frame p keys request t.world))
                  (sym (ap (λ (x : Result Bytes × TunnelClient). x.1.world.outgoing) whole))
                  (exchange-Sends p keys.0 keys.1 keys.2 request t.world sizes.1),
            )
        | inr (e, failed) ↦ inl (e, failed, bind_err _ _ (ap (λ r. (r, t)) failed))
      ]

  do_request-WellFormed :
      (request : Bytes) → Keeps Formed (do_request second p c priv_c pub_s request)
  unfolding do_request
  do_request-WellFormed request = Keeps-bind Formed _ _ ensure_connected-WellFormed (λ a.
      Keeps-bind Formed _ _ (λ s i. i)
        (λ enc_key.
          Keeps-bind Formed _ _ (λ s i. i)
            (λ mac_key.
              Keeps-bind Formed _ _ (λ s i. i)
                (λ sid.
                  Keeps-bind Formed _ _ (or_type_error-WellFormed sid)
                    (λ sid. on_sock-WellFormed (exchange p sid enc_key mac_key request))))))

  send_attempts-WellFormed :
      (left : ℕ) (request : Bytes)
      → Keeps Formed (send_attempts second p c priv_c pub_s left request)
  unfolding send_attempts
  send_attempts-WellFormed zero request = λ s i. i
  send_attempts-WellFormed (suc left) request =
      Keeps-bind Formed _ _ (do_request-WellFormed request) (
        Leads-match Formed Formed _ _ (λ response s i. i)
          (λ e. Keeps-bind Formed _ _ do_connect-WellFormed (λ a.
            Keeps-bind Formed _ _ (λ s i. i)
              (λ b.
                Keeps-bind Formed _ _ (λ s i. i)
                  (λ d.
                    Keeps-bind Formed _ _ (λ s i. record { together = i.together; keyed = i.keyed })
                      (λ u. send_attempts-WellFormed left request))))))

  -- A new tunnel is well formed, and `connect`, `close` and `send_request` keep it so, whether they
  -- return or raise.
  pub tunnel-WellFormed :
      ((max_retries backoff : ℕ) (w : World) (network : ℕ → Result Connection)
        → Formed (new_client max_retries backoff w network))
      × Keeps Formed (do_connect second p c priv_c pub_s)
      × Keeps Formed close_socket
      × ((request : Bytes) → Keeps Formed (send_request second p c priv_c pub_s request))
  unfolding send_request
  tunnel-WellFormed = (
    new_client-WellFormed,
    do_connect-WellFormed,
    close_socket-WellFormed,
    λ request s i. send_attempts-WellFormed s.max_retries request s i,
  )
