-- ===== src/Server/Admission.antt =====
-- The gates of `handle_client`: what a client must pass before `forward_request` is called for it.
use custom_vpn_implementatio.Common.{
  ℕ, suc, ◌≡◌, refl, ap, ◌⊎◌, inl, inr, Bool, true, false, Bytes, Text, codes, ◌++◌, ◌&&◌,
  Bool-cases, arith, if◌then◌else◌,
}
use custom_vpn_implementatio.Common.Exec.{◌>>=◌, Exec, Exn, Result, ok, err, pure}
use custom_vpn_implementatio.World.{World, close}
use custom_vpn_implementatio.Protocol.{handshake_client_response}
use custom_vpn_implementatio.Crypto.{Primitives}
use custom_vpn_implementatio.Json.{Json, Codec}
use custom_vpn_implementatio.Auth.{server_accept, server_hello, server_handshake}
use custom_vpn_implementatio.Auth.Transcript.{server_nonce}
use custom_vpn_implementatio.Auth.Authentic.{Received, Field, server_handshake-IsAuthentic}
use custom_vpn_implementatio.Rate.{RateLimiter, try_add_connection}
use custom_vpn_implementatio.Access.{AccessController, V6, is_allowed}
use custom_vpn_implementatio.Server.{
  Server, Outcome, denied_by_whitelist, denied_by_cap, add_connection, after_handshake, admitted,
  finally_remove, guarded, handle_client,
}

module _ (second : ℕ) (p : Primitives) (c : Codec) (describe : Exn → Bytes) {F : Type 0}
    (forward : Bytes → Exec F Bytes) (rounds : ℕ) (priv_s pub_c : Bytes) (ip : Text) where
  -- The server has accepted a hello that arrived in `w`, has answered it, and has then received a
  -- ClientResponse with a signature under the client's key over the nonce of that answer and the
  -- nonce of the hello.
  abbrev pub HasSigned : World → Type 0
  HasSigned w =
      let (r, w1) = server_accept second p c w in
      (nc : Bytes) × (cr : Json) × (sig : Bytes) × (r ≡ ok nc)
      × Received p c handshake_client_response (server_hello second p c priv_s nc w1).1 cr
      × Field cr (codes "signature") sig
      × (p.rsa_verify pub_c sig (server_nonce w1 ++ nc) ≡ true)

  -- The forwarder after the handshake gave `r`.
  after_handshake_lem :
      (r : Result (Bytes × Bytes × Bytes)) (s : Server F)
      → ((after_handshake second p c describe forward rounds priv_s pub_c ip r s).1.forwarder
          ≡ s.forwarder)
        ⊎ ((keys : Bytes × Bytes × Bytes) × (r ≡ ok keys))
  unfolding after_handshake
  after_handshake_lem (ok keys) s = inr (keys, refl)
  after_handshake_lem (err e) s = inl refl

  admitted_lem :
      (s : Server F)
      → ((admitted second p c describe forward rounds priv_s pub_c ip s).1.forwarder ≡ s.forwarder)
        ⊎ HasSigned s.world
  unfolding admitted ◌>>=◌
  admitted_lem s =
      let (r, w) = server_handshake second p c priv_s pub_c s.world in
      elim (after_handshake_lem r (record s { world = w })) [
        | inl same ↦ inl same
        | inr done ↦ inr (
            server_handshake-IsAuthentic second p c priv_s pub_c s.world w done.0
              (ap (λ x. (x, w)) done.1))
      ]

  abbrev forwarder_of : Result Outcome × Server F → F
  forwarder_of x = x.1.forwarder

  abbrev admit : Bool → Exec (Server F) Outcome
  admit free = elim free [
    | true ↦
        finally_remove second p c describe forward rounds priv_s pub_c ip
          (admitted second p c describe forward rounds priv_s pub_c ip)
    | false ↦ pure denied_by_cap
  ]

  abbrev capped : Exec (Server F) Outcome
  capped = do free ← add_connection ip; admit free

  free_lem :
      (free : Bool) (s : Server F)
      → (forwarder_of (admit free s) ≡ s.forwarder) ⊎ ((free ≡ true) × HasSigned s.world)
  free_lem true s = elim (admitted_lem s) [ inl same ↦ inl same | inr signed ↦ inr (refl, signed) ]
  free_lem false s = inl refl

  allowed_lem :
      (allowed : Bool) (m : Exec (Server F) Outcome) (s : Server F) {P : Type 0}
      → (forwarder_of (m s) ≡ s.forwarder) ⊎ P
      → (forwarder_of (
            (elim allowed as (λ _. Exec (Server F) Outcome) [
              | true ↦ m
              | false ↦ pure denied_by_whitelist
            ])
              s)
          ≡ s.forwarder)
        ⊎ ((allowed ≡ true) × P)
  allowed_lem true m s h = elim h [ inl same ↦ inl same | inr q ↦ inr (refl, q) ]
  allowed_lem false m s h = inl refl

  -- The state of `forward_request` is as before the call, unless the whitelist allows the client,
  -- there was a free connection for it, and the server has received, in this connection, a
  -- ClientResponse whose signature over the server's nonce and the accepted one verifies under the
  -- key that the server was given for the client.
  pub handle_client-admission :
      (v6 : V6) (access_ctl : AccessController) (s : Server F)
      → let (o, s') =
          handle_client second p c describe forward rounds priv_s pub_c ip v6 access_ctl s in
        (s'.forwarder ≡ s.forwarder)
        ⊎ ((is_allowed v6 ip access_ctl ≡ true)
            × (((try_add_connection (s.ticks s.ticked) ip s.limiter).0 ≡ true) × HasSigned s.world))
  unfolding handle_client guarded add_connection ◌>>=◌
  handle_client-admission v6 access_ctl s =
      let (free, l) = try_add_connection (s.ticks s.ticked) ip s.limiter in
      allowed_lem (is_allowed v6 ip access_ctl) capped s
        (free_lem free (record s { limiter = l; ticked = suc s.ticked }))

  refused_limiter :
      (now : ℕ) (l : RateLimiter)
      → (try_add_connection now ip l).0 ≡ false
      → (try_add_connection now ip l).1 ≡ l
  unfolding try_add_connection
  refused_limiter now l h = ground arith

  -- A client that the whitelist or the caps refuse is sent nothing and nothing is read from it:
  -- its socket is closed, and the limiter and the forwarder are as before.
  pub handle_client-refused :
      (v6 : V6) (access_ctl : AccessController) (s : Server F)
      → is_allowed v6 ip access_ctl && (try_add_connection (s.ticks s.ticked) ip s.limiter).0
        ≡ false
      → let (o, s') =
          handle_client second p c describe forward rounds priv_s pub_c ip v6 access_ctl s in
        (o ≡ (if is_allowed v6 ip access_ctl then denied_by_cap else denied_by_whitelist))
        × (s'.world ≡ close s.world)
        × (s'.limiter ≡ s.limiter)
        × (s'.forwarder ≡ s.forwarder)
  unfolding handle_client guarded add_connection ◌>>=◌
  handle_client-refused v6 access_ctl s h = elim (Bool-cases (is_allowed v6 ip access_ctl)) [
    | inl listed ↦
        let full : (try_add_connection (s.ticks s.ticked) ip s.limiter).0 ≡ false =
          cc (h, listed) in
        rw (listed, handle_client, guarded, ◌>>=◌, add_connection, full)
          (refl, refl, refused_limiter _ _ full, refl)
    | inr unlisted ↦ rw (unlisted, handle_client, guarded) (refl, refl, refl, refl)
  ]
